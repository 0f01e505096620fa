-- ===== src/Ring/Decimal.antt =====
-- The decimal numbers of lumbre_ringbuf_init's path, read back: different workers have different files.
use lumbre_ext.Common.{
  ℕ, zero, suc, ◌+◌, ◌-◌, ◌*◌, ◌/◌, ◌%◌, ◌^◌, ◌≤◌, ◌<◌, ◌≡◌, ◌≢◌, ◌⊎◌, refl, ap, sym, ◌∙◌, arith,
  false, ◌&&◌, List, [], ◌∷◌, ◌++◌, All, All-append, leb, le→leb, ltb, if◌then◌else◌, Bool-cases,
  inl, inr, ok, length, codes, take, take-all, Option, none, some,
}
use lumbre_ext.Ring.{RingBuf}
use lumbre_ext.Ring.Lifecycle.{
  decimal_digits, decimal, ring_path, init, init_named, init_opened, fill, Os,
}

abbrev pub IsDigit : ℕ → Type 0
IsDigit c = (b'0' ≤ c) × (c ≤ b'9')

-- The number that leading digits stand for, after `acc`.
unfoldable pub digits : ℕ → List ℕ → ℕ
digits acc [] = acc
digits acc (c ∷ cs) =
    let more = digits (acc * 10 + (c - b'0')) cs in if leb b'0' c && leb c b'9' then more else acc

pub decimal_digits-All : (fuel n : ℕ) → All IsDigit (decimal_digits fuel n)
unfolding decimal_digits
decimal_digits-All zero n = tt
decimal_digits-All (suc fuel) n = elim (Bool-cases (ltb n 10)) [
  | inl e ↦ rw e (ground arith)
  | inr e ↦ rw e (
      All-append IsDigit (decimal_digits fuel (n / 10)) _ (decimal_digits-All fuel (n / 10))
        (ground arith))
]

digits_cons :
    (acc c : ℕ) (cs : List ℕ) → IsDigit c → digits acc (c ∷ cs) ≡ digits (acc * 10 + (c - b'0')) cs
unfolding digits
digits_cons acc c cs h = rw (le→leb b'0' c h.0, le→leb c b'9' h.1) refl

digits_append :
    (acc : ℕ) (xs ys : List ℕ) → All IsDigit xs → digits acc (xs ++ ys) ≡ digits (digits acc xs) ys
unfolding digits
digits_append acc [] ys h = refl
digits_append acc (x ∷ xs) ys h =
    digits_cons acc x (xs ++ ys) h.0
    ∙ digits_append (acc * 10 + (x - b'0')) xs ys h.1
    ∙ ap (λ (n : ℕ). digits n ys) (sym (digits_cons acc x xs h.0))

-- The number below the fuel's power of ten that digits were printed for.
pub digits-decimal_digits : (fuel n : ℕ) → n < 10 ^ fuel → digits 0 (decimal_digits fuel n) ≡ n
unfolding decimal_digits digits
digits-decimal_digits zero n h = omega (arith, h)
digits-decimal_digits (suc fuel) n h =
    let last : List ℕ = (b'0' + n % 10) ∷ [] in
    let digit : IsDigit (b'0' + n % 10) = omega arith in
    elim (Bool-cases (ltb n 10)) [
      | inl e ↦ rw e (digits_cons 0 (b'0' + n % 10) [] digit ∙ ground arith)
      | inr e ↦
          let higher = digits-decimal_digits fuel (n / 10) (omega (arith, h)) in
          rw e (
            digits_append 0 (decimal_digits fuel (n / 10)) last (decimal_digits-All fuel (n / 10))
            ∙ digits_cons (digits 0 (decimal_digits fuel (n / 10))) (b'0' + n % 10) [] digit
            ∙ omega (arith, higher))
    ]

-- Nothing but the digits in front of the underscore is read.
digits-decimal : (n : ℕ) (rest : List ℕ) → n < 2 ^ 64 → digits 0 (decimal n ++ b'_' ∷ rest) ≡ n
unfolding digits
digits-decimal n rest h =
    digits_append 0 (decimal n) (b'_' ∷ rest) (decimal_digits-All 20 n)
    ∙ digits-decimal_digits 20 n (omega (arith, h))

abbrev tail : List ℕ → List ℕ
tail [] = []
tail (x ∷ xs) = xs

cancel_left : (xs : List ℕ) {ys zs : List ℕ} → xs ++ ys ≡ xs ++ zs → ys ≡ zs
cancel_left [] e = e
cancel_left (x ∷ xs) e = cancel_left xs (ap tail e)

-- In one directory the paths of rings of different processes or workers differ.
pub ring_path_distinct :
    (dir : List ℕ) (pid pid' worker worker' : ℕ)
    → pid < 2 ^ 32
    → pid' < 2 ^ 32
    → worker < 2 ^ 64
    → worker' < 2 ^ 64
    → ring_path dir pid worker ≡ ring_path dir pid' worker'
    → (pid ≡ pid') × (worker ≡ worker')
unfolding ring_path
ring_path_distinct dir pid pid' w w' hp hp' hw hw' e =
    let tails = cancel_left (codes "/lumbre_") (cancel_left dir e) in
    let same : pid ≡ pid' =
      sym (digits-decimal pid (decimal w) (omega (arith, hp)))
      ∙ ap (digits 0) tails
      ∙ digits-decimal pid' (decimal w') (omega (arith, hp')) in
    let workers : decimal w ≡ decimal w' =
      ap tail (cancel_left (decimal pid') (rw same at tails)) in
    (
      same,
      sym (digits-decimal_digits 20 w (omega (arith, hw)))
          ∙ ap (digits 0) workers
          ∙ digits-decimal_digits 20 w' (omega (arith, hw')),
    )

init_opened-path :
    (rb : RingBuf) (os : Os) (fd pid worker capacity : ℕ)
    → (init_opened rb os fd pid worker capacity).1.path ≡ rb.path
unfolding init_opened fill
init_opened-path rb os fd pid worker capacity = ground arith

init_named-path :
    (rb : RingBuf) (os : Os) (fd : Option ℕ) (pid worker capacity : ℕ)
    → (init_named rb os fd pid worker capacity).1.path ≡ rb.path
unfolding init_named
init_named-path rb os none pid worker capacity = refl
init_named-path rb os (some fd) pid worker capacity = init_opened-path rb os fd pid worker capacity

fitting : (n : ℕ) → leb 256 n ≡ false → n ≤ 255
fitting n h = ground arith

-- The path of an init that returned 0 is the whole name.
pub init-path :
    (rb : RingBuf) (os : Os) (dir : List ℕ) (pid worker capacity : ℕ)
    → (init rb os dir pid worker capacity).0 ≡ ok
    → (init rb os dir pid worker capacity).1.path ≡ ring_path dir pid worker
unfolding init
init-path rb os dir pid worker capacity =
    let name : List ℕ = ring_path dir pid worker in
    elim (Bool-cases (leb 256 (length name))) [
      | inl long ↦ rw long (λ done. absurd (cc done))
      | inr short ↦ rw short (λ done.
          init_named-path (record rb { path = take 255 name }) os os.open_fd pid worker _
          ∙ take-all 255 name (fitting (length name) short))
    ]

-- Two inits that returned 0, in one directory and for different processes or different workers, have
-- different paths: no two workers share a ring's file.
pub init_paths_distinct :
    (rb rb' : RingBuf) (os os' : Os) (dir : List ℕ) (pid pid' worker worker' capacity capacity' : ℕ)
    → pid < 2 ^ 32
    → pid' < 2 ^ 32
    → worker < 2 ^ 64
    → worker' < 2 ^ 64
    → (pid ≢ pid') ⊎ (worker ≢ worker')
    → (init rb os dir pid worker capacity).0 ≡ ok
    → (init rb' os' dir pid' worker' capacity').0 ≡ ok
    → (init rb os dir pid worker capacity).1.path ≢ (init rb' os' dir pid' worker' capacity').1.path
init_paths_distinct rb rb' os os' dir pid pid' w w' cap cap' hp hp' hw hw' other done done' same =
    let (pids, workers) = ring_path_distinct dir pid pid' w w' hp hp' hw hw' (
      sym (init-path rb os dir pid w cap done) ∙ same ∙ init-path rb' os' dir pid' w' cap' done') in
    elim other [ inl p ↦ p pids | inr q ↦ q workers ]
