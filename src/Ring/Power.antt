-- ===== src/Ring/Power.antt =====
-- lumbre_next_power_of_2 against its contract.
use Prim.Native.Nat.{bit_and}
use lumbre_ext.Common.{
  u32, ℕ, zero, suc, ◌+◌, ◌-◌, ◌*◌, ◌/◌, ◌%◌, ◌^◌, ◌≤◌, ◌<◌, ◌≡◌, ◌≢◌, refl, ap, arith, inl, inr,
  true, false, Bool-cases,
}
use native.Mathlib.Decide.{dec_lt}
use native.Mathlib.Nat.{
  div-le_self, div-eq_of_lt-le, pow-suc, zero-div, pow-le-pow_right, one-le-pow,
}
use lumbre_ext.Bits.{bit, bit-bit_or, bit-bit_and, bit_or-lt, bit_shift, all_ones}
use lumbre_ext.Ring.{is_power_of_two, smear, next_power_of_2}

abbrev pub IsPowerOfTwo : ℕ → Type 0
IsPowerOfTwo n = (k : ℕ) × (n ≡ 2 ^ k)

-- Every bit of `v`, and the `n - 1` bits below each, are set in `u`.
abbrev Covers : ℕ → ℕ → ℕ → Type 0
Covers u v n = (i s : ℕ) → s < n → bit v (i + s) ≤ bit u i

Covers-start : (v : ℕ) → Covers v v 1
Covers-start v i s h = let e : i + s ≡ i = omega arith in rw e (omega arith)

-- Smearing by `n` doubles what is covered.
smear-Covers : (u v n : ℕ) → Covers u v n → Covers (smear n u) v (n + n)
unfolding smear
smear-Covers u v n c i s h = elim (dec_lt s n) [
  | yes near ↦ omega (arith, c i s near, bit-bit_or i u (u / 2 ^ n))
  | no far ↦ omega (arith, beyond far, bit-bit_or i u (u / 2 ^ n), bit_shift u n i)
]
  where
    beyond : ¬ (s < n) → bit v (i + s) ≤ bit u (i + n)
    beyond far =
        let e : i + n + (s - n) ≡ i + s = omega arith in
        rw (ap (bit v) e) at (c (i + n) (s - n) (omega arith))

smear-lt : (n k v : ℕ) → v < 2 ^ k → smear n v < 2 ^ k
unfolding smear
smear-lt n k v h = bit_or-lt k v (v / 2 ^ n) h (omega (arith, div-le_self v (2 ^ n)))

-- The highest set bit.
top_bit : (n v : ℕ) → 0 < v → v < 2 ^ n → (k : ℕ) × (k < n) × (2 ^ k ≤ v) × (v < 2 ^ suc k)
top_bit zero v p h = absurd (omega arith)
top_bit (suc n) v p h = elim (dec_lt v (2 ^ n)) [
  | yes small ↦ let (k, below, lo, hi) = top_bit n v p small in (k, omega arith, lo, hi)
  | no large ↦ (n, omega arith, omega arith, h)
]

bit_top : (k v : ℕ) → 2 ^ k ≤ v → v < 2 ^ suc k → bit v k ≡ 1
bit_top k v lo hi =
    let quotient : v / 2 ^ k ≡ 1 =
      div-eq_of_lt-le (2 ^ k) (omega arith) (omega (arith, pow-suc 2 k)) in
    rw quotient

abbrev smear_all : ℕ → ℕ
smear_all v = smear 16 (smear 8 (smear 4 (smear 2 (smear 1 v))))

smear_all-Covers : (v : ℕ) → Covers (smear_all v) v 32
smear_all-Covers v = smear-Covers _ v 16 (
    smear-Covers _ v 8
      (smear-Covers _ v 4 (smear-Covers _ v 2 (smear-Covers v v 1 (Covers-start v)))))

smear_all-lt : (k v : ℕ) → v < 2 ^ k → smear_all v < 2 ^ k
smear_all-lt k v h =
    smear-lt 16 k _ (smear-lt 8 k _ (smear-lt 4 k _ (smear-lt 2 k _ (smear-lt 1 k v h))))

-- All bits up to the highest end up set.
smear_all_lem : (k v : ℕ) → k < 32 → 2 ^ k ≤ v → v < 2 ^ suc k → smear_all v + 1 ≡ 2 ^ suc k
smear_all_lem k v hk lo hi = all_ones (suc k) (smear_all v) (smear_all-lt (suc k) v hi) set_below
  where
    set_below : (i : ℕ) → i < suc k → bit (smear_all v) i ≡ 1
    set_below i h =
        let e : i + (k - i) ≡ k = omega arith in
        let covered : bit v k ≤ bit (smear_all v) i =
          rw (ap (bit v) e) at (smear_all-Covers v i (k - i) (omega arith)) in
        omega (arith, bit_top k v lo hi)

is_power_of_two-IsPowerOfTwo : (v : ℕ) → v < 2 ^ 32 → is_power_of_two v ≡ true → IsPowerOfTwo v
unfolding is_power_of_two
is_power_of_two-IsPowerOfTwo v h test =
    let pos : 0 < v = ground arith in
    let none_left : bit_and v (v - 1) ≡ 0 = ground arith in
    let (k, below, lo, hi) = top_bit 32 v pos h in
    elim (dec_lt (2 ^ k) v) [
      | yes more ↦
          let common : bit (bit_and v (v - 1)) k ≡ 1 = omega (
            arith,
            bit-bit_and k v (v - 1),
            bit_top k v lo hi,
            bit_top k (v - 1) (omega arith) (omega arith),
          ) in
          let clear : bit (bit_and v (v - 1)) k ≡ 0 =
            rw none_left (ap (λ t. t % 2) (zero-div (2 ^ k))) in
          absurd (omega arith)
      | no eq ↦ (k, omega arith)
    ]

-- What the code computes for a `v` that is no power of two.
smeared :
    (v : ℕ) → v ≢ 0 → is_power_of_two v ≡ false → next_power_of_2 v ≡ (smear_all (v - 1) + 1) % u32
unfolding next_power_of_2
smeared v h e = ground arith

kept : (v : ℕ) → v ≢ 0 → is_power_of_two v ≡ true → next_power_of_2 v ≡ v
unfolding next_power_of_2
kept v h e = ground arith

is_power_of_two_one : is_power_of_two 1 ≡ true
unfolding is_power_of_two
is_power_of_two_one = refl

-- The highest set bit of `v - 1`, where the smearing runs.
rounded_up :
    (v : ℕ)
    → 1 ≤ v
    → v ≤ 2 ^ 32
    → is_power_of_two v ≡ false
    → (k : ℕ) × (k < 32) × (2 ^ k < v) × (v ≤ 2 ^ suc k) × (smear_all (v - 1) + 1 ≡ 2 ^ suc k)
rounded_up v lo hi e = elim (dec_lt 1 v) [
  | yes more ↦
      let (k, below, low, high) = top_bit 32 (v - 1) (omega arith) (omega arith) in
      (k, below, omega arith, omega arith, smear_all_lem k (v - 1) below low high)
  | no one ↦
      let is_one : v ≡ 1 = omega arith in
      absurd (let r : is_power_of_two v ≡ true = rw is_one is_power_of_two_one in cc)
]

-- A request of 1 to 2^31 bytes is rounded to a power of two that is not below the request and is
-- below twice the request.
pub next_power_of_2_lem :
    (v : ℕ)
    → 1 ≤ v
    → v ≤ 2 ^ 31
    → IsPowerOfTwo (next_power_of_2 v) × (v ≤ next_power_of_2 v) × (next_power_of_2 v < 2 * v)
next_power_of_2_lem v lo hi = elim (Bool-cases (is_power_of_two v)) [
  | inl e ↦
      rw (kept v (omega arith) e)
        (is_power_of_two-IsPowerOfTwo v (omega arith) e, omega arith, omega arith)
  | inr e ↦
      let (k, below, low, high, sum) = rounded_up v lo (omega arith) e in
      let p : 2 ^ suc k ≡ 2 ^ k * 2 = pow-suc 2 k in
      let r : next_power_of_2 v ≡ 2 ^ suc k = omega (arith, smeared v (omega arith) e) in
      ((suc k, r), omega arith, omega arith)
]

pow_mono : (i j : ℕ) → i ≤ j → 2 ^ i ≤ 2 ^ j
pow_mono i j h = pow-le-pow_right (omega arith) h

not_between : (k : ℕ) → 2 ^ 31 < 2 ^ k → 2 ^ k < 2 ^ 32 → ⊥
not_between k lo hi = elim (dec_lt k 32) [
  | yes h ↦ let m : 2 ^ k ≤ 2 ^ 31 = pow_mono k 31 (omega arith) in omega arith
  | no h ↦ let m : 2 ^ 32 ≤ 2 ^ k = pow_mono 32 k (omega arith) in omega arith
]

power_at_most : (n : ℕ) → IsPowerOfTwo n → n < 2 ^ 32 → n ≤ 2 ^ 31
power_at_most n (k, e) h = elim (dec_lt (2 ^ 31) n) [
  | yes large ↦ absurd (not_between k (omega arith) (omega arith))
  | no fits ↦ omega arith
]

power_at_least : (n : ℕ) → IsPowerOfTwo n → 3 ≤ n → 4 ≤ n
power_at_least n (zero, e) h = omega arith
power_at_least n (suc zero, e) h = omega arith
power_at_least n (suc (suc k), e) h = omega (arith, pow-suc 2 (suc k), pow-suc 2 k, one-le-pow k 2)

-- A request of 3 to 2^31 bytes becomes a capacity of 4 to 2^31.
pub next_power_of_2_range :
    (v : ℕ) → 3 ≤ v → v ≤ 2 ^ 31 → (4 ≤ next_power_of_2 v) × (next_power_of_2 v ≤ 2 ^ 31)
next_power_of_2_range v lo hi =
    let (power, above, below) = next_power_of_2_lem v (omega arith) hi in
    (power_at_least _ power (omega arith), power_at_most _ power (omega arith))

-- A request above 2^31 bytes is rounded to 0: the next power of two does not fit a `uint32_t`.
pub next_power_of_2_wraps : (v : ℕ) → 2 ^ 31 < v → v < 2 ^ 32 → next_power_of_2 v ≡ 0
next_power_of_2_wraps v lo hi = elim (Bool-cases (is_power_of_two v)) [
  | inl e ↦
      let (k, r) = is_power_of_two-IsPowerOfTwo v hi e in
      absurd (not_between k (omega arith) (omega arith))
  | inr e ↦
      let (k, below, low, high, sum) = rounded_up v (omega arith) (omega arith) e in
      let least : 2 ^ suc k ≤ 2 ^ 32 = pow_mono (suc k) 32 (omega arith) in
      elim (dec_lt (2 ^ suc k) (2 ^ 32)) [
        | yes h ↦ absurd (not_between (suc k) (omega arith) h)
        | no h ↦ omega (arith, smeared v (omega arith) e)
      ]
]
