-- ===== src/Ini/Mode.antt =====
-- What lumbre_OnUpdateMode accepts.
use lumbre_ext.Common.{
  ℕ, ◌-◌, ◌^◌, ◌≤◌, ◌<◌, ◌≡◌, refl, ap, ◌∙◌, arith, true, false, ◌&&◌, ◌||◌, List, [], ◌∷◌, Status,
  ok, error, leb, le→leb, ◌==◌, if◌then◌else◌, All, Bool-cases, inl, inr, ◌⊎◌,
}
use lumbre_ext.Ring.Lifecycle.{decimal}
use lumbre_ext.Ring.Decimal.{IsDigit, digits, digits-decimal_digits, decimal_digits-All}
use lumbre_ext.Whitelist.{same_bytes}
use lumbre_ext.Ini.{c_string, is_space, skip_space, signed, strtol, is_io, is_full, on_update_mode}

small : (val : ℕ) → ((val == 0) || (val == 1)) ≡ true → val ≤ 1
small val h = ground arith

numeral-le :
    (mode val : ℕ)
    → mode ≤ 1
    → let r : Status × ℕ = if (val == 0) || (val == 1) then (ok, val) else (error, mode) in
      (r.1 ≤ 1) × ((r.0 ≡ ok) ⊎ (r.1 ≡ mode))
numeral-le mode val h = elim (Bool-cases ((val == 0) || (val == 1))) [
  | inl e ↦ rw e (small val e, inl refl)
  | inr e ↦ rw e (h, inr refl)
]

-- From a mode of 0 or 1, whatever the new value, the mode is 0 or 1; and if the update is refused, it is
-- as before.
pub on_update_mode-le :
    (mode : ℕ) (new_value : List ℕ)
    → mode ≤ 1
    → let (s, mode') = on_update_mode mode new_value in (mode' ≤ 1) × ((s ≡ ok) ⊎ (mode' ≡ mode))
unfolding on_update_mode
on_update_mode-le mode new_value h = elim (Bool-cases (is_io new_value)) [
  | inl io ↦ rw io (omega arith, inl refl)
  | inr not_io ↦ elim (Bool-cases (is_full new_value)) [
    | inl full ↦ rw (not_io, full) (omega arith, inl refl)
    | inr not_full ↦ rw (not_io, not_full) (numeral-le mode (strtol new_value) h)
  ]
]

pub c_string-digits : (xs : List ℕ) → All IsDigit xs → c_string xs ≡ xs
unfolding c_string
c_string-digits [] h = refl
c_string-digits (x ∷ xs) h = let rest = c_string-digits xs h.1 in ground arith

signed-digits :
    (xs : List ℕ) → All IsDigit xs → digits 0 xs < 2 ^ 63 → signed (skip_space xs) ≡ digits 0 xs
unfolding skip_space signed digits
signed-digits [] h small = refl
signed-digits (x ∷ xs) h small =
    let printed : is_space x ≡ false = ground arith in
    let minus : (x == b'-') ≡ false = ground arith in
    let plus : (x == b'+') ≡ false = ground arith in
    rw printed
      (rw (minus, plus) (rw (le→leb (digits 0 (x ∷ xs)) (2 ^ 63 - 1) (omega (arith, small))) refl))

pub strtol-digits : (xs : List ℕ) → All IsDigit xs → digits 0 xs < 2 ^ 63 → strtol xs ≡ digits 0 xs
unfolding strtol
strtol-digits xs h small =
    ap (λ (t : List ℕ). signed (skip_space t)) (c_string-digits xs h) ∙ signed-digits xs h small

not_word : (xs : List ℕ) → All IsDigit xs → (is_io xs ≡ false) × (is_full xs ≡ false)
unfolding same_bytes
not_word [] h = (refl, refl)
not_word (x ∷ xs) h = ground arith

-- A decimal numeral below 2^63 is the mode 0 or 1 if it is 0 or 1, and is refused otherwise.
pub on_update_mode-decimal :
    (mode n : ℕ)
    → n < 2 ^ 63
    → on_update_mode mode (decimal n) ≡ (if leb n 1 then (ok, n) else (error, mode))
unfolding on_update_mode
on_update_mode-decimal mode n h =
    let printed : All IsDigit (decimal n) = decimal_digits-All 20 n in
    let back : digits 0 (decimal n) ≡ n = digits-decimal_digits 20 n (omega (arith, h)) in
    let (io, full) = not_word (decimal n) printed in
    let value : strtol (decimal n) ≡ n =
      strtol-digits (decimal n) printed (omega (arith, back, h)) ∙ back in
    rw (io, full, value) (ground arith)

strtol_word : (c : ℕ) (cs : List ℕ) → b'a' ≤ c → c ≤ b'z' → strtol (c ∷ cs) ≡ 0
unfolding strtol c_string skip_space signed digits
strtol_word c cs low high =
    let nul : (c == 0) ≡ false = ground arith in
    let printed : is_space c ≡ false = ground arith in
    let minus : (c == b'-') ≡ false = ground arith in
    let plus : (c == b'+') ≡ false = ground arith in
    let no_digit : (leb b'0' c && leb c b'9') ≡ false = ground arith in
    rw nul (rw printed (rw (minus, plus) (rw no_digit refl)))

io_not_full : (s : List ℕ) → is_io s ≡ true → is_full s ≡ false
io_not_full s h = ground arith

-- A word that starts with a small letter is never refused: the mode is 1 for "full", and 0 for any
-- other word.
pub on_update_mode_word :
    (mode c : ℕ) (cs : List ℕ)
    → b'a' ≤ c
    → c ≤ b'z'
    → on_update_mode mode (c ∷ cs) ≡ (ok, if is_full (c ∷ cs) then 1 else 0)
unfolding on_update_mode
on_update_mode_word mode c cs low high = elim (Bool-cases (is_io (c ∷ cs))) [
  | inl io ↦ let full = io_not_full (c ∷ cs) io in rw (io, full) refl
  | inr not_io ↦ elim (Bool-cases (is_full (c ∷ cs))) [
    | inl full ↦ rw (not_io, full) refl
    | inr not_full ↦ let value = strtol_word c cs low high in rw (not_io, not_full, value) refl
  ]
]
