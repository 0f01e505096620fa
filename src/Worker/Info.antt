-- ===== src/Worker/Info.antt =====
-- The information page of php_lumbre.c (MINFO), as the engine's printing calls that it makes.
use lumbre_ext.Common.{
  ℕ, zero, suc, ◌+◌, ◌-◌, ◌/◌, ◌%◌, ◌^◌, ◌≤◌, ◌<◌, ◌≡◌, refl, ◌∙◌, arith, List, [], ◌∷◌, Pointer,
  none, some, length, length-append, take, take-all, le→leb, ltb, ◌==◌, if◌then◌else◌, codes,
  Bool-cases, inl, inr, ok,
}
use lumbre_ext.Ring.Lifecycle.{decimal_digits, decimal}
use lumbre_ext.Ring.Decimal.{digits, digits-decimal_digits, decimal_digits-All}
use mathlib.Core.List.{Memᴰ}
use lumbre_ext.Whitelist.{same_bytes}
use lumbre_ext.Hooks.{Globals}
use lumbre_ext.Ini.{c_string, skip_space, signed, strtol, on_update_mode}
use lumbre_ext.Ini.Mode.{strtol-digits, c_string-digits}

-- `PHP_LUMBRE_VERSION`
abbrev pub php_lumbre_version : List ℕ
php_lumbre_version = codes "0.1.0"

-- The printing calls.
pub data Printed : Type 0 where
  table_start : Printed
  table_header : List ℕ → List ℕ → Printed
  table_row : List ℕ → List ℕ → Printed
  table_end : Printed
  display_ini_entries : Printed

-- `%ld` of a `zend_long`, which is its 64 bits as a number.
unfoldable pub signed_decimal : ℕ → List ℕ
signed_decimal v = if ltb v (2 ^ 63) then decimal v else b'-' ∷ decimal (2 ^ 64 - v)

abbrev pub mode_text : ℕ → List ℕ
mode_text mode = if mode == 1 then codes "full" else codes "io"

-- A text, or `(null)`.
abbrev pub or_null : Pointer → List ℕ
or_null none = codes "(null)"
or_null (some s) = s

-- `PHP_MINFO`; `snprintf` keeps at most 31 bytes.
unfoldable pub minfo : Globals → List Printed
minfo g =
    table_start
    ∷ table_header (codes "lumbre support") (codes "enabled")
    ∷ table_row (codes "Version") php_lumbre_version
    ∷ table_row (codes "Mode") (mode_text g.mode)
    ∷ table_row (codes "Buffer size") (take 31 (signed_decimal g.buffer_size))
    ∷ table_row (codes "SHM directory") (or_null g.shm_dir)
    ∷ table_end
    ∷ display_ini_entries
    ∷ []

length-decimal_digits : (fuel n : ℕ) → length (decimal_digits fuel n) ≤ fuel
unfolding decimal_digits
length-decimal_digits zero n = omega arith
length-decimal_digits (suc fuel) n =
    let last : List ℕ = (b'0' + n % 10) ∷ [] in
    elim (Bool-cases (ltb n 10)) [
      | inl e ↦ rw e (omega arith)
      | inr e ↦ rw e (
          omega (
            arith,
            length-append (decimal_digits fuel (n / 10)) last,
            length-decimal_digits fuel (n / 10),
          ))
    ]

length-signed_decimal : (v : ℕ) → length (signed_decimal v) ≤ 21
unfolding signed_decimal
length-signed_decimal v = elim (Bool-cases (ltb v (2 ^ 63))) [
  | inl e ↦ rw e (omega (arith, length-decimal_digits 20 v))
  | inr e ↦ rw e (omega (arith, length-decimal_digits 20 (2 ^ 64 - v)))
]

strtol-negative : (n : ℕ) → n ≤ 2 ^ 63 → strtol (b'-' ∷ decimal n) ≡ (2 ^ 64 - n) % 2 ^ 64
unfolding strtol c_string skip_space signed
strtol-negative n h =
    let text : c_string (decimal n) ≡ decimal n =
      c_string-digits (decimal n) (decimal_digits-All 20 n) in
    let back : digits 0 (decimal n) ≡ n = digits-decimal_digits 20 n (omega (arith, h)) in
    rw (text, back, le→leb n (2 ^ 63) h) refl

strtol-signed_decimal : (v : ℕ) → v < 2 ^ 64 → strtol (signed_decimal v) ≡ v
unfolding signed_decimal
strtol-signed_decimal v h = elim (Bool-cases (ltb v (2 ^ 63))) [
  | inl e ↦
      let low : v < 2 ^ 63 = ground arith in
      let back = digits-decimal_digits 20 v (omega (arith, h)) in
      rw e (strtol-digits (decimal v) (decimal_digits-All 20 v) (omega (arith, back, low)) ∙ back)
  | inr e ↦
      let high : 2 ^ 63 ≤ v = ground arith in
      rw e (strtol-negative (2 ^ 64 - v) (omega (arith, high)) ∙ omega (arith, high, h))
]

on_update_mode-mode_text :
    (old mode : ℕ) → mode ≤ 1 → on_update_mode old (mode_text mode) ≡ (ok, mode)
unfolding on_update_mode same_bytes
on_update_mode-mode_text old zero h = refl
on_update_mode-mode_text old (suc zero) h = refl
on_update_mode-mode_text old (suc (suc n)) h = absurd (omega arith)

-- For a mode of 0 or 1 and a 64-bit buffer size, the page prints the settings in full: the text in the
-- row of the mode is accepted as a new value of lumbre.mode and sets the same mode, whatever the mode
-- is then, and the text in the row of the buffer size, which is not cut, is read back by strtol as the
-- same number, also if it is negative.
pub minfo_readable :
    (g : Globals) (old : ℕ)
    → g.mode ≤ 1
    → g.buffer_size < 2 ^ 64
    → (mode : List ℕ) × (size : List ℕ) × Memᴰ (table_row (codes "Mode") mode) (minfo g)
      × Memᴰ (table_row (codes "Buffer size") size) (minfo g)
      × (on_update_mode old mode ≡ (ok, g.mode))
      × (strtol size ≡ g.buffer_size)
unfolding minfo
minfo_readable g old hm hs =
    let whole : take 31 (signed_decimal g.buffer_size) ≡ signed_decimal g.buffer_size =
      take-all 31 (signed_decimal g.buffer_size)
        (omega (arith, length-signed_decimal g.buffer_size)) in
    (
      mode_text g.mode,
      take 31 (signed_decimal g.buffer_size),
      Memᴰ.tail (Memᴰ.tail (Memᴰ.tail (Memᴰ.head refl))),
      Memᴰ.tail (Memᴰ.tail (Memᴰ.tail (Memᴰ.tail (Memᴰ.head refl)))),
      on_update_mode-mode_text old g.mode hm,
      rw whole (strtol-signed_decimal g.buffer_size hs),
    )
