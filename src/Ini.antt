-- ===== src/Ini.antt =====
-- The INI settings of php_lumbre.c: the handler of lumbre.mode, the entries with their defaults, and
-- their registration. The engine's own handlers and the configured values are arguments.
pub mod Mode
pub mod Entries
mod Tests
use lumbre_ext.Common.{
  ℕ, ◌+◌, ◌-◌, ◌%◌, ◌^◌, Bool, true, false, ◌&&◌, ◌||◌, List, [], ◌∷◌, Option, none, some, Status,
  ok, error, u64, length, leb, ◌==◌, if◌then◌else◌, codes, get_or, Pointer,
}
use lumbre_ext.Ring.Decimal.{digits}
use lumbre_ext.Whitelist.{same_bytes}
use lumbre_ext.Hooks.{Globals}

-- A string up to its NUL.
unfoldable pub c_string : List ℕ → List ℕ
c_string [] = []
c_string (c ∷ cs) = let rest = c_string cs in if c == 0 then [] else c ∷ rest

abbrev pub is_space : ℕ → Bool
is_space c = (c == 32) || (leb 9 c && leb c 13)

unfoldable pub skip_space : List ℕ → List ℕ
skip_space [] = []
skip_space (c ∷ cs) = let rest = skip_space cs in if is_space c then rest else c ∷ cs

-- A number and its negative in 64 bits, with the nearest value for one that does not fit.
abbrev pub clamp_positive : ℕ → ℕ
clamp_positive n = if leb n (2 ^ 63 - 1) then n else 2 ^ 63 - 1

abbrev pub clamp_negative : ℕ → ℕ
clamp_negative n = if leb n (2 ^ 63) then (2 ^ 64 - n) % u64 else 2 ^ 63

unfoldable pub signed : List ℕ → ℕ
signed [] = 0
signed (c ∷ cs) =
    if c == b'-'
    then clamp_negative (digits 0 cs)
    else if c == b'+'
    then clamp_positive (digits 0 cs)
    else clamp_positive (digits 0 (c ∷ cs))

-- The C library's `strtol` with base 10, as 64 bits.
unfoldable pub strtol : List ℕ → ℕ
strtol s = signed (skip_space (c_string s))

abbrev pub is_io : List ℕ → Bool
is_io s = (length s == 2) && (get_or s 0 0 == b'i') && (get_or s 1 0 == b'o')

abbrev pub is_full : List ℕ → Bool
is_full s = (length s == 4) && same_bytes s (codes "full")

-- `lumbre_OnUpdateMode`: what it returns, and the mode, from the mode and the new value.
unfoldable pub on_update_mode : ℕ → List ℕ → Status × ℕ
on_update_mode mode new_value =
    if is_io new_value
    then (ok, 0)
    else if is_full new_value
    then (ok, 1)
    else (let val = strtol new_value in
        if (val == 0) || (val == 1) then (ok, val) else (error, mode))
