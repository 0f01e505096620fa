-- ===== src/Bits/Tables.antt =====
-- `|` with a tag in the high bits of a byte, by a table of all values.
use Prim.Native.Nat.{bit_or}
use lumbre_ext.Common.{
  ℕ, zero, suc, ◌*◌, ◌%◌, ◌+◌, ◌<◌, ◌≡◌, refl, arith, Bool, true, ◌==◌, ==_iff, ◌&&◌,
}

holds_below : ℕ → (ℕ → Bool) → Bool
holds_below zero test = true
holds_below (suc n) test = test n && holds_below n test

holds_below_lem :
    (n : ℕ) (test : ℕ → Bool) (x : ℕ) → holds_below n test ≡ true → x < n → test x ≡ true
unfolding holds_below
holds_below_lem zero test x all h = absurd (omega arith)
holds_below_lem (suc n) test x all h = ground (arith, holds_below_lem n test x)

pub tag_map : (x : ℕ) → x < 16 → bit_or 0x80 x ≡ 128 + x
unfolding holds_below
tag_map x h = (==_iff _ _).0 (holds_below_lem 16 (λ y. bit_or 0x80 y == 128 + y) x refl h)

pub tag_str : (x : ℕ) → x < 32 → bit_or 0xa0 x ≡ 160 + x
unfolding holds_below
tag_str x h = (==_iff _ _).0 (holds_below_lem 32 (λ y. bit_or 0xa0 y == 160 + y) x refl h)

-- Two hexadecimal digits make a byte.
pub hex_pair : (hi lo : ℕ) → hi < 16 → lo < 16 → bit_or (hi * 16) lo % 256 ≡ hi * 16 + lo
unfolding holds_below
hex_pair hi lo h l = (==_iff _ _).0 (
    holds_below_lem 16 (λ y. bit_or (hi * 16) y % 256 == hi * 16 + y) lo
      (holds_below_lem 16 (λ x. holds_below 16 (λ y. bit_or (x * 16) y % 256 == x * 16 + y)) hi refl
        h)
      l)
