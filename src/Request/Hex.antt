-- ===== src/Request/Hex.antt =====
-- lumbre_hex_to_bin against the hexadecimal text of bytes.
use Prim.Native.Nat.{bit_or}
use lumbre_ext.Common.{
  ℕ, ◌+◌, ◌-◌, ◌*◌, ◌/◌, ◌%◌, ◌<◌, ◌≡◌, refl, ◌∙◌, arith, true, List, [], ◌∷◌, some, length, ltb,
  ◌==◌, ==_iff, if◌then◌else◌, All,
}
use lumbre_ext.Bits.{hex_pair}
use lumbre_ext.Memory.{IsByte}
use lumbre_ext.Request.{hex_digit, hex_bytes, hex_to_bin}

-- The digit of a number below 16, in small letters.
abbrev pub digit_char : ℕ → ℕ
digit_char d = if ltb d 10 then b'0' + d else b'a' + (d - 10)

unfoldable pub hex_of : List ℕ → List ℕ
hex_of [] = []
hex_of (b ∷ bs) = digit_char (b / 16) ∷ digit_char (b % 16) ∷ hex_of bs

hex_digit-digit_char : (d : ℕ) → d < 16 → hex_digit (digit_char d) ≡ some d
unfolding hex_digit
hex_digit-digit_char d h = ground arith

length-hex_of : (bs : List ℕ) → length (hex_of bs) ≡ length bs * 2
unfolding hex_of
length-hex_of [] = refl
length-hex_of (b ∷ bs) = omega (arith, length-hex_of bs)

hex_bytes-hex_of : (bs : List ℕ) → All IsByte bs → hex_bytes (length bs) (hex_of bs) ≡ some bs
unfolding hex_bytes hex_of
hex_bytes-hex_of [] h = refl
hex_bytes-hex_of (b ∷ bs) (byte, rest) =
    let joined : bit_or (b / 16 * 16) (b % 16) % 256 ≡ b =
      hex_pair (b / 16) (b % 16) (omega arith) (omega arith) ∙ omega arith in
    rw
      (
        hex_digit-digit_char (b / 16) (omega arith),
        hex_digit-digit_char (b % 16) (omega arith),
        hex_bytes-hex_of bs rest,
        joined,
      )
      refl

-- The hexadecimal text of bytes, in small letters, converts back to the bytes.
pub hex_to_bin-hex_of :
    (bs : List ℕ)
    → All IsByte bs
    → hex_to_bin (hex_of bs) (length (hex_of bs)) (length bs) ≡ some bs
unfolding hex_to_bin
hex_to_bin-hex_of bs h =
    let even : (length (hex_of bs) == length bs * 2) ≡ true = (==_iff _ _).1 (length-hex_of bs) in
    rw even (hex_bytes-hex_of bs h)
