-- ===== src/Bits/Digits.antt =====
-- The lowest binary digit of `|` and `&`, read off their definition by recursion on digits.
use Prim.Native.Nat.{bit_and, bit_or, digits, min, max, bit_and-bitwise, bit_or-bitwise}
use lumbre_ext.Common.{ℕ, zero, suc, ◌+◌, ◌*◌, ◌/◌, ◌%◌, ◌≤◌, ◌≡◌, refl, ap, sym, ◌∙◌, arith}

module _ (rest : ℕ → ℕ) (digit : ℕ → ℕ → ℕ) where
  -- Any fuel from the first operand on gives the same number.
  enough_fuel : (k l a b : ℕ) → a ≤ k → a ≤ l → digits rest digit k a b ≡ digits rest digit l a b
  enough_fuel zero zero a b hk hl = refl
  enough_fuel zero (suc l) zero b hk hl = refl
  enough_fuel (suc k) zero zero b hk hl = refl
  enough_fuel (suc k) (suc l) zero b hk hl = refl
  enough_fuel (suc k) (suc l) (suc a) b hk hl =
      ap (λ t. t * 2 + digit (suc a % 2) (b % 2))
        (enough_fuel k l (suc a / 2) (b / 2) (omega arith) (omega arith))
  enough_fuel zero l (suc a) b hk hl = absurd (omega arith)
  enough_fuel (suc k) zero (suc a) b hk hl = absurd (omega arith)

pub or_digit : (a b : ℕ) → bit_or a b ≡ bit_or (a / 2) (b / 2) * 2 + max (a % 2) (b % 2)
or_digit zero b = omega (arith, bit_or-bitwise 0 b, bit_or-bitwise 0 (b / 2))
or_digit (suc a) b =
    bit_or-bitwise (suc a) b
    ∙ ap (λ t. t * 2 + max (suc a % 2) (b % 2))
        (enough_fuel (λ y. y) max a (suc a / 2) (suc a / 2) (b / 2) (omega arith) (omega arith)
          ∙ sym (bit_or-bitwise (suc a / 2) (b / 2)))

pub and_digit : (a b : ℕ) → bit_and a b ≡ bit_and (a / 2) (b / 2) * 2 + min (a % 2) (b % 2)
and_digit zero b = omega (arith, bit_and-bitwise 0 b, bit_and-bitwise 0 (b / 2))
and_digit (suc a) b =
    bit_and-bitwise (suc a) b
    ∙ ap (λ t. t * 2 + min (suc a % 2) (b % 2))
        (enough_fuel (λ y. 0) min a (suc a / 2) (suc a / 2) (b / 2) (omega arith) (omega arith)
          ∙ sym (bit_and-bitwise (suc a / 2) (b / 2)))
