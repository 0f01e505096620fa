-- ===== src/Bits/Laws.antt =====
-- Bit `i` of a number, and what `|` and `&` do to it; `& (2^k - 1)` is the remainder by `2^k`.
use Prim.Native.Nat.{bit_and, bit_or, min, max}
use lumbre_ext.Common.{
  ℕ, zero, suc, ◌+◌, ◌-◌, ◌*◌, ◌/◌, ◌%◌, ◌^◌, ◌≤◌, ◌<◌, ◌≡◌, refl, ap, sym, ◌∙◌, arith,
}
use lumbre_ext.Bits.Digits.{or_digit, and_digit}
use mathlib.Core.Path.{ap₂}
use native.Mathlib.Nat.{
  pow-suc, div-div-eq-div-mul, one-le-pow, div-add-mod, mod-lt, mod-eq_of_lt,
  add-mul-mod_self_right,
}

abbrev pub bit : ℕ → ℕ → ℕ
bit a i = a / 2 ^ i % 2

-- Halving shifts the bits down by one, and dividing by `2 ^ n` by `n`.
pub bit_half : (a i : ℕ) → bit (a / 2) i ≡ bit a (suc i)
bit_half a i =
    ap (λ t. t % 2) (div-div-eq-div-mul a 2 (2 ^ i) ∙ ap (λ t. a / t) (omega (arith, pow-suc 2 i)))

two_pow_suc : (n : ℕ) → 2 * 2 ^ n ≡ 2 ^ suc n
two_pow_suc n = omega (arith, pow-suc 2 n)

pub bit_shift : (a n i : ℕ) → bit (a / 2 ^ n) i ≡ bit a (i + n)
bit_shift a zero i = ap₂ bit (omega arith) (omega arith)
bit_shift a (suc n) i =
    ap (λ t. bit t i) (ap (λ t. a / t) (sym (two_pow_suc n)) ∙ sym (div-div-eq-div-mul a 2 (2 ^ n)))
    ∙ bit_shift (a / 2) n i
    ∙ bit_half a (i + n)
    ∙ ap (bit a) (omega arith)

pub bit-bit_or : (i a b : ℕ) → bit (bit_or a b) i ≡ max (bit a i) (bit b i)
bit-bit_or zero a b = omega (arith, or_digit a b)
bit-bit_or (suc i) a b =
    let halves : bit_or a b / 2 ≡ bit_or (a / 2) (b / 2) = omega (arith, or_digit a b) in
    sym (bit_half (bit_or a b) i)
    ∙ ap (λ t. bit t i) halves
    ∙ bit-bit_or i (a / 2) (b / 2)
    ∙ ap₂ max (bit_half a i) (bit_half b i)

pub bit-bit_and : (i a b : ℕ) → bit (bit_and a b) i ≡ min (bit a i) (bit b i)
bit-bit_and zero a b = omega (arith, and_digit a b)
bit-bit_and (suc i) a b =
    let halves : bit_and a b / 2 ≡ bit_and (a / 2) (b / 2) = omega (arith, and_digit a b) in
    sym (bit_half (bit_and a b) i)
    ∙ ap (λ t. bit t i) halves
    ∙ bit-bit_and i (a / 2) (b / 2)
    ∙ ap₂ min (bit_half a i) (bit_half b i)

pub bit_or-lt : (n a b : ℕ) → a < 2 ^ n → b < 2 ^ n → bit_or a b < 2 ^ n
bit_or-lt zero a b ha hb =
    let ea : a ≡ 0 = omega arith in let eb : b ≡ 0 = omega arith in rw (ea, eb) (omega arith)
bit_or-lt (suc n) a b ha hb =
    let p : 2 * 2 ^ n ≡ 2 ^ suc n = two_pow_suc n in
    omega (arith, or_digit a b, bit_or-lt n (a / 2) (b / 2) (omega arith) (omega arith))

-- A number of `n` bits that are all set is `2 ^ n - 1`.
pub all_ones : (n a : ℕ) → a < 2 ^ n → ((i : ℕ) → i < n → bit a i ≡ 1) → a + 1 ≡ 2 ^ n
all_ones zero a h ones = omega arith
all_ones (suc n) a h ones =
    let p : 2 * 2 ^ n ≡ 2 ^ suc n = two_pow_suc n in
    let lowest : bit a 0 ≡ 1 = ones 0 (omega arith) in
    let upper : a / 2 + 1 ≡ 2 ^ n =
      all_ones n (a / 2) (omega arith) (λ i hi. bit_half a i ∙ ones (suc i) (omega arith)) in
    omega arith

and_zero : (n a : ℕ) → a ≤ n → bit_and a 0 ≡ 0
and_zero n zero h = refl
and_zero zero (suc a) h = absurd (omega arith)
and_zero (suc n) (suc a) h =
    omega (arith, and_digit (suc a) 0, and_zero n (suc a / 2) (omega arith))

-- `& (2^k - 1)` is the remainder by `2^k`.
pub bit_and_mask : (k a : ℕ) → bit_and a (2 ^ k - 1) ≡ a % 2 ^ k
bit_and_mask zero a = omega (arith, and_zero a a (omega arith))
bit_and_mask (suc k) a =
    let p : 2 * 2 ^ k ≡ 2 ^ suc k = two_pow_suc k in
    let pos : 1 ≤ 2 ^ k = one-le-pow k 2 (omega arith) in
    let half : (2 ^ suc k - 1) / 2 ≡ 2 ^ k - 1 = omega arith in
    let upper : bit_and (a / 2) ((2 ^ suc k - 1) / 2) ≡ a / 2 % 2 ^ k =
      ap (bit_and (a / 2)) half ∙ bit_and_mask k (a / 2) in
    let r : ℕ = 2 * (a / 2 % 2 ^ k) + a % 2 in
    let split : a ≡ r + a / 2 / 2 ^ k * 2 ^ suc k =
      omega (arith, div-add-mod (a / 2) (2 ^ k), ap (λ (t : ℕ). a / 2 / 2 ^ k * t) p) in
    let bound : r < 2 ^ suc k = omega (arith, mod-lt (a / 2) pos) in
    let rem : a % 2 ^ suc k ≡ r =
      ap (λ t. t % 2 ^ suc k) split
      ∙ add-mul-mod_self_right r (a / 2 / 2 ^ k) (2 ^ suc k)
      ∙ mod-eq_of_lt bound in
    omega (arith, and_digit a (2 ^ suc k - 1))
