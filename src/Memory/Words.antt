-- ===== src/Memory/Words.antt =====
-- Integers as byte sequences: what `memcpy` of a `uint16_t`, `uint32_t` or `uint64_t` copies on a
-- little-endian host, and `__builtin_bswap16/32/64`.
use lumbre_ext.Common.{
  ℕ, zero, suc, ◌+◌, ◌*◌, ◌/◌, ◌%◌, ◌^◌, ◌<◌, ◌≡◌, refl, ap, ◌∙◌, List, [], ◌∷◌, arith, length,
  length-append, All, All-append, sym,
}
use mathlib.Core.Path.{ap₂}
use native.Mathlib.Nat.{pow-suc}
use mathlib.Core.List.{reverse, reverse-append}

abbrev pub IsByte : ℕ → Type 0
IsByte b = b < 256

-- The `n` low bytes of `v`, lowest first.
unfoldable pub le_bytes : ℕ → ℕ → List ℕ
le_bytes zero v = []
le_bytes (suc n) v = v % 256 ∷ le_bytes n (v / 256)

-- The integer that little-endian bytes stand for.
unfoldable pub of_le : List ℕ → ℕ
of_le [] = 0
of_le (b ∷ bs) = b + 256 * of_le bs

-- `__builtin_bswap` on `n` bytes.
unfoldable pub bswap : ℕ → ℕ → ℕ
bswap n v = of_le (reverse (le_bytes n v))

pub length-le_bytes : (n v : ℕ) → length (le_bytes n v) ≡ n
unfolding le_bytes
length-le_bytes zero v = refl
length-le_bytes (suc n) v = ap suc (length-le_bytes n (v / 256))

pub le_bytes-IsByte : (n v : ℕ) → All IsByte (le_bytes n v)
unfolding le_bytes
le_bytes-IsByte zero v = tt
le_bytes-IsByte (suc n) v = (omega arith, le_bytes-IsByte n (v / 256))

pub of_le-le_bytes : (n v : ℕ) → v < 256 ^ n → of_le (le_bytes n v) ≡ v
unfolding le_bytes of_le
of_le-le_bytes zero v h = omega arith
of_le-le_bytes (suc n) v h =
    let e : 256 ^ suc n ≡ 256 ^ n * 256 = pow-suc 256 n in
    omega (arith, of_le-le_bytes n (v / 256) (omega arith))

pub le_bytes-of_le : (bs : List ℕ) → All IsByte bs → le_bytes (length bs) (of_le bs) ≡ bs
unfolding le_bytes of_le
le_bytes-of_le [] h = refl
le_bytes-of_le (b ∷ bs) h =
    ap₂ ◌∷◌ (omega arith) (ap (le_bytes (length bs)) (omega arith) ∙ le_bytes-of_le bs h.1)

length-reverse : (bs : List ℕ) → length (reverse bs) ≡ length bs
length-reverse [] = refl
length-reverse (b ∷ bs) =
    ap length (reverse-append (b ∷ []) bs)
    ∙ omega (arith, length-append (reverse bs) (b ∷ []), length-reverse bs)

reverse-IsByte : (bs : List ℕ) → All IsByte bs → All IsByte (reverse bs)
reverse-IsByte [] h = tt
reverse-IsByte (b ∷ bs) h =
    rw (reverse-append (b ∷ []) bs)
      (All-append IsByte (reverse bs) (b ∷ []) (reverse-IsByte bs h.1) (h.0, tt))

-- Copying a byte-swapped integer to memory lays its bytes out highest first.
pub le_bytes-bswap : (n v : ℕ) → le_bytes n (bswap n v) ≡ reverse (le_bytes n v)
unfolding bswap
le_bytes-bswap n v =
    ap (λ k. le_bytes k (of_le (reverse (le_bytes n v))))
      (sym (length-reverse (le_bytes n v) ∙ length-le_bytes n v))
    ∙ le_bytes-of_le (reverse (le_bytes n v)) (reverse-IsByte (le_bytes n v) (le_bytes-IsByte n v))
