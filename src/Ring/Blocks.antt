-- ===== src/Ring/Blocks.antt =====
-- Where a range of the ring lies against a later one, when both together fit the ring: positions
-- count up for ever, and the place of a position is its remainder by the capacity.
use lumbre_ext.Common.{ℕ, ◌+◌, ◌-◌, ◌*◌, ◌/◌, ◌%◌, ◌≤◌, ◌<◌, ◌≡◌, ◌⊎◌, inl, inr, arith}
use native.Mathlib.Decide.{dec_lt}
use native.Mathlib.Nat.{div-add-mod', mod-lt, mul-le-mul_right, mul-mod_left}

-- A later lap begins a whole capacity further on.
lap : (cap a b : ℕ) → a < b → a * cap + cap ≤ b * cap
lap cap a b h = let m : (a + 1) * cap ≤ b * cap = mul-le-mul_right cap (omega arith) in omega arith

lap_le : (cap a b : ℕ) → a ≤ b → a * cap ≤ b * cap
lap_le cap a b h = mul-le-mul_right cap h

module _ (cap q w : ℕ) (pos : 0 < cap) where
  -- An old range of `n` bytes and a new one of `k` bytes, neither across the end of the ring.
  pub ranges_apart :
      (n k : ℕ)
      → q + n ≤ w
      → w + k ≤ q + cap
      → w % cap + k ≤ cap
      → q % cap + n ≤ cap
      → (q % cap + n ≤ w % cap) ⊎ (w % cap + k ≤ q % cap)
  ranges_apart n k before within hk hn =
      let eq : q / cap * cap + q % cap ≡ q = div-add-mod' q cap in
      let ew : w / cap * cap + w % cap ≡ w = div-add-mod' w cap in
      elim (dec_lt (q / cap) (w / cap)) [
        | yes later ↦
            let l : q / cap * cap + cap ≤ w / cap * cap = lap cap _ _ later in inr (omega arith)
        | no same ↦
            let l : w / cap * cap ≤ q / cap * cap = lap_le cap _ _ (omega arith) in
            inl (omega arith)
      ]

  -- An old padding, up to the end of the ring, and a new range of `k` bytes.
  pub padding_apart : (k : ℕ) → q + (cap - q % cap) ≤ w → w + k ≤ q + cap → w % cap + k ≤ q % cap
  padding_apart k before within =
      let eq : q / cap * cap + q % cap ≡ q = div-add-mod' q cap in
      let ew : w / cap * cap + w % cap ≡ w = div-add-mod' w cap in
      let hq : q % cap < cap = mod-lt q pos in
      let hw : w % cap < cap = mod-lt w pos in
      elim (dec_lt (q / cap) (w / cap)) [
        | yes later ↦ let l : q / cap * cap + cap ≤ w / cap * cap = lap cap _ _ later in omega arith
        | no same ↦
            let l : w / cap * cap ≤ q / cap * cap = lap_le cap _ _ (omega arith) in
            absurd (omega arith)
      ]

  -- An old range and a new padding.
  pub range_before_padding :
      (n : ℕ) → q + n ≤ w → w + (cap - w % cap) < q + cap → q % cap + n ≤ w % cap
  range_before_padding n before within =
      let eq : q / cap * cap + q % cap ≡ q = div-add-mod' q cap in
      let ew : w / cap * cap + w % cap ≡ w = div-add-mod' w cap in
      let hq : q % cap < cap = mod-lt q pos in
      let hw : w % cap < cap = mod-lt w pos in
      elim (dec_lt (q / cap) (w / cap)) [
        | yes later ↦
            let l : q / cap * cap + cap ≤ w / cap * cap = lap cap _ _ later in absurd (omega arith)
        | no same ↦
            let l : w / cap * cap ≤ q / cap * cap = lap_le cap _ _ (omega arith) in omega arith
      ]

  -- The ring is not padded twice within one capacity.
  pub one_padding : q + (cap - q % cap) ≤ w → w + (cap - w % cap) < q + cap → ⊥
  one_padding before within =
      let r : q % cap + (cap - q % cap) ≤ w % cap =
        range_before_padding (cap - q % cap) before within in
      let hq : q % cap < cap = mod-lt q pos in let hw : w % cap < cap = mod-lt w pos in omega arith

-- The position behind a padding is at the ring's start.
pub padded_mod : (cap w : ℕ) → 0 < cap → (w + (cap - w % cap)) % cap ≡ 0
padded_mod cap w pos =
    let ew : w / cap * cap + w % cap ≡ w = div-add-mod' w cap in
    let hw : w % cap < cap = mod-lt w pos in
    let e : w + (cap - w % cap) ≡ (w / cap + 1) * cap = omega arith in
    rw e (mul-mod_left (w / cap + 1) cap)
