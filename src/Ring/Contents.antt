-- ===== src/Ring/Contents.antt =====
-- The messages that the ring of lumbre_ringbuf.c stands for are a function of its bytes.
use mathlib.Core.HLevel.{Σ_prop_path}
use mathlib.Core.Logic.{∥∥₁_elim, ∥∥₁_prop}
use mathlib.Core.Path.{ap₂}
use mathlib.Core.List
use native.Mathlib.Nat.{ℕ_set}
use lumbre_ext.Common.{
  ℕ, ◌+◌, ◌^◌, ◌%◌, ◌≤◌, ◌<◌, ◌≡◌, refl, ap, sym, ◌∙◌, arith, List, [], ◌∷◌, length,
}
use lumbre_ext.Memory.{Memory, load}
use lumbre_ext.Ring.{RingBuf}
use lumbre_ext.Ring.Frames.{Frames, Frames-le, Frames_empty}
use lumbre_ext.Ring.Refine.{Holds}
use lumbre_ext.Ring.Reader.{First, First-message, start, start-le}

module _ (m : Memory) (cap : ℕ) (pos : 0 < cap) (small : cap ≤ 2 ^ 31) where
  -- A message moves the position on.
  Frames-lt :
      {p e : ℕ} {bytes : List ℕ} {rest : List (List ℕ)} → Frames m cap p e (bytes ∷ rest) → p < e
  Frames-lt {p} {e} {bytes} {rest} f =
      let first : First m cap p e bytes rest = First-message pos small f in
      omega (arith, start-le m cap p, Frames-le first.others)

  Frames_unique : (l k : List (List ℕ)) {p e : ℕ} → Frames m cap p e l → Frames m cap p e k → l ≡ k
  Frames_unique [] [] f g = refl
  Frames_unique [] (b ∷ k) f g = absurd (omega (arith, Frames_empty f, Frames-lt g))
  Frames_unique (b ∷ l) [] f g = absurd (omega (arith, Frames_empty g, Frames-lt f))
  Frames_unique (b ∷ l) (c ∷ k) {p} {e} f g =
      let first : First m cap p e b l = First-message pos small f in
      let first' : First m cap p e c k = First-message pos small g in
      let sizes : length c ≡ length b = sym first'.sized ∙ first.sized in
      let same : b ≡ c =
        sym first.body ∙ ap (load m (start m cap p % cap + 4)) (sym sizes) ∙ first'.body in
      let others : Frames m cap (start m cap p + (4 + length b)) e k = rw sizes at first'.others in
      ap₂ ◌∷◌ same (Frames_unique l k first.others others)

-- A ring holds one list of messages at most.
pub Holds-unique : {rb : RingBuf} {l k : List (List ℕ)} → Holds rb l → Holds rb k → l ≡ k
Holds-unique {rb} {l} {k} h h' =
    Frames_unique rb.data_region rb.capacity (omega (arith, h.valid.least)) h.valid.greatest l k
      h.frames h'.frames

-- The messages of a ring, with the fact that it holds them.
abbrev pub Contents : RingBuf → Type 0
Contents rb = (l : List (List ℕ)) × ∥ Holds rb l ∥₁

-- A ring, whatever bytes it has, has one abstract content at most: the lists of messages that it holds
-- form a proposition, so that the queue behind a ring is determined by its bytes and positions.
pub Contents-prop : (rb : RingBuf) → IsProp (Contents rb)
Contents-prop rb (l, h) (k, h') =
    Σ_prop_path (λ x. ∥∥₁_prop)
      (∥∥₁_elim h (same l k) (λ a. ∥∥₁_elim h' (same l k) (λ b. Holds-unique a b)))
  where
    same : IsSet (List (List ℕ))
    same = List.is_set (List.is_set ℕ_set)
