-- ===== src/Ring/Frames.antt =====
-- What the ring holds between two positions, as the messages that the daemon is to read.
use lumbre_ext.Common.{
  ℕ, ◌+◌, ◌-◌, ◌%◌, ◌≤◌, ◌<◌, ◌≡◌, refl, ◌∙◌, arith, List, [], ◌∷◌, ◌++◌, length,
}
use lumbre_ext.Memory.{Memory, load, le_bytes, load-congr}
use lumbre_ext.Ring.{padding_marker}

module _ (m : Memory) (cap : ℕ) where
  -- From position `p` to position `e`: messages, each behind its length and in one piece, and
  -- paddings up to the end of the ring, each in front of a message.
  pub data Frames : ℕ → ℕ → List (List ℕ) → Type 0 where
    done : (p : ℕ) → Frames p p []
    message :
        {p e : ℕ} {rest : List (List ℕ)} (bytes : List ℕ)
        → p % cap + (4 + length bytes) ≤ cap
        → load m (p % cap) 4 ≡ le_bytes 4 (length bytes)
        → load m (p % cap + 4) (length bytes) ≡ bytes
        → Frames (p + (4 + length bytes)) e rest
        → Frames p e (bytes ∷ rest)
    padding :
        {p e : ℕ} {bytes : List ℕ} {rest : List (List ℕ)}
        → 0 < p % cap
        → load m (p % cap) 4 ≡ le_bytes 4 padding_marker
        → Frames (p + (cap - p % cap)) e (bytes ∷ rest)
        → Frames p e (bytes ∷ rest)

pub Frames-le : {m : Memory} {cap p e : ℕ} {l : List (List ℕ)} → Frames m cap p e l → p ≤ e
Frames-le (done p) = omega arith
Frames-le (message bytes fits len body rest) = omega (arith, Frames-le rest)
Frames-le (padding off mark rest) = omega (arith, Frames-le rest)

pub Frames-append :
    {m : Memory} {cap p w e : ℕ} {l k : List (List ℕ)}
    → Frames m cap p w l
    → Frames m cap w e k
    → Frames m cap p e (l ++ k)
Frames-append (done p) g = g
Frames-append (message bytes fits len body rest) g =
    message bytes fits len body (Frames-append rest g)
Frames-append (padding off mark rest) g = padding off mark (Frames-append rest g)

-- `n` keeps the cells of every range of the ring between `p` and `e`.
pub record Keeps (m n : Memory) (cap p e : ℕ) : Type 0 where
  pub ranges :
      (q k i : ℕ)
      → p ≤ q
      → q + k ≤ e
      → q % cap + k ≤ cap
      → q % cap ≤ i
      → i < q % cap + k
      → n i ≡ m i
  pub paddings :
      (q i : ℕ) → p ≤ q → q + (cap - q % cap) ≤ e → q % cap ≤ i → i < q % cap + 4 → n i ≡ m i

Keeps-later : {m n : Memory} {cap p e : ℕ} (k : ℕ) → Keeps m n cap p e → Keeps m n cap (p + k) e
Keeps-later k keep = record {
  ranges = λ q j i a. keep.ranges q j i (omega arith);
  paddings = λ q i a. keep.paddings q i (omega arith);
}

-- What is kept holds the same messages.
pub Keeps-Frames :
    {m n : Memory} {cap p e : ℕ} {l : List (List ℕ)}
    → Frames m cap p e l
    → Keeps m n cap p e
    → Frames n cap p e l
Keeps-Frames (done p) keep = done p
Keeps-Frames {m} {n} {cap} {p} {e} (message bytes fits len body rest) keep =
    message bytes fits (load-congr n m (p % cap) 4 (λ i a b. same i a (omega arith)) ∙ len)
      (load-congr n m (p % cap + 4) (length bytes) (λ i a b. same i (omega arith) (omega arith))
        ∙ body)
      (Keeps-Frames rest (Keeps-later (4 + length bytes) keep))
  where
    same : (i : ℕ) → p % cap ≤ i → i < p % cap + (4 + length bytes) → n i ≡ m i
    same i a b = keep.ranges p (4 + length bytes) i (omega arith) (Frames-le rest) fits a b
Keeps-Frames {m} {n} {cap} {p} {e} (padding off mark rest) keep =
    padding off
      (load-congr n m (p % cap) 4 (λ i a b. keep.paddings p i (omega arith) (Frames-le rest) a b)
        ∙ mark)
      (Keeps-Frames rest (Keeps-later (cap - p % cap) keep))

-- Nothing is left to read exactly where the positions meet.
pub Frames_empty : {m : Memory} {cap p e : ℕ} → Frames m cap p e [] → p ≡ e
Frames_empty (done p) = refl
