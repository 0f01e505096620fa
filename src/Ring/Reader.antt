-- ===== src/Ring/Reader.antt =====
-- The consumer's side of the protocol: `read_msg_at` of tests/test_ringbuf.c, and the read position
-- that a reader stores behind the message.
use lumbre_ext.Common.{
  ℕ, ◌+◌, ◌-◌, ◌%◌, ◌^◌, ◌≤◌, ◌<◌, ◌≡◌, ap, ◌∙◌, arith, List, ◌∷◌, length, ◌⊎◌, inl, inr, ◌==◌,
  if◌then◌else◌, false,
}
use lumbre_ext.Memory.{Memory, load, le_bytes, of_le, of_le-le_bytes}
use lumbre_ext.Ring.{RingBuf, padding_marker}
use lumbre_ext.Ring.Blocks.{padded_mod}
use lumbre_ext.Ring.Frames.{Frames, message, padding, Frames-le}
use lumbre_ext.Ring.Write.{IsValid}
use lumbre_ext.Ring.Refine.{Holds}

-- The `uint32_t` at `offset`.
abbrev pub word : Memory → ℕ → ℕ
word m offset = of_le (load m offset 4)

-- The message at `offset`, or at the ring's start if a padding marker stands there.
unfoldable pub read_msg_at : RingBuf → ℕ → List ℕ
read_msg_at rb offset =
    let len = word rb.data_region offset in
    if len == padding_marker
    then load rb.data_region 4 (word rb.data_region 0)
    else load rb.data_region (offset + 4) len

-- Where the message at position `p` begins: behind a padding, if there is one.
unfoldable pub start : Memory → ℕ → ℕ → ℕ
start m cap p = if word m (p % cap) == padding_marker then p + (cap - p % cap) else p

-- The read position behind the message at `read_pos`.
unfoldable pub advance : RingBuf → RingBuf
advance rb =
    let p = start rb.data_region rb.capacity rb.header.read_pos in
    let next = p + (4 + word rb.data_region (p % rb.capacity)) in
    record rb { header = record (rb.header) { read_pos = next } }

start_here :
    (m : Memory) (cap p n : ℕ) → word m (p % cap) ≡ n → n < padding_marker → start m cap p ≡ p
unfolding start
start_here m cap p n w h = ground arith

pub start-le : (m : Memory) (cap p : ℕ) → p ≤ start m cap p
unfolding start
start-le m cap p = ground arith

pub start_padded :
    (m : Memory) (cap p : ℕ)
    → word m (p % cap) ≡ padding_marker
    → start m cap p ≡ p + (cap - p % cap)
unfolding start
start_padded m cap p w = ground arith

word_of_bytes : (m : Memory) (o n : ℕ) → n < 2 ^ 32 → load m o 4 ≡ le_bytes 4 n → word m o ≡ n
word_of_bytes m o n h len = ap of_le len ∙ of_le-le_bytes 4 n h

-- The first message lies where the reader looks for it, and the rest behind it.
pub record First (m : Memory) (cap p e : ℕ) (bytes : List ℕ) (rest : List (List ℕ)) : Type 0 where
  pub at_most : 4 + length bytes ≤ cap
  pub sized : word m (start m cap p % cap) ≡ length bytes
  pub body : load m (start m cap p % cap + 4) (length bytes) ≡ bytes
  pub others : Frames m cap (start m cap p + (4 + length bytes)) e rest
  pub found :
      (start m cap p ≡ p) ⊎ ((start m cap p % cap ≡ 0) × (word m (p % cap) ≡ padding_marker))

pub First-message :
    {m : Memory} {cap p e : ℕ} {bytes : List ℕ} {rest : List (List ℕ)}
    → 0 < cap
    → cap ≤ 2 ^ 31
    → Frames m cap p e (bytes ∷ rest)
    → First m cap p e bytes rest
First-message {m} {cap} {p} pos small (message bytes fits len body rest) =
    let sized : word m (p % cap) ≡ length bytes = word_of_bytes m (p % cap) _ (omega arith) len in
    let here : start m cap p ≡ p = start_here m cap p (length bytes) sized (omega arith) in
    record {
      at_most = omega arith;
      sized = rw here sized;
      body = rw here body;
      others = rw here rest;
      found = inl here;
    }
First-message {m} {cap} {p} pos small (padding off mark (message bytes fits len body rest)) =
    let marked : word m (p % cap) ≡ padding_marker =
      word_of_bytes m (p % cap) padding_marker (omega arith) mark in
    let behind : start m cap p ≡ p + (cap - p % cap) = start_padded m cap p marked in
    record {
      at_most = omega arith;
      sized = rw behind (word_of_bytes m _ (length bytes) (omega arith) len);
      body = rw behind body;
      others = rw behind rest;
      found = inr (rw behind (padded_mod cap p pos), marked);
    }
First-message {m} {cap} {p} pos small (padding off mark (padding off' mark' rest)) =
    absurd (omega (arith, padded_mod cap p pos))

-- On a ring that holds a message, the reader finds the first one at the read position, whole,
-- also behind a padding.
pub read_msg_at-Holds :
    (rb : RingBuf) (bytes : List ℕ) (rest : List (List ℕ))
    → Holds rb (bytes ∷ rest)
    → read_msg_at rb (rb.header.read_pos % rb.capacity) ≡ bytes
unfolding read_msg_at
read_msg_at-Holds rb bytes rest h =
    let f : First rb.data_region rb.capacity rb.header.read_pos rb.header.write_pos bytes rest =
      First-message (omega (arith, h.valid.least)) h.valid.greatest h.frames in
    elim (f.found) [
      | inl here ↦
          let sized : word rb.data_region (rb.header.read_pos % rb.capacity) ≡ length bytes =
            rw here at f.sized in
          let body : load rb.data_region (rb.header.read_pos % rb.capacity + 4) (length bytes)
              ≡ bytes =
            rw here at f.body in
          let plain : (word rb.data_region (rb.header.read_pos % rb.capacity) == padding_marker)
              ≡ false =
            ground (arith, f.at_most) in
          rw (plain, sized) body
      | inr (at_start, marked) ↦
          let sized : word rb.data_region 0 ≡ length bytes = rw at_start at f.sized in
          let body : load rb.data_region 4 (length bytes) ≡ bytes = rw at_start at f.body in
          rw (marked, sized) body
    ]

-- Storing the position behind the first message leaves the others in the ring.
pub advance-Holds :
    (rb : RingBuf) (bytes : List ℕ) (rest : List (List ℕ))
    → Holds rb (bytes ∷ rest)
    → Holds (advance rb) rest
unfolding advance
advance-Holds rb bytes rest h =
    let v : IsValid rb = h.valid in
    let f : First rb.data_region rb.capacity rb.header.read_pos rb.header.write_pos bytes rest =
      First-message (omega (arith, v.least)) v.greatest h.frames in
    let frames : Frames rb.data_region rb.capacity (advance rb).header.read_pos rb.header.write_pos
        rest =
      rw (f.sized) (f.others) in
    record {
      valid = record {
        rounded = v.rounded;
        least = v.least;
        greatest = v.greatest;
        masked = v.masked;
        published = v.published;
        behind = Frames-le frames;
        filled = omega (arith, start-le rb.data_region rb.capacity rb.header.read_pos);
      };
      frames = frames;
    }
