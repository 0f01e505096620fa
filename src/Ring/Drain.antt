-- ===== src/Ring/Drain.antt =====
-- The reading loop of the daemon that tests/test_ringbuf.c simulates: it reads messages from a
-- position on, and stores the position it has reached once, after the last one.
use Prim.Native.Nat.{bit_and}
use lumbre_ext.Common.{
  ℕ, zero, suc, ◌+◌, ◌-◌, ◌%◌, ◌^◌, ◌≤◌, ◌<◌, ◌≡◌, refl, ap, ◌∙◌, arith, List, [], ◌∷◌, ◌++◌,
  length, inl, inr, ◌==◌, if◌then◌else◌, false, u32, u64,
}
use lumbre_ext.Memory.{load}
use lumbre_ext.Bits.{bit_and_mask}
use native.Mathlib.Nat.{mod-lt}
use lumbre_ext.Ring.{RingBuf, padding_marker}
use lumbre_ext.Ring.Write.{IsValid}
use lumbre_ext.Ring.Frames.{Frames, Frames-le}
use lumbre_ext.Ring.Refine.{Holds}
use lumbre_ext.Ring.Reader.{First, First-message, start, start-le, start_padded, word}

-- One turn of the loop from the position `pos`: the message, and the position behind it.
unfoldable pub read_next : RingBuf → ℕ → List ℕ × ℕ
read_next rb pos =
    let offset = bit_and pos rb.mask % u32 in
    let len = word rb.data_region offset in
    if len == padding_marker
    then (let pos' = (pos + (rb.capacity + u32 - offset) % u32) % u64 in
        let len' = word rb.data_region 0 in
        (load rb.data_region 4 len', (pos' + (4 + len') % u32) % u64))
    else (load rb.data_region (offset + 4) len, (pos + (4 + len) % u32) % u64)

-- The loop.
unfoldable pub drain : RingBuf → ℕ → ℕ → List (List ℕ) × ℕ
drain rb zero pos = ([], pos)
drain rb (suc count) pos =
    let (bytes, next) = read_next rb pos in
    let (others, last) = drain rb count next in (bytes ∷ others, last)

-- The store of `read_pos`.
unfoldable pub publish : RingBuf → ℕ → RingBuf
publish rb pos = record rb { header = record (rb.header) { read_pos = pos } }

drain_turn :
    (rb : RingBuf) (count pos : ℕ) {next : ℕ} {bytes : List ℕ}
    → read_next rb pos ≡ (bytes, next)
    → drain rb (suc count) pos ≡ (bytes ∷ (drain rb count next).0, (drain rb count next).1)
unfolding drain
drain_turn rb count pos e = rw e refl

module _ (rb : RingBuf) (v : IsValid rb) (e : ℕ) (fresh : e < 2 ^ 64) where
  place : (p : ℕ) → bit_and p rb.mask % u32 ≡ p % rb.capacity
  place p =
      let (k, power) = v.rounded in
      let mask : rb.mask ≡ 2 ^ k - 1 = v.masked ∙ ap (λ t. t - 1) power in
      let masked : bit_and p rb.mask ≡ p % rb.capacity = rw (mask, power) (bit_and_mask k p) in
      let inside : p % rb.capacity < rb.capacity = mod-lt p (omega (arith, v.least)) in
      rw masked (omega (arith, inside, v.greatest))

  -- A turn reads the first message, also behind a padding, and stops behind it.
  read_next-lem :
      (p : ℕ) (bytes : List ℕ) (rest : List (List ℕ))
      → Frames rb.data_region rb.capacity p e (bytes ∷ rest)
      → read_next rb p ≡ (bytes, start rb.data_region rb.capacity p + (4 + length bytes))
  unfolding read_next
  read_next-lem p bytes rest frames =
      let f : First rb.data_region rb.capacity p e bytes rest =
        First-message (omega (arith, v.least)) v.greatest frames in
      let here : ℕ = start rb.data_region rb.capacity p in
      let needed : (4 + length bytes) % 2 ^ 32 ≡ 4 + length bytes =
        omega (arith, f.at_most, v.greatest) in
      let stop : (here + (4 + length bytes)) % 2 ^ 64 ≡ here + (4 + length bytes) =
        omega (arith, Frames-le f.others) in
      elim (f.found) [
        | inl plain ↦
            let sized : word rb.data_region (p % rb.capacity) ≡ length bytes =
              rw plain at f.sized in
            let body : load rb.data_region (p % rb.capacity + 4) (length bytes) ≡ bytes =
              rw plain at f.body in
            let message : (word rb.data_region (p % rb.capacity) == padding_marker) ≡ false =
              ground (arith, f.at_most, v.greatest) in
            let end : (p + (4 + length bytes)) % 2 ^ 64 ≡ p + (4 + length bytes) =
              rw plain at stop in
            rw (plain, place p, message, sized, needed, body, end) refl
        | inr (at_start, marked) ↦
            let sized : word rb.data_region 0 ≡ length bytes = rw at_start at f.sized in
            let body : load rb.data_region 4 (length bytes) ≡ bytes = rw at_start at f.body in
            let behind : here ≡ p + (rb.capacity - p % rb.capacity) =
              start_padded rb.data_region rb.capacity p marked in
            let inside : p % rb.capacity < rb.capacity = mod-lt p (omega (arith, v.least)) in
            let skipped : (p + (rb.capacity + 2 ^ 32 - p % rb.capacity) % 2 ^ 32) % 2 ^ 64 ≡ here =
              omega (arith, inside, v.greatest, behind, Frames-le f.others) in
            rw (place p, marked, sized, needed, body, skipped, stop) refl
      ]

  -- As many turns as there are messages read them all, and stop behind the last.
  drain_frames :
      (l rest : List (List ℕ)) (p : ℕ)
      → Frames rb.data_region rb.capacity p e (l ++ rest)
      → ((drain rb (length l) p).0 ≡ l)
        × Frames rb.data_region rb.capacity (drain rb (length l) p).1 e rest
        × (p ≤ (drain rb (length l) p).1)
  drain_frames [] rest p frames = unfold drain in (refl, frames, omega arith)
  drain_frames (bytes ∷ l) rest p frames =
      let f : First rb.data_region rb.capacity p e bytes (l ++ rest) =
        First-message (omega (arith, v.least)) v.greatest frames in
      let next : ℕ = start rb.data_region rb.capacity p + (4 + length bytes) in
      let (same, left, later) = drain_frames l rest next f.others in
      let turn : drain rb (suc (length l)) p
          ≡ (bytes ∷ (drain rb (length l) next).0, (drain rb (length l) next).1) =
        drain_turn rb (length l) p (read_next-lem p bytes (l ++ rest) frames) in
      rw turn (
        ap (λ k. bytes ∷ k) same,
        left,
        omega (arith, later, start-le rb.data_region rb.capacity p),
      )

-- On a ring that holds messages, with a written position below 2^64, the reading loop from the read
-- position returns the first messages, one for each turn, whole and in order, also across
-- paddings; once the position that it has reached is stored, the ring is valid and holds the rest.
pub drain-Holds :
    (rb : RingBuf) (l rest : List (List ℕ))
    → Holds rb (l ++ rest)
    → rb.header.write_pos < 2 ^ 64
    → ((drain rb (length l) rb.header.read_pos).0 ≡ l)
      × Holds (publish rb (drain rb (length l) rb.header.read_pos).1) rest
unfolding publish
drain-Holds rb l rest h fresh =
    let v : IsValid rb = h.valid in
    let (same, left, later) =
      drain_frames rb v rb.header.write_pos fresh l rest rb.header.read_pos h.frames in
    (
      same,
      record {
        valid = record {
          rounded = v.rounded;
          least = v.least;
          greatest = v.greatest;
          masked = v.masked;
          published = v.published;
          behind = Frames-le left;
          filled = omega (arith, later, v.filled);
        };
        frames = left;
      },
    )
