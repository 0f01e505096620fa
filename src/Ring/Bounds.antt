-- ===== src/Ring/Bounds.antt =====
-- Which addresses lumbre_ringbuf_write touches. A padding marker has four bytes, and the gap that
-- it is put in may be shorter.
use lumbre_ext.Common.{
  Status, ok, ℕ, zero, suc, ◌+◌, ◌-◌, ◌%◌, ◌^◌, ◌≤◌, ◌<◌, ◌≡◌, ◌⊎◌, inl, inr, ap, ◌∙◌, arith, List,
  length, length-append,
}
use native.Mathlib.Decide.{dec_lt}
use native.Mathlib.Nat.{pow-suc, mod-mod_of_dvd, dvd_of_mod-eq-zero}
use lumbre_ext.Memory.{Memory, store, fetch, le_bytes, length-le_bytes, store_above, length-fetch}
use lumbre_ext.Ring.{RingBuf, padding_marker, count_drop, put_padding, put_message, write_seen}
use lumbre_ext.Ring.Append.{frame_bytes}
use lumbre_ext.Ring.Accept.{write_seen_accepts}
use lumbre_ext.Ring.Refine.{data-put_message}
use lumbre_ext.Ring.Write.{
  IsValid, IsFresh, offset_of, offset_of-lt, gap, Outcome, full, straight, wrapped,
  write_seen-Outcome,
}

-- A message from `o` on leaves what lies behind its end.
put_message_above :
    (rb : RingBuf) (o : ℕ) (payload : List ℕ) (len needed i : ℕ)
    → o + 4 < 2 ^ 32
    → o + (4 + len) ≤ i
    → (put_message rb o payload len needed).data_region i ≡ rb.data_region i
put_message_above rb o payload len needed i h above =
    let size : length (frame_bytes (fetch payload len)) ≡ 4 + len = omega (
      arith,
      length-append (le_bytes 4 (length (fetch payload len))) (fetch payload len),
      length-fetch payload len,
      length-le_bytes 4 (length (fetch payload len)),
    ) in
    ap (λ (m : Memory). m i) (data-put_message rb o payload len needed h)
    ∙ store_above rb.data_region o i (frame_bytes (fetch payload len)) (omega arith)

marker_cells :
    (m : Memory) (o i : ℕ) → o ≤ i → i < o + 4 → store m o (le_bytes 4 padding_marker) i ≡ 255
unfolding store le_bytes
marker_cells m o i lo hi = ground arith

module _ (rb : RingBuf) (seen : ℕ) (payload : List ℕ) (len : ℕ) (v : IsValid rb)
    (fresh : IsFresh rb) (stale : seen ≤ rb.header.read_pos) where
  Outcome-above :
      (i : ℕ) (r : Status × RingBuf)
      → Outcome rb seen payload len r
      → rb.capacity ≤ i
      → (gap rb len ≡ 0) ⊎ (rb.capacity + 4 ≤ i + gap rb len)
      → r.1.data_region i ≡ rb.data_region i
  unfolding count_drop put_padding
  Outcome-above i r (full crowded e) above room = rw e
  Outcome-above i r (straight fits within e) above room = rw e (
      put_message_above rb (offset_of rb) payload len (4 + len) i (omega (arith, v.greatest))
        (omega arith))
  Outcome-above i r (wrapped straddles within e) above room =
      let some : gap rb len ≡ rb.capacity - offset_of rb = ground arith in
      let inside : offset_of rb < rb.capacity = offset_of-lt rb v in
      rw e (
        put_message_above (put_padding rb (offset_of rb) (rb.capacity - offset_of rb)) 0 payload len
          (4 + len) i (omega arith) (omega arith)
        ∙ store_above rb.data_region (offset_of rb) i (le_bytes 4 padding_marker)
            (omega (arith, length-le_bytes 4 padding_marker)))

  Outcome-overrun :
      (r : Status × RingBuf)
      → Outcome rb seen payload len r
      → r.0 ≡ ok
      → 0 < gap rb len
      → gap rb len < 4
      → r.1.data_region rb.capacity ≡ 255
  unfolding put_padding
  Outcome-overrun r (full crowded e) done some few = cc
  Outcome-overrun r (straight fits within e) done some few = absurd (ground arith)
  Outcome-overrun r (wrapped straddles within e) done some few =
      let width : gap rb len ≡ rb.capacity - offset_of rb = ground arith in
      let inside : offset_of rb < rb.capacity = offset_of-lt rb v in
      rw e (
        put_message_above (put_padding rb (offset_of rb) (rb.capacity - offset_of rb)) 0 payload len
          (4 + len) rb.capacity (omega arith) (omega arith)
        ∙ marker_cells rb.data_region (offset_of rb) rb.capacity (omega arith) (omega arith))

room_behind :
    (g cap i : ℕ) → cap ≤ i → ((g ≡ 0) ⊎ (4 ≤ g)) ⊎ (cap + 3 ≤ i) → (g ≡ 0) ⊎ (cap + 4 ≤ i + g)
room_behind g cap i above (inl (inl none)) = inl none
room_behind g cap i above (inl (inr wide)) = inr (omega arith)
room_behind g cap i above (inr far) = elim (dec_lt 0 g) [
  | yes some ↦ inr (omega arith)
  | no none ↦ inl (omega arith)
]

-- On a valid ring, with positions away from the end of 64 bits and a read position no later than
-- the consumer's, a write leaves an address from the capacity on as it was, if the write needs no
-- padding or one of four bytes at least, or if the address is three bytes or more behind the
-- capacity.
pub write_seen_in_bounds :
    (rb : RingBuf) (seen : ℕ) (payload : List ℕ) (len i : ℕ)
    → IsValid rb
    → IsFresh rb
    → seen ≤ rb.header.read_pos
    → rb.capacity ≤ i
    → ((gap rb len ≡ 0) ⊎ (4 ≤ gap rb len)) ⊎ (rb.capacity + 3 ≤ i)
    → (write_seen rb seen payload len).1.data_region i ≡ rb.data_region i
write_seen_in_bounds rb seen payload len i v fresh stale above why =
    Outcome-above rb seen payload len v fresh stale i _
      (write_seen-Outcome rb seen payload len v fresh stale) above
      (room_behind (gap rb len) rb.capacity i above why)

-- On a valid ring, with positions away from the end of 64 bits and a read position no later than
-- the consumer's, a write that fits and pads a gap of one to three bytes writes behind the end of
-- the data region: the byte at the capacity becomes the marker's 0xff.
pub write_seen_overrun :
    (rb : RingBuf) (seen : ℕ) (payload : List ℕ) (len : ℕ)
    → IsValid rb
    → IsFresh rb
    → seen ≤ rb.header.read_pos
    → 0 < gap rb len
    → gap rb len < 4
    → rb.local_write_pos + gap rb len + (4 + len) ≤ seen + rb.capacity
    → (write_seen rb seen payload len).1.data_region rb.capacity ≡ 255
write_seen_overrun rb seen payload len v fresh stale some few room =
    Outcome-overrun rb seen payload len v fresh stale _
      (write_seen-Outcome rb seen payload len v fresh stale)
      ((write_seen_accepts rb seen payload len v fresh stale room).0) some few

pow_aligned : (k : ℕ) → 4 ≤ 2 ^ k → 2 ^ k % 4 ≡ 0
pow_aligned zero h = absurd (omega arith)
pow_aligned (suc zero) h = absurd (omega arith)
pow_aligned (suc (suc k)) h = omega (arith, pow-suc 2 (suc k), pow-suc 2 k)

capacity_aligned : (rb : RingBuf) → IsValid rb → rb.capacity % 4 ≡ 0
capacity_aligned rb v = let (k, e) = v.rounded in rw e (pow_aligned k (omega (arith, v.least)))

-- From an aligned position the padding is none, or has a multiple of four bytes.
aligned_gap :
    (rb : RingBuf) (len : ℕ)
    → IsValid rb
    → rb.local_write_pos % 4 ≡ 0
    → ((gap rb len ≡ 0) ⊎ (4 ≤ gap rb len)) × (gap rb len % 4 ≡ 0)
aligned_gap rb len v aligned =
    let c : rb.capacity % 4 ≡ 0 = capacity_aligned rb v in
    let o : offset_of rb % 4 ≡ rb.local_write_pos % 4 =
      mod-mod_of_dvd 4 rb.local_write_pos (dvd_of_mod-eq-zero 4 c) in
    let inside : offset_of rb < rb.capacity = offset_of-lt rb v in (ground arith, ground arith)

-- On a valid ring, with positions away from the end of 64 bits and a read position no later than
-- the consumer's, a write leaves every address from the capacity on as it was, while the write
-- position is a multiple of four.
pub write_seen_aligned :
    (rb : RingBuf) (seen : ℕ) (payload : List ℕ) (len i : ℕ)
    → IsValid rb
    → IsFresh rb
    → seen ≤ rb.header.read_pos
    → rb.local_write_pos % 4 ≡ 0
    → rb.capacity ≤ i
    → (write_seen rb seen payload len).1.data_region i ≡ rb.data_region i
write_seen_aligned rb seen payload len i v fresh stale aligned above =
    write_seen_in_bounds rb seen payload len i v fresh stale above
      (inl (aligned_gap rb len v aligned).0)
