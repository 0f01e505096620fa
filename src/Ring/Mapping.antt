-- ===== src/Ring/Mapping.antt =====
-- A reader of the ring's file of lumbre_ringbuf.h that knows its bytes and the documented offsets only.
use mathlib.Core.Path.{ap₂, fun_ext}
use lumbre_ext.Common.{ℕ, ◌+◌, ◌%◌, ◌^◌, ◌≤◌, ◌<◌, ◌≡◌, refl, ap, ◌∙◌, arith, true, [], ◌≢◌}
use lumbre_ext.Memory.{
  Memory, store, load, le_bytes, of_le, of_le-le_bytes, length-le_bytes, load-store_before,
  load-store_self, load-store_after, store_above,
}
use lumbre_ext.Ring.Drain.{publish}
use lumbre_ext.Ring.Frames.{Frames}
use lumbre_ext.Ring.Reader.{word}
use lumbre_ext.Ring.{Header, RingBuf, padding_marker}
use lumbre_ext.Ring.Layout.{field, header_at, file_bytes, IsHeader, header_at-file_bytes}

-- The handle that a reader makes of a data region and a header.
unfoldable pub of_mapping : Memory → Header → RingBuf
of_mapping data_region h = record {
  attached = true;
  header = h;
  data_region = data_region;
  capacity = h.capacity;
  mask = (h.capacity + 0xffff_ffff) % 0x1_0000_0000;
  local_write_pos = h.write_pos;
  fd = 0;
  mmap_size = 64 + h.capacity;
  path = [];
  worker_id = h.worker_id;
}

-- That of the file's bytes alone.
unfoldable pub attach : Memory → RingBuf
attach file = of_mapping (λ i. file (64 + i)) (header_at file)

pub header-attach :
    (rb : RingBuf) → IsHeader rb.header → (attach (file_bytes rb)).header ≡ rb.header
unfolding attach of_mapping
header-attach rb w = header_at-file_bytes rb w

-- No padding is shorter than its marker, whose last bytes would be behind the end of the file: where the
-- ring has less than four bytes to its end, there is no marker.
abbrev pub IsUncut : RingBuf → Type 0
IsUncut rb =
    (p : ℕ)
    → rb.header.read_pos ≤ p
    → p < rb.header.write_pos
    → rb.capacity < p % rb.capacity + 4
    → word rb.data_region (p % rb.capacity) ≢ padding_marker

-- The reader's store changes the one field.
header_at-store :
    (file : Memory) (pos : ℕ)
    → pos < 2 ^ 64
    → header_at (store file 24 (le_bytes 8 pos)) ≡ record (header_at file) { read_pos = pos }
header_at-store file pos small =
    let new = store file 24 (le_bytes 8 pos) in
    let eight = length-le_bytes 8 pos in
    let before : (a n : ℕ) → a + n ≤ 24 → field new a n ≡ field file a n =
      λ a n h. ap of_le (load-store_before file a n 24 (le_bytes 8 pos) h) in
    let after : (a n : ℕ) → 32 ≤ a → field new a n ≡ field file a n =
      λ a n h. ap of_le (load-store_after file a n 24 (le_bytes 8 pos) (omega (arith, eight))) in
    let stored : load new 24 8 ≡ le_bytes 8 pos =
      rw eight at (load-store_self file 24 (le_bytes 8 pos)) in
    let here : field new 24 8 ≡ pos = ap of_le stored ∙ of_le-le_bytes 8 pos small in
    rw
      (
        before 0 4 (omega arith),
        before 4 4 (omega arith),
        before 8 4 (omega arith),
        before 16 8 (omega arith),
        here,
        after 32 8 (omega arith),
        after 40 4 (omega arith),
        after 44 8 (omega arith),
      )
      refl

-- The reader's store of its position, 8 bytes at the documented offset, is the store of `read_pos` in
-- the ring that it sees, and changes nothing else of it.
pub attach-publish :
    (file : Memory) (pos : ℕ)
    → pos < 2 ^ 64
    → attach (store file 24 (le_bytes 8 pos)) ≡ publish (attach file) pos
unfolding attach of_mapping publish
attach-publish file pos small =
    let eight = length-le_bytes 8 pos in
    let data_kept : (i : ℕ) → store file 24 (le_bytes 8 pos) (64 + i) ≡ file (64 + i) =
      λ i. store_above file 24 (64 + i) (le_bytes 8 pos) (omega (arith, eight)) in
    ap₂ of_mapping (fun_ext data_kept) (header_at-store file pos small)
