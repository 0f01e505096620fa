-- ===== src/Ring.antt =====
-- The functions of lumbre_ringbuf.c: the producer's side of the ring that a PHP worker shares with
-- the daemon. The header is what the mapped file's first 64 bytes hold, `data` is what follows.
pub mod Power
pub mod Write
mod Blocks
pub mod Frames
pub mod Append
pub mod Refine
pub mod Accept
pub mod Empty
pub mod Bounds
pub mod Lifecycle
pub mod Resources
pub mod Handle
pub mod Decimal
pub mod Start
pub mod Reader
pub mod Contents
pub mod Drain
pub mod Layout
pub mod Mapping
pub mod Stored
pub mod Channel
mod Samples
mod Tests
mod ConsumerTests
use Prim.Native.Nat.{bit_and, bit_or}
use lumbre_ext.Common.{
  ℕ, zero, suc, ◌+◌, ◌-◌, ◌/◌, ◌%◌, ◌^◌, Bool, true, false, not, ◌&&◌, List, [], ◌∷◌, ◌++◌, ltb,
  ◌==◌, if◌then◌else◌, length, u32, u64, Status, ok, error,
}
use lumbre_ext.Memory.{Memory, store, fetch, le_bytes}

abbrev pub ringbuf_magic : ℕ
ringbuf_magic = 0x54524143

abbrev pub ringbuf_version : ℕ
ringbuf_version = 1

abbrev pub ringbuf_header_size : ℕ
ringbuf_header_size = 64

abbrev pub padding_marker : ℕ
padding_marker = 0xffff_ffff

-- `LUMBRE_IS_POWER_OF_TWO` on a `uint32_t`; `n - 1` is evaluated only for `n != 0`.
unfoldable pub is_power_of_two : ℕ → Bool
is_power_of_two n = not (n == 0) && (bit_and n (n - 1) == 0)

-- One line `v |= v >> n;`.
unfoldable pub smear : ℕ → ℕ → ℕ
smear n v = bit_or v (v / 2 ^ n)

unfoldable pub next_power_of_2 : ℕ → ℕ
next_power_of_2 v =
    if v == 0
    then 1
    else if is_power_of_two v
    then v
    else (smear 16 (smear 8 (smear 4 (smear 2 (smear 1 (v - 1))))) + 1) % u32

-- `lumbre_ringbuf_header_t`
pub record Header : Type 0 where
  pub magic : ℕ
  pub version : ℕ
  pub capacity : ℕ
  pub write_pos : ℕ
  pub read_pos : ℕ
  pub dropped : ℕ
  pub pid : ℕ
  pub worker_id : ℕ

-- `lumbre_ringbuf_t`: `attached` says that the pointer `header` is not NULL, and `header` and
-- `data` are then what the shared mapping holds.
pub record RingBuf : Type 0 where
  pub attached : Bool
  pub header : Header
  pub data_region : Memory
  pub capacity : ℕ
  pub mask : ℕ
  pub local_write_pos : ℕ
  pub fd : ℕ
  pub mmap_size : ℕ
  pub path : List ℕ
  pub worker_id : ℕ

-- `__atomic_fetch_add(&rb->header->dropped, 1, …)`
unfoldable pub count_drop : RingBuf → RingBuf
count_drop rb = record rb {
  header = record (rb.header) { dropped = (rb.header.dropped + 1) % u64 };
}

-- The padding marker at `offset`, and the local position moved to the end of the region.
unfoldable pub put_padding : RingBuf → ℕ → ℕ → RingBuf
put_padding rb offset pad_bytes = record rb {
  data_region = store rb.data_region offset (le_bytes 4 padding_marker);
  local_write_pos = (rb.local_write_pos + pad_bytes) % u64;
}

-- The length prefix, the payload, the new position and its publication.
unfoldable pub put_message : RingBuf → ℕ → List ℕ → ℕ → ℕ → RingBuf
put_message rb offset payload payload_len needed =
    let prefixed = store rb.data_region offset (le_bytes 4 payload_len) in
    let pos = (rb.local_write_pos + needed) % u64 in
    record rb {
      data_region =
          if ltb 0 payload_len
          then store prefixed ((offset + 4) % u32) (fetch payload payload_len)
          else prefixed;
      local_write_pos = pos;
      header = record (rb.header) { write_pos = pos };
    }

-- `lumbre_ringbuf_write` once it has read the consumer's position as `read_pos`.
unfoldable pub write_seen : RingBuf → ℕ → List ℕ → ℕ → Status × RingBuf
write_seen rb read_pos payload payload_len =
    let used = (rb.local_write_pos + u64 - read_pos) % u64 in
    let needed = (4 + payload_len) % u32 in
    let offset = bit_and rb.local_write_pos rb.mask % u32 in
    let pad_bytes = (rb.capacity + u32 - offset) % u32 in
    if ltb ((rb.capacity + u32 - 4) % u32) payload_len
    then (error, count_drop rb)
    else if ltb rb.capacity ((used + needed) % u64)
    then (error, count_drop rb)
    else if ltb rb.capacity ((offset + needed) % u32)
    then (if ltb rb.capacity ((used + pad_bytes + needed) % u64)
        then (error, count_drop rb)
        else (ok, put_message (put_padding rb offset pad_bytes) 0 payload payload_len needed))
    else (ok, put_message rb offset payload payload_len needed)

unfoldable pub write : RingBuf → List ℕ → ℕ → Status × RingBuf
write rb payload payload_len = write_seen rb rb.header.read_pos payload payload_len

unfoldable pub reset : RingBuf → RingBuf
reset rb = record rb {
  header = record (rb.header) { write_pos = 0; read_pos = 0; dropped = 0 };
  local_write_pos = 0;
}
