-- ===== src/Memory.antt =====
-- Byte-addressed memory, for the data ring of lumbre_ringbuf.c and the buffer of lumbre_msgpack.c:
-- an address counts from the start of the region. An address past the region's end is a byte as
-- well, so that an overrun shows as a write at such an address.
mod Defs
mod Laws
mod Words
unfoldable pub use Defs.{pointed, Memory, update, store, load, fetch}
pub use Laws.*
unfoldable pub use Words.{le_bytes, of_le, bswap}
pub use Words.*
