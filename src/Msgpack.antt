-- ===== src/Msgpack.antt =====
-- The functions of lumbre_msgpack.c. A function returns its status and the buffer; `pos++` and
-- `pos += n` run behind a check that the new position is within the capacity, so they do not wrap.
pub mod Format
pub mod Emit
pub mod Strings
pub mod Sequence
pub mod Decode
pub mod RoundTrip
mod Tests
use Prim.Native.Nat.{bit_or}
use lumbre_ext.Common.{
  ℕ, ◌+◌, ◌%◌, ◌^◌, List, [], ◌∷◌, none, some, Status, ok, error, Pointer, u16, u32, u64, ltb, leb,
  if◌then◌else◌, Bool,
}
use lumbre_ext.Memory.{Memory, store, fetch, le_bytes, bswap}

abbrev pub msgpack_buf_size : ℕ
msgpack_buf_size = 16384

-- `lumbre_msgpack_buf`
pub record Buf : Type 0 where
  pub bytes : Memory
  pub capacity : ℕ
  pub pos : ℕ

-- `if (rc != 0) return rc;`, and `LUMBRE_PACK_OR_FAIL` of lumbre_span.c.
infixl 5 ◌>>=◌
abbrev pub ◌>>=◌ : Status × Buf → (Buf → Status × Buf) → Status × Buf
(ok, b) >>= f = f b
(error, b) >>= f = (error, b)

-- `LUMBRE_MSGPACK_CHECK_SPACE`: whether `n` more bytes fit.
unfoldable pub has_space : Buf → ℕ → Bool
has_space b n = leb ((b.pos + n) % u64) b.capacity

-- `buf->buf[buf->pos++] = …`
unfoldable pub put_byte : Buf → ℕ → Buf
put_byte b v = record b { bytes = store b.bytes b.pos (v % 256 ∷ []); pos = b.pos + 1 }

-- `lumbre_store16`, `lumbre_store32`, `lumbre_store64`: byte-swapped, then copied.
unfoldable pub store16 : Memory → ℕ → ℕ → Memory
store16 m dst v = store m dst (le_bytes 2 (bswap 2 v))

unfoldable pub store32 : Memory → ℕ → ℕ → Memory
store32 m dst v = store m dst (le_bytes 4 (bswap 4 v))

unfoldable pub store64 : Memory → ℕ → ℕ → Memory
store64 m dst v = store m dst (le_bytes 8 (bswap 8 v))

-- A store behind a tag byte, and `pos += 2`, `4` or `8`.
abbrev put16 : Buf → ℕ → Buf
put16 b v = record b { bytes = store16 b.bytes b.pos (v % u16); pos = b.pos + 2 }

abbrev put32 : Buf → ℕ → Buf
put32 b v = record b { bytes = store32 b.bytes b.pos (v % u32); pos = b.pos + 4 }

abbrev put64 : Buf → ℕ → Buf
put64 b v = record b { bytes = store64 b.bytes b.pos v; pos = b.pos + 8 }

-- `if (len > 0 && p != NULL) { memcpy(…); buf->pos += len; }`
unfoldable pub put_body : Buf → Pointer → ℕ → Buf
put_body b none len = b
put_body b (some object) len =
    if ltb 0 len
    then record b { bytes = store b.bytes b.pos (fetch object len); pos = b.pos + len }
    else b

unfoldable pub reset : Buf → Buf
reset b = record b { pos = 0 }

unfoldable pub pack_map : Buf → ℕ → Status × Buf
pack_map b count =
    if leb count 15
    then (if has_space b 1 then (ok, put_byte b (bit_or 0x80 count)) else (error, b))
    else (if has_space b 3 then (ok, put16 (put_byte b 0xde) count) else (error, b))

unfoldable pub pack_uint : Buf → ℕ → Status × Buf
pack_uint b val =
    if ltb val 128
    then (if has_space b 1 then (ok, put_byte b val) else (error, b))
    else if leb val 0xff
    then (if has_space b 2 then (ok, put_byte (put_byte b 0xcc) val) else (error, b))
    else if leb val 0xffff
    then (if has_space b 3 then (ok, put16 (put_byte b 0xcd) val) else (error, b))
    else if leb val 0xffff_ffff
    then (if has_space b 5 then (ok, put32 (put_byte b 0xce) val) else (error, b))
    else (if has_space b 9 then (ok, put64 (put_byte b 0xcf) val) else (error, b))

-- The sums in `CHECK_SPACE` are `uint32_t` here.
unfoldable pub pack_str : Buf → Pointer → ℕ → Status × Buf
pack_str b str len =
    if ltb len 32
    then (if has_space b ((1 + len) % u32)
        then (ok, put_body (put_byte b (bit_or 0xa0 len)) str len)
        else (error, b))
    else if leb len 0xffff
    then (if has_space b ((3 + len) % u32)
        then (ok, put_body (put16 (put_byte b 0xda) len) str len)
        else (error, b))
    else (if has_space b ((5 + len) % u32)
        then (ok, put_body (put32 (put_byte b 0xdb) len) str len)
        else (error, b))

unfoldable pub pack_bin : Buf → Pointer → ℕ → Status × Buf
pack_bin b object len =
    if leb len 0xff
    then (if has_space b ((2 + len) % u32)
        then (ok, put_body (put_byte (put_byte b 0xc4) len) object len)
        else (error, b))
    else if leb len 0xffff
    then (if has_space b ((3 + len) % u32)
        then (ok, put_body (put16 (put_byte b 0xc5) len) object len)
        else (error, b))
    else (error, b)

unfoldable pub pack_str_kv : Buf → Pointer → ℕ → Pointer → ℕ → Status × Buf
pack_str_kv b key key_len val val_len = do b' ← pack_str b key key_len; pack_str b' val val_len

unfoldable pub pack_uint_kv : Buf → Pointer → ℕ → ℕ → Status × Buf
pack_uint_kv b key key_len val = do b' ← pack_str b key key_len; pack_uint b' val

unfoldable pub pack_bin_kv : Buf → Pointer → ℕ → Pointer → ℕ → Status × Buf
pack_bin_kv b key key_len object len = do b' ← pack_str b key key_len; pack_bin b' object len
