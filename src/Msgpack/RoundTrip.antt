-- ===== src/Msgpack/RoundTrip.antt =====
-- The packers of lumbre_msgpack.c against the reader; and where a string's length wraps.
use lumbre_ext.Common.{
  ℕ, ◌+◌, ◌-◌, ◌^◌, ◌≤◌, ◌<◌, ◌≡◌, refl, ap, sym, ◌∙◌, List, [], ◌++◌, append-nil, some, Status, ok,
  Pointer, length, le→leb, arith,
}
use lumbre_ext.Memory.{load, store, load-store_self}
use lumbre_ext.Msgpack.{Buf, has_space, pack_map, pack_uint, pack_str, pack_bin, put_body, put_byte}
use lumbre_ext.Msgpack.Format.{enc_uint, enc_map, enc_str, enc_bin}
use lumbre_ext.Msgpack.Emit.{appended, emit, IsFine, pack_map_lem, pack_uint_lem}
use lumbre_ext.Memory.{pointed}
use lumbre_ext.Msgpack.Strings.{length-pointed, IsText, pack_str_lem, pack_bin_lem}
use lumbre_ext.Msgpack.Decode.{
  Value, uint, str, bin, map, decode, decode-enc_uint, decode-enc_map, decode-enc_str,
  decode-enc_bin,
}

-- The bytes between the old position and the new one.
abbrev pub new_bytes : Buf → Buf → List ℕ
new_bytes b b' = load b'.bytes b.pos (b'.pos - b.pos)

pub new_bytes-appended : (b : Buf) (bs : List ℕ) → new_bytes b (appended b bs) ≡ bs
new_bytes-appended b bs =
    let size : b.pos + length bs - b.pos ≡ length bs = omega arith in
    ap (load (store b.bytes b.pos bs) b.pos) size ∙ load-store_self b.bytes b.pos bs

-- What is packed as `bs`, with room for it, reads back as `bs` does.
emitted :
    (b : Buf) (bs : List ℕ) (value : Value) (r : Status × Buf)
    → r ≡ emit b bs
    → b.pos + length bs ≤ b.capacity
    → decode (bs ++ []) ≡ some (value, [])
    → (r.0 ≡ ok) × (decode (new_bytes b r.1) ≡ some (value, []))
emitted b bs value r e fits d =
    let done : r ≡ (ok, appended b bs) = e ∙ rw (le→leb _ _ fits) refl in
    rw (done, new_bytes-appended b bs) (refl, ap decode (sym (append-nil bs)) ∙ d)

-- On a buffer whose position is within its capacity and that has room for its encoding, a 64-bit
-- integer is packed, and reads back from the new bytes.
pub decode-pack_uint :
    (b : Buf) (v : ℕ)
    → IsFine b
    → v < 2 ^ 64
    → b.pos + length (enc_uint v) ≤ b.capacity
    → let (s, b') = pack_uint b v in (s ≡ ok) × (decode (new_bytes b b') ≡ some (uint v, []))
decode-pack_uint b v f h fits =
    emitted b (enc_uint v) (uint v) _ (pack_uint_lem b f v) fits (decode-enc_uint v [] h)

-- On a buffer whose position is within its capacity and that has room for it, the header of a map
-- of fewer than 2^16 pairs is packed, and reads back from the new bytes.
pub decode-pack_map :
    (b : Buf) (n : ℕ)
    → IsFine b
    → n < 2 ^ 16
    → b.pos + length (enc_map n) ≤ b.capacity
    → let (s, b') = pack_map b n in (s ≡ ok) × (decode (new_bytes b b') ≡ some (map n, []))
decode-pack_map b n f h fits =
    emitted b (enc_map n) (map n) _ (pack_map_lem b f n h) fits (decode-enc_map n [] h)

-- On a buffer whose position is within its capacity and that has room for its encoding, a string
-- (NULL only with length 0) whose length and 5 fit 32 bits is packed, and its bytes read back
-- from the new bytes.
pub decode-pack_str :
    (b : Buf) (p : Pointer) (len : ℕ)
    → IsFine b
    → IsText p len
    → len + 5 < 2 ^ 32
    → b.pos + length (enc_str (pointed p len)) ≤ b.capacity
    → let (s, b') = pack_str b p len in
      (s ≡ ok) × (decode (new_bytes b b') ≡ some (str (pointed p len), []))
decode-pack_str b p len f t h fits =
    emitted b (enc_str (pointed p len)) (str (pointed p len)) _ (pack_str_lem b f p len t h) fits
      (decode-enc_str (pointed p len) [] (omega (arith, length-pointed p len t)))

-- On a buffer whose position is within its capacity and that has room for its encoding, a binary
-- object (NULL only with length 0) of fewer than 2^16 bytes is packed, and its bytes read back
-- from the new bytes.
pub decode-pack_bin :
    (b : Buf) (p : Pointer) (len : ℕ)
    → IsFine b
    → IsText p len
    → len < 2 ^ 16
    → b.pos + length (enc_bin (pointed p len)) ≤ b.capacity
    → let (s, b') = pack_bin b p len in
      (s ≡ ok) × (decode (new_bytes b b') ≡ some (bin (pointed p len), []))
decode-pack_bin b p len f t h fits =
    emitted b (enc_bin (pointed p len)) (bin (pointed p len)) _ (pack_bin_lem b f p len t h) fits
      (decode-enc_bin (pointed p len) [] (omega (arith, length-pointed p len t)))

-- On a buffer below 2^31 bytes with four bytes of room, a string of 2^32 - 5 bytes or more gets
-- past the check of the space, because its length and 5 wrap in 32 bits: the packer returns 0,
-- and the position is behind the capacity.
pub pack_str_overrun :
    (b : Buf) (object : List ℕ) (len : ℕ)
    → IsFine b
    → b.capacity < 2 ^ 31
    → 2 ^ 32 - 5 ≤ len
    → len < 2 ^ 32
    → b.pos + 4 ≤ b.capacity
    → let (s, b') = pack_str b (some object) len in (s ≡ ok) × (b.capacity < b'.pos)
unfolding pack_str put_body has_space put_byte
pack_str_overrun b object len f small lo hi room = ground arith
