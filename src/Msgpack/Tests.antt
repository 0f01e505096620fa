-- ===== src/Msgpack/Tests.antt =====
-- The packer on concrete inputs.
use lumbre_ext.Common.{ℕ, ◌-◌, ◌^◌, ◌<◌, ◌≡◌, refl, arith, List, [], ◌∷◌, some, ok, codes}
use lumbre_ext.Memory.{load, fetch, store, le_bytes, bswap, of_le}
use lumbre_ext.Msgpack.{Buf, pack_uint, pack_map, pack_str, pack_bin, has_space, put_byte, store16}
use lumbre_ext.Msgpack.Format.{enc_uint, enc_map, enc_str, enc_bin, str_head, bin_head, be_bytes}
use lumbre_ext.Msgpack.Emit.{IsFine, emit, pack_map_lem, pack_uint_lem}
use lumbre_ext.Msgpack.Strings.{pack_str_lem, pack_bin_lem}
use lumbre_ext.Msgpack.Decode.{uint, str, bin, map, decode}
use lumbre_ext.Msgpack.RoundTrip.{
  new_bytes, decode-pack_uint, decode-pack_map, decode-pack_str, decode-pack_bin, pack_str_overrun,
}

-- A buffer of 64 bytes, four of them used.
abbrev used : Buf
used = record { bytes = λ i. 0; capacity = 64; pos = 4 }

used-IsFine : IsFine used
used-IsFine = record { inside = omega arith; small = omega arith }

abbrev hello : List ℕ
hello = codes "hello"

pack_uint_run : load (pack_uint used 300).1.bytes 4 3 ≡ 0xcd ∷ 1 ∷ 44 ∷ []
unfolding pack_uint put_byte store16 has_space load store le_bytes bswap of_le
pack_uint_run = refl

pack_map_lem_example : pack_map used 9 ≡ emit used (enc_map 9)
pack_map_lem_example = pack_map_lem used used-IsFine 9 (omega arith)

pack_uint_lem_run : pack_uint used 300 ≡ emit used (enc_uint 300)
pack_uint_lem_run = pack_uint_lem used used-IsFine 300

pack_str_lem_run : pack_str used (some hello) 5 ≡ emit used (enc_str hello)
unfolding fetch
pack_str_lem_run = pack_str_lem used used-IsFine (some hello) 5 tt (omega arith)

pack_bin_lem_example : pack_bin used (some hello) 5 ≡ emit used (enc_bin hello)
unfolding fetch
pack_bin_lem_example = pack_bin_lem used used-IsFine (some hello) 5 tt (omega arith)

decode-pack_uint_run :
    let (s, b') = pack_uint used 300 in
    (s ≡ ok) × (decode (new_bytes used b') ≡ some (uint 300, []))
unfolding enc_uint be_bytes
decode-pack_uint_run = decode-pack_uint used 300 used-IsFine (omega arith) (omega arith)

decode-pack_map_run :
    let (s, b') = pack_map used 9 in (s ≡ ok) × (decode (new_bytes used b') ≡ some (map 9, []))
unfolding enc_map
decode-pack_map_run = decode-pack_map used 9 used-IsFine (omega arith) (omega arith)

decode-pack_str_run :
    let (s, b') = pack_str used (some hello) 5 in
    (s ≡ ok) × (decode (new_bytes used b') ≡ some (str hello, []))
unfolding fetch str_head
decode-pack_str_run = decode-pack_str used (some hello) 5 used-IsFine tt (omega arith) (omega arith)

decode-pack_bin_run :
    let (s, b') = pack_bin used (some hello) 5 in
    (s ≡ ok) × (decode (new_bytes used b') ≡ some (bin hello, []))
unfolding fetch bin_head
decode-pack_bin_run = decode-pack_bin used (some hello) 5 used-IsFine tt (omega arith) (omega arith)

pack_str_overrun_example :
    let (s, b') = pack_str used (some hello) (2 ^ 32 - 1) in (s ≡ ok) × (64 < b'.pos)
pack_str_overrun_example =
    pack_str_overrun used hello (2 ^ 32 - 1) used-IsFine (omega arith) (omega arith) (omega arith)
      (omega arith)
