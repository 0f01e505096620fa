-- ===== src/Msgpack/Format.antt =====
-- The msgpack format of the values that lumbre packs, written out as byte lists.
use lumbre_ext.Common.{
  ℕ, zero, suc, ◌+◌, ◌/◌, ◌%◌, ◌≡◌, refl, ◌∙◌, List, [], ◌∷◌, ◌++◌, length, length-append, ltb, leb,
  if◌then◌else◌, arith,
}

-- The `n` low bytes of `v`, highest first.
unfoldable pub be_bytes : ℕ → ℕ → List ℕ
be_bytes zero v = []
be_bytes (suc n) v = be_bytes n (v / 256) ++ (v % 256 ∷ [])

pub length-be_bytes : (n v : ℕ) → length (be_bytes n v) ≡ n
unfolding be_bytes
length-be_bytes zero v = refl
length-be_bytes (suc n) v =
    length-append (be_bytes n (v / 256)) (v % 256 ∷ []) ∙ omega (arith, length-be_bytes n (v / 256))

-- Positive fixint, uint 8, 16, 32 and 64.
unfoldable pub enc_uint : ℕ → List ℕ
enc_uint v =
    if ltb v 128
    then v ∷ []
    else if leb v 0xff
    then 0xcc ∷ v ∷ []
    else if leb v 0xffff
    then 0xcd ∷ be_bytes 2 v
    else if leb v 0xffff_ffff
    then 0xce ∷ be_bytes 4 v
    else 0xcf ∷ be_bytes 8 v

-- fixmap and map 16.
unfoldable pub enc_map : ℕ → List ℕ
enc_map n = if leb n 15 then (128 + n) ∷ [] else 0xde ∷ be_bytes 2 n

-- fixstr, str 16 and str 32.
unfoldable pub str_head : ℕ → List ℕ
str_head n =
    if ltb n 32
    then (160 + n) ∷ []
    else if leb n 0xffff
    then 0xda ∷ be_bytes 2 n
    else 0xdb ∷ be_bytes 4 n

-- bin 8 and bin 16.
unfoldable pub bin_head : ℕ → List ℕ
bin_head n = if leb n 0xff then 0xc4 ∷ n ∷ [] else 0xc5 ∷ be_bytes 2 n

abbrev pub enc_str : List ℕ → List ℕ
enc_str bs = str_head (length bs) ++ bs

abbrev pub enc_bin : List ℕ → List ℕ
enc_bin bs = bin_head (length bs) ++ bs
