-- ===== src/Span/Reader.antt =====
-- A reader of the messages of lumbre_span_encode, written from the msgpack format.
use lumbre_ext.Common.{
  ◌>>=◌, ℕ, zero, suc, ◌+◌, ◌^◌, ◌<◌, ◌≡◌, refl, List, [], ◌∷◌, ◌++◌, append_assoc, length, Pointer,
  some, none, Option, arith, All,
}
use lumbre_ext.Msgpack.Format.{enc_str}
use lumbre_ext.Msgpack.Strings.{length-pointed}
use lumbre_ext.Msgpack.Decode.{
  Value, uint, str, bin, map, decode, decode-enc_uint, decode-enc_str, decode-enc_bin,
  decode-enc_map,
}
use lumbre_ext.Span.Fields.{Pair, enc_value, enc_pairs, text, IsString}

-- The readers: a pair, `n` pairs, a whole message.
as_key : Value → Option (List ℕ)
as_key (str key) = some key
as_key (uint v) = none
as_key (bin bs) = none
as_key (map n) = none

as_count : Value → Option ℕ
as_count (map n) = some n
as_count (str key) = none
as_count (uint v) = none
as_count (bin bs) = none

unfoldable pub read_pair : List ℕ → Option (Pair × List ℕ)
unfolding as_key
read_pair bs = do
  (k, rest) ← decode bs
  key ← as_key k
  (value, more) ← decode rest
  some ((key, value), more)

unfoldable pub read_pairs : ℕ → List ℕ → Option (List Pair × List ℕ)
read_pairs zero bs = some ([], bs)
read_pairs (suc n) bs = do
  (pair, rest) ← read_pair bs
  (others, more) ← read_pairs n rest
  some (pair ∷ others, more)

unfoldable pub read_message : List ℕ → Option (List Pair × List ℕ)
unfolding as_count
read_message bs = do (header, rest) ← decode bs; n ← as_count header; read_pairs n rest

-- A value that the format can hold.
abbrev pub Fits : Value → Type 0
Fits (uint v) = v < 2 ^ 64
Fits (str bs) = length bs < 2 ^ 32
Fits (bin bs) = length bs < 2 ^ 16
Fits (map n) = n < 2 ^ 16

decode-enc_value :
    (v : Value) (rest : List ℕ) → Fits v → decode (enc_value v ++ rest) ≡ some (v, rest)
decode-enc_value (uint v) rest h = decode-enc_uint v rest h
decode-enc_value (str bs) rest h = decode-enc_str bs rest h
decode-enc_value (bin bs) rest h = decode-enc_bin bs rest h
decode-enc_value (map n) rest h = decode-enc_map n rest h

abbrev pub PairFits : Pair → Type 0
PairFits p = (length p.0 < 2 ^ 32) × Fits p.1

read_pair_lem :
    (key : List ℕ) (value : Value) (rest : List ℕ)
    → length key < 2 ^ 32
    → Fits value
    → read_pair ((enc_str key ++ enc_value value) ++ rest) ≡ some ((key, value), rest)
unfolding read_pair
read_pair_lem key value rest hk hv =
    rw
      (
        append_assoc (enc_str key) (enc_value value) rest,
        decode-enc_str key (enc_value value ++ rest) hk,
        decode-enc_value value rest hv,
      )
      refl

pub read_pairs-enc_pairs :
    (ps : List Pair) (rest : List ℕ)
    → All PairFits ps
    → read_pairs (length ps) (enc_pairs ps ++ rest) ≡ some (ps, rest)
unfolding read_pairs enc_pairs
read_pairs-enc_pairs [] rest h = refl
read_pairs-enc_pairs ((key, value) ∷ ps) rest h =
    rw
      (
        append_assoc (enc_str key ++ enc_value value) (enc_pairs ps) rest,
        read_pair_lem key value (enc_pairs ps ++ rest) h.0.0 h.0.1,
        read_pairs-enc_pairs ps rest h.1,
      )
      refl

pub text-Fits : {p : Pointer} {len : ℕ} → IsString p len → Fits (text p len)
text-Fits {p} {len} s =
    let h : len + 5 < 2 ^ 32 = s.short in omega (arith, length-pointed p len s.text)
