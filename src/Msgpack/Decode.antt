-- ===== src/Msgpack/Decode.antt =====
-- A reader of the msgpack format, written from the format's tag bytes and not from the packer, and
-- the round trip of each packed value.
use lumbre_ext.Common.{
  ◌>>=◌, ℕ, zero, suc, ◌+◌, ◌-◌, ◌*◌, ◌/◌, ◌%◌, ◌^◌, ◌<◌, ◌≡◌, refl, ap, sym, ◌∙◌, List, [], ◌∷◌,
  ◌++◌, append_assoc, Option, none, some, u16, u32, length, length-append, take, drop,
  take-append_self, drop-append_self, ltb, leb, ◌==◌, if◌then◌else◌, true, false, Bool-cases, inl,
  inr, arith,
}
use native.Mathlib.Nat.{pow-suc}
use lumbre_ext.Msgpack.Format.{
  be_bytes, length-be_bytes, enc_uint, enc_map, str_head, bin_head, enc_str, enc_bin,
}

pub data Value : Type 0 where
  uint : ℕ → Value
  str : List ℕ → Value
  bin : List ℕ → Value
  map : ℕ → Value

-- An integer of `n` bytes, highest first, in front of the rest.
unfoldable pub read_be : ℕ → ℕ → List ℕ → Option (ℕ × List ℕ)
read_be zero acc rest = some (acc, rest)
read_be (suc n) acc [] = none
read_be (suc n) acc (b ∷ rest) = read_be n (acc * 256 + b) rest

-- `n` bytes in front of the rest.
unfoldable pub read_bytes : ℕ → List ℕ → Option (List ℕ × List ℕ)
read_bytes n rest = if leb n (length rest) then some (take n rest, drop n rest) else none

unfoldable pub read_uint : ℕ → List ℕ → Option (Value × List ℕ)
read_uint n rest = do (v, more) ← read_be n 0 rest; some (uint v, more)

unfoldable pub read_str : ℕ → List ℕ → Option (Value × List ℕ)
read_str n rest = do (bytes, more) ← read_bytes n rest; some (str bytes, more)

unfoldable pub read_bin : ℕ → List ℕ → Option (Value × List ℕ)
read_bin n rest = do (bytes, more) ← read_bytes n rest; some (bin bytes, more)

unfoldable pub read_tagged : ℕ → List ℕ → Option (Value × List ℕ)
read_tagged tag rest =
    if tag == 0xc4
    then read_be 1 0 rest >>= (λ p. read_bin p.0 p.1)
    else if tag == 0xc5
    then read_be 2 0 rest >>= (λ p. read_bin p.0 p.1)
    else if tag == 0xcc
    then read_uint 1 rest
    else if tag == 0xcd
    then read_uint 2 rest
    else if tag == 0xce
    then read_uint 4 rest
    else if tag == 0xcf
    then read_uint 8 rest
    else if tag == 0xda
    then read_be 2 0 rest >>= (λ p. read_str p.0 p.1)
    else if tag == 0xdb
    then read_be 4 0 rest >>= (λ p. read_str p.0 p.1)
    else if tag == 0xde
    then read_be 2 0 rest >>= (λ p. some (map p.0, p.1))
    else none

-- One value in front of the rest.
unfoldable pub decode : List ℕ → Option (Value × List ℕ)
decode [] = none
decode (tag ∷ rest) =
    if ltb tag 0x80
    then some (uint tag, rest)
    else if ltb tag 0x90
    then some (map (tag - 0x80), rest)
    else if ltb tag 0xa0
    then none
    else if ltb tag 0xc0
    then read_str (tag - 0xa0) rest
    else read_tagged tag rest

of_be : ℕ → List ℕ → ℕ
of_be acc [] = acc
of_be acc (b ∷ bs) = of_be (acc * 256 + b) bs

read_be-of_be :
    (bs rest : List ℕ) (acc : ℕ) → read_be (length bs) acc (bs ++ rest) ≡ some (of_be acc bs, rest)
unfolding read_be of_be
read_be-of_be [] rest acc = refl
read_be-of_be (b ∷ bs) rest acc = read_be-of_be bs rest (acc * 256 + b)

of_be-append : (acc : ℕ) (xs ys : List ℕ) → of_be acc (xs ++ ys) ≡ of_be (of_be acc xs) ys
unfolding of_be
of_be-append acc [] ys = refl
of_be-append acc (x ∷ xs) ys = of_be-append (acc * 256 + x) xs ys

of_be-be_bytes : (n v acc : ℕ) → v < 256 ^ n → of_be acc (be_bytes n v) ≡ acc * 256 ^ n + v
unfolding be_bytes of_be
of_be-be_bytes zero v acc h = omega arith
of_be-be_bytes (suc n) v acc h =
    let p : 256 ^ suc n ≡ 256 ^ n * 256 = pow-suc 256 n in
    let higher : of_be acc (be_bytes n (v / 256)) ≡ acc * 256 ^ n + v / 256 =
      of_be-be_bytes n (v / 256) acc (omega arith) in
    of_be-append acc (be_bytes n (v / 256)) (v % 256 ∷ [])
    ∙ omega (arith, ap (λ (t : ℕ). acc * t) p)

read_be-be_bytes :
    (n v : ℕ) (rest : List ℕ) → v < 256 ^ n → read_be n 0 (be_bytes n v ++ rest) ≡ some (v, rest)
read_be-be_bytes n v rest h =
    ap (λ k. read_be k 0 (be_bytes n v ++ rest)) (sym (length-be_bytes n v))
    ∙ read_be-of_be (be_bytes n v) rest 0
    ∙ ap (λ k. some (k, rest)) (of_be-be_bytes n v 0 h ∙ omega arith)

read_bytes_lem : (bs rest : List ℕ) → read_bytes (length bs) (bs ++ rest) ≡ some (bs, rest)
unfolding read_bytes
read_bytes_lem bs rest =
    let enough : leb (length bs) (length (bs ++ rest)) ≡ true =
      ground (arith, length-append bs rest) in
    rw (enough, take-append_self bs rest, drop-append_self bs rest)

-- The reader reads back an unsigned 64-bit integer from what the packer writes for it.
pub decode-enc_uint :
    (v : ℕ) (rest : List ℕ) → v < 2 ^ 64 → decode (enc_uint v ++ rest) ≡ some (uint v, rest)
unfolding decode read_tagged read_uint enc_uint
decode-enc_uint v rest h = elim (Bool-cases (ltb v 128)) [
  | inl fix ↦ rw fix (rw fix)
  | inr more ↦ elim (Bool-cases (leb v 0xff)) [
    | inl byte ↦ rw (more, byte) (unfold read_be in ap (λ k. some (uint k, rest)) (omega arith))
    | inr wide ↦ elim (Bool-cases (leb v 0xffff)) [
      | inl half ↦ rw (more, wide, half) (rw (read_be-be_bytes 2 v rest (ground arith)))
      | inr wider ↦ elim (Bool-cases (leb v 0xffff_ffff)) [
        | inl word ↦ rw (more, wide, wider, word) (rw (read_be-be_bytes 4 v rest (ground arith)))
        | inr widest ↦ rw (more, wide, wider, widest) (rw (read_be-be_bytes 8 v rest h))
      ]
    ]
  ]
]

pub decode-enc_map :
    (n : ℕ) (rest : List ℕ) → n < u16 → decode (enc_map n ++ rest) ≡ some (map n, rest)
unfolding decode read_tagged enc_map
decode-enc_map n rest h = elim (Bool-cases (leb n 15)) [
  | inl fix ↦
      let above : ltb (128 + n) 0x80 ≡ false = ground arith in
      let below : ltb (128 + n) 0x90 ≡ true = ground arith in
      let value : 128 + n - 0x80 ≡ n = omega arith in rw fix (rw (above, below, value))
  | inr wide ↦ rw wide (rw (read_be-be_bytes 2 n rest h))
]

pub decode-enc_str :
    (bs rest : List ℕ) → length bs < u32 → decode (enc_str bs ++ rest) ≡ some (str bs, rest)
unfolding decode read_tagged read_str str_head
decode-enc_str bs rest h = elim (Bool-cases (ltb (length bs) 32)) [
  | inl fix ↦
      let n : ℕ = length bs in
      let t1 : ltb (160 + n) 0x80 ≡ false = ground arith in
      let t2 : ltb (160 + n) 0x90 ≡ false = ground arith in
      let t3 : ltb (160 + n) 0xa0 ≡ false = ground arith in
      let t4 : ltb (160 + n) 0xc0 ≡ true = ground arith in
      let size : 160 + n - 0xa0 ≡ n = omega arith in
      rw fix (rw (t1, t2, t3, t4, size, read_bytes_lem bs rest))
  | inr more ↦ elim (Bool-cases (leb (length bs) 0xffff)) [
    | inl half ↦
        rw (more, half)
          (rw (
            append_assoc,
            read_be-be_bytes 2 (length bs) (bs ++ rest) (ground arith),
            read_bytes_lem bs rest,
          ))
    | inr wide ↦
        rw (more, wide)
          (rw (append_assoc, read_be-be_bytes 4 (length bs) (bs ++ rest) h, read_bytes_lem bs rest))
  ]
]

pub decode-enc_bin :
    (bs rest : List ℕ) → length bs < u16 → decode (enc_bin bs ++ rest) ≡ some (bin bs, rest)
unfolding decode read_tagged read_bin bin_head
decode-enc_bin bs rest h = elim (Bool-cases (leb (length bs) 0xff)) [
  | inl byte ↦
      let value : 0 * 256 + length bs ≡ length bs = omega arith in
      rw byte (unfold read_be in rw (value, read_bytes_lem bs rest))
  | inr wide ↦
      rw wide
        (rw (append_assoc, read_be-be_bytes 2 (length bs) (bs ++ rest) h, read_bytes_lem bs rest))
]
