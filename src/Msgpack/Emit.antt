-- ===== src/Msgpack/Emit.antt =====
-- lumbre_msgpack_pack_map and lumbre_msgpack_pack_uint against the format.
use lumbre_ext.Common.{
  ℕ, zero, suc, ◌+◌, ◌/◌, ◌%◌, ◌^◌, ◌≤◌, ◌<◌, ◌≡◌, refl, ap, ◌∙◌, List, [], ◌∷◌, ◌++◌, inl, inr,
  Status, ok, error, u16, u32, u64, length, length-append, ltb, leb, if◌then◌else◌, Bool-cases,
  arith,
}
use mathlib.Core.Path.{ap₂}
use mathlib.Core.List.{reverse, reverse-append}
use lumbre_ext.Memory.{store, le_bytes, bswap, le_bytes-bswap, store-append}
use lumbre_ext.Bits.{tag_map}
use lumbre_ext.Msgpack.{
  Buf, has_space, put_byte, put16, put32, put64, store16, store32, store64, pack_map, pack_uint,
}
use lumbre_ext.Msgpack.Format.{be_bytes, length-be_bytes, enc_uint, enc_map}

-- The buffer with `bs` written at the position.
abbrev pub appended : Buf → List ℕ → Buf
appended b bs = record b { bytes = store b.bytes b.pos bs; pos = b.pos + length bs }

abbrev pub emit : Buf → List ℕ → Status × Buf
emit b bs = if leb (b.pos + length bs) b.capacity then (ok, appended b bs) else (error, b)

-- The position is within the capacity, and the capacity far from the end of `size_t`.
pub record IsFine (b : Buf) : Type 0 where
  pub inside : b.pos ≤ b.capacity
  pub small : b.capacity < 2 ^ 63

pub appended-append :
    (b : Buf) (xs ys : List ℕ) → appended (appended b xs) ys ≡ appended b (xs ++ ys)
appended-append b xs ys =
    ap₂ (λ m n. record b { bytes = m; pos = n }) (store-append b.bytes b.pos xs ys)
      (omega (arith, length-append xs ys))

reverse-le_bytes : (n v : ℕ) → reverse (le_bytes n v) ≡ be_bytes n v
unfolding le_bytes be_bytes
reverse-le_bytes zero v = refl
reverse-le_bytes (suc n) v =
    reverse-append (v % 256 ∷ []) (le_bytes n (v / 256))
    ∙ ap (λ l. l ++ v % 256 ∷ []) (reverse-le_bytes n (v / 256))

-- Byte-swapped and copied, an integer lies highest byte first.
le_be : (n v : ℕ) → le_bytes n (bswap n v) ≡ be_bytes n v
le_be n v = le_bytes-bswap n v ∙ reverse-le_bytes n v

pub put_byte_lem : (b : Buf) (v : ℕ) → v < 256 → put_byte b v ≡ appended b (v ∷ [])
unfolding put_byte
put_byte_lem b v h = let e : v % 256 ≡ v = omega arith in rw e refl

pub put16_lem : (b : Buf) (v : ℕ) → v < u16 → put16 b v ≡ appended b (be_bytes 2 v)
unfolding store16
put16_lem b v h =
    let e : v % u16 ≡ v = omega arith in
    rw (e, le_be)
      (ap (λ n. record b { bytes = store b.bytes b.pos (be_bytes 2 v); pos = n })
        (omega (arith, length-be_bytes 2 v)))

pub put32_lem : (b : Buf) (v : ℕ) → v < u32 → put32 b v ≡ appended b (be_bytes 4 v)
unfolding store32
put32_lem b v h =
    let e : v % u32 ≡ v = omega arith in
    rw (e, le_be)
      (ap (λ n. record b { bytes = store b.bytes b.pos (be_bytes 4 v); pos = n })
        (omega (arith, length-be_bytes 4 v)))

put64_lem : (b : Buf) (v : ℕ) → put64 b v ≡ appended b (be_bytes 8 v)
unfolding store64
put64_lem b v = rw le_be (
    ap (λ n. record b { bytes = store b.bytes b.pos (be_bytes 8 v); pos = n })
      (omega (arith, length-be_bytes 8 v)))

-- A tag byte and what follows it.
pub tagged :
    (b b' : Buf) (tag : ℕ) (bs : List ℕ)
    → tag < 256
    → b' ≡ appended (put_byte b tag) bs
    → b' ≡ appended b (tag ∷ bs)
tagged b b' tag bs h e =
    e ∙ ap (λ c. appended c bs) (put_byte_lem b tag h) ∙ appended-append b (tag ∷ []) bs

-- The check of the space in front of a write.
pub checked :
    (b b' : Buf) (n : ℕ) (bs : List ℕ)
    → IsFine b
    → n ≡ length bs
    → n < 2 ^ 63
    → b' ≡ appended b bs
    → (if has_space b n then (ok, b') else (error, b)) ≡ emit b bs
unfolding has_space
checked b b' n bs f size small e =
    let nowrap : (b.pos + n) % u64 ≡ b.pos + n = omega arith in rw (nowrap, size, e)

module _ (b : Buf) (f : IsFine b) where
  -- One byte; a tag with 1, 2, 4 or 8 bytes of an integer.
  one_byte :
      (v : ℕ)
      → v < 256
      → (if has_space b 1 then (ok, put_byte b v) else (error, b)) ≡ emit b (v ∷ [])
  one_byte v h = checked b (put_byte b v) 1 (v ∷ []) f refl (omega arith) (put_byte_lem b v h)

  two_bytes :
      (tag v : ℕ)
      → tag < 256
      → v < 256
      → (if has_space b 2 then (ok, put_byte (put_byte b tag) v) else (error, b))
        ≡ emit b (tag ∷ v ∷ [])
  two_bytes tag v ht h =
      checked b (put_byte (put_byte b tag) v) 2 (tag ∷ v ∷ []) f refl (omega arith)
        (tagged b _ tag (v ∷ []) ht (put_byte_lem (put_byte b tag) v h))

  tagged16 :
      (tag v : ℕ)
      → tag < 256
      → v < u16
      → (if has_space b 3 then (ok, put16 (put_byte b tag) v) else (error, b))
        ≡ emit b (tag ∷ be_bytes 2 v)
  tagged16 tag v ht h =
      checked b (put16 (put_byte b tag) v) 3 (tag ∷ be_bytes 2 v) f
        (omega (arith, length-be_bytes 2 v)) (omega arith)
        (tagged b _ tag (be_bytes 2 v) ht (put16_lem (put_byte b tag) v h))

  tagged32 :
      (tag v : ℕ)
      → tag < 256
      → v < u32
      → (if has_space b 5 then (ok, put32 (put_byte b tag) v) else (error, b))
        ≡ emit b (tag ∷ be_bytes 4 v)
  tagged32 tag v ht h =
      checked b (put32 (put_byte b tag) v) 5 (tag ∷ be_bytes 4 v) f
        (omega (arith, length-be_bytes 4 v)) (omega arith)
        (tagged b _ tag (be_bytes 4 v) ht (put32_lem (put_byte b tag) v h))

  tagged64 :
      (tag v : ℕ)
      → tag < 256
      → (if has_space b 9 then (ok, put64 (put_byte b tag) v) else (error, b))
        ≡ emit b (tag ∷ be_bytes 8 v)
  tagged64 tag v ht =
      checked b (put64 (put_byte b tag) v) 9 (tag ∷ be_bytes 8 v) f
        (omega (arith, length-be_bytes 8 v)) (omega arith)
        (tagged b _ tag (be_bytes 8 v) ht (put64_lem (put_byte b tag) v))

  -- Packing a map header appends the format's bytes if they fit behind the position; otherwise it
  -- returns -1 and changes nothing.
  pub pack_map_lem : (count : ℕ) → count < u16 → pack_map b count ≡ emit b (enc_map count)
  unfolding pack_map enc_map
  pack_map_lem count h = elim (Bool-cases (leb count 15)) [
    | inl short ↦ rw (short, tag_map count (ground arith)) (one_byte (128 + count) (ground arith))
    | inr long ↦ rw long (tagged16 0xde count (omega arith) h)
  ]

  -- On a buffer whose position is within its capacity, packing an unsigned integer appends the
  -- format's bytes if they fit behind the position; otherwise it returns -1 and changes nothing.
  pub pack_uint_lem : (v : ℕ) → pack_uint b v ≡ emit b (enc_uint v)
  unfolding pack_uint enc_uint
  pack_uint_lem v = elim (Bool-cases (ltb v 128)) [
    | inl fix ↦ rw fix (one_byte v (ground arith))
    | inr more ↦ elim (Bool-cases (leb v 0xff)) [
      | inl byte ↦ rw (more, byte) (two_bytes 0xcc v (omega arith) (ground arith))
      | inr wide ↦ elim (Bool-cases (leb v 0xffff)) [
        | inl half ↦ rw (more, wide, half) (tagged16 0xcd v (omega arith) (ground arith))
        | inr wider ↦ elim (Bool-cases (leb v 0xffff_ffff)) [
          | inl word ↦ rw (more, wide, wider, word) (tagged32 0xce v (omega arith) (ground arith))
          | inr widest ↦ rw (more, wide, wider, widest) (tagged64 0xcf v (omega arith))
        ]
      ]
    ]
  ]
