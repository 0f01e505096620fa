-- ===== src/Msgpack/Strings.antt =====
-- lumbre_msgpack_pack_str and lumbre_msgpack_pack_bin against the format.
use lumbre_ext.Common.{
  ℕ, ◌+◌, ◌%◌, ◌^◌, ◌<◌, ◌≡◌, refl, ap, sym, ◌∙◌, List, ◌++◌, none, some, inl, inr, ok, error,
  Pointer, u16, u32, length, length-append, ltb, leb, if◌then◌else◌, true, Bool-cases, arith,
}
use lumbre_ext.Memory.{pointed, store, fetch, length-fetch}
use lumbre_ext.Bits.{tag_str}
use lumbre_ext.Msgpack.{Buf, has_space, put_byte, put_body, pack_str, pack_bin}
use lumbre_ext.Msgpack.Format.{length-be_bytes, str_head, bin_head, enc_str, enc_bin}
use lumbre_ext.Msgpack.Emit.{
  appended, appended-append, emit, IsFine, checked, tagged, put_byte_lem, put16_lem, put32_lem,
}

-- NULL comes with length 0.
abbrev pub IsText : Pointer → ℕ → Type 0
IsText none len = len ≡ 0
IsText (some object) len = Unit {0}

pub length-pointed : (p : Pointer) (len : ℕ) → IsText p len → length (pointed p len) ≡ len
length-pointed none len t = sym t
length-pointed (some object) len t = length-fetch object len

put_body_lem :
    (b : Buf) (p : Pointer) (len : ℕ) → IsText p len → put_body b p len ≡ appended b (pointed p len)
unfolding put_body store
put_body_lem b none len t = ap (λ n. record b { pos = n }) (omega arith)
put_body_lem b (some object) len t = elim (Bool-cases (ltb 0 len)) [
  | inl more ↦ rw (more, length-fetch object len)
  | inr empty ↦
      let z : len ≡ 0 = ground arith in
      rw z (unfold fetch in ap (λ n. record b { pos = n }) (omega arith))
]

-- A header and a body.
headed :
    (b b' : Buf) (head : List ℕ) (p : Pointer) (len : ℕ)
    → IsText p len
    → b' ≡ appended b head
    → put_body b' p len ≡ appended b (head ++ pointed p len)
headed b b' head p len t e =
    put_body_lem b' p len t
    ∙ ap (λ c. appended c (pointed p len)) e
    ∙ appended-append b head (pointed p len)

module _ (b : Buf) (f : IsFine b) (p : Pointer) (len : ℕ) (t : IsText p len) where
  -- The check of the space for `n` bytes of header and the body.
  body_checked :
      (b' : Buf) (n : ℕ) (head : List ℕ)
      → length head ≡ n
      → n + len < 2 ^ 32
      → b' ≡ appended b head
      → (if has_space b ((n + len) % u32) then (ok, put_body b' p len) else (error, b))
        ≡ emit b (head ++ pointed p len)
  body_checked b' n head size small e =
      let nowrap : (n + len) % u32 ≡ n + len = omega arith in
      let total : n + len ≡ length (head ++ pointed p len) =
        omega (arith, length-append head (pointed p len), length-pointed p len t) in
      rw nowrap (
        checked b (put_body b' p len) (n + len) _ f total (omega arith)
          (headed b b' head p len t e))

  -- On a buffer whose position is within its capacity, packing a string (NULL only with length 0)
  -- whose length and 5 fit 32 bits appends the format's header and the string's bytes if they fit
  -- behind the position; otherwise it returns -1 and changes nothing.
  pub pack_str_lem : len + 5 < 2 ^ 32 → pack_str b p len ≡ emit b (enc_str (pointed p len))
  unfolding pack_str str_head
  pack_str_lem small = rw (length-pointed p len t) (elim (Bool-cases (ltb len 32)) [
    | inl fix ↦
        rw (fix, tag_str len (ground arith))
          (body_checked _ 1 _ refl (omega arith) (put_byte_lem b (160 + len) (ground arith)))
    | inr more ↦ elim (Bool-cases (leb len 0xffff)) [
      | inl half ↦
          rw (more, half)
            (body_checked _ 3 _ (omega (arith, length-be_bytes 2 len)) (omega arith)
              (tagged b _ 0xda _ (omega arith) (put16_lem (put_byte b 0xda) len (ground arith))))
      | inr wide ↦
          rw (more, wide)
            (body_checked _ 5 _ (omega (arith, length-be_bytes 4 len)) (omega arith)
              (tagged b _ 0xdb _ (omega arith) (put32_lem (put_byte b 0xdb) len (omega arith))))
    ]
  ])

  -- Packing a binary object of fewer than 2^16 bytes appends the format's header and the object's
  -- bytes if they fit behind the position; otherwise it returns -1 and changes nothing.
  pub pack_bin_lem : len < u16 → pack_bin b p len ≡ emit b (enc_bin (pointed p len))
  unfolding pack_bin bin_head
  pack_bin_lem small = rw (length-pointed p len t) (elim (Bool-cases (leb len 0xff)) [
    | inl byte ↦ rw byte (
        body_checked _ 2 _ refl (omega arith)
          (tagged b _ 0xc4 _ (omega arith) (put_byte_lem (put_byte b 0xc4) len (ground arith))))
    | inr wide ↦
        let half : leb len 0xffff ≡ true = ground arith in
        rw (wide, half)
          (body_checked _ 3 _ (omega (arith, length-be_bytes 2 len)) (omega arith)
            (tagged b _ 0xc5 _ (omega arith) (put16_lem (put_byte b 0xc5) len small)))
  ])
