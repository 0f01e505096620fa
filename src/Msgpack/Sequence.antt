-- ===== src/Msgpack/Sequence.antt =====
-- Packers of lumbre_msgpack.c one after the other.
use lumbre_ext.Common.{
  ℕ, ◌+◌, ◌^◌, ◌≤◌, ◌<◌, ◌≡◌, ◌⊎◌, inl, inr, refl, ap, ◌∙◌, List, ◌++◌, Status, ok, error, Pointer,
  length, length-append, le→leb, leb-false, u16, arith,
}
use native.Mathlib.Decide.{dec_le}
use lumbre_ext.Memory.{store_below, store_above}
use lumbre_ext.Msgpack.{
  Buf, ◌>>=◌, pack_str, pack_uint, pack_bin, pack_str_kv, pack_uint_kv, pack_bin_kv,
}
use lumbre_ext.Msgpack.Format.{enc_uint, enc_str, enc_bin}
use lumbre_ext.Msgpack.Emit.{appended, appended-append, emit, IsFine, pack_uint_lem}
use lumbre_ext.Memory.{pointed}
use lumbre_ext.Msgpack.Strings.{IsText, pack_str_lem, pack_bin_lem}

-- `r` is what comes of appending `bs` to `b`: if they fit, they are appended, and nothing else is
-- written; if not, the status says so, and nothing is written in front of the position or from the
-- capacity on.
pub record Emits (b : Buf) (bs : List ℕ) (r : Status × Buf) : Type 0 where
  pub written : b.pos + length bs ≤ b.capacity → r ≡ (ok, appended b bs)
  pub overflows : b.capacity < b.pos + length bs → r.0 ≡ error
  pub capacity_kept : r.1.capacity ≡ b.capacity
  pub pos_inside : r.1.pos ≤ b.capacity
  pub confined : (i : ℕ) → (i < b.pos) ⊎ (b.capacity ≤ i) → r.1.bytes i ≡ b.bytes i

appended_confined :
    (b : Buf) (bs : List ℕ) (i : ℕ)
    → b.pos + length bs ≤ b.capacity
    → (i < b.pos) ⊎ (b.capacity ≤ i)
    → (appended b bs).bytes i ≡ b.bytes i
appended_confined b bs i fits (inl before) = store_below b.bytes b.pos i bs before
appended_confined b bs i fits (inr behind) = store_above b.bytes b.pos i bs (omega arith)

pub emit-Emits :
    (b : Buf) (bs : List ℕ) (r : Status × Buf) → IsFine b → r ≡ emit b bs → Emits b bs r
emit-Emits b bs r f e = elim (dec_le (b.pos + length bs) b.capacity) [
  | yes fits ↦
      let done : r ≡ (ok, appended b bs) = e ∙ rw (le→leb _ _ fits) in
      rw done (record {
        written = λ h. refl;
        overflows = λ h. absurd (omega arith);
        capacity_kept = refl;
        pos_inside = fits;
        confined = λ i h. appended_confined b bs i fits h;
      })
  | no full ↦
      let over : b.capacity < b.pos + length bs = omega arith in
      let stopped : r ≡ (error, b) = e ∙ rw (leb-false _ _ over) in
      rw stopped (record {
        written = λ h. absurd (omega arith);
        overflows = λ h. refl;
        capacity_kept = refl;
        pos_inside = f.inside;
        confined = λ i h. refl;
      })
]

pub appended-IsFine :
    {b : Buf} (bs : List ℕ) → IsFine b → b.pos + length bs ≤ b.capacity → IsFine (appended b bs)
appended-IsFine bs f h = record { inside = h; small = f.small }

module _ (b : Buf) (xs ys : List ℕ) (k : Buf → Status × Buf) where
  after_error :
      (b' : Buf)
      → Emits b xs (error, b')
      → b.capacity < b.pos + length xs
      → Emits b (xs ++ ys) (error, b')
  after_error b' e over = record {
    written = λ h. absurd (omega (arith, length-append xs ys));
    overflows = λ h. refl;
    capacity_kept = e.capacity_kept;
    pos_inside = e.pos_inside;
    confined = e.confined;
  }

  after_ok :
      b.pos + length xs ≤ b.capacity
      → Emits (appended b xs) ys (k (appended b xs))
      → Emits b (xs ++ ys) (k (appended b xs))
  after_ok fits e = record {
    written = λ h.
        e.written (omega (arith, length-append xs ys))
        ∙ ap (λ c. (ok, c)) (appended-append b xs ys);
    overflows = λ h. e.overflows (omega (arith, length-append xs ys));
    capacity_kept = e.capacity_kept;
    pos_inside = e.pos_inside;
    confined = λ i h. e.confined i (later i h) ∙ appended_confined b xs i fits h;
  }
    where
      later : (i : ℕ) → (i < b.pos) ⊎ (b.capacity ≤ i) → (i < b.pos + length xs) ⊎ (b.capacity ≤ i)
      later i (inl before) = inl (omega arith)
      later i (inr behind) = inr behind

  pub Emits-bind :
      (r : Status × Buf)
      → Emits b xs r
      → (b.pos + length xs ≤ b.capacity → Emits (appended b xs) ys (k (appended b xs)))
      → Emits b (xs ++ ys) (r >>= k)
  Emits-bind r e rest = elim (dec_le (b.pos + length xs) b.capacity) [
    | yes fits ↦ rw (e.written fits) (after_ok fits (rest fits))
    | no full ↦ failed r e (e.overflows (omega arith)) (omega arith)
  ]
    where
      failed :
          (r : Status × Buf)
          → Emits b xs r
          → r.0 ≡ error
          → b.capacity < b.pos + length xs
          → Emits b (xs ++ ys) (r >>= k)
      failed (ok, b') e bad over = cc
      failed (error, b') e bad over = after_error b' e over

module _ (b : Buf) (f : IsFine b) where
  pub pack_uint-Emits : (v : ℕ) → Emits b (enc_uint v) (pack_uint b v)
  pack_uint-Emits v = emit-Emits b _ _ f (pack_uint_lem b f v)

  pub pack_str-Emits :
      (p : Pointer) (len : ℕ)
      → IsText p len
      → len + 5 < 2 ^ 32
      → Emits b (enc_str (pointed p len)) (pack_str b p len)
  pack_str-Emits p len t h = emit-Emits b _ _ f (pack_str_lem b f p len t h)

  pub pack_bin-Emits :
      (p : Pointer) (len : ℕ)
      → IsText p len
      → len < u16
      → Emits b (enc_bin (pointed p len)) (pack_bin b p len)
  pack_bin-Emits p len t h = emit-Emits b _ _ f (pack_bin_lem b f p len t h)

-- A key and its value.
module _ (b : Buf) (f : IsFine b) (key : Pointer) (key_len : ℕ) (tk : IsText key key_len)
    (hk : key_len + 5 < 2 ^ 32) where
  pub pack_uint_kv-Emits :
      (v : ℕ) → Emits b (enc_str (pointed key key_len) ++ enc_uint v) (pack_uint_kv b key key_len v)
  unfolding pack_uint_kv
  pack_uint_kv-Emits v =
      Emits-bind b _ _ (λ b'. pack_uint b' v) _ (pack_str-Emits b f key key_len tk hk)
        (λ h. pack_uint-Emits _ (appended-IsFine _ f h) v)

  pub pack_str_kv-Emits :
      (p : Pointer) (len : ℕ)
      → IsText p len
      → len + 5 < 2 ^ 32
      → Emits b
          (enc_str (pointed key key_len) ++ enc_str (pointed p len))
          (pack_str_kv b key key_len p len)
  unfolding pack_str_kv
  pack_str_kv-Emits p len t h =
      Emits-bind b _ _ (λ b'. pack_str b' p len) _ (pack_str-Emits b f key key_len tk hk)
        (λ fits. pack_str-Emits _ (appended-IsFine _ f fits) p len t h)

  pub pack_bin_kv-Emits :
      (p : Pointer) (len : ℕ)
      → IsText p len
      → len < u16
      → Emits b
          (enc_str (pointed key key_len) ++ enc_bin (pointed p len))
          (pack_bin_kv b key key_len p len)
  unfolding pack_bin_kv
  pack_bin_kv-Emits p len t h =
      Emits-bind b _ _ (λ b'. pack_bin b' p len) _ (pack_str-Emits b f key key_len tk hk)
        (λ fits. pack_bin-Emits _ (appended-IsFine _ f fits) p len t h)
