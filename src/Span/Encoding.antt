-- ===== src/Span/Encoding.antt =====
-- The steps of lumbre_span_encode against the message of the span.
use lumbre_ext.Common.{
  ℕ, ◌+◌, ◌<◌, ◌≡◌, refl, sym, List, [], ◌++◌, append-nil, length, Pointer, some, ◌==◌, ◌||◌, u16,
  Status, ok, Bool-cases, inl, inr, arith, le→leb,
}
use lumbre_ext.Memory.{fetch, store}
use lumbre_ext.Msgpack.{Buf, ◌>>=◌, pack_map, pack_str_kv, pack_uint_kv}
use lumbre_ext.Msgpack.Format.{enc_uint, enc_map, enc_str}
use lumbre_ext.Msgpack.Emit.{appended, IsFine, pack_map_lem}
use lumbre_ext.Memory.{pointed}
use lumbre_ext.Msgpack.Sequence.{
  Emits, emit-Emits, appended-IsFine, Emits-bind, pack_uint_kv-Emits, pack_str_kv-Emits,
  pack_bin_kv-Emits,
}
use lumbre_ext.Span.Mkey
use lumbre_ext.Span.{
  Span, span_http_in, span_http_out, span_db, span_redis, span_memcached, span_file_io, span_socket,
  span_func,
}
use lumbre_ext.Span.Encode.{
  field_count, encode_common, encode_http_in, encode_http_out, encode_db, encode_cache, encode_url,
  encode_func, encode_specific, encode,
}
use lumbre_ext.Span.Fields.{
  enc_pairs, enc_pairs-append, common_pairs, http_in_pairs, http_out_pairs, db_pairs, cache_pairs,
  url_pairs, func_pairs, specific_pairs, pairs, message, IsString, IsSpan,
}

-- A step of the packing that writes `bs` wherever it stands.
abbrev Packs : List ℕ → (Buf → Status × Buf) → Type 0
Packs bs step = (b : Buf) → IsFine b → Emits b bs (step b)

Packs-bind :
    {xs ys : List ℕ} {step next : Buf → Status × Buf}
    → Packs xs step
    → Packs ys next
    → Packs (xs ++ ys) (λ b. step b >>= next)
Packs-bind {xs} {ys} {step} {next} p q b f =
    Emits-bind b xs ys next (step b) (p b f) (λ fits. q (appended b xs) (appended-IsFine xs f fits))

-- The last step.
Packs-last : {xs : List ℕ} {step : Buf → Status × Buf} → Packs xs step → Packs (xs ++ []) step
Packs-last {xs} {step} p = rw (append-nil xs) p

text_step :
    (key : List ℕ) (n : ℕ) (p : Pointer) (len : ℕ)
    → length key ≡ n
    → n < 32
    → IsString p len
    → Packs
        (enc_str (fetch key n) ++ enc_str (pointed p len))
        (λ b. pack_str_kv b (some key) n p len)
text_step key n p len size small s b f =
    pack_str_kv-Emits b f (some key) n tt (omega arith) p len s.text s.short

uint_step :
    (key : List ℕ) (n v : ℕ)
    → length key ≡ n
    → n < 32
    → Packs (enc_str (fetch key n) ++ enc_uint v) (λ b. pack_uint_kv b (some key) n v)
uint_step key n v size small b f = pack_uint_kv-Emits b f (some key) n tt (omega arith) v

module _ (span : Span) (w : IsSpan span) where
  encode_common_lem : Packs (enc_pairs (common_pairs span)) (encode_common span)
  unfolding encode_common enc_pairs fetch
  encode_common_lem = Packs-bind (uint_step Mkey.type 1 span.span_type refl (omega arith)) (
      Packs-bind
        (λ b f.
          pack_bin_kv-Emits b f (some Mkey.trace_id) 3 tt (omega arith) (some span.trace_id) 16 tt
            (omega arith))
        (Packs-bind (uint_step Mkey.span_id 3 span.span_id refl (omega arith)) (
          Packs-bind (uint_step Mkey.parent_id 3 span.parent_id refl (omega arith)) (
            Packs-bind (uint_step Mkey.start_ns 1 span.start_ns refl (omega arith))
              (Packs-last (uint_step Mkey.duration 1 span.duration_ns refl (omega arith)))))))

  encode_http_in_lem : Packs (enc_pairs (http_in_pairs span)) (encode_http_in span)
  unfolding encode_http_in enc_pairs fetch
  encode_http_in_lem =
      Packs-bind (text_step Mkey.uri 3 _ _ refl (omega arith) w.request_uri)
        (Packs-last (text_step Mkey.method 3 _ _ refl (omega arith) w.method))

  encode_http_out_lem : Packs (enc_pairs (http_out_pairs span)) (encode_http_out span)
  unfolding encode_http_out enc_pairs fetch
  encode_http_out_lem = Packs-bind (text_step Mkey.url 3 _ _ refl (omega arith) w.url) (
      Packs-bind (text_step Mkey.method 3 _ _ refl (omega arith) w.method)
        (Packs-last (uint_step Mkey.status 2 span.status_code refl (omega arith))))

  encode_db_lem : Packs (enc_pairs (db_pairs span)) (encode_db span)
  unfolding encode_db enc_pairs fetch
  encode_db_lem = Packs-bind (text_step Mkey.query 1 _ _ refl (omega arith) w.query) (
      Packs-bind (text_step Mkey.db_type 3 _ _ refl (omega arith) w.db_type)
        (Packs-last (uint_step Mkey.rows 1 span.rows_affected refl (omega arith))))

  encode_cache_lem : Packs (enc_pairs (cache_pairs span)) (encode_cache span)
  unfolding encode_cache enc_pairs fetch
  encode_cache_lem =
      Packs-bind (text_step Mkey.cache_cmd 3 _ _ refl (omega arith) w.cache_cmd)
        (Packs-last (text_step Mkey.cache_key 1 _ _ refl (omega arith) w.cache_key))

  encode_url_lem : Packs (enc_pairs (url_pairs span)) (encode_url span)
  unfolding encode_url enc_pairs fetch
  encode_url_lem = Packs-last (text_step Mkey.url 3 _ _ refl (omega arith) w.url)

  encode_func_lem : Packs (enc_pairs (func_pairs span)) (encode_func span)
  unfolding encode_func enc_pairs fetch
  encode_func_lem = Packs-bind (text_step Mkey.func_class 3 _ _ refl (omega arith) w.func_class) (
      Packs-bind (text_step Mkey.func_name 2 _ _ refl (omega arith) w.func_name) (
        Packs-bind (text_step Mkey.func_file 1 _ _ refl (omega arith) w.func_file)
          (Packs-last (uint_step Mkey.func_line 1 span.func_line refl (omega arith)))))

  Packs-nothing : Packs [] (λ b. (ok, b))
  unfolding store
  Packs-nothing b f =
      let here : b.pos + 0 ≡ b.pos = omega arith in
      emit-Emits b [] _ f (rw (here, le→leb b.pos b.capacity f.inside) refl)

  encode_specific_lem : Packs (enc_pairs (specific_pairs span)) (encode_specific span)
  unfolding encode_specific specific_pairs
  encode_specific_lem = elim (Bool-cases (span.span_type == span_http_in)) [
    | inl e ↦ rw e encode_http_in_lem
    | inr e₁ ↦ elim (Bool-cases (span.span_type == span_http_out)) [
      | inl e ↦ rw (e₁, e) encode_http_out_lem
      | inr e₂ ↦ elim (Bool-cases (span.span_type == span_db)) [
        | inl e ↦ rw (e₁, e₂, e) encode_db_lem
        | inr e₃ ↦
            elim (Bool-cases (span.span_type == span_redis || span.span_type == span_memcached)) [
              | inl e ↦ rw (e₁, e₂, e₃, e) encode_cache_lem
              | inr e₄ ↦
                  elim (Bool-cases
                    (span.span_type == span_file_io || span.span_type == span_socket)) [
                      | inl e ↦ rw (e₁, e₂, e₃, e₄, e) encode_url_lem
                      | inr e₅ ↦ elim (Bool-cases (span.span_type == span_func)) [
                        | inl e ↦ rw (e₁, e₂, e₃, e₄, e₅, e) encode_func_lem
                        | inr e₆ ↦ rw (e₁, e₂, e₃, e₄, e₅, e₆) (unfold enc_pairs in Packs-nothing)
                      ]
                    ]
            ]
      ]
    ]
  ]

  pub field_count-length : field_count span.span_type ≡ length (pairs span)
  unfolding field_count pairs specific_pairs
  field_count-length = elim (Bool-cases (span.span_type == span_http_in)) [
    | inl e ↦ rw e refl
    | inr e₁ ↦ elim (Bool-cases (span.span_type == span_http_out)) [
      | inl e ↦ rw (e₁, e) refl
      | inr e₂ ↦ elim (Bool-cases (span.span_type == span_db)) [
        | inl e ↦ rw (e₁, e₂, e) refl
        | inr e₃ ↦
            elim (Bool-cases (span.span_type == span_redis || span.span_type == span_memcached)) [
              | inl e ↦ rw (e₁, e₂, e₃, e) refl
              | inr e₄ ↦
                  elim (Bool-cases
                    (span.span_type == span_file_io || span.span_type == span_socket)) [
                      | inl e ↦ rw (e₁, e₂, e₃, e₄, e) refl
                      | inr e₅ ↦ elim (Bool-cases (span.span_type == span_func)) [
                        | inl e ↦ rw (e₁, e₂, e₃, e₄, e₅, e) refl
                        | inr e₆ ↦ rw (e₁, e₂, e₃, e₄, e₅, e₆) refl
                      ]
                    ]
            ]
      ]
    ]
  ]

  pub small_count : field_count span.span_type < u16
  unfolding field_count
  small_count = ground arith

  -- The whole map, from any position of a buffer.
  pub encode-Emits : (b : Buf) → IsFine b → Emits b (message span) (encode span b)
  unfolding encode message pairs
  encode-Emits b f =
      let header : Packs (enc_map (field_count span.span_type))
          (λ b. pack_map b (field_count span.span_type)) =
        λ b f. emit-Emits b _ _ f (pack_map_lem b f (field_count span.span_type) small_count) in
      let whole = Packs-bind header (Packs-bind encode_common_lem encode_specific_lem) in
      rw (sym field_count-length, enc_pairs-append (common_pairs span) (specific_pairs span))
        (whole b f)
