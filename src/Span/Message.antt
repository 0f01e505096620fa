-- ===== src/Span/Message.antt =====
-- What lumbre_span_encode writes, and that the reader reads it back.
use lumbre_ext.Common.{
  ℕ, ◌+◌, ◌^◌, ◌<◌, ◌≤◌, ◌≡◌, refl, ap, sym, ◌∙◌, [], append-nil, length, some, ◌==◌, ◌||◌, ok,
  error, Bool-cases, inl, inr, arith, ◌⊎◌, All, All-append,
}
use lumbre_ext.Memory.{length-fetch}
use lumbre_ext.Msgpack.{Buf}
use lumbre_ext.Msgpack.Emit.{appended, IsFine}
use lumbre_ext.Msgpack.Decode.{decode-enc_map}
use lumbre_ext.Span.{
  Span, span_http_in, span_http_out, span_db, span_redis, span_memcached, span_file_io, span_socket,
  span_func,
}
use lumbre_ext.Span.Encode.{encode}
use lumbre_ext.Span.Encoding.{encode-Emits, field_count-length, small_count}
use lumbre_ext.Span.Fields.{enc_pairs, common_pairs, specific_pairs, pairs, message, IsSpan}
use lumbre_ext.Span.Reader.{read_pairs, read_message, PairFits, read_pairs-enc_pairs, text-Fits}

module _ (span : Span) (w : IsSpan span) where
  common_fits : All PairFits (common_pairs span)
  common_fits = (
    (omega arith, omega (arith, w.span_type)),
    (
      (omega arith, omega (arith, length-fetch span.trace_id 16)),
      (
        (omega arith, w.span_id),
        (
          (omega arith, w.parent_id),
          ((omega arith, w.start_ns), ((omega arith, w.duration_ns), tt)),
        ),
      ),
    ),
  )

  specific_fits : All PairFits (specific_pairs span)
  unfolding specific_pairs
  specific_fits = elim (Bool-cases (span.span_type == span_http_in)) [
    | inl e ↦ rw e ((omega arith, text-Fits w.request_uri), ((omega arith, text-Fits w.method), tt))
    | inr e₁ ↦ elim (Bool-cases (span.span_type == span_http_out)) [
      | inl e ↦
          rw (e₁, e)
            (
              (omega arith, text-Fits w.url),
              (
                (omega arith, text-Fits w.method),
                ((omega arith, omega (arith, w.status_code)), tt),
              ),
            )
      | inr e₂ ↦ elim (Bool-cases (span.span_type == span_db)) [
        | inl e ↦
            rw (e₁, e₂, e)
              (
                (omega arith, text-Fits w.query),
                (
                  (omega arith, text-Fits w.db_type),
                  ((omega arith, omega (arith, w.rows_affected)), tt),
                ),
              )
        | inr e₃ ↦
            elim (Bool-cases (span.span_type == span_redis || span.span_type == span_memcached)) [
              | inl e ↦
                  rw (e₁, e₂, e₃, e)
                    (
                      (omega arith, text-Fits w.cache_cmd),
                      ((omega arith, text-Fits w.cache_key), tt),
                    )
              | inr e₄ ↦
                  elim (Bool-cases
                    (span.span_type == span_file_io || span.span_type == span_socket)) [
                      | inl e ↦ rw (e₁, e₂, e₃, e₄, e) ((omega arith, text-Fits w.url), tt)
                      | inr e₅ ↦ elim (Bool-cases (span.span_type == span_func)) [
                        | inl e ↦
                            rw (e₁, e₂, e₃, e₄, e₅, e)
                              (
                                (omega arith, text-Fits w.func_class),
                                (
                                  (omega arith, text-Fits w.func_name),
                                  (
                                    (omega arith, text-Fits w.func_file),
                                    ((omega arith, omega (arith, w.func_line)), tt),
                                  ),
                                ),
                              )
                        | inr e₆ ↦ rw (e₁, e₂, e₃, e₄, e₅, e₆) tt
                      ]
                    ]
            ]
      ]
    ]
  ]

-- The message of a span reads back as a map of exactly the span's pairs, in their order, with
-- nothing left over.
pub read_message-message :
    (span : Span) → IsSpan span → read_message (message span) ≡ some (pairs span, [])
unfolding read_message message
read_message-message span w =
    let count : length (pairs span) < 2 ^ 16 =
      rw (sym (field_count-length span w)) (small_count span w) in
    let all : All PairFits (pairs span) =
      unfold pairs in
      All-append PairFits (common_pairs span) (specific_pairs span) (common_fits span w)
        (specific_fits span w) in
    let body : read_pairs (length (pairs span)) (enc_pairs (pairs span)) ≡ some (pairs span, []) =
      ap (read_pairs (length (pairs span))) (sym (append-nil (enc_pairs (pairs span))))
      ∙ read_pairs-enc_pairs (pairs span) [] all in
    rw (decode-enc_map (length (pairs span)) (enc_pairs (pairs span)) count, body) refl

-- If the message of a well-formed span fits behind the position of a buffer whose position is
-- within its capacity, lumbre_span_encode returns 0 and the buffer is the old one with the
-- message appended.
pub encode-message :
    (span : Span) (b : Buf)
    → IsSpan span
    → IsFine b
    → b.pos + length (message span) ≤ b.capacity
    → encode span b ≡ (ok, appended b (message span))
encode-message span b w f fits = (encode-Emits span w b f).written fits

-- If the message of a well-formed span does not fit behind the position of a buffer whose
-- position is within its capacity, lumbre_span_encode returns -1, with the capacity unchanged and
-- the position within it.
pub encode_overflow :
    (span : Span) (b : Buf)
    → IsSpan span
    → IsFine b
    → b.capacity < b.pos + length (message span)
    → let (s, b') = encode span b in
      (s ≡ error) × (b'.capacity ≡ b.capacity) × (b'.pos ≤ b.capacity)
encode_overflow span b w f over =
    let e = encode-Emits span w b f in (e.overflows over, e.capacity_kept, e.pos_inside)

-- For a well-formed span and a buffer whose position is within its capacity, whatever
-- lumbre_span_encode returns, it changes no byte in front of the position and none from the
-- capacity on.
pub encode_confined :
    (span : Span) (b : Buf) (i : ℕ)
    → IsSpan span
    → IsFine b
    → (i < b.pos) ⊎ (b.capacity ≤ i)
    → (encode span b).1.bytes i ≡ b.bytes i
encode_confined span b i w f h = (encode-Emits span w b f).confined i h
