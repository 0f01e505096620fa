-- ===== src/Span/Deliver.antt =====
-- What lumbre_span_finish does to the ring.
use lumbre_ext.Common.{
  ℕ, ◌+◌, ◌%◌, ◌^◌, ◌<◌, ◌≤◌, ◌≡◌, ◌≢◌, ◌↔◌, refl, ap, ◌∙◌, List, [], ◌∷◌, ◌++◌, append-nil, length,
  u32, Status, ok, error, true, false, Bool-cases, inl, inr, arith, ◌⊎◌,
}
use mathlib.Core.Path.{subst}
use lumbre_ext.Ring.Accept.{write_seen_accepts}
use native.Mathlib.Decide.{dec_le}
use lumbre_ext.Memory.{load, fetch, store, load-store_self, fetch-length}
use lumbre_ext.Ring.{RingBuf, write}
use lumbre_ext.Ring.Write.{IsValid, IsFresh, gap}
use lumbre_ext.Ring.Refine.{Holds, accepted, write_seen_refines}
use lumbre_ext.Msgpack.{Buf, reset}
use lumbre_ext.Msgpack.Emit.{appended, IsFine}
use lumbre_ext.Span.{Span, Context, Timespec, span_http_in}
use lumbre_ext.Span.Encode.{encode}
use lumbre_ext.Span.Fields.{message, IsSpan}
use lumbre_ext.Span.Valid.{timed_span, finished_span, finished_span-IsSpan}
use lumbre_ext.Span.Message.{encode-message, encode_overflow}
use lumbre_ext.Span.Finish.{
  Finished, written, failed, filtered, elapsed, is_filtered, restore_parent, deliver, of_status,
  finish,
}

-- What a finish with this result adds to the ring.
abbrev pub delivered : Finished → List ℕ → List (List ℕ)
delivered written bytes = bytes ∷ []
delivered failed bytes = []
delivered filtered bytes = []

pub reset-IsFine : (b : Buf) → b.capacity < 2 ^ 32 → IsFine (reset b)
unfolding reset
reset-IsFine b h = record { inside = omega arith; small = omega arith }

-- The bytes that go to the ring are the message.
packed :
    (b : Buf) (bs : List ℕ)
    → length bs ≤ b.capacity
    → b.capacity < 2 ^ 32
    → let b' = appended (reset b) bs in (load b'.bytes 0 b'.pos ≡ bs) × (b'.pos % u32 ≡ length bs)
unfolding reset
packed b bs fits small =
    let start : 0 + length bs ≡ length bs = omega arith in
    (ap (load (store b.bytes 0 bs) 0) start ∙ load-store_self b.bytes 0 bs, omega arith)

module _ (span : Span) (rb : RingBuf) (ctx : Context) (b : Buf) (w : IsSpan span)
    (small : b.capacity < 2 ^ 32) where
  -- A message that fits the buffer goes to the ring as it is.
  pub deliver_fits :
      length (message span) ≤ b.capacity
      → deliver span rb ctx (encode span (reset b)) ≡ (
          let r = write rb (message span) (length (message span)) in
          record {
            result = of_status r.0;
            span = span;
            rb = r.1;
            buf = appended (reset b) (message span);
            ctx = ctx;
          })
  unfolding deliver
  deliver_fits fits =
      let room : (reset b).pos + length (message span) ≤ (reset b).capacity =
        unfold reset in omega arith in
      let (bytes, size) = packed b (message span) fits small in
      rw (encode-message span (reset b) w (reset-IsFine b small) room, bytes, size) refl

  pub deliver_over :
      b.capacity < length (message span)
      → let r = deliver span rb ctx (encode span (reset b)) in (r.result ≡ failed) × (r.rb ≡ rb)
  unfolding deliver
  deliver_over over =
      go (encode span (reset b))
        (encode_overflow span (reset b) w (reset-IsFine b small) (unfold reset in omega arith)).0
    where
      go :
          (r : Status × Buf)
          → r.0 ≡ error
          → let d = deliver span rb ctx r in (d.result ≡ failed) × (d.rb ≡ rb)
      go (ok, b') e = absurd (cc e)
      go (error, b') e = (refl, refl)

write-Holds :
    (rb : RingBuf) {messages : List (List ℕ)} (bs : List ℕ)
    → Holds rb messages
    → IsFresh rb
    → let r = write rb bs (length bs) in Holds r.1 (messages ++ delivered (of_status r.0) bs)
unfolding write
write-Holds rb {messages} bs h fresh =
    agree (write rb bs (length bs))
      (write_seen_refines rb rb.header.read_pos bs (length bs) h fresh (omega arith))
  where
    agree :
        (r : Status × RingBuf)
        → Holds r.1 (messages ++ accepted r.0 (fetch bs (length bs)))
        → Holds r.1 (messages ++ delivered (of_status r.0) bs)
    agree (ok, rb') h' = subst (λ l. Holds rb' (messages ++ l ∷ [])) (fetch-length bs) h'
    agree (error, rb') h' = h'

-- For a well-formed span, a buffer below 2^32 bytes and a ring that holds `messages`, with
-- positions away from the end of 64 bits: a finish leaves a ring that holds the same messages,
-- followed by the message of the finished span exactly if it returns 0.
pub finish_refines :
    (started : Span) (rb : RingBuf) (b : Buf) (ctx : Context) (min max : ℕ) (now : Timespec)
    {messages : List (List ℕ)}
    → IsSpan started
    → b.capacity < 2 ^ 32
    → Holds rb messages
    → IsFresh rb
    → let r = finish started rb b ctx min max now in
      Holds r.rb (messages ++ delivered r.result (message (finished_span started max now)))
unfolding finish
finish_refines started rb b ctx min max now {messages} w small h fresh =
    let span = finished_span started max now in
    let w' : IsSpan span = finished_span-IsSpan started max now w in
    let ctx' = restore_parent ctx (timed_span started now) in
    elim (Bool-cases (is_filtered (timed_span started now) min)) [
      | inl e ↦ rw (e, append-nil messages) h
      | inr e ↦ elim (dec_le (length (message span)) b.capacity) [
        | yes fits ↦
            rw (e, deliver_fits span rb ctx' b w' small fits)
              (write-Holds rb (message span) h fresh)
        | no over ↦
            let (bad, same) = deliver_over span rb ctx' b w' small (omega arith) in
            rw (e, bad, same, append-nil messages) h
      ]
    ]

kept_lem :
    (span : Span) (min : ℕ)
    → (min ≡ 0) ⊎ (min ≤ span.duration_ns) ⊎ (span.span_type ≡ span_http_in)
    → is_filtered span min ≡ false
unfolding is_filtered
kept_lem span min kept = ground arith

is_filtered_lem :
    (span : Span) (min : ℕ)
    → is_filtered span min ≡ true
    → (0 < min) × (span.duration_ns < min) × (span.span_type ≢ span_http_in)
unfolding is_filtered
is_filtered_lem span min e = ground arith

unfiltered_lem :
    (span : Span) (min : ℕ)
    → is_filtered span min ≡ false
    → ¬ ((0 < min) × (span.duration_ns < min) × (span.span_type ≢ span_http_in))
unfolding is_filtered
unfiltered_lem span min e h = ground arith

-- For a well-formed span, a buffer below 2^32 bytes and a valid ring, with positions away from
-- the end of 64 bits: if there is no minimum duration, or the span lasts as long, or it is the
-- request's own span, and its message fits the buffer and, with its length and padding, the free
-- space of the ring, the finish returns 0.
pub finish_written :
    (started : Span) (rb : RingBuf) (b : Buf) (ctx : Context) (min max : ℕ) (now : Timespec)
    → IsSpan started
    → b.capacity < 2 ^ 32
    → IsValid rb
    → IsFresh rb
    → (min ≡ 0) ⊎ (min ≤ elapsed started now) ⊎ (started.span_type ≡ span_http_in)
    → let len = length (message (finished_span started max now)) in
      len ≤ b.capacity
      → rb.local_write_pos + gap rb len + (4 + len) ≤ rb.header.read_pos + rb.capacity
      → (finish started rb b ctx min max now).result ≡ written
unfolding finish
finish_written started rb b ctx min max now w small v fresh kept fits room =
    let span = finished_span started max now in
    let w' : IsSpan span = finished_span-IsSpan started max now w in
    let ctx' = restore_parent ctx (timed_span started now) in
    let e : is_filtered (timed_span started now) min ≡ false =
      kept_lem (timed_span started now) min kept in
    let done : (write rb (message span) (length (message span))).0 ≡ ok =
      unfold write in (write_seen_accepts rb rb.header.read_pos _ _ v fresh (omega arith) room).0 in
    rw (e, deliver_fits span rb ctx' b w' small fits, done) refl

of_status-unfiltered : (s : Status) → of_status s ≢ filtered
of_status-unfiltered ok h = absurd (cc h)
of_status-unfiltered error h = absurd (cc h)

deliver-unfiltered :
    (span : Span) (rb : RingBuf) (ctx : Context) (r : Status × Buf)
    → (deliver span rb ctx r).result ≢ filtered
unfolding deliver
deliver-unfiltered span rb ctx (error, b) h = absurd (cc h)
deliver-unfiltered span rb ctx (ok, b) h = of_status-unfiltered _ h

-- A finish returns 1 exactly if there is a minimum duration, the span is shorter, and it is not the
-- request's own span.
pub finish_filters :
    (started : Span) (rb : RingBuf) (b : Buf) (ctx : Context) (min max : ℕ) (now : Timespec)
    → ((finish started rb b ctx min max now).result ≡ filtered)
      ↔ ((0 < min) × (elapsed started now < min) × (started.span_type ≢ span_http_in))
unfolding finish
finish_filters started rb b ctx min max now =
    let timed = timed_span started now in
    elim (Bool-cases (is_filtered timed min)) [
      | inl e ↦ rw e ((λ h. is_filtered_lem timed min e), (λ h. refl))
      | inr e ↦ rw e (
        (λ h. absurd (deliver-unfiltered _ rb _ _ h)),
        (λ h. absurd (unfiltered_lem timed min e h)),
      )
    ]
