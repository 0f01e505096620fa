-- ===== src/Span/Log.antt =====
-- A sequence of finishes of lumbre_span.c as a log of messages in the ring.
use lumbre_ext.Common.{
  ℕ, ◌^◌, ◌<◌, ◌≡◌, refl, ap, ◌∙◌, List, [], ◌∷◌, ◌++◌, length, Status, ok, error, leb,
  if◌then◌else◌, Bool, not, ◌==◌, ◌&&◌, ltb, le→leb, leb-false, Bool-cases, inl, inr, arith,
}
use native.Mathlib.Decide.{dec_le}
use lumbre_ext.Ring.{RingBuf, write}
use lumbre_ext.Msgpack.{Buf, reset}
use lumbre_ext.Span.{Span, Context, Timespec}
use lumbre_ext.Span.Encode.{encode}
use lumbre_ext.Span.Encoding.{encode-Emits}
use lumbre_ext.Span.Fields.{message, IsSpan}
use lumbre_ext.Span.Valid.{timed_span, finished_span, finished_span-IsSpan}
use lumbre_ext.Span.Deliver.{deliver_fits, deliver_over, reset-IsFine}
use lumbre_ext.Span.Finish.{is_filtered, restore_parent, deliver, finish}

-- A message that fits a buffer of `cap` bytes is written to the ring; another is not.
abbrev pub send : ℕ → RingBuf → List ℕ → RingBuf
send cap rb bs = if leb (length bs) cap then (write rb bs (length bs)).1 else rb

-- The ring after the messages of the spans.
unfoldable pub log : ℕ → RingBuf → List Span → RingBuf
log cap rb [] = rb
log cap rb (span ∷ rest) = log cap (send cap rb (message span)) rest

pub log-append :
    (cap : ℕ) (rb : RingBuf) (xs ys : List Span)
    → log cap rb (xs ++ ys) ≡ log cap (log cap rb xs) ys
unfolding log
log-append cap rb [] ys = refl
log-append cap rb (x ∷ xs) ys = log-append cap (send cap rb (message x)) xs ys

-- A span below the least duration that is not a request's own.
unfoldable pub is_short : Span → ℕ → Bool
is_short span min = not (span.span_type == 1) && ltb span.duration_ns min

is_filtered_short : (span : Span) (min : ℕ) → is_filtered span min ≡ is_short span min
unfolding is_filtered is_short
is_filtered_short span min = ground arith

-- What a finish reports: the span with its duration and its query cut, unless it is short.
unfoldable pub reported : ℕ → ℕ → Span → Timespec → List Span
reported min max started now =
    if is_short (timed_span started now) min then [] else finished_span started max now ∷ []

deliver-buf :
    (span : Span) (rb : RingBuf) (ctx : Context) (r : Status × Buf)
    → (deliver span rb ctx r).buf ≡ r.1
unfolding deliver
deliver-buf span rb ctx (error, b) = refl
deliver-buf span rb ctx (ok, b) = refl

module _ (started : Span) (rb : RingBuf) (b : Buf) (ctx : Context) (min max : ℕ) (now : Timespec)
    (w : IsSpan started) (small : b.capacity < 2 ^ 32) where
  pub finish-log :
      (finish started rb b ctx min max now).rb ≡ log b.capacity rb (reported min max started now)
  unfolding finish log reported
  finish-log =
      let span = finished_span started max now in
      let w' : IsSpan span = finished_span-IsSpan started max now w in
      let ctx' = restore_parent ctx (timed_span started now) in
      let short = is_filtered_short (timed_span started now) min in
      elim (Bool-cases (is_short (timed_span started now) min)) [
        | inl e ↦ rw (short, e) refl
        | inr e ↦ elim (dec_le (length (message span)) b.capacity) [
          | yes fits ↦
              rw (short, e, deliver_fits span rb ctx' b w' small fits, le→leb _ _ fits) refl
          | no over ↦
              let (bad, same) = deliver_over span rb ctx' b w' small (omega arith) in
              rw (short, e, leb-false (length (message span)) b.capacity (omega arith)) same
        ]
      ]

  pub finish-capacity : (finish started rb b ctx min max now).buf.capacity ≡ b.capacity
  unfolding finish
  finish-capacity =
      let span = finished_span started max now in
      let w' : IsSpan span = finished_span-IsSpan started max now w in
      elim (Bool-cases (is_filtered (timed_span started now) min)) [
        | inl e ↦ rw e refl
        | inr e ↦ rw e (
            ap (λ (x : Buf). x.capacity) (deliver-buf span rb _ (encode span (reset b)))
            ∙ (encode-Emits span w' (reset b) (reset-IsFine b small)).capacity_kept
            ∙ unfold reset in refl)
      ]
