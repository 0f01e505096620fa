-- ===== src/Span/Finish.antt =====
-- lumbre_span_finish: the duration, the filter, the unwinding of the parent, the packing and the
-- write.
use lumbre_ext.Common.{
  ℕ, ◌+◌, ◌-◌, ◌%◌, Bool, Status, ok, error, u32, u64, ltb, ◌==◌, ◌&&◌, not, if◌then◌else◌,
}
use lumbre_ext.Memory.{load}
use lumbre_ext.Ring.{RingBuf, write}
use lumbre_ext.Msgpack.{Buf, reset}
use lumbre_ext.Span.{Span, Context, Timespec, clock_ns, span_http_in, span_db}
use lumbre_ext.Span.Encode.{encode}

-- The returned 0, -1 and 1.
pub data Finished : Type 0 where
  written : Finished
  failed : Finished
  filtered : Finished

-- What the call returns and leaves.
pub record Finish : Type 0 where
  pub result : Finished
  pub span : Span
  pub rb : RingBuf
  pub buf : Buf
  pub ctx : Context

-- `lumbre_clock_ns() - span->start_ns`
unfoldable pub elapsed : Span → Timespec → ℕ
elapsed span now = (clock_ns now + u64 - span.start_ns) % u64

unfoldable pub is_filtered : Span → ℕ → Bool
is_filtered span min_duration_ns =
    ltb 0 min_duration_ns
    && ltb span.duration_ns min_duration_ns
    && not (span.span_type == span_http_in)

unfoldable pub restore_parent : Context → Span → Context
restore_parent ctx span = record ctx { current_parent_id = span.parent_id }

unfoldable pub truncate_query : Span → ℕ → Span
truncate_query span max_query_len =
    if span.span_type == span_db && ltb 0 max_query_len && ltb max_query_len span.query_len
    then record span { query_len = max_query_len }
    else span

abbrev pub of_status : Status → Finished
of_status ok = written
of_status error = failed

-- The write to the ring after the packing.
unfoldable pub deliver : Span → RingBuf → Context → Status × Buf → Finish
deliver span rb ctx (error, b) = record {
  result = failed;
  span = span;
  rb = rb;
  buf = b;
  ctx = ctx;
}
deliver span rb ctx (ok, b) =
    let r = write rb (load b.bytes 0 b.pos) (b.pos % u32) in
    record { result = of_status r.0; span = span; rb = r.1; buf = b; ctx = ctx }

unfoldable pub finish : Span → RingBuf → Buf → Context → ℕ → ℕ → Timespec → Finish
finish started rb b ctx min_duration_ns max_query_len now =
    let timed = record started { duration_ns = elapsed started now } in
    let ctx' = restore_parent ctx timed in
    if is_filtered timed min_duration_ns
    then record { result = filtered; span = timed; rb = rb; buf = b; ctx = ctx' }
    else (let span = truncate_query timed max_query_len in
        deliver span rb ctx' (encode span (reset b)))
