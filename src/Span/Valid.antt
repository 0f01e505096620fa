-- ===== src/Span/Valid.antt =====
-- The span as lumbre_span_finish times and packs it, and its well-formedness.
use lumbre_ext.Common.{ℕ, ◌<◌, Pointer, some, none, ◌==◌, ◌&&◌, ltb, Bool-cases, inl, inr, arith}
use lumbre_ext.Span.{Span, Timespec, span_db}
use lumbre_ext.Span.Fields.{IsString, IsSpan}
use lumbre_ext.Span.Finish.{elapsed, truncate_query}

-- The span with its duration, and as it is packed.
abbrev pub timed_span : Span → Timespec → Span
timed_span started now = record started { duration_ns = elapsed started now }

abbrev pub finished_span : Span → ℕ → Timespec → Span
finished_span started max_query_len now = truncate_query (timed_span started now) max_query_len

pub timed_span-IsSpan :
    (started : Span) (now : Timespec) → IsSpan started → IsSpan (timed_span started now)
unfolding elapsed
timed_span-IsSpan started now w = record {
  span_type = w.span_type;
  span_id = w.span_id;
  parent_id = w.parent_id;
  start_ns = w.start_ns;
  duration_ns = omega arith;
  status_code = w.status_code;
  rows_affected = w.rows_affected;
  func_line = w.func_line;
  url = w.url;
  method = w.method;
  query = w.query;
  db_type = w.db_type;
  cache_cmd = w.cache_cmd;
  cache_key = w.cache_key;
  func_class = w.func_class;
  func_name = w.func_name;
  func_file = w.func_file;
  request_uri = w.request_uri;
}

pub truncated-IsString :
    (p : Pointer) (len max_len : ℕ) → max_len < len → IsString p len → IsString p max_len
truncated-IsString none len max_len h s = absurd (omega (arith, s.text))
truncated-IsString (some object) len max_len h s = record {
  text = tt;
  short = omega (arith, s.short);
}

truncate_query-IsSpan :
    (span : Span) (max_query_len : ℕ) → IsSpan span → IsSpan (truncate_query span max_query_len)
unfolding truncate_query
truncate_query-IsSpan span max w =
    elim (Bool-cases (span.span_type == span_db && ltb 0 max && ltb max span.query_len)) [
      | inl e ↦ rw e (record {
        span_type = w.span_type;
        span_id = w.span_id;
        parent_id = w.parent_id;
        start_ns = w.start_ns;
        duration_ns = w.duration_ns;
        status_code = w.status_code;
        rows_affected = w.rows_affected;
        func_line = w.func_line;
        url = w.url;
        method = w.method;
        query = truncated-IsString span.query span.query_len max (ground arith) w.query;
        db_type = w.db_type;
        cache_cmd = w.cache_cmd;
        cache_key = w.cache_key;
        func_class = w.func_class;
        func_name = w.func_name;
        func_file = w.func_file;
        request_uri = w.request_uri;
      })
      | inr e ↦ rw e w
    ]

pub finished_span-IsSpan :
    (started : Span) (max : ℕ) (now : Timespec)
    → IsSpan started
    → IsSpan (finished_span started max now)
finished_span-IsSpan started max now w =
    truncate_query-IsSpan (timed_span started now) max (timed_span-IsSpan started now w)
