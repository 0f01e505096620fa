-- ===== src/Span.antt =====
-- The types of lumbre_span.h and the request context and span start of lumbre_span.c. The clock's
-- reading and the random source are arguments.
pub mod Setters
pub mod Mkey
pub mod Encode
pub mod Finish
pub mod Fields
pub mod Encoding
pub mod Reader
pub mod Message
pub mod RoundTrip
mod Tests
pub mod Valid
pub mod Deliver
pub mod Log
pub mod Queue
pub mod Complete
use lumbre_ext.Common.{
  ℕ, ◌+◌, ◌*◌, ◌%◌, ◌^◌, Bool, true, false, List, [], ◌∷◌, Option, none, some, Pointer, u64, ◌==◌,
  if◌then◌else◌, replicate,
}
use lumbre_ext.Memory.{fetch}

-- `LUMBRE_SPAN_*`
abbrev pub span_http_in : ℕ
span_http_in = 1

abbrev pub span_http_out : ℕ
span_http_out = 2

abbrev pub span_db : ℕ
span_db = 3

abbrev pub span_redis : ℕ
span_redis = 4

abbrev pub span_memcached : ℕ
span_memcached = 5

abbrev pub span_file_io : ℕ
span_file_io = 6

abbrev pub span_socket : ℕ
span_socket = 7

abbrev pub span_func : ℕ
span_func = 8

abbrev pub span_cache : ℕ
span_cache = 9

-- `lumbre_span_t`; the field `type` is `span_type`.
pub record Span : Type 0 where
  pub span_type : ℕ
  pub trace_id : List ℕ
  pub span_id : ℕ
  pub parent_id : ℕ
  pub start_ns : ℕ
  pub duration_ns : ℕ
  pub url : Pointer
  pub url_len : ℕ
  pub method : Pointer
  pub method_len : ℕ
  pub status_code : ℕ
  pub query : Pointer
  pub query_len : ℕ
  pub db_type : Pointer
  pub db_type_len : ℕ
  pub rows_affected : ℕ
  pub cache_cmd : Pointer
  pub cache_cmd_len : ℕ
  pub cache_key : Pointer
  pub cache_key_len : ℕ
  pub func_class : Pointer
  pub func_class_len : ℕ
  pub func_name : Pointer
  pub func_name_len : ℕ
  pub func_file : Pointer
  pub func_file_len : ℕ
  pub func_line : ℕ
  pub request_uri : Pointer
  pub request_uri_len : ℕ

-- `lumbre_context_t`
pub record Context : Type 0 where
  pub trace_id : List ℕ
  pub root_span_id : ℕ
  pub current_parent_id : ℕ
  pub span_counter : ℕ
  pub active : Bool
  pub full_trace : Bool

-- What `clock_gettime(CLOCK_MONOTONIC, …)` stores.
pub record Timespec : Type 0 where
  pub tv_sec : ℕ
  pub tv_nsec : ℕ

unfoldable pub clock_ns : Timespec → ℕ
clock_ns ts = (ts.tv_sec * 1_000_000_000 + ts.tv_nsec) % u64

-- `memset(…, 0, 16)`
abbrev pub zero_id : List ℕ
zero_id = replicate 16 0

-- The trace id: the propagated one, or else what the random source makes of the old bytes (its
-- return value is not looked at), or else zero.
unfoldable pub pick_trace_id : List ℕ → Pointer → Option (List ℕ → List ℕ) → List ℕ
pick_trace_id old (some id) random = fetch id 16
pick_trace_id old none (some fill) = fill old
pick_trace_id old none none = zero_id

unfoldable pub context_init : Context → Pointer → Option (List ℕ → List ℕ) → Context
context_init ctx propagated_trace_id random_func = record {
  trace_id = pick_trace_id ctx.trace_id propagated_trace_id random_func;
  root_span_id = 0;
  current_parent_id = 0;
  span_counter = 1;
  active = true;
  full_trace = false;
}

unfoldable pub context_reset : Context → Context
context_reset ctx = record ctx { active = false; trace_id = zero_id }

-- `memset(span, 0, sizeof(lumbre_span_t))`
abbrev pub zero_span : Span
zero_span = record {
  span_type = 0;
  trace_id = zero_id;
  span_id = 0;
  parent_id = 0;
  start_ns = 0;
  duration_ns = 0;
  url = none;
  url_len = 0;
  method = none;
  method_len = 0;
  status_code = 0;
  query = none;
  query_len = 0;
  db_type = none;
  db_type_len = 0;
  rows_affected = 0;
  cache_cmd = none;
  cache_cmd_len = 0;
  cache_key = none;
  cache_key_len = 0;
  func_class = none;
  func_class_len = 0;
  func_name = none;
  func_name_len = 0;
  func_file = none;
  func_file_len = 0;
  func_line = 0;
  request_uri = none;
  request_uri_len = 0;
}

unfoldable pub span_start : ℕ → Context → Timespec → Span × Context
span_start type ctx now =
    let span = record zero_span {
      span_type = type;
      trace_id = ctx.trace_id;
      span_id = ctx.span_counter;
      parent_id = ctx.current_parent_id;
      start_ns = clock_ns now;
    } in
    (
      span,
      record ctx {
        span_counter = (ctx.span_counter + 1) % u64;
        current_parent_id = ctx.span_counter;
        root_span_id = if ctx.current_parent_id == 0 then ctx.span_counter else ctx.root_span_id;
      },
    )
