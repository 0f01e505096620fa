-- ===== src/Hooks/Wellformed.antt =====
-- The spans that the hooks of php_lumbre.c start and fill in, and their well-formedness.
use lumbre_ext.Common.{
  ℕ, ◌+◌, ◌%◌, ◌^◌, ◌<◌, ◌≡◌, refl, List, Pointer, some, none, Option, ◌==◌, ◌||◌, ltb,
  if◌then◌else◌, u32, Bool-cases, inl, inr, arith,
}
use lumbre_ext.Span.{
  Span, Timespec, zero_span, clock_ns, span_db, span_redis, span_memcached, span_cache,
  span_file_io,
}
use lumbre_ext.Span.Fields.{IsString, IsSpan}
use lumbre_ext.Span.Valid.{truncated-IsString}
use lumbre_ext.Span.Setters.{set_db, set_cache, set_file_io, set_func, set_http_in}
use lumbre_ext.Hooks.{
  Frame, string_len, or_empty, extract_first_str_arg, infer_db_type, with_query, with_path,
  with_payload, with_func, file_of, line_of,
}

-- The strings are short enough for a header, and the line fits its field.
pub record IsFrame (frame : Frame) : Type 0 where
  pub function_name : string_len frame.function_name + 5 < 2 ^ 32
  pub scope_name : string_len frame.scope_name + 5 < 2 ^ 32
  pub first_arg : string_len frame.first_arg + 5 < 2 ^ 32
  pub file : string_len (file_of frame) + 5 < 2 ^ 32
  pub line : line_of frame < 2 ^ 32

-- A started span.
abbrev pub new_span : ℕ → List ℕ → ℕ → ℕ → Timespec → Span
new_span type trace_id id parent begin = record zero_span {
  span_type = type;
  trace_id = trace_id;
  span_id = id;
  parent_id = parent;
  start_ns = clock_ns begin;
}

no_string : IsString none 0
no_string = record { text = refl; short = omega arith }

pub new_span-IsSpan :
    (type : ℕ) (trace_id : List ℕ) (id parent : ℕ) (begin : Timespec)
    → type < 256
    → id < 2 ^ 64
    → parent < 2 ^ 64
    → IsSpan (new_span type trace_id id parent begin)
unfolding clock_ns
new_span-IsSpan type trace_id id parent begin ht hi hp = record {
  span_type = ht;
  span_id = hi;
  parent_id = hp;
  start_ns = omega arith;
  duration_ns = omega arith;
  status_code = omega arith;
  rows_affected = omega arith;
  func_line = omega arith;
  url = no_string;
  method = no_string;
  query = no_string;
  db_type = no_string;
  cache_cmd = no_string;
  cache_key = no_string;
  func_class = no_string;
  func_name = no_string;
  func_file = no_string;
  request_uri = no_string;
}

zend-IsString : (s : Option (List ℕ)) → string_len s + 5 < 2 ^ 32 → IsString s (string_len s % u32)
zend-IsString none h = record { text = refl; short = omega arith }
zend-IsString (some s) h = record { text = tt; short = omega arith }

pub or_empty-IsString :
    (s : Option (List ℕ)) → string_len s + 5 < 2 ^ 32 → IsString (or_empty s) (string_len s % u32)
or_empty-IsString none h = record { text = tt; short = omega arith }
or_empty-IsString (some s) h = record { text = tt; short = omega arith }

set_cache-IsSpan :
    (span : Span) (cmd : Pointer) (cmd_len : ℕ) (key : Pointer) (key_len : ℕ)
    → IsSpan span
    → IsString cmd cmd_len
    → IsString key key_len
    → IsSpan (set_cache span cmd cmd_len key key_len)
unfolding set_cache
set_cache-IsSpan span cmd cmd_len key key_len w hc hk = ground arith

set_file_io-IsSpan :
    (span : Span) (path : Pointer) (len : ℕ)
    → IsSpan span
    → IsString path len
    → IsSpan (set_file_io span path len)
unfolding set_file_io
set_file_io-IsSpan span path len w h = ground arith

set_func-IsSpan :
    (span : Span) (cls : Pointer) (cls_len : ℕ) (name : Pointer) (name_len : ℕ) (file : Pointer)
    (file_len line : ℕ)
    → IsSpan span
    → IsString cls cls_len
    → IsString name name_len
    → IsString file file_len
    → line < 2 ^ 32
    → IsSpan (set_func span cls cls_len name name_len file file_len line)
unfolding set_func
set_func-IsSpan span cls cls_len name name_len file file_len line w hc hn hf hl = ground arith

pub set_http_in-IsSpan :
    (span : Span) (uri : Pointer) (uri_len : ℕ) (method : Pointer) (method_len : ℕ)
    → IsSpan span
    → IsString uri uri_len
    → IsString method method_len
    → IsSpan (set_http_in span uri uri_len method method_len)
unfolding set_http_in
set_http_in-IsSpan span uri uri_len method method_len w hu hm = ground arith

cut-IsString :
    (p : Pointer) (len max : ℕ) → IsString p len → IsString p (if ltb max len then max else len)
cut-IsString p len max h = elim (Bool-cases (ltb max len)) [
  | inl e ↦ rw e (truncated-IsString p len max (ground arith) h)
  | inr e ↦ rw e h
]

set_db-IsSpan :
    (span : Span) (query : Pointer) (query_len : ℕ) (db_type : Pointer) (db_type_len rows max : ℕ)
    → IsSpan span
    → IsString query query_len
    → IsString db_type db_type_len
    → rows < 2 ^ 32
    → IsSpan (set_db span query query_len db_type db_type_len rows max)
unfolding set_db
set_db-IsSpan span query query_len db_type db_type_len rows max w hq hd hr =
    let cut = cut-IsString query query_len max hq in ground arith

infer_db_type-IsString :
    (cls : Pointer) (len : ℕ) → let (db_type, n) = infer_db_type cls len in IsString db_type n
unfolding infer_db_type
infer_db_type-IsString none len = record { text = tt; short = omega arith }
infer_db_type-IsString (some s) len = ground arith

with_query-IsSpan :
    (span : Span) (frame : Frame) (max : ℕ) (arg : Pointer × ℕ)
    → IsSpan span
    → IsString arg.0 arg.1
    → IsSpan (with_query span frame max arg)
unfolding with_query
with_query-IsSpan span frame max (none, len) w h = w
with_query-IsSpan span frame max (some query, len) w h =
    set_db-IsSpan span (some query) len _ _ 0 (max % u32) w h
      (infer_db_type-IsString frame.scope_name (string_len frame.scope_name)) (omega arith)

with_path-IsSpan :
    (span : Span) (arg : Pointer × ℕ)
    → IsSpan span
    → IsString arg.0 arg.1
    → IsSpan (with_path span arg)
unfolding with_path
with_path-IsSpan span (none, len) w h = w
with_path-IsSpan span (some path, len) w h = set_file_io-IsSpan span (some path) len w h

pub with_payload-IsSpan :
    (span : Span) (frame : Frame) (type max : ℕ)
    → IsSpan span
    → IsFrame frame
    → IsSpan (with_payload span frame type max)
unfolding with_payload
with_payload-IsSpan span frame type max w f =
    let arg : IsString frame.first_arg (string_len frame.first_arg % u32) =
      zend-IsString frame.first_arg f.first_arg in
    elim (Bool-cases (type == span_db)) [
      | inl e ↦ rw e (with_query-IsSpan span frame max (extract_first_str_arg frame) w arg)
      | inr e₁ ↦
          elim (Bool-cases (type == span_redis || type == span_memcached || type == span_cache)) [
            | inl e ↦
                rw (e₁, e)
                  (set_cache-IsSpan span _ _ _ _ w
                    (zend-IsString frame.function_name f.function_name)
                    (or_empty-IsString frame.first_arg f.first_arg))
            | inr e₂ ↦ elim (Bool-cases (type == span_file_io)) [
              | inl e ↦ rw (e₁, e₂, e) (with_path-IsSpan span (extract_first_str_arg frame) w arg)
              | inr e₃ ↦ rw (e₁, e₂, e₃) w
            ]
          ]
    ]

pub with_func-IsSpan :
    (span : Span) (frame : Frame) (name : List ℕ)
    → frame.function_name ≡ some name
    → IsSpan span
    → IsFrame frame
    → IsSpan (with_func span frame name)
unfolding with_func
with_func-IsSpan span frame name named w f =
    let short : string_len (some name) + 5 < 2 ^ 32 = rw named at f.function_name in
    set_func-IsSpan span _ _ _ _ _ _ _ w (zend-IsString frame.scope_name f.scope_name)
      (zend-IsString (some name) short) (or_empty-IsString (file_of frame) f.file) f.line
