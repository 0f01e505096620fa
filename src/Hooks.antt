-- ===== src/Hooks.antt =====
-- The module globals of php_lumbre.h and the two execution hooks of php_lumbre.c. The Zend engine's view
-- of a call is a `Frame`; the original handler is an argument of a hook, a function on the globals,
-- since what it runs can come back to the hooks.
pub mod Calls
pub mod Kept
pub mod Nesting
pub mod Fixed
pub mod Listed
pub mod Wellformed
pub mod Tree
pub mod Traced
pub mod Report
pub mod Reported
pub mod Urls
pub mod Forest
pub mod Ids
pub mod Short
pub mod Closed
mod Tests
use lumbre_ext.Common.{
  ℕ, ◌+◌, ◌*◌, ◌%◌, ◌^◌, Bool, true, false, not, ◌&&◌, ◌||◌, List, [], ◌∷◌, Option, none, some,
  Pointer, u32, u64, length, leb, ◌==◌, if◌then◌else◌, codes, get_or,
}
use lumbre_ext.Ring.{RingBuf}
use lumbre_ext.Msgpack.{Buf}
use lumbre_ext.Span.{
  Span, Context, Timespec, span_start, span_db, span_redis, span_memcached, span_cache,
  span_file_io, span_func,
}
use lumbre_ext.Span.Setters.{set_db, set_cache, set_file_io, set_func}
use lumbre_ext.Span.Finish.{finish}
use lumbre_ext.Whitelist.{Table, Entry, match}

-- The module globals; a `zend_long` is its 64 bits as a number, and `mp_storage` says whether the pointer is not NULL.
pub record Globals : Type 0 where
  pub enabled : Bool
  pub mode : ℕ
  pub shm_dir : Pointer
  pub buffer_size : ℕ
  pub trigger_header : Pointer
  pub max_query_len : ℕ
  pub min_duration_ns : ℕ
  pub trace_namespaces : Pointer
  pub ringbuf : RingBuf
  pub ringbuf_initialized : Bool
  pub mp_buf : Buf
  pub mp_storage : Bool
  pub ctx : Context
  pub root_span : Span
  pub whitelist : Table
  pub worker_id : ℕ

-- The directory in the ring's path. It is NULL only until MINIT registers the settings; a `%s` of NULL is
-- undefined in C, and has no text here.
abbrev pub dir_of : Globals → List ℕ
dir_of g = elim (g.shm_dir) [ none ↦ [] | some dir ↦ dir ]

-- What the hooks read of a `zend_execute_data`: the function's name and its scope's, the first
-- argument if it is a string, and for a user function its file and the line of the `opline`.
pub record Frame : Type 0 where
  pub function_name : Option (List ℕ)
  pub scope_name : Option (List ℕ)
  pub first_arg : Option (List ℕ)
  pub is_user : Bool
  pub filename : Option (List ℕ)
  pub lineno : Option ℕ

-- `ZSTR_VAL` and `ZSTR_LEN`, or NULL and 0.
abbrev pub string_len : Option (List ℕ) → ℕ
string_len none = 0
string_len (some s) = length s

-- `lumbre_extract_names`: the class's name and its length, the function's name and its length.
abbrev pub extract_names : Frame → Pointer × ℕ × Pointer × ℕ
extract_names frame = (
  frame.scope_name,
  string_len frame.scope_name,
  frame.function_name,
  string_len frame.function_name,
)

-- `lumbre_extract_first_str_arg`
abbrev pub extract_first_str_arg : Frame → Pointer × ℕ
extract_first_str_arg frame = (frame.first_arg, string_len frame.first_arg % u32)

-- A string, or `""` for NULL.
abbrev pub or_empty : Pointer → Pointer
or_empty none = some []
or_empty (some s) = some s

-- A character that is one of two.
abbrev either : List ℕ → ℕ → ℕ → ℕ → Bool
either s i upper low = (get_or s i 0 == upper) || (get_or s i 0 == low)

-- The database type that is inferred from the class's name, and its length.
unfoldable pub infer_db_type : Pointer → ℕ → Pointer × ℕ
infer_db_type none class_len = (some (codes "unknown"), 7)
infer_db_type (some s) class_len =
    let is_pdo = either s 0 b'P' b'p' && either s 1 b'D' b'd' && either s 2 b'O' b'o' in
    let is_mysqli =
      either s 0 b'm' b'M'
      && either s 1 b'y' b'Y'
      && either s 2 b's' b'S'
      && either s 3 b'q' b'Q'
      && either s 4 b'l' b'L'
      && either s 5 b'i' b'I' in
    if (class_len == 3) && is_pdo
    then (some (codes "pdo"), 3)
    else if leb 6 class_len && is_mysqli
    then (some (codes "mysql"), 5)
    else if leb 12 class_len && is_pdo && (get_or s 3 0 == b'S')
    then (some (codes "pdo"), 3)
    else (some (codes "pgsql"), 5)

-- The payload of an internal call's span, by the `switch` on the entry's type.
unfoldable pub with_query : Span → Frame → ℕ → Pointer × ℕ → Span
with_query span frame max_query_len (none, len) = span
with_query span frame max_query_len (some query, len) =
    let (db_type, db_type_len) = infer_db_type frame.scope_name (string_len frame.scope_name) in
    set_db span (some query) len db_type db_type_len 0 (max_query_len % u32)

unfoldable pub with_path : Span → Pointer × ℕ → Span
with_path span (none, len) = span
with_path span (some path, len) = set_file_io span (some path) len

unfoldable pub with_payload : Span → Frame → ℕ → ℕ → Span
with_payload span frame type max_query_len =
    if type == span_db
    then with_query span frame max_query_len (extract_first_str_arg frame)
    else if type == span_redis || type == span_memcached || type == span_cache
    then set_cache span frame.function_name (string_len frame.function_name % u32)
        (or_empty (extract_first_str_arg frame).0) ((extract_first_str_arg frame).1)
    else if type == span_file_io
    then with_path span (extract_first_str_arg frame)
    else span

-- The finish of a hook's span.
unfoldable pub close : Globals → Span → Timespec → Globals
close g span now =
    let r =
      finish span g.ringbuf g.mp_buf g.ctx (g.min_duration_ns % u64) (g.max_query_len % u32) now in
    record g { ringbuf = r.rb; mp_buf = r.buf; ctx = r.ctx }

-- From the match on.
unfoldable pub trace_internal :
    Option Entry → Frame → Timespec → Timespec → (Globals → Globals) → Globals → Globals
trace_internal none frame begin end original g = original g
trace_internal (some entry) frame begin end original g =
    let (span, ctx) = span_start entry.span_type g.ctx begin in
    let span' = with_payload span frame entry.span_type g.max_query_len in
    close (original (record g { ctx = ctx })) span' end

-- What a search finds. Where the C loop would not end, the model has no entry.
abbrev pub found_or_null : Option (Option Entry) → Option Entry
found_or_null none = none
found_or_null (some r) = r

-- `lumbre_execute_internal`, with the clock's two readings.
unfoldable pub execute_internal :
    Frame → Timespec → Timespec → (Globals → Globals) → Globals → Globals
execute_internal frame begin end original g =
    let (class_name, class_len, func_name, func_len) = extract_names frame in
    if not g.enabled || not g.ctx.active then original g else elim func_name [
      | none ↦ original g
      | some name ↦
          let r = match g.whitelist class_name class_len (some name) func_len in
          trace_internal (found_or_null r) frame begin end original g
    ]

-- The file and the line of a user function, and the payload of its span.
abbrev pub file_of : Frame → Pointer
file_of frame = if frame.is_user then frame.filename else none

abbrev pub line_of : Frame → ℕ
line_of frame = if frame.is_user then elim frame.lineno [ none ↦ 0 | some n ↦ n ] else 0

unfoldable pub with_func : Span → Frame → List ℕ → Span
with_func span frame name =
    set_func span frame.scope_name (string_len frame.scope_name % u32) (some name)
      (length name % u32) (or_empty (file_of frame)) (string_len (file_of frame) % u32)
      (line_of frame)

-- From the names on.
unfoldable pub trace_user :
    Frame → List ℕ → Timespec → Timespec → (Globals → Globals) → Globals → Globals
trace_user frame name begin end original g =
    let (span, ctx) = span_start span_func g.ctx begin in
    close (original (record g { ctx = ctx })) (with_func span frame name) end

-- `lumbre_execute_ex`, with the clock's two readings.
unfoldable pub execute_ex : Frame → Timespec → Timespec → (Globals → Globals) → Globals → Globals
execute_ex frame begin end original g =
    if not g.enabled || not g.ctx.active
    then original g
    else if not (g.mode == 1) && not g.ctx.full_trace
    then original g
    else elim frame.function_name [
      | none ↦ original g
      | some name ↦ trace_user frame name begin end original g
    ]
