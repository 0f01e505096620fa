-- ===== src/Request.antt =====
-- The request lifecycle of php_lumbre.c: the trace id header, the trigger header, RINIT, RSHUTDOWN and
-- MSHUTDOWN. What the engine, the server and the system answer is an argument.
pub mod Hex
pub mod Root
pub mod Started
pub mod Trace
pub mod Shape
mod Samples
mod Tests
use Prim.Native.Nat.{bit_or}
use lumbre_ext.Common.{
  ℕ, zero, suc, ◌+◌, ◌-◌, ◌*◌, ◌%◌, ◌^◌, Bool, true, false, not, ◌&&◌, ◌||◌, List, [], ◌∷◌, ◌++◌,
  Option, none, some, ◌>>=◌, Pointer, u32, u64, length, leb, ltb, ◌==◌, if◌then◌else◌, codes,
  Status, ok, error,
}
use lumbre_ext.Ring.{RingBuf}
use lumbre_ext.Ring.Lifecycle.{Os, SysCall, init, destroy}
use lumbre_ext.Msgpack.{Buf, msgpack_buf_size}
use lumbre_ext.Span.{Span, Context, Timespec, context_init, context_reset, span_start, span_http_in}
use lumbre_ext.Span.Setters.{set_http_in}
use lumbre_ext.Span.Finish.{finish}
use lumbre_ext.Hooks.{Globals, dir_of, string_len, or_empty}
use lumbre_ext.Whitelist.{cleared}

-- One hexadecimal digit.
unfoldable pub hex_digit : ℕ → Option ℕ
hex_digit c =
    if leb b'0' c && leb c b'9'
    then some (c - b'0')
    else if leb b'a' c && leb c b'f'
    then some (c - b'a' + 10)
    else if leb b'A' c && leb c b'F'
    then some (c - b'A' + 10)
    else none

-- The loop of `lumbre_hex_to_bin`, which reads two digits for each byte.
unfoldable pub hex_bytes : ℕ → List ℕ → Option (List ℕ)
hex_bytes zero hex = some []
hex_bytes (suc n) [] = none
hex_bytes (suc n) (a ∷ []) = none
hex_bytes (suc n) (a ∷ b ∷ rest) = do
  hi ← hex_digit a
  lo ← hex_digit b
  more ← hex_bytes n rest
  some (bit_or (hi * 16) lo % 256 ∷ more)

-- `lumbre_hex_to_bin`: the bytes, or `none` for -1.
unfoldable pub hex_to_bin : List ℕ → ℕ → ℕ → Option (List ℕ)
hex_to_bin hex hex_len out_len = if hex_len == out_len * 2 then hex_bytes out_len hex else none

-- A value of `$_SERVER`.
pub data Zval : Type 0 where
  string : List ℕ → Zval
  other : Zval

-- `PG(http_globals)[TRACK_VARS_SERVER]`, by its type.
pub data TrackVars : Type 0 where
  array : (List ℕ → Option Zval) → TrackVars
  no_array : TrackVars

-- `lumbre_get_server_vars`: the variables, or `none` for NULL.
unfoldable pub get_server_vars : TrackVars → Option (List ℕ → Option Zval)
get_server_vars (array vars) = some vars
get_server_vars no_array = none

-- What RINIT asks of its surroundings: `$_SERVER`, the worker's and the process's number, the memory
-- and system calls, the random source, the clock, and the SAPI's view of the request.
pub record Env : Type 0 where
  pub http_server : TrackVars
  pub worker_id : ℕ
  pub pid : ℕ
  pub malloc_ok : Bool
  pub os : Os
  pub random_bytes : List ℕ → List ℕ
  pub now : Timespec
  pub is_cli : Bool
  pub path_translated : Pointer
  pub request_uri : Pointer
  pub request_method : Pointer

-- A 32-digit string in `HTTP_X_TRACE_ID`, as 16 bytes.
unfoldable pub trace_id_of : Option Zval → Pointer
trace_id_of none = none
trace_id_of (some other) = none
trace_id_of (some (string s)) = if length s == 32 then hex_to_bin s 32 16 else none

unfoldable pub propagated : Env → Pointer
propagated env =
    get_server_vars env.http_server >>= (λ vars. trace_id_of (vars (codes "HTTP_X_TRACE_ID")))

-- `-` to `_`, small letters to capitals.
unfoldable pub header_char : ℕ → ℕ
header_char c = if c == b'-' then b'_' else if leb b'a' c && leb c b'z' then c - b'a' + b'A' else c

unfoldable pub header_chars : List ℕ → List ℕ
header_chars [] = []
header_chars (c ∷ cs) = header_char c ∷ header_chars cs

-- The key in `$_SERVER`, if it fits the array.
unfoldable pub header_key : List ℕ → Option (List ℕ)
header_key header =
    if ltb ((length header + 6) % u64) 256
    then some (codes "HTTP_" ++ header_chars header)
    else none

unfoldable pub triggered_by : Env → List ℕ → Bool
triggered_by env header =
    elim (get_server_vars env.http_server >>= (λ vars. header_key header >>= vars)) [
      | none ↦ false
      | some value ↦ true
    ]

-- Whether the trigger header is set and sent.
unfoldable pub is_triggered : Env → Pointer → Bool
is_triggered env none = false
is_triggered env (some []) = false
is_triggered env (some (c ∷ cs)) = triggered_by env (c ∷ cs)

-- The globals behind `lumbre_ringbuf_init`, by what it returned.
unfoldable pub ring_opened :
    Env → Globals → Status × RingBuf × List SysCall → Status × Globals × List SysCall
ring_opened env g (ok, rb, calls) =
    (ok, record g { worker_id = env.worker_id; ringbuf = rb; ringbuf_initialized = true }, calls)
ring_opened env g (error, rb, calls) =
    (error, record g { worker_id = env.worker_id; ringbuf = rb; enabled = false }, calls)

-- The ring of the worker's first request; `error` stands for the return with tracing disabled.
unfoldable pub init_ring : Env → Globals → Status × Globals × List SysCall
init_ring env g =
    let g₁ = record g {
      mp_storage = true;
      mp_buf = record (g.mp_buf) { capacity = msgpack_buf_size; pos = 0 };
    } in
    ring_opened env g₁
      (init g.ringbuf env.os (dir_of g) (env.pid % u32) env.worker_id (g.buffer_size % u32))

unfoldable pub ensure_ring : Env → Globals → Status × Globals × List SysCall
ensure_ring env g =
    if g.ringbuf_initialized
    then (ok, g, [])
    else if not g.mp_storage && not env.malloc_ok
    then (error, record g { worker_id = env.worker_id; enabled = false }, [])
    else init_ring env g

-- The payload of the root span.
unfoldable pub root_payload : Env → Span → Span
root_payload env span =
    if env.is_cli
    then set_http_in span (or_empty env.path_translated) (string_len env.path_translated % u32)
        (some (codes "CLI")) 3
    else set_http_in span (or_empty env.request_uri) (string_len env.request_uri % u32)
        (or_empty env.request_method) (string_len env.request_method % u32)

-- The context and the root span.
unfoldable pub start_root : Env → Globals → Globals
start_root env g =
    let fresh = context_init g.ctx (propagated env) (some env.random_bytes) in
    let ctx = record fresh { full_trace = is_triggered env g.trigger_header } in
    let (span, ctx') = span_start span_http_in ctx env.now in
    let root = root_payload env span in
    record g { root_span = root; ctx = record ctx' { root_span_id = root.span_id } }

unfoldable pub rinit : Env → Globals → Globals × List SysCall
rinit env g =
    if not g.enabled
    then (g, [])
    else (let (s, g', calls) = ensure_ring env g in
        elim s [ ok ↦ (start_root env g', calls) | error ↦ (g', calls) ])

unfoldable pub rshutdown : Globals → Timespec → Globals
rshutdown g now =
    if not g.ctx.active
    then g
    else (let r = finish g.root_span g.ringbuf g.mp_buf g.ctx 0 (g.max_query_len % u32) now in
        record g { root_span = r.span; ringbuf = r.rb; mp_buf = r.buf; ctx = context_reset r.ctx })

-- `PHP_MSHUTDOWN`, without the engine's handlers and settings.
unfoldable pub mshutdown : Globals → Bool → Globals × List SysCall
mshutdown g is_cli =
    let (rb, calls) = if g.ringbuf_initialized then destroy g.ringbuf is_cli else (g.ringbuf, []) in
    (record g { ringbuf = rb; mp_storage = false; whitelist = cleared }, calls)
