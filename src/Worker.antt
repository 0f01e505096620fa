-- ===== src/Worker.antt =====
-- The module's lifecycle in php_lumbre.c: GINIT, MINIT, the worker's number and MSHUTDOWN. The engine's
-- handlers are of an abstract type, and what registers the INI entries is an argument.
pub mod Owned
pub mod Lifetime
pub mod Configured
pub mod Numbered
pub mod Pool
pub mod Threads
pub mod Info
pub mod Entry
mod Tests
use lumbre_ext.Common.{
  ℕ, ◌+◌, ◌%◌, Bool, true, false, not, ◌&&◌, List, [], Option, none, some, ◌>>=◌, u64,
  if◌then◌else◌,
}
use lumbre_ext.Ring.{RingBuf, Header}
use lumbre_ext.Ring.Lifecycle.{SysCall}
use lumbre_ext.Msgpack.{Buf}
use lumbre_ext.Span.{Context, zero_span, zero_id}
use lumbre_ext.Whitelist.{cleared}
use lumbre_ext.Whitelist as Whitelist
use lumbre_ext.Hooks.{Globals}
use lumbre_ext.Ini.Entries.{IniEntry, ini_entries}
use lumbre_ext.Request.{Env, rinit, mshutdown}

-- `memset(lumbre_globals, 0, sizeof(*lumbre_globals))`
abbrev zero_header : Header
zero_header = record {
  magic = 0;
  version = 0;
  capacity = 0;
  write_pos = 0;
  read_pos = 0;
  dropped = 0;
  pid = 0;
  worker_id = 0;
}

abbrev zero_ring : RingBuf
zero_ring = record {
  attached = false;
  header = zero_header;
  data_region = λ i. 0;
  capacity = 0;
  mask = 0;
  local_write_pos = 0;
  fd = 0;
  mmap_size = 0;
  path = [];
  worker_id = 0;
}

abbrev zero_buf : Buf
zero_buf = record { bytes = λ i. 0; capacity = 0; pos = 0 }

abbrev zero_context : Context
zero_context = record {
  trace_id = zero_id;
  root_span_id = 0;
  current_parent_id = 0;
  span_counter = 0;
  active = false;
  full_trace = false;
}

abbrev pub zero_globals : Globals
zero_globals = record {
  enabled = false;
  mode = 0;
  shm_dir = none;
  buffer_size = 0;
  trigger_header = none;
  max_query_len = 0;
  min_duration_ns = 0;
  trace_namespaces = none;
  ringbuf = zero_ring;
  ringbuf_initialized = false;
  mp_buf = zero_buf;
  mp_storage = false;
  ctx = zero_context;
  root_span = zero_span;
  whitelist = cleared;
  worker_id = 0;
}

-- `PHP_GINIT`
unfoldable pub ginit : Option Globals
ginit = Whitelist.init >>= (λ table. some (record zero_globals { whitelist = table }))

-- `zend_execute_internal` and `zend_execute_ex`, and the variables that save them.
pub record Handlers (H : Type 0) : Type 0 where
  pub execute_internal : H
  pub execute_ex : H

pub record Process (H : Type 0) : Type 0 where
  pub globals : Globals
  pub engine : Handlers H
  pub original : Handlers H

-- `PHP_MINIT`
unfoldable pub minit :
    {H : Type 0} → (List IniEntry → Globals → Globals) → Handlers H → Process H → Process H
minit register hooks p = record {
  globals = register ini_entries p.globals;
  original = p.engine;
  engine = hooks;
}

-- `PHP_MSHUTDOWN`
unfoldable pub shut_down : {H : Type 0} → Process H → Bool → Process H × List SysCall
shut_down p is_cli =
    let (g, calls) = mshutdown p.globals is_cli in
    (record { globals = g; original = p.original; engine = p.original }, calls)

-- `lumbre_worker_id`, and the counter behind it.
unfoldable pub worker_id : Bool → ℕ → ℕ × ℕ
worker_id zts counter = if zts then (counter, (counter + 1) % u64) else (0, counter)

-- RINIT with the number that it takes for a worker's first ring.
unfoldable pub rinit_numbered : Bool → ℕ → Env → Globals → Globals × List SysCall × ℕ
rinit_numbered zts counter env g =
    let (id, counter') = worker_id zts counter in
    let (g', calls) = rinit (record env { worker_id = id }) g in
    (g', calls, if g.enabled && not g.ringbuf_initialized then counter' else counter)
