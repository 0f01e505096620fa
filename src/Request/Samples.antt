-- ===== src/Request/Samples.antt =====
-- A worker and a request for the tests.
use lumbre_ext.Common.{Option, ◌≡◌, refl, arith, true, false, [], none, some, codes}
use lumbre_ext.Ring.{RingBuf}
use lumbre_ext.Msgpack.{Buf}
use lumbre_ext.Span.{Context, Timespec, zero_span}
use lumbre_ext.Memory.{fetch}
use lumbre_ext.Ring.Refine.{Holds}
use lumbre_ext.Ring.Frames.{done as frames_done}
use lumbre_ext.Whitelist.{
  Table, fnv1a, fnv_loop, lower, lower_all, build_key, cleared, next_slot, empty_slot, populated,
  put_entry, insert, insert_all, init, same_bytes,
}
use lumbre_ext.Whitelist.Entries.{static_table}
use lumbre_ext.Hooks.{Globals}
use lumbre_ext.Hooks.Calls.{Call, internal, done, first}
use lumbre_ext.Hooks.Tree.{AreFrames, AllFrames}
use lumbre_ext.Request.{Env, no_array}
use lumbre_ext.Request.Started.{IsRequest}

abbrev pub context : Context
context = record {
  trace_id = [];
  root_span_id = 1;
  current_parent_id = 0;
  span_counter = 2;
  active = false;
  full_trace = true;
}

abbrev pub ring : RingBuf
ring = record {
  attached = true;
  header = record {
    magic = 0x54524143;
    version = 1;
    capacity = 256;
    write_pos = 0;
    read_pos = 0;
    dropped = 0;
    pid = 42;
    worker_id = 0;
  };
  data_region = λ i. 0;
  capacity = 256;
  mask = 255;
  local_write_pos = 0;
  fd = 3;
  mmap_size = 320;
  path = [];
  worker_id = 0;
}

abbrev pub buffer : Buf
buffer = record { bytes = λ i. 0; capacity = 16384; pos = 0 }

abbrev pub globals : Globals
globals = record {
  enabled = true;
  mode = 0;
  shm_dir = some (codes "/dev/shm");
  buffer_size = 256;
  trigger_header = none;
  max_query_len = 256;
  min_duration_ns = 0;
  trace_namespaces = none;
  ringbuf = ring;
  ringbuf_initialized = true;
  mp_buf = buffer;
  mp_storage = true;
  ctx = context;
  root_span = zero_span;
  whitelist = cleared;
  worker_id = 0;
}

-- A web request with nothing in `$_SERVER`; the ring is there already.
abbrev pub env : Env
env = record {
  http_server = no_array;
  worker_id = 0;
  pid = 42;
  malloc_ok = true;
  os = record { open_fd = none; truncate_ok = false; map_ok = false };
  random_bytes = λ old. old;
  now = record { tv_sec = 1; tv_nsec = 0 };
  is_cli = false;
  path_translated = none;
  request_uri = some (codes "/index.php");
  request_method = some (codes "GET");
}

abbrev pub table_in : Option Table → Table
table_in none = cleared
table_in (some wl) = wl

-- A worker with a ring of 1024 bytes and the table of the init.
abbrev pub ready_globals : Globals
ready_globals = record globals {
  whitelist = table_in init;
  ringbuf = record ring { capacity = 1024; mask = 1023; mmap_size = 1088 };
}

abbrev pub fopen : Call
fopen =
    internal
      (record {
        function_name = some (codes "fopen");
        scope_name = none;
        first_arg = some (codes "/etc/hosts");
        is_user = false;
        filename = none;
        lineno = none;
      })
      (record { tv_sec = 2; tv_nsec = 0 }) done (record { tv_sec = 3; tv_nsec = 0 })

pub fopen-AllFrames : AllFrames (first fopen done)
unfolding AreFrames AllFrames
fopen-AllFrames = (
  (
    record {
      function_name = omega arith;
      scope_name = omega arith;
      first_arg = omega arith;
      file = omega arith;
      line = omega arith;
    },
    tt,
  ),
  tt,
)

pub env-IsRequest : IsRequest env
env-IsRequest = record {
  path_translated = omega arith;
  request_uri = omega arith;
  request_method = omega arith;
}

pub init_ready : init ≡ some (table_in init)
unfolding init insert_all insert static_table fnv1a fnv_loop fetch lower lower_all build_key cleared
    next_slot empty_slot populated put_entry same_bytes
init_ready = refl

abbrev pub at_end : Timespec
at_end = record { tv_sec = 4; tv_nsec = 0 }

pub ready-Holds : Holds ready_globals.ringbuf []
ready-Holds = record {
  valid = record {
    rounded = (10, refl);
    least = omega arith;
    greatest = omega arith;
    masked = refl;
    published = refl;
    behind = omega arith;
    filled = omega arith;
  };
  frames = frames_done 0;
}
