-- ===== src/Hooks/Tests.antt =====
-- The hooks on concrete inputs.
use lumbre_ext.Common.{
  ap, Bool, ℕ, arith, map, ◌∷◌, ◌≡◌, refl, inl, true, false, List, [], Option, none, some, codes,
}
use lumbre_ext.Memory.{fetch}
use lumbre_ext.Ring.{RingBuf}
use lumbre_ext.Msgpack.{Buf}
use lumbre_ext.Span.{Span, Context, Timespec, zero_span, span_start, span_file_io, clock_ns}
use lumbre_ext.Span.Finish.{finish, elapsed, truncate_query}
use lumbre_ext.Span.Setters.{set_func, set_file_io}
use lumbre_ext.Span.Log.{is_short, reported}
use lumbre_ext.Whitelist.{
  Table, fnv1a, fnv_loop, lower, lower_all, build_key, cleared, next_slot, empty_slot, populated,
  put_entry, insert, insert_all, init, same_bytes,
}
use lumbre_ext.Whitelist.Entries.{static_table, global}
use lumbre_ext.Whitelist.Rows.{row_of}
use lumbre_ext.Hooks.{
  Globals, Frame, execute_internal, with_func, with_path, with_payload, close, infer_db_type,
}
use lumbre_ext.Hooks.Calls.{Call, internal, userland, done, first, alter, enabled_to, run}
use lumbre_ext.Hooks.Nesting.{tuned, tuned_all, IsNested, run-IsNested}
use lumbre_ext.Hooks.Fixed.{run_off}
use lumbre_ext.Hooks.Kept.{finish-ctx}
use lumbre_ext.Hooks.Listed.{internal_unlisted, internal_listed}
use lumbre_ext.Hooks.Wellformed.{IsFrame}
use lumbre_ext.Hooks.Tree.{settings_of, row_of_call, visit, visit_all, AreFrames, AllFrames}
use lumbre_ext.Hooks.Ids.{visit_all-IsForest}
use lumbre_ext.Hooks.Forest.{IsForest}

abbrev table_in : Option Table → Table
table_in none = cleared
table_in (some wl) = wl

abbrev context : Context
context = record {
  trace_id = [];
  root_span_id = 1;
  current_parent_id = 1;
  span_counter = 2;
  active = true;
  full_trace = true;
}

abbrev ring : RingBuf
ring = record {
  attached = true;
  header = record {
    magic = 0x54524143;
    version = 1;
    capacity = 256;
    write_pos = 0;
    read_pos = 0;
    dropped = 0;
    pid = 42;
    worker_id = 0;
  };
  data_region = λ i. 0;
  capacity = 256;
  mask = 255;
  local_write_pos = 0;
  fd = 3;
  mmap_size = 320;
  path = [];
  worker_id = 0;
}

abbrev buffer : Buf
buffer = record { bytes = λ i. 0; capacity = 16384; pos = 0 }

abbrev globals : Globals
globals = record {
  enabled = true;
  mode = 0;
  shm_dir = some (codes "/dev/shm");
  buffer_size = 256;
  trigger_header = none;
  max_query_len = 256;
  min_duration_ns = 0;
  trace_namespaces = none;
  ringbuf = ring;
  ringbuf_initialized = true;
  mp_buf = buffer;
  mp_storage = true;
  ctx = context;
  root_span = zero_span;
  whitelist = table_in init;
  worker_id = 0;
}

-- A call of a function with a string as its first argument.
abbrev frame : List ℕ → Frame
frame name = record {
  function_name = some name;
  scope_name = none;
  first_arg = some (codes "/etc/hosts");
  is_user = false;
  filename = none;
  lineno = none;
}

abbrev at : ℕ → Timespec
at n = record { tv_sec = n; tv_nsec = 0 }

abbrev nested : Call
nested =
    internal (frame (codes "fopen")) (at 1)
      (first (userland (frame (codes "callback")) (at 2) done (at 3)) done) (at 4)

global_db_type : infer_db_type none 0 ≡ (some (codes "unknown"), 7)
unfolding infer_db_type
global_db_type = refl

finish-ctx_run :
    (finish zero_span ring buffer context 0 256 (at 1)).ctx
    ≡ record context { current_parent_id = 0 }
finish-ctx_run = finish-ctx zero_span ring buffer context 0 256 (at 1)

-- A script's `ini_set` inside a user function: tracing goes off, and what comes behind has no span.
abbrev altered : Call
altered =
    userland (frame (codes "callback")) (at 1)
      (first (internal (frame (codes "ini_set")) (at 2) (alter (enabled_to false) done) (at 3))
        (first (internal (frame (codes "fopen")) (at 4) done (at 5)) done))
      (at 6)

run-IsNested_example : IsNested (tuned altered) globals (run altered globals)
run-IsNested_example = run-IsNested altered globals

tuned_run : tuned altered (true, 5) ≡ (false, 5)
unfolding tuned tuned_all
tuned_run = refl

altered_off : (run altered globals).enabled ≡ false
unfolding tuned tuned_all
altered_off = ap (λ (t : Bool × ℕ). t.0) (run-IsNested altered globals).tunable

internal_unlisted_run :
    execute_internal (frame (codes "strlen")) (at 1) (at 2) (λ g. g) globals ≡ globals
unfolding init insert_all insert static_table fnv1a fnv_loop fetch lower lower_all build_key cleared
    next_slot empty_slot populated put_entry row_of same_bytes
internal_unlisted_run =
    internal_unlisted globals (frame (codes "strlen")) (codes "strlen") (at 1) (at 2) (λ g. g) refl
      refl refl

internal_listed_run :
    let (span, ctx) = span_start 6 context (at 1) in
    execute_internal (frame (codes "fopen")) (at 1) (at 2) (λ g. g) globals
    ≡ close (record globals { ctx = ctx }) (with_payload span (frame (codes "fopen")) 6 256) (at 2)
unfolding init insert_all insert static_table fnv1a fnv_loop fetch lower lower_all build_key cleared
    next_slot empty_slot populated put_entry row_of same_bytes
internal_listed_run =
    internal_listed globals (frame (codes "fopen")) (codes "fopen") (global "fopen" 5 span_file_io)
      (at 1) (at 2) (λ g. g) refl refl refl refl refl

fopen-IsFrame : IsFrame (frame (codes "fopen"))
fopen-IsFrame = record {
  function_name = omega arith;
  scope_name = omega arith;
  first_arg = omega arith;
  file = omega arith;
  line = omega arith;
}

callback-IsFrame : IsFrame (frame (codes "callback"))
callback-IsFrame = record {
  function_name = omega arith;
  scope_name = omega arith;
  first_arg = omega arith;
  file = omega arith;
  line = omega arith;
}

nested-AreFrames : AreFrames nested
unfolding AreFrames AllFrames
nested-AreFrames = (fopen-IsFrame, ((callback-IsFrame, tt), tt))

run_off_run : run nested (record globals { enabled = false }) ≡ record globals { enabled = false }
run_off_run = run_off nested (record globals { enabled = false }) nested-AreFrames (inl refl)

-- The function inside the file operation is traced below it, and reported before it.
visit_run :
    map {B = ℕ × ℕ}
      (λ (s : Span). (s.span_id, s.parent_id))
      (visit (settings_of globals) nested 1 2).0
    ≡ (3, 2) ∷ (2, 1) ∷ []
unfolding visit visit_all row_of_call row_of same_bytes static_table reported is_short elapsed
    clock_ns truncate_query with_func set_func build_key lower_all fetch lower with_payload
    with_path set_file_io
visit_run = refl

visit_all-IsForest_run :
    let r = visit_all (settings_of globals) (first nested (first nested done)) 1 2 in
    IsForest [] 1 2 r.1 r.0
visit_all-IsForest_run =
    visit_all-IsForest (settings_of globals) (first nested (first nested done)) 1 2
