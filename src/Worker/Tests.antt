-- ===== src/Worker/Tests.antt =====
-- A worker's life on concrete inputs.
use mathlib.Core.List.{Memᴰ}
use lumbre_ext.Ini.{on_update_mode, strtol}
use lumbre_ext.Ring.Lifecycle.{unlinked}
use lumbre_ext.Worker.Entry.{last_calls, Reach-leaves}
use lumbre_ext.Worker.Info.{minfo, table_row, signed_decimal, minfo_readable}
use lumbre_ext.Common.{
  ℕ, ◌-◌, ◌^◌, List, [], ◌∷◌, ok, ◌≡◌, ◌≢◌, ◌⊎◌, refl, arith, true, false, some, none, codes,
  Option,
}
use lumbre_ext.Ring.Lifecycle.{
  init as ring_init, init_named, init_opened, fill, ring_path, decimal_digits,
}
use lumbre_ext.Span.{Timespec}
use lumbre_ext.Hooks.{Globals, Frame}
use lumbre_ext.Hooks.Calls.{Call, userland, done, run}
use lumbre_ext.Ini.Entries.{Zend, enabled_entry}
use lumbre_ext.Request.{
  Env, no_array, rshutdown, rinit, ensure_ring, init_ring, ring_opened, start_root,
}
use lumbre_ext.Worker.{zero_globals, ginit}
use lumbre_ext.Worker.Lifetime.{
  Life, Reach, here, next, begin_request, call, end_request, modify, begun, ended, Reach-ended,
}
use lumbre_ext.Worker.Configured.{IsConfigured, Reach-IsConfigured}
use lumbre_ext.Worker.{rinit_numbered, worker_id}
use lumbre_ext.Worker.Pool
use lumbre_ext.Worker.Pool.{Pool, begun as begun_in}
use lumbre_ext.Worker.Threads.{Reach-files}
use lumbre_ext.Worker.Numbered.{HasRing}
use lumbre_ext.Whitelist.{
  fnv1a, fnv_loop, lower, lower_all, build_key, cleared, next_slot, empty_slot, populated,
  put_entry, insert, insert_all, init, same_bytes,
}
use lumbre_ext.Whitelist.Entries.{static_table}
use lumbre_ext.Memory.{fetch}

-- `1` is true, and a number is read as 7.
abbrev zend : Zend
zend = record { to_bool = λ v. true; to_long = λ v. 7 }

abbrev globals_in : Option Globals → Globals
globals_in none = zero_globals
globals_in (some g) = g

abbrev fresh : Life
fresh = record {
  globals = globals_in ginit;
  resources = record { descriptors = λ d. 0; mapped_bytes = 0; files = λ q. false };
}

abbrev env : Env
env = record {
  http_server = no_array;
  worker_id = 0;
  pid = 42;
  malloc_ok = true;
  os = record { open_fd = some 4; truncate_ok = true; map_ok = true };
  random_bytes = λ old. old;
  now = record { tv_sec = 1; tv_nsec = 0 };
  is_cli = false;
  path_translated = none;
  request_uri = some (codes "/index.php");
  request_method = some (codes "GET");
}

abbrev frame : Frame
frame = record {
  function_name = some (codes "main");
  scope_name = none;
  first_arg = none;
  is_user = true;
  filename = some (codes "/index.php");
  lineno = some 1;
}

abbrev main_call : Call
main_call =
    userland frame (record { tv_sec = 2; tv_nsec = 0 }) done (record { tv_sec = 3; tv_nsec = 0 })

abbrev off : Timespec
off = record { tv_sec = 4; tv_nsec = 0 }

-- Tracing is switched on, and a request with one call runs.
abbrev switched : Life
switched = record fresh { globals = (enabled_entry.on_modify zend (codes "1") fresh.globals).1 }

abbrev called : Life
called = let l = begun env switched in record l { globals = run main_call l.globals }

abbrev served : Life
served = record called { globals = rshutdown called.globals off }

served-Reach : Reach zend fresh served
served-Reach =
    next
      (next
        (next (next here (modify enabled_entry (codes "1") fresh (Memᴰ.head refl)))
          (begin_request env switched))
        (call main_call (begun env switched)))
      (end_request off called)

Reach-ended_example :
    let after = ended served false in
    ((d : ℕ) → after.resources.descriptors d ≡ 0)
    × (after.resources.mapped_bytes ≡ 0)
    × ((served.globals.ringbuf_initialized ≡ false)
        ⊎ (after.resources.files served.globals.ringbuf.path ≡ false))
    × ((q : List ℕ)
        → q ≢ served.globals.ringbuf.path
        → after.resources.files q ≡ served.resources.files q)
    × (after.globals.mp_storage ≡ false)
unfolding ginit init insert_all insert static_table fnv1a fnv_loop fetch lower lower_all build_key
    cleared next_slot empty_slot populated put_entry same_bytes
Reach-ended_example = Reach-ended false refl served-Reach

fresh-IsConfigured : IsConfigured fresh.globals
unfolding ginit init insert_all insert static_table fnv1a fnv_loop fetch lower lower_all build_key
    cleared next_slot empty_slot populated put_entry same_bytes
fresh-IsConfigured = record { mode = omega arith; ready = refl }

Reach-IsConfigured_example : IsConfigured served.globals
Reach-IsConfigured_example = Reach-IsConfigured fresh-IsConfigured served-Reach

-- Two threads, whose requests get a ring each.
abbrev pool : Pool
pool = record {
  globals = λ t. record zero_globals {
    enabled = true;
    shm_dir = some (codes "/dev/shm");
    buffer_size = 64;
  };
  counter = 0;
}

abbrev one_ring : Pool
one_ring = begun_in pool 1 env

abbrev two_rings : Pool
two_rings = begun_in one_ring 2 env

two_rings-Reach : Pool.Reach (codes "/dev/shm") 42 pool two_rings
unfolding rinit_numbered worker_id rinit ensure_ring init_ring ring_opened ring_init init_named
    init_opened fill start_root ring_path decimal_digits
two_rings-Reach =
    Pool.next (Pool.next Pool.here (Pool.begin_request 1 env pool refl refl (omega arith)))
      (Pool.begin_request 2 env one_ring refl refl (omega arith))

first_ring : HasRing (two_rings.globals 1)
unfolding rinit_numbered worker_id rinit ensure_ring init_ring ring_opened ring_init init_named
    init_opened fill start_root ring_path decimal_digits
first_ring = refl

second_ring : HasRing (two_rings.globals 2)
unfolding rinit_numbered worker_id rinit ensure_ring init_ring ring_opened ring_init init_named
    init_opened fill start_root ring_path decimal_digits
second_ring = refl

Reach-files_example : (two_rings.globals 1).ringbuf.path ≢ (two_rings.globals 2).ringbuf.path
Reach-files_example =
    Reach-files (λ t. refl) (omega arith) two_rings-Reach 1 2 (λ e. absurd (omega (arith, e)))
      first_ring second_ring

Reach-leaves_example :
    ¬ Memᴰ (unlinked (two_rings.globals 2).ringbuf.path) (last_calls two_rings 1 false (2 ∷ []))
Reach-leaves_example =
    Reach-leaves (λ t. refl) (omega arith) two_rings-Reach 1 2 false (2 ∷ [])
      (λ e. absurd (omega (arith, e))) second_ring

-- A mode of 1, and a buffer size of -5.
abbrev shown : Globals
shown = record zero_globals { mode = 1; buffer_size = 2 ^ 64 - 5 }

minfo_readable_example :
    (mode : List ℕ) × (size : List ℕ) × Memᴰ (table_row (codes "Mode") mode) (minfo shown)
    × Memᴰ (table_row (codes "Buffer size") size) (minfo shown)
    × (on_update_mode 0 mode ≡ (ok, 1))
    × (strtol size ≡ 2 ^ 64 - 5)
minfo_readable_example = minfo_readable shown 0 (omega arith) (omega arith)

shown_size : signed_decimal shown.buffer_size ≡ codes "-5"
unfolding signed_decimal decimal_digits
shown_size = refl
