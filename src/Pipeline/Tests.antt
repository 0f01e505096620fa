-- ===== src/Pipeline/Tests.antt =====
-- A worker and its daemon on a concrete input.
use mathlib.Core.List.Memᴰ
use lumbre_ext.Common.{
  ◌%◌, ◌+◌, ◌^◌, ◌<◌, ◌≤◌, ◌≡◌, ◌⊎◌, refl, arith, true, false, some, none, codes, List, length,
  ◌++◌, map, Option,
}
use mathlib.Core.List.{Sublistᴰ}
use lumbre_ext.Ring.Refine.{Holds}
use lumbre_ext.Span.Reader.{read_message}
use lumbre_ext.Span.Queue.{messages_of, HasHeadroom}
use lumbre_ext.Span.{Span}
use lumbre_ext.Hooks.{Globals, execute_internal, trace_internal, close, with_payload, with_path}
use lumbre_ext.Hooks.Calls.{Call, internal, done, run, run_all}
use lumbre_ext.Hooks.Tree.{AreFrames, AllFrames, size, size_all}
use lumbre_ext.Ini.Entries.{Zend, enabled_entry, buffer_size_entry}
use lumbre_ext.Request.{Env, no_array}
use lumbre_ext.Request.Started.{IsRequest}
use lumbre_ext.Worker.{zero_globals, ginit}
use lumbre_ext.Memory.{fetch, bswap}
use lumbre_ext.Ring.{write, write_seen, put_message, next_power_of_2, is_power_of_two, smear}
use lumbre_ext.Ring.Lifecycle.{
  init as ring_init, init_named, init_opened, fill, ring_path, decimal_digits,
}
use lumbre_ext.Msgpack.{
  has_space, put_byte, store16, store32, store64, put_body, reset, pack_map, pack_uint, pack_str,
  pack_bin, pack_str_kv, pack_uint_kv, pack_bin_kv,
}
use lumbre_ext.Span.{context_init, context_reset, pick_trace_id, span_start, clock_ns}
use lumbre_ext.Span.Setters.{set_http_in, set_file_io}
use lumbre_ext.Span.Encode.{
  encode, field_count, encode_common, encode_http_in, encode_specific, encode_url,
}
use lumbre_ext.Span.Finish.{finish, elapsed, is_filtered, restore_parent, truncate_query, deliver}
use lumbre_ext.Request.{
  rinit, ensure_ring, init_ring, ring_opened, start_root, propagated, get_server_vars, is_triggered,
  root_payload, rshutdown,
}
use lumbre_ext.Whitelist.{
  fnv1a, fnv_loop, lower, lower_all, build_key, cleared, next_slot, empty_slot, populated,
  put_entry, insert, insert_all, init, same_bytes, match, find, is_match,
}
use lumbre_ext.Whitelist.Entries.{static_table}
use lumbre_ext.Pipeline.{
  System, called, call, begun, ended, modified, consumed, Reach, here, next, begin_request,
  end_request, modify, read,
}
use lumbre_ext.Msgpack.{msgpack_buf_size}
use lumbre_ext.Pipeline.Accounts.{Reach-accounts}
use lumbre_ext.Pipeline.Chosen.{oversized}
use lumbre_ext.Pipeline.Delivery.{fresh, decoded, Reach-delivers}

-- `1` is true, and a number is read as 256.
abbrev zend : Zend
zend = record { to_bool = λ v. true; to_long = λ v. 256 }

abbrev globals_in : Option Globals → Globals
globals_in none = zero_globals
globals_in (some g) = g

abbrev env : Env
env = record {
  http_server = no_array;
  worker_id = 0;
  pid = 42;
  malloc_ok = true;
  os = record { open_fd = some 4; truncate_ok = true; map_ok = true };
  random_bytes = λ old. old;
  now = record { tv_sec = 1; tv_nsec = 0 };
  is_cli = false;
  path_translated = none;
  request_uri = some (codes "/");
  request_method = some (codes "GET");
}

abbrev switched : System
switched =
    modified zend buffer_size_entry (codes "256")
      (modified zend enabled_entry (codes "1") (fresh (globals_in ginit)))

abbrev started : System
started = begun env switched

abbrev fopen : Call
fopen =
    internal
      (record {
        function_name = some (codes "fopen");
        scope_name = none;
        first_arg = some (codes "/etc/hosts");
        is_user = false;
        filename = none;
        lineno = none;
      })
      (record { tv_sec = 2; tv_nsec = 0 }) done (record { tv_sec = 3; tv_nsec = 0 })

fopen-AreFrames : AreFrames fopen
unfolding AreFrames AllFrames
fopen-AreFrames = (
  record {
    function_name = omega arith;
    scope_name = omega arith;
    first_arg = omega arith;
    file = omega arith;
    line = omega arith;
  },
  tt,
)

env-IsRequest : IsRequest env
env-IsRequest = record {
  path_translated = omega arith;
  request_uri = omega arith;
  request_method = omega arith;
}

abbrev served : System
served = ended (record { tv_sec = 4; tv_nsec = 0 }) (called fopen started)

-- What the steps ask for: ids, room for the positions, and a ring with messages.
record IsGoing : Type 0 where
  ids : started.globals.ctx.span_counter + size fopen < 2 ^ 64
  called_room : HasHeadroom started.globals.ringbuf
  ended_room : HasHeadroom (called fopen started).globals.ringbuf
  there : served.globals.ringbuf_initialized ≡ true
  bytes : served.globals.ringbuf.capacity ≡ 256
  within : served.globals.ringbuf.header.write_pos ≤ 252
  unread : served.globals.ringbuf.header.read_pos < served.globals.ringbuf.header.write_pos

going : IsGoing
unfolding ginit init insert_all insert static_table fnv1a fnv_loop fetch lower lower_all build_key
    cleared next_slot empty_slot populated put_entry same_bytes rinit ensure_ring init_ring
    ring_opened ring_init init_opened init_named fill ring_path decimal_digits next_power_of_2
    is_power_of_two smear start_root propagated get_server_vars is_triggered root_payload
    set_http_in context_init pick_trace_id span_start clock_ns rshutdown finish elapsed is_filtered
    restore_parent truncate_query deliver encode field_count encode_common encode_http_in
    encode_specific has_space put_byte store16 store32 store64 put_body reset pack_map pack_uint
    pack_str pack_bin pack_str_kv pack_uint_kv pack_bin_kv write write_seen put_message
    context_reset bswap size size_all run run_all execute_internal trace_internal close match find
    is_match with_payload with_path set_file_io encode_url
going = record {
  ids = omega arith;
  called_room = omega arith;
  ended_room = omega arith;
  there = refl;
  bytes = refl;
  within = omega arith;
  unread = omega arith;
}

ginit_ready : ginit ≡ some (globals_in ginit)
unfolding ginit init insert_all insert static_table fnv1a fnv_loop fetch lower lower_all build_key
    cleared next_slot empty_slot populated put_entry same_bytes
ginit_ready = refl

to_served : Reach zend (fresh (globals_in ginit)) served
to_served =
    next
      (next
        (next
          (next
            (next here
              (modify enabled_entry (codes "1") (fresh (globals_in ginit)) (Memᴰ.head refl)))
            (modify buffer_size_entry (codes "256") _ (Memᴰ.tail (Memᴰ.tail (Memᴰ.head refl)))))
          (begin_request env switched env-IsRequest (omega arith) (omega arith) (omega arith)))
        (call fopen started fopen-AreFrames going.ids going.called_room))
      (end_request _ (called fopen started) going.ended_room)

Reach-delivers_example :
    (taken : List Span) × (pending : List Span) × Sublistᴰ
      (taken ++ pending)
      (consumed served).reported
    × (map read_message (consumed served).received ≡ map decoded taken)
    × (((consumed served).globals.ringbuf_initialized ≡ false)
        ⊎ Holds (consumed served).globals.ringbuf (messages_of pending))
Reach-delivers_example =
    Reach-delivers ginit_ready (next to_served (read served going.there going.unread))

Reach-accounts_example :
    let rb = served.globals.ringbuf in
    (pending : List Span) × Holds rb (messages_of pending)
    × ((length served.received
            + length pending
            + rb.header.dropped
            + oversized msgpack_buf_size served.reported)
          % 2 ^ 64
        ≡ length served.reported % 2 ^ 64)
Reach-accounts_example = Reach-accounts ginit_ready to_served going.there
