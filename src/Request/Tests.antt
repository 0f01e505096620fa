-- ===== src/Request/Tests.antt =====
-- The requests on concrete inputs.
use mathlib.Core.Path.{subst}
use lumbre_ext.Common.{
  ℕ, List, All, ap, sym, ◌∙◌, ◌*◌, ◌+◌, ◌≤◌, map, length, ◌≡◌, ◌⊎◌, refl, arith, false, [], ◌∷◌,
  some, codes,
}
use lumbre_ext.Span.{zero_id, span_start, context_init, pick_trace_id, clock_ns}
use lumbre_ext.Msgpack.Format.{enc_uint, enc_map, str_head, bin_head, be_bytes}
use lumbre_ext.Span.Fields.{message, pairs, specific_pairs, enc_pairs}
use lumbre_ext.Span.Finish.{is_filtered, truncate_query, elapsed}
use lumbre_ext.Span.Setters.{set_http_in, set_file_io}
use lumbre_ext.Hooks.{with_payload, with_path}
use lumbre_ext.Whitelist.Rows.{row_of}
use lumbre_ext.Memory.{fetch}
use lumbre_ext.Ring.Refine.{Holds}
use lumbre_ext.Span.Log.{is_short, log, reported}
use lumbre_ext.Span.Queue.{messages_of}
use lumbre_ext.Span.Complete.{need}
use lumbre_ext.Whitelist.{
  fnv1a, fnv_loop, lower, lower_all, build_key, cleared, next_slot, empty_slot, populated,
  put_entry, insert, insert_all, init, same_bytes,
}
use lumbre_ext.Whitelist.Entries.{static_table}
use lumbre_ext.Hooks.{Globals}
use lumbre_ext.Hooks.Calls.{done, first, run_all}
use lumbre_ext.Hooks.Tree.{AllFrames, size, size_all, visit, visit_all, row_of_call}
use lumbre_ext.Request.{
  header_char, header_chars, header_key, hex_to_bin, ensure_ring, propagated, get_server_vars,
  is_triggered, root_payload, start_root, rinit, rshutdown,
}
use lumbre_ext.Request.Hex.{hex_of, hex_to_bin-hex_of}
use lumbre_ext.Request.Trace.{reports, request-Logs, request_complete}
use lumbre_ext.Request.Root.{IsTraced, rinit-IsTraced, calls-IsTraced, rshutdown_lem}
use lumbre_ext.Request.Samples.{
  context, globals, env, ready_globals, fopen, fopen-AllFrames, env-IsRequest, init_ready, at_end,
  ready-Holds,
}

header_key_run : header_key (codes "X-Trace") ≡ some (codes "HTTP_X_TRACE")
unfolding header_key header_chars header_char
header_key_run = refl

hex_to_bin-hex_of_example : hex_to_bin (hex_of (171 ∷ 5 ∷ [])) 4 2 ≡ some (171 ∷ 5 ∷ [])
unfolding hex_of
hex_to_bin-hex_of_example = hex_to_bin-hex_of (171 ∷ 5 ∷ []) (omega arith, (omega arith, tt))

rinit-IsTraced_run :
    let g' = (rinit env globals).0 in IsTraced g' ⊎ ((g'.enabled ≡ false) × (g'.ctx ≡ context))
rinit-IsTraced_run = rinit-IsTraced env globals refl

calls-IsTraced_run : IsTraced (run_all done (rinit env globals).0)
unfolding rinit ensure_ring start_root AllFrames
calls-IsTraced_run = calls-IsTraced env globals done refl refl tt

traced : IsTraced (run_all done (rinit env globals).0)
unfolding rinit ensure_ring start_root AllFrames
traced = calls-IsTraced env globals done refl refl tt

rshutdown_lem_run :
    let g' = rshutdown (run_all done (rinit env globals).0) (record { tv_sec = 2; tv_nsec = 0 }) in
    (g'.ctx.active ≡ false) × (g'.ctx.current_parent_id ≡ 0) × (g'.ctx.trace_id ≡ zero_id)
rshutdown_lem_run =
    rshutdown_lem (run_all done (rinit env globals).0) (record { tv_sec = 2; tv_nsec = 0 }) traced

request-Logs_run :
    let g' = (rinit env ready_globals).0 in
    (rshutdown (run_all (first fopen done) g') at_end).ringbuf
    ≡ log g'.mp_buf.capacity g'.ringbuf (reports g' (first fopen done) at_end)
unfolding rinit ensure_ring start_root size size_all
request-Logs_run =
    request-Logs env ready_globals (first fopen done) at_end refl refl init_ready (omega arith)
      env-IsRequest fopen-AllFrames (omega arith)

sum_of : List ℕ → ℕ
sum_of [] = 0
sum_of (n ∷ ns) = 2 * (4 + n) + sum_of ns

need-sizes : (l : List (List ℕ)) → need l ≡ sum_of (map length l)
unfolding need sum_of
need-sizes [] = refl
need-sizes (x ∷ xs) = ap (λ (n : ℕ). 2 * (4 + length x) + n) (need-sizes xs)

All-sizes :
    (cap : ℕ) (l : List (List ℕ))
    → All (λ (n : ℕ). n ≤ cap) (map length l)
    → All (λ (bs : List ℕ). length bs ≤ cap) l
All-sizes cap [] h = tt
All-sizes cap (x ∷ xs) h = (h.0, All-sizes cap xs h.1)

sizes :
    map length (messages_of (reports (rinit env ready_globals).0 (first fopen done) at_end))
    ≡ 65 ∷ 73 ∷ []
unfolding rinit ensure_ring start_root propagated get_server_vars is_triggered init insert_all
    insert fnv1a fnv_loop cleared next_slot empty_slot populated put_entry root_payload set_http_in
    span_start context_init pick_trace_id clock_ns visit visit_all row_of_call row_of same_bytes
    static_table reported is_filtered is_short truncate_query elapsed build_key lower_all fetch
    lower with_payload with_path set_file_io message pairs specific_pairs enc_pairs enc_map enc_uint
    str_head bin_head be_bytes
sizes = refl

request_complete_example :
    let g' = (rinit env ready_globals).0 in
    Holds
      (rshutdown (run_all (first fopen done) g') at_end).ringbuf
      (messages_of (reports g' (first fopen done) at_end))
unfolding rinit ensure_ring start_root size size_all sum_of
request_complete_example =
    let sent = messages_of (reports (rinit env ready_globals).0 (first fopen done) at_end) in
    request_complete env ready_globals (first fopen done) at_end [] refl refl init_ready
      (omega arith) env-IsRequest fopen-AllFrames (omega arith) ready-Holds (omega arith)
      (All-sizes 16384 sent (
        subst (λ (ns : List ℕ). All (λ (n : ℕ). n ≤ 16384) ns) (sym sizes)
          (omega arith, (omega arith, tt))))
      (omega (arith, need-sizes sent ∙ ap sum_of sizes))

-- With a least duration of 2 seconds the file operation is left out, and only the root is reported.
abbrev slow_globals : Globals
slow_globals = record ready_globals { min_duration_ns = 2_000_000_000 }
