-- ===== src/Request/Trace.antt =====
-- A whole request of php_lumbre.c, from RINIT to RSHUTDOWN, as the messages in the ring.
use lumbre_ext.Common.{
  ℕ, ◌+◌, ◌%◌, ◌^◌, ◌<◌, ◌≡◌, refl, ap, sym, ◌∙◌, arith, true, false, not, List, [], ◌∷◌, ◌++◌, inr,
  u32, some, length, All, ◌≤◌,
}
use lumbre_ext.Span.{Span, Timespec}
use lumbre_ext.Span.Fields.{IsSpan}
use lumbre_ext.Span.Valid.{finished_span}
use lumbre_ext.Span.Queue.{messages_of, HasHeadroom}
use lumbre_ext.Span.Complete.{need, log_complete}
use lumbre_ext.Ring.Refine.{Holds}
use lumbre_ext.Span.Log.{is_short, log, reported, finish-log}
use lumbre_ext.Whitelist as Whitelist
use lumbre_ext.Hooks.{Globals}
use lumbre_ext.Hooks.Closed.{IsClosed, IsClosed-close, visit_all-IsClosed}
use lumbre_ext.Hooks.Short.{AreTimed}
use lumbre_ext.Hooks.Calls.{Calls, run_all}
use lumbre_ext.Hooks.Fixed.{IsKept, run_all-IsKept}
use lumbre_ext.Hooks.Tree.{settings_of, visit_all, visit_all-le, size_all, AllFrames}
use lumbre_ext.Hooks.Ids.{finished-ids, visit_all-IsForest}
use lumbre_ext.Hooks.Forest.{IsForest, IsForest-tail}
use lumbre_ext.Hooks.Report.{run_all-Logs}
use lumbre_ext.Hooks.Traced.{IsLive, Logs, joined}
use lumbre_ext.Request.{Env, rinit, rshutdown}
use lumbre_ext.Request.Root.{IsTraced}
use lumbre_ext.Request.Started.{IsRequest, IsStarted, rinit-IsStarted, started-IsTraced}

-- The root span is never filtered.
pub root_reported :
    (root : Span) (max : ℕ) (now : Timespec)
    → reported 0 max root now ≡ finished_span root max now ∷ []
unfolding reported is_short
root_reported root max now = ground arith

-- The end of a traced request, after the calls' reports.
rshutdown-Logs :
    (g g' : Globals) (r : List Span × ℕ) (now : Timespec)
    → Logs g g' r
    → IsSpan g.root_span
    → g'.root_span ≡ g.root_span
    → g'.max_query_len ≡ g.max_query_len
    → g'.ctx.active ≡ true
    → g.mp_buf.capacity < 2 ^ 32
    → (rshutdown g' now).ringbuf
      ≡ log g.mp_buf.capacity g.ringbuf
          (r.0 ++ finished_span g.root_span (g.max_query_len % u32) now ∷ [])
unfolding rshutdown
rshutdown-Logs g g' r now d w root max active small =
    let on : not g'.ctx.active ≡ false = ap not active in
    let w' : IsSpan g'.root_span = rw root w in
    let small' : g'.mp_buf.capacity < 2 ^ 32 = omega (arith, d.capacity, small) in
    rw on (
      finish-log g'.root_span g'.ringbuf g'.mp_buf g'.ctx 0 (g'.max_query_len % u32) now w' small'
      ∙ joined g'.mp_buf.capacity g.mp_buf.capacity g'.ringbuf g.ringbuf r.0 _ _ d.capacity d.ring (
          root_reported g'.root_span (g'.max_query_len % u32) now
          ∙ ap (λ (s : Span). finished_span s (g'.max_query_len % u32) now ∷ []) root
          ∙ ap (λ (m : ℕ). finished_span g.root_span (m % u32) now ∷ []) max))

-- What a request reports: the spans of the calls, and the root span.
abbrev pub reports : Globals → Calls → Timespec → List Span
reports g calls now =
    (visit_all (settings_of g) calls 1 2).0
    ++ finished_span g.root_span (g.max_query_len % u32) now ∷ []

-- A traced request with the table of the init: from RINIT to RSHUTDOWN, the messages that are written to
-- the ring are those of the spans that the tree of calls is to report, under the ids from 2 on and
-- the parent 1, followed by that of the root span. RINIT leaves tracing on; the strings of the
-- request and of the calls are short, no call changes a setting, and the ids fit in 64 bits.
pub request-Logs :
    (env : Env) (g : Globals) (calls : Calls) (now : Timespec)
    → g.enabled ≡ true
    → (rinit env g).0.enabled ≡ true
    → Whitelist.init ≡ some g.whitelist
    → g.mp_buf.capacity < 2 ^ 32
    → IsRequest env
    → AllFrames calls
    → 2 + size_all calls < 2 ^ 64
    → let g' = (rinit env g).0 in
      (rshutdown (run_all calls g') now).ringbuf
      ≡ log g'.mp_buf.capacity g'.ringbuf (reports g' calls now)
request-Logs env g calls now on still ready small r frames room =
    let g' = (rinit env g).0 in
    let t : IsTraced g' = started-IsTraced env g on still in
    let s : IsStarted g g' = rinit-IsStarted env g r small on still in
    let live : IsLive g' = record {
      enabled = t.enabled;
      active = t.active;
      ready = ready ∙ ap some (sym s.whitelist);
      small = s.small;
      parent = omega (arith, t.current_parent_id);
    } in
    let k : IsKept g' (run_all calls g') = run_all-IsKept calls frames g' in
    let d = run_all-Logs calls g' live frames (omega (arith, s.counter, room)) in
    let d' : Logs g' (run_all calls g') (visit_all (settings_of g') calls 1 2) =
      rw (t.current_parent_id, s.counter) at d in
    rshutdown-Logs g' (run_all calls g') _ now d' s.root k.root_span k.max_query_len
      (k.active ∙ t.active) s.small

-- A traced request with the table of the init, on a ring that holds messages at its start and is not
-- read until its end, with three capacities between the consumer's position and the end of 64 bits:
-- if each message fits the buffer, and twice the bytes of the messages and their lengths fit the free
-- space, then the ring holds the old messages and all those of the request, in the order of the
-- reports. RINIT leaves tracing on; the strings of the request and of the calls are short, no call
-- changes a setting, and the ids fit in 64 bits.
pub request_complete :
    (env : Env) (g : Globals) (calls : Calls) (now : Timespec) (messages : List (List ℕ))
    → g.enabled ≡ true
    → (rinit env g).0.enabled ≡ true
    → Whitelist.init ≡ some g.whitelist
    → g.mp_buf.capacity < 2 ^ 32
    → IsRequest env
    → AllFrames calls
    → 2 + size_all calls < 2 ^ 64
    → let g' = (rinit env g).0 in
      let rb = g'.ringbuf in
      let sent = messages_of (reports g' calls now) in
      Holds rb messages
      → HasHeadroom rb
      → All (λ (bs : List ℕ). length bs ≤ g'.mp_buf.capacity) sent
      → rb.header.write_pos + need sent ≤ rb.header.read_pos + rb.capacity
      → Holds (rshutdown (run_all calls g') now).ringbuf (messages ++ sent)
request_complete env g calls now messages on still ready small r frames room h headroom fit free =
    let g' = (rinit env g).0 in
    rw (request-Logs env g calls now on still ready small r frames room) (
      log_complete g'.mp_buf.capacity g'.ringbuf (reports g' calls now) messages h headroom fit
        free)

-- The spans that a traced request reports, the root span among them, are one tree: they carry the
-- request's trace id and ids from 1 on, no two the same; the root span has the id 1 and no parent, and
-- the parent of each other span was started before it. RINIT leaves tracing on, and the strings of the
-- request are short.
pub reports-IsForest :
    (env : Env) (g : Globals) (calls : Calls) (now : Timespec)
    → g.enabled ≡ true
    → (rinit env g).0.enabled ≡ true
    → g.mp_buf.capacity < 2 ^ 32
    → IsRequest env
    → let g' = (rinit env g).0 in
      IsForest g'.ctx.trace_id 0 1 (visit_all (settings_of g') calls 1 2).1 (reports g' calls now)
reports-IsForest env g calls now on still small r =
    let g' = (rinit env g).0 in
    let t : IsTraced g' = started-IsTraced env g on still in
    let s : IsStarted g g' = rinit-IsStarted env g r small on still in
    let ids = finished-ids g'.root_span (g'.max_query_len % u32) now in
    IsForest-tail g'.ctx.trace_id 0 1 1 _ (visit_all (settings_of g') calls 1 2).0 _
      (finished_span g'.root_span (g'.max_query_len % u32) now) refl
      (omega (arith, visit_all-le (settings_of g') calls 1 2)) (ids.0 ∙ t.root_id)
      (ids.1 ∙ t.root_parent) (ids.2 ∙ s.trace) (visit_all-IsForest (settings_of g') calls 1 2)
      (inr refl)

-- With a clock that does not run backwards from the start of a call to its end, and calls within their
-- callers: whatever the least duration, no span that a traced request reports is an orphan: its parent
-- is 0, or a span that is reported too. RINIT leaves tracing on.
pub reports-IsClosed :
    (env : Env) (g : Globals) (calls : Calls) (now : Timespec) (low high : ℕ)
    → g.enabled ≡ true
    → (rinit env g).0.enabled ≡ true
    → AreTimed low high calls
    → IsClosed 0 (reports (rinit env g).0 calls now)
reports-IsClosed env g calls now low high on still timed =
    let g' = (rinit env g).0 in
    let t : IsTraced g' = started-IsTraced env g on still in
    let ids = finished-ids g'.root_span (g'.max_query_len % u32) now in
    IsClosed-close 0 1 (visit_all (settings_of g') calls 1 2).0
      (finished_span g'.root_span (g'.max_query_len % u32) now) (ids.0 ∙ t.root_id)
      (ids.1 ∙ t.root_parent) (visit_all-IsClosed (settings_of g') calls low high 1 2 timed)
