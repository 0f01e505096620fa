-- ===== src/Request/Started.antt =====
-- What RINIT of php_lumbre.c sets up for a request that is traced.
use lumbre_ext.Common.{
  ◌+◌, ◌%◌, ◌^◌, ◌<◌, ◌≡◌, refl, ap, sym, ◌∙◌, arith, true, false, not, ◌&&◌, List, Bool-cases, inl,
  inr, u32, Status, ok, error, some, codes,
}
use lumbre_ext.Ring.{RingBuf}
use lumbre_ext.Ring.Lifecycle.{SysCall, init}
use lumbre_ext.Span.{Span, context_init, span_start, span_http_in}
use lumbre_ext.Span.Setters.{set_http_in}
use lumbre_ext.Span.Fields.{IsSpan, IsString}
use lumbre_ext.Hooks.{Globals, dir_of, string_len}
use lumbre_ext.Hooks.Wellformed.{new_span-IsSpan, or_empty-IsString, set_http_in-IsSpan}
use lumbre_ext.Request.{Env, ensure_ring, init_ring, ring_opened, start_root, root_payload, rinit}
use lumbre_ext.Request.Root.{IsTraced, rinit-IsTraced, ensure_ring-Ensured}

-- The strings of the request are short enough for a header.
pub record IsRequest (env : Env) : Type 0 where
  pub path_translated : string_len env.path_translated + 5 < 2 ^ 32
  pub request_uri : string_len env.request_uri + 5 < 2 ^ 32
  pub request_method : string_len env.request_method + 5 < 2 ^ 32

pub root_payload-IsSpan :
    (env : Env) (span : Span) → IsRequest env → IsSpan span → IsSpan (root_payload env span)
unfolding root_payload
root_payload-IsSpan env span r w = elim (Bool-cases env.is_cli) [
  | inl cli ↦
      let name : IsString (some (codes "CLI")) 3 = record { text = tt; short = omega arith } in
      rw cli (
        set_http_in-IsSpan span _ _ _ _ w (or_empty-IsString env.path_translated r.path_translated)
          name)
  | inr web ↦ rw web (
      set_http_in-IsSpan span _ _ _ _ w (or_empty-IsString env.request_uri r.request_uri)
        (or_empty-IsString env.request_method r.request_method))
]

pub root_payload-trace :
    (env : Env) (span : Span) → (root_payload env span).trace_id ≡ span.trace_id
unfolding root_payload set_http_in
root_payload-trace env span = ground arith

-- What an RINIT that starts a traced request has set up.
pub record IsStarted (g g' : Globals) : Type 0 where
  pub root : IsSpan g'.root_span
  pub trace : g'.root_span.trace_id ≡ g'.ctx.trace_id
  pub counter : g'.ctx.span_counter ≡ 2
  pub whitelist : g'.whitelist ≡ g.whitelist
  pub small : g'.mp_buf.capacity < 2 ^ 32

pub start_root-IsStarted :
    (env : Env) (g g' : Globals)
    → IsRequest env
    → g'.whitelist ≡ g.whitelist
    → g'.mp_buf.capacity < 2 ^ 32
    → IsStarted g (start_root env g')
unfolding start_root span_start context_init
start_root-IsStarted env g g' r same small = record {
  root =
      root_payload-IsSpan env _ r
        (new_span-IsSpan span_http_in _ 1 0 env.now (omega arith) (omega arith) (omega arith));
  trace = root_payload-trace env _;
  counter = refl;
  whitelist = same;
  small = small;
}

abbrev pub Opened : Globals → Globals → Type 0
Opened g g' = (g'.whitelist ≡ g.whitelist) × (g'.mp_buf.capacity < 2 ^ 32)

pub ring_opened-Opened :
    (env : Env) (g : Globals) (r : Status × RingBuf × List SysCall)
    → g.mp_buf.capacity < 2 ^ 32
    → Opened g (ring_opened env g r).1
unfolding ring_opened
ring_opened-Opened env g (ok, rb, calls) small = (refl, small)
ring_opened-Opened env g (error, rb, calls) small = (refl, small)

pub init_ring-Opened : (env : Env) (g : Globals) → Opened g (init_ring env g).1
unfolding init_ring
init_ring-Opened env g =
    ring_opened-Opened env _
      (init g.ringbuf env.os (dir_of g) (env.pid % u32) env.worker_id (g.buffer_size % u32))
      (omega arith)

pub ensure_ring-Opened :
    (env : Env) (g : Globals) → g.mp_buf.capacity < 2 ^ 32 → Opened g (ensure_ring env g).1
unfolding ensure_ring
ensure_ring-Opened env g small = elim (Bool-cases g.ringbuf_initialized) [
  | inl e ↦ rw e (refl, small)
  | inr e ↦ elim (Bool-cases (not g.mp_storage && not env.malloc_ok)) [
    | inl m ↦ rw (e, m) (refl, small)
    | inr m ↦ simp (e, m) (init_ring-Opened env g)
  ]
]

pub rinit-IsStarted :
    (env : Env) (g : Globals)
    → IsRequest env
    → g.mp_buf.capacity < 2 ^ 32
    → g.enabled ≡ true
    → (rinit env g).0.enabled ≡ true
    → IsStarted g (rinit env g).0
unfolding rinit
rinit-IsStarted env g r small on still =
    let go_on : not g.enabled ≡ false = ap not on in
    let (same, cap) = ensure_ring-Opened env g small in
    elim (ensure_ring-Ensured env g) [
      | inl (done, kept) ↦
          rw (go_on, done) (start_root-IsStarted env g (ensure_ring env g).1 r same cap)
      | inr (bad, off, kept) ↦ absurd (cc (sym off ∙ (rw (go_on, bad) at still)))
    ]

pub started-IsTraced :
    (env : Env) (g : Globals)
    → g.enabled ≡ true
    → (rinit env g).0.enabled ≡ true
    → IsTraced (rinit env g).0
started-IsTraced env g on still = elim (rinit-IsTraced env g on) [
  | inl t ↦ t
  | inr (off, same) ↦ absurd (cc (sym off ∙ still))
]
