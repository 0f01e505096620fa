-- ===== src/Request/Root.antt =====
-- The root span and the context of php_lumbre.c from RINIT to RSHUTDOWN.
use lumbre_ext.Common.{
  ◌%◌, ◌≡◌, ◌⊎◌, refl, ap, sym, ◌∙◌, true, false, not, ◌&&◌, List, Bool-cases, inl, inr, u32,
  Status, ok, error,
}
use lumbre_ext.Ring.{RingBuf}
use lumbre_ext.Ring.Lifecycle.{SysCall, init}
use lumbre_ext.Span.{Span, Context, Timespec, context_init, context_reset, zero_id, span_start}
use lumbre_ext.Span.Setters.{set_http_in}
use lumbre_ext.Hooks.{Globals, dir_of}
use lumbre_ext.Hooks.Calls.{Calls, run_all}
use lumbre_ext.Hooks.Fixed.{IsKept, run_all-IsKept}
use lumbre_ext.Hooks.Tree.{AllFrames}
use lumbre_ext.Hooks.Kept.{finish-ctx}
use lumbre_ext.Request.{
  Env, ensure_ring, init_ring, ring_opened, start_root, root_payload, rinit, rshutdown,
}

-- The state of a request that is traced.
pub record IsTraced (g : Globals) : Type 0 where
  pub enabled : g.enabled ≡ true
  pub active : g.ctx.active ≡ true
  pub current_parent_id : g.ctx.current_parent_id ≡ 1
  pub root_id : g.root_span.span_id ≡ 1
  pub root_parent : g.root_span.parent_id ≡ 0
  pub root_type : g.root_span.span_type ≡ 1

start_root-IsTraced : (env : Env) (g : Globals) → g.enabled ≡ true → IsTraced (start_root env g)
unfolding start_root context_init span_start root_payload set_http_in
start_root-IsTraced env g on = elim (Bool-cases env.is_cli) [
  | inl cli ↦ rw cli (record {
    enabled = on;
    active = refl;
    current_parent_id = refl;
    root_id = refl;
    root_parent = refl;
    root_type = refl;
  })
  | inr web ↦ rw web (record {
    enabled = on;
    active = refl;
    current_parent_id = refl;
    root_id = refl;
    root_parent = refl;
    root_type = refl;
  })
]

pub Status-cases : (s : Status) → (s ≡ ok) ⊎ (s ≡ error)
Status-cases ok = inl refl
Status-cases error = inr refl

-- The ring is there, and tracing as before; or tracing is disabled.
abbrev pub Ensured : Globals → Status × Globals × List SysCall → Type 0
Ensured g r =
    ((r.0 ≡ ok) × (r.1.enabled ≡ g.enabled))
    ⊎ ((r.0 ≡ error) × (r.1.enabled ≡ false) × (r.1.ctx ≡ g.ctx))

ring_opened-Ensured :
    (env : Env) (g : Globals) (r : Status × RingBuf × List SysCall)
    → Ensured g (ring_opened env g r)
unfolding ring_opened
ring_opened-Ensured env g (ok, rb, calls) = inl (refl, refl)
ring_opened-Ensured env g (error, rb, calls) = inr (refl, refl, refl)

init_ring-Ensured : (env : Env) (g : Globals) → Ensured g (init_ring env g)
unfolding init_ring
init_ring-Ensured env g =
    ring_opened-Ensured env _
      (init g.ringbuf env.os (dir_of g) (env.pid % u32) env.worker_id (g.buffer_size % u32))

pub ensure_ring-Ensured : (env : Env) (g : Globals) → Ensured g (ensure_ring env g)
unfolding ensure_ring
ensure_ring-Ensured env g = elim (Bool-cases g.ringbuf_initialized) [
  | inl e ↦ rw e (inl (refl, refl))
  | inr e ↦ elim (Bool-cases (not g.mp_storage && not env.malloc_ok)) [
    | inl m ↦ rw (e, m) (inr (refl, refl, refl))
    | inr m ↦ simp (e, m) (init_ring-Ensured env g)
  ]
]

-- An RINIT with tracing enabled either starts a traced request, or disables tracing and leaves the
-- context as it was.
pub rinit-IsTraced :
    (env : Env) (g : Globals)
    → g.enabled ≡ true
    → let g' = (rinit env g).0 in IsTraced g' ⊎ ((g'.enabled ≡ false) × (g'.ctx ≡ g.ctx))
unfolding rinit
rinit-IsTraced env g on =
    let go_on : not g.enabled ≡ false = ap not on in
    elim (ensure_ring-Ensured env g) [
      | inl (done, same) ↦ rw (go_on, done) (inl (start_root-IsTraced env _ (same ∙ on)))
      | inr (bad, off, same) ↦ rw (go_on, bad) (inr (off, same))
    ]

IsKept-IsTraced : {g g' : Globals} → IsKept g g' → IsTraced g → IsTraced g'
IsKept-IsTraced k t = record {
  enabled = k.enabled ∙ t.enabled;
  active = k.active ∙ t.active;
  current_parent_id = k.current_parent_id ∙ t.current_parent_id;
  root_id = ap (λ (s : Span). s.span_id) k.root_span ∙ t.root_id;
  root_parent = ap (λ (s : Span). s.parent_id) k.root_span ∙ t.root_parent;
  root_type = ap (λ (s : Span). s.span_type) k.root_span ∙ t.root_type;
}

-- After an RINIT that leaves an enabled tracing enabled, and any calls that change no setting, tracing is on and the
-- root span, which has the id 1, no parent and the type of a request, is the current parent,
-- whatever spans the calls made, filtered or dropped.
pub calls-IsTraced :
    (env : Env) (g : Globals) (calls : Calls)
    → g.enabled ≡ true
    → (rinit env g).0.enabled ≡ true
    → AllFrames calls
    → IsTraced (run_all calls (rinit env g).0)
calls-IsTraced env g calls on still frames = elim (rinit-IsTraced env g on) [
  | inl t ↦ IsKept-IsTraced (run_all-IsKept calls frames (rinit env g).0) t
  | inr (off, same) ↦ absurd (cc (sym off ∙ still))
]

-- An RSHUTDOWN of a traced request whose current parent is its root span leaves no current
-- parent, an inactive context and a trace id of zeros.
pub rshutdown_lem :
    (g : Globals) (now : Timespec)
    → IsTraced g
    → let g' = rshutdown g now in
      (g'.ctx.active ≡ false) × (g'.ctx.current_parent_id ≡ 0) × (g'.ctx.trace_id ≡ zero_id)
unfolding rshutdown context_reset
rshutdown_lem g now t =
    let c = finish-ctx g.root_span g.ringbuf g.mp_buf g.ctx 0 (g.max_query_len % u32) now in
    let on : not g.ctx.active ≡ false = ap not t.active in
    rw on (refl, ap (λ (x : Context). x.current_parent_id) c ∙ t.root_parent, refl)
