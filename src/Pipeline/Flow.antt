-- ===== src/Pipeline/Flow.antt =====
-- A worker of php_lumbre.c whose messages flow to the daemon, and what a request start leaves of it.
use lumbre_ext.Common.{
  ℕ, ◌%◌, ◌^◌, ◌≤◌, ◌<◌, ◌≡◌, refl, ap, sym, ◌∙◌, arith, not, ◌&&◌, List, Bool-cases, inl, inr, u32,
  Status, ok, error, some, All,
}
use lumbre_ext.Ring.{RingBuf}
use lumbre_ext.Span.{Span, context_init, span_start}
use lumbre_ext.Span.Fields.{IsSpan}
use lumbre_ext.Whitelist as Whitelist
use lumbre_ext.Hooks.{Globals, dir_of}
use lumbre_ext.Ring.Lifecycle.{SysCall, init}
use lumbre_ext.Request.{Env, init_ring, ring_opened, ensure_ring, start_root, rinit}
use lumbre_ext.Request.Root.{Status-cases}
use lumbre_ext.Request.Started.{IsRequest, IsStarted, start_root-IsStarted, ensure_ring-Opened}
use lumbre_ext.Pipeline.{System, begun}
use lumbre_ext.Pipeline.Stage.{Stage, IsOpen-same}
use lumbre_ext.Pipeline.Opening.{ensure_ring-Opening}

-- The worker's own state: the table of the init, a buffer below 2^32 bytes, a 64-bit parent and a
-- well-formed root span.
pub record IsWorker (g : Globals) : Type 0 where
  pub ready : Whitelist.init ≡ some g.whitelist
  pub small : g.mp_buf.capacity < 2 ^ 32
  pub parent : g.ctx.current_parent_id < 2 ^ 64
  pub root : IsSpan g.root_span

pub record IsFlowing (s : System) : Type 0 where
  pub worker : IsWorker s.globals
  pub stage : Stage s.globals s.reported s.received
  pub spans : All IsSpan s.reported

-- A request start.
start_root-parent : (env : Env) (g : Globals) → (start_root env g).ctx.current_parent_id < 2 ^ 64
unfolding start_root span_start context_init
start_root-parent env g = omega arith

start_root-ring :
    (env : Env) (g : Globals)
    → ((start_root env g).ringbuf_initialized ≡ g.ringbuf_initialized)
      × ((start_root env g).ringbuf ≡ g.ringbuf)
      × ((start_root env g).mp_buf.capacity ≡ g.mp_buf.capacity)
unfolding start_root
start_root-ring env g = (refl, refl, refl)

ring_opened-Worker :
    (env : Env) (g : Globals) (r : Status × RingBuf × List SysCall)
    → ((ring_opened env g r).1.root_span ≡ g.root_span) × ((ring_opened env g r).1.ctx ≡ g.ctx)
unfolding ring_opened
ring_opened-Worker env g (ok, rb, calls) = (refl, refl)
ring_opened-Worker env g (error, rb, calls) = (refl, refl)

ensure_ring-Worker :
    (env : Env) (g : Globals)
    → ((ensure_ring env g).1.root_span ≡ g.root_span) × ((ensure_ring env g).1.ctx ≡ g.ctx)
unfolding ensure_ring init_ring
ensure_ring-Worker env g = elim (Bool-cases g.ringbuf_initialized) [
  | inl e ↦ rw e (refl, refl)
  | inr e ↦ elim (Bool-cases (not g.mp_storage && not env.malloc_ok)) [
    | inl m ↦ rw (e, m) (refl, refl)
    | inr m ↦
        simp (e, m)
          (ring_opened-Worker env _
            (init g.ringbuf env.os (dir_of g) (env.pid % u32) env.worker_id (g.buffer_size % u32)))
  ]
]

-- RINIT, by what becomes of the ring.
data Begins (env : Env) (g g' : Globals) : Type 0 where
  off : g' ≡ g → Begins env g g'
  started : (ensure_ring env g).0 ≡ ok → g' ≡ start_root env (ensure_ring env g).1 → Begins env g g'
  failed : (ensure_ring env g).0 ≡ error → g' ≡ (ensure_ring env g).1 → Begins env g g'

rinit-Begins : (env : Env) (g : Globals) → Begins env g (rinit env g).0
unfolding rinit
rinit-Begins env g = elim (Bool-cases (not g.enabled)) [
  | inl e ↦ off (rw e refl)
  | inr e ↦ elim (Status-cases (ensure_ring env g).0) [
    | inl done ↦ started done (rw (e, done) refl)
    | inr bad ↦ failed bad (rw (e, bad) refl)
  ]
]

IsWorker-begun :
    (env : Env) (g g' : Globals) → IsRequest env → IsWorker g → Begins env g g' → IsWorker g'
IsWorker-begun env g g' r w (off e) = rw e w
IsWorker-begun env g g' r w (started done e) =
    let (same, cap) = ensure_ring-Opened env g w.small in
    let s : IsStarted g (start_root env (ensure_ring env g).1) =
      start_root-IsStarted env g (ensure_ring env g).1 r same cap in
    rw e (record {
      ready = w.ready ∙ ap some (sym s.whitelist);
      small = s.small;
      parent = start_root-parent env (ensure_ring env g).1;
      root = s.root;
    })
IsWorker-begun env g g' r w (failed bad e) =
    let (same, cap) = ensure_ring-Opened env g w.small in
    let (root, ctx) = ensure_ring-Worker env g in
    rw e (record {
      ready = w.ready ∙ ap some (sym same);
      small = cap;
      parent = rw ctx w.parent;
      root = rw root w.root;
    })

Stage-begun :
    (env : Env) (g g' : Globals) {reported : List Span} {received : List (List ℕ)}
    → 3 ≤ g.buffer_size % 2 ^ 32
    → g.buffer_size % 2 ^ 32 ≤ 2 ^ 31
    → env.worker_id < 2 ^ 64
    → Stage g reported received
    → Begins env g g'
    → Stage g' reported received
Stage-begun env g g' lo hi hw t (off e) = rw e t
Stage-begun env g g' lo hi hw t (started done e) = elim (ensure_ring-Opening env g lo hi hw t) [
  | inl (done', o) ↦
      let (i, ring, buf) = start_root-ring env (ensure_ring env g).1 in
      rw e (inl (IsOpen-same i ring buf o))
  | inr (bad, c) ↦ absurd (cc (sym done ∙ bad))
]
Stage-begun env g g' lo hi hw t (failed bad e) = elim (ensure_ring-Opening env g lo hi hw t) [
  | inl (done, o) ↦ absurd (cc (sym done ∙ bad))
  | inr (bad', c) ↦ rw e (inr c)
]

-- A request start keeps the messages flowing.
pub begun-IsFlowing :
    (env : Env) (s : System)
    → IsRequest env
    → 3 ≤ s.globals.buffer_size % 2 ^ 32
    → s.globals.buffer_size % 2 ^ 32 ≤ 2 ^ 31
    → env.worker_id < 2 ^ 64
    → IsFlowing s
    → IsFlowing (begun env s)
begun-IsFlowing env s r lo hi hw f =
    let b = rinit-Begins env s.globals in
    record {
      worker = IsWorker-begun env s.globals _ r f.worker b;
      stage = Stage-begun env s.globals _ lo hi hw f.stage b;
      spans = f.spans;
    }
