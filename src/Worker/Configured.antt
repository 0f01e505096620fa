-- ===== src/Worker/Configured.antt =====
-- The mode and the whitelist of a worker of php_lumbre.c, whatever requests and settings come.
use lumbre_ext.Common.{
  ◌%◌, ◌≤◌, ◌≡◌, refl, not, ◌&&◌, List, some, Bool-cases, inl, inr, u32, Status, ok, error,
}
use lumbre_ext.Ring.{RingBuf}
use lumbre_ext.Ring.Lifecycle.{SysCall, init}
use lumbre_ext.Span.{Timespec}
use lumbre_ext.Whitelist as Whitelist
use lumbre_ext.Hooks.{Globals, dir_of}
use lumbre_ext.Hooks.Nesting.{run-IsNested}
use lumbre_ext.Ini.Entries.{Zend, on_modify-IsUpdate}
use lumbre_ext.Request.{Env, ensure_ring, init_ring, ring_opened, start_root, rinit, rshutdown}
use lumbre_ext.Request.Root.{Status-cases}
use lumbre_ext.Worker.Lifetime.{
  Life, Step, begin_request, call, end_request, modify, Reach, here, next,
}

-- The mode is one of the two, and the whitelist is the table of the init.
pub record IsConfigured (g : Globals) : Type 0 where
  pub mode : g.mode ≤ 1
  pub ready : Whitelist.init ≡ some g.whitelist

abbrev Same : Globals → Globals → Type 0
Same g g' = (g'.mode ≡ g.mode) × (g'.whitelist ≡ g.whitelist)

IsConfigured-Same : {g g' : Globals} → Same g g' → IsConfigured g → IsConfigured g'
IsConfigured-Same (m, w) c = record { mode = rw m c.mode; ready = rw w c.ready }

ring_opened-Same :
    (env : Env) (g : Globals) (r : Status × RingBuf × List SysCall) → Same g (ring_opened env g r).1
unfolding ring_opened
ring_opened-Same env g (ok, rb, calls) = (refl, refl)
ring_opened-Same env g (error, rb, calls) = (refl, refl)

ensure_ring-Same : (env : Env) (g : Globals) → Same g (ensure_ring env g).1
unfolding ensure_ring init_ring
ensure_ring-Same env g = elim (Bool-cases g.ringbuf_initialized) [
  | inl e ↦ rw e (refl, refl)
  | inr e ↦ elim (Bool-cases (not g.mp_storage && not env.malloc_ok)) [
    | inl m ↦ rw (e, m) (refl, refl)
    | inr m ↦
        simp (e, m)
          (ring_opened-Same env _
            (init g.ringbuf env.os (dir_of g) (env.pid % u32) env.worker_id (g.buffer_size % u32)))
  ]
]

rinit-Same : (env : Env) (g : Globals) → Same g (rinit env g).0
unfolding rinit start_root
rinit-Same env g = elim (Bool-cases (not g.enabled)) [
  | inl off ↦ rw off (refl, refl)
  | inr on ↦ elim (Status-cases (ensure_ring env g).0) [
    | inl done ↦ rw (on, done) (ensure_ring-Same env g)
    | inr bad ↦ rw (on, bad) (ensure_ring-Same env g)
  ]
]

rshutdown-Same : (g : Globals) (now : Timespec) → Same g (rshutdown g now)
unfolding rshutdown
rshutdown-Same g now = elim (Bool-cases (not g.ctx.active)) [
  | inl off ↦ rw off (refl, refl)
  | inr on ↦ rw on (refl, refl)
]

Step-IsConfigured :
    {z : Zend} {l m : Life} → Step z l m → IsConfigured l.globals → IsConfigured m.globals
Step-IsConfigured (begin_request env l) c = IsConfigured-Same (rinit-Same env l.globals) c
Step-IsConfigured (call k l) c =
    let kept = run-IsNested k l.globals in IsConfigured-Same (kept.mode, kept.whitelist) c
Step-IsConfigured (end_request now l) c = IsConfigured-Same (rshutdown-Same l.globals now) c
Step-IsConfigured {z} (modify e v l member) c =
    let u = on_modify-IsUpdate z e v l.globals member in
    record { mode = u.mode c.mode; ready = rw u.whitelist c.ready }

-- Start with the table of the init and a mode of 0 or 1. After any sequence of request starts, calls,
-- request ends and changes of settings, the mode is 0 or 1 and the whitelist is the table of the
-- init.
pub Reach-IsConfigured :
    {z : Zend} {l m : Life} → IsConfigured l.globals → Reach z l m → IsConfigured m.globals
Reach-IsConfigured c here = c
Reach-IsConfigured c (next r s) = Step-IsConfigured s (Reach-IsConfigured c r)
