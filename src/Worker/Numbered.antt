-- ===== src/Worker/Numbered.antt =====
-- What the start of a request of php_lumbre.c leaves of the ring of a thread, and its number.
use lumbre_ext.Common.{
  ℕ, suc, ◌+◌, ◌%◌, ◌^◌, ◌<◌, ◌≤◌, ◌≡◌, refl, ap, sym, ◌∙◌, arith, true, false, not, ◌&&◌, List,
  Bool-cases, inl, inr, u32, Status, ok, error,
}
use lumbre_ext.Ring.{RingBuf}
use lumbre_ext.Ring.Lifecycle.{Os, SysCall, ring_path, init, init_named, init_opened, fill}
use lumbre_ext.Ring.Decimal.{init-path}
use lumbre_ext.Ring.Handle.{handle_of}
use lumbre_ext.Hooks.{Globals, dir_of}
use lumbre_ext.Request.{Env, ensure_ring, init_ring, ring_opened, start_root, rinit}
use lumbre_ext.Request.Root.{Status-cases}
use lumbre_ext.Worker.{worker_id, rinit_numbered}

abbrev pub HasRing : Globals → Type 0
HasRing g = g.ringbuf_initialized ≡ true

pub init-worker_id :
    (rb : RingBuf) (os : Os) (dir : List ℕ) (pid worker capacity : ℕ)
    → (init rb os dir pid worker capacity).0 ≡ ok
    → (init rb os dir pid worker capacity).1.worker_id ≡ worker
unfolding init init_named init_opened fill
init-worker_id rb os dir pid worker capacity done = ground arith

-- The ring that a thread has is of a number that the counter has passed, and its file has its name.
pub record IsNamed (dir : List ℕ) (pid counter : ℕ) (rb : RingBuf) : Type 0 where
  pub taken : rb.worker_id < counter
  pub name : rb.path ≡ ring_path dir pid rb.worker_id

-- What the start of a request leaves of a thread's ring.
pub data Numbered (dir : List ℕ) (pid counter : ℕ) (g g' : Globals) : Type 0 where
  unchanged :
      g'.ringbuf_initialized ≡ g.ringbuf_initialized
      → handle_of g'.ringbuf ≡ handle_of g.ringbuf
      → Numbered dir pid counter g g'
  closed : g'.ringbuf_initialized ≡ false → Numbered dir pid counter g g'
  opened :
      g.ringbuf_initialized ≡ false
      → g'.ringbuf.worker_id ≡ counter
      → g'.ringbuf.path ≡ ring_path dir pid counter
      → Numbered dir pid counter g g'

pub ring_opened-Numbered :
    (env : Env) (g₀ g : Globals) (dir : List ℕ) (pid counter size : ℕ)
    → g₀.ringbuf_initialized ≡ false
    → g.ringbuf_initialized ≡ false
    → Numbered dir pid counter g₀ (ring_opened env g (init g.ringbuf env.os dir pid counter size)).1
ring_opened-Numbered env g₀ g dir pid counter size fresh fresh' =
    go (init g.ringbuf env.os dir pid counter size)
      (init-worker_id g.ringbuf env.os dir pid counter size)
      (init-path g.ringbuf env.os dir pid counter size)
  where
    go :
        (r : Status × RingBuf × List SysCall)
        → (r.0 ≡ ok → r.1.worker_id ≡ counter)
        → (r.0 ≡ ok → r.1.path ≡ ring_path dir pid counter)
        → Numbered dir pid counter g₀ (ring_opened env g r).1
    go (ok, rb, calls) w n = unfold ring_opened in opened fresh (w refl) (n refl)
    go (error, rb, calls) w n = unfold ring_opened in closed fresh'

pub init_ring-Numbered :
    (env : Env) (g : Globals)
    → g.ringbuf_initialized ≡ false
    → Numbered (dir_of g) (env.pid % u32) env.worker_id g (init_ring env g).1
unfolding init_ring
init_ring-Numbered env g fresh =
    ring_opened-Numbered env g _ (dir_of g) (env.pid % u32) env.worker_id (g.buffer_size % u32)
      fresh fresh

pub ensure_ring-Numbered :
    (env : Env) (g : Globals)
    → Numbered (dir_of g) (env.pid % u32) env.worker_id g (ensure_ring env g).1
unfolding ensure_ring
ensure_ring-Numbered env g = elim (Bool-cases g.ringbuf_initialized) [
  | inl e ↦ simp e (unchanged refl refl)
  | inr e ↦ elim (Bool-cases (not g.mp_storage && not env.malloc_ok)) [
    | inl m ↦ simp (e, m) (unchanged (sym e) refl)
    | inr m ↦ simp (e, m) (init_ring-Numbered env g e)
  ]
]

pub start_root-Numbered :
    (env : Env) {dir : List ℕ} {pid counter : ℕ} {g g' : Globals}
    → Numbered dir pid counter g g'
    → Numbered dir pid counter g (start_root env g')
unfolding start_root
start_root-Numbered env (unchanged i h) = unchanged i h
start_root-Numbered env (closed i) = closed i
start_root-Numbered env (opened i w n) = opened i w n

pub rinit-Numbered :
    (env : Env) (g : Globals) → Numbered (dir_of g) (env.pid % u32) env.worker_id g (rinit env g).0
unfolding rinit start_root
rinit-Numbered env g = elim (Bool-cases (not g.enabled)) [
  | inl off ↦ rw off (unchanged refl refl)
  | inr on ↦
      let made = ensure_ring-Numbered env g in
      elim (Status-cases (ensure_ring env g).0) [
        | inl done ↦ rw (on, done) (start_root-Numbered env made)
        | inr bad ↦ rw (on, bad) made
      ]
]

pub rinit_numbered-le :
    (counter : ℕ) (env : Env) (g : Globals)
    → counter + 1 < 2 ^ 64
    → let r = rinit_numbered true counter env g in
      (counter ≤ r.2) × ((g.enabled && not g.ringbuf_initialized) ≡ true → r.2 ≡ suc counter)
unfolding rinit_numbered worker_id
rinit_numbered-le counter env g room = ground arith

pub numbered :
    (env : Env) (g : Globals) (counter : ℕ)
    → Numbered (dir_of g) (env.pid % u32) counter g (rinit_numbered true counter env g).0
unfolding rinit_numbered worker_id
numbered env g counter = rinit-Numbered (record env { worker_id = counter }) g

pub rinit_off : (env : Env) (g : Globals) → g.enabled ≡ false → (rinit env g).0 ≡ g
unfolding rinit
rinit_off env g off = let stop : not g.enabled ≡ true = ap not off in rw stop refl

-- A thread that has got a ring has taken the counter's number.
pub counted :
    (env : Env) (g : Globals) (counter : ℕ)
    → counter + 1 < 2 ^ 64
    → g.ringbuf_initialized ≡ false
    → HasRing (rinit_numbered true counter env g).0
    → (rinit_numbered true counter env g).2 ≡ suc counter
unfolding rinit_numbered worker_id
counted env g counter room fresh on = elim (Bool-cases g.enabled) [
  | inl e ↦ (rinit_numbered-le counter env g room).1 (rw (e, fresh) refl)
  | inr off ↦
      let stayed = rinit_off (record env { worker_id = counter }) g off in
      absurd (cc (sym on ∙ ap (λ (x : Globals). x.ringbuf_initialized) stayed ∙ fresh))
]
