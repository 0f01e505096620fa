-- ===== src/Pipeline/Opening.antt =====
-- What a request start of php_lumbre.c does about the worker's ring.
use mathlib.Core.List.Sublistᴰ
use lumbre_ext.Common.{
  ℕ, ◌%◌, ◌^◌, ◌≤◌, ◌<◌, ◌≡◌, refl, arith, true, false, not, ◌&&◌, List, [], Bool-cases, inl, inr,
  ◌⊎◌, u32, Status, ok, error,
}
use lumbre_ext.Msgpack.{msgpack_buf_size}
use lumbre_ext.Ring.{RingBuf}
use lumbre_ext.Ring.Lifecycle.{SysCall, init}
use lumbre_ext.Ring.Refine.{Holds}
use lumbre_ext.Ring.Stored.{IsStored}
use lumbre_ext.Ring.Start.{init-IsStored, init-Holds, init-dropped}
use lumbre_ext.Span.{Span}
use lumbre_ext.Span.Queue.{too_long}
use lumbre_ext.Hooks.{Globals, dir_of}
use lumbre_ext.Request.{Env, ensure_ring, init_ring, ring_opened}
use lumbre_ext.Pipeline.Stage.{IsOpen, IsUnopened, Stage}

-- A ring that is opened, or not.
abbrev Opening : List Span → List (List ℕ) → Status × Globals × List SysCall → Type 0
Opening reported received r =
    ((r.0 ≡ ok) × IsOpen r.1 reported received) ⊎ ((r.0 ≡ error) × IsUnopened r.1 reported received)

ring_opened-Opening :
    (env : Env) (g : Globals) (r : Status × RingBuf × List SysCall) {reported : List Span}
    {received : List (List ℕ)}
    → IsUnopened g reported received
    → g.mp_buf.capacity ≡ msgpack_buf_size
    → (r.0 ≡ ok → Holds r.1 [] × (r.1.header.dropped ≡ 0) × IsStored r.1)
    → Opening reported received (ring_opened env g r)
unfolding ring_opened
ring_opened-Opening env g (ok, rb, calls) {reported} c cap opened =
    let (holds, zero_drops, stored) = opened refl in
    inl (
      refl,
      record {
        taken = [];
        pending = [];
        initialized = refl;
        read = c.read;
        holds = holds;
        order = Sublistᴰ.nil-sublist reported;
        capacity = cap;
        counted = rw (c.silent, zero_drops) (unfold too_long in refl);
        stored = stored;
      },
    )
ring_opened-Opening env g (error, rb, calls) c cap opened = inr (
  refl,
  record { initialized = c.initialized; active = c.active; read = c.read; silent = c.silent },
)

init_ring-Opening :
    (env : Env) (g : Globals) {reported : List Span} {received : List (List ℕ)}
    → 3 ≤ g.buffer_size % 2 ^ 32
    → g.buffer_size % 2 ^ 32 ≤ 2 ^ 31
    → env.worker_id < 2 ^ 64
    → IsUnopened g reported received
    → Opening reported received (init_ring env g)
unfolding init_ring
init_ring-Opening env g lo hi hw c =
    ring_opened-Opening env _
      (init g.ringbuf env.os (dir_of g) (env.pid % u32) env.worker_id (g.buffer_size % u32))
      (record { initialized = c.initialized; active = c.active; read = c.read; silent = c.silent })
      refl
      (λ done. (
        (init-Holds g.ringbuf env.os (dir_of g) (env.pid % u32) env.worker_id (g.buffer_size % u32)
            lo hi done).0,
        init-dropped g.ringbuf env.os (dir_of g) (env.pid % u32) env.worker_id (g.buffer_size % u32)
            done,
        init-IsStored g.ringbuf env.os (dir_of g) (env.pid % u32) env.worker_id
            (g.buffer_size % u32) (omega arith) hw done,
      ))

ring_there :
    (env : Env) (g : Globals) → g.ringbuf_initialized ≡ true → ensure_ring env g ≡ (ok, g, [])
unfolding ensure_ring
ring_there env g i = simp i refl

ring_denied :
    (env : Env) (g : Globals)
    → g.ringbuf_initialized ≡ false
    → (not g.mp_storage && not env.malloc_ok) ≡ true
    → ensure_ring env g ≡ (error, record g { worker_id = env.worker_id; enabled = false }, [])
unfolding ensure_ring
ring_denied env g i m = simp (i, m) refl

ring_tried :
    (env : Env) (g : Globals)
    → g.ringbuf_initialized ≡ false
    → (not g.mp_storage && not env.malloc_ok) ≡ false
    → ensure_ring env g ≡ init_ring env g
unfolding ensure_ring
ring_tried env g i m = simp (i, m) refl

pub ensure_ring-Opening :
    (env : Env) (g : Globals) {reported : List Span} {received : List (List ℕ)}
    → 3 ≤ g.buffer_size % 2 ^ 32
    → g.buffer_size % 2 ^ 32 ≤ 2 ^ 31
    → env.worker_id < 2 ^ 64
    → Stage g reported received
    → Opening reported received (ensure_ring env g)
ensure_ring-Opening env g lo hi hw (inl o) = rw (ring_there env g o.initialized) (inl (refl, o))
ensure_ring-Opening env g lo hi hw (inr c) =
    elim (Bool-cases (not g.mp_storage && not env.malloc_ok)) [
      | inl m ↦ rw (ring_denied env g c.initialized m) (
          inr (
            refl,
            record {
              initialized = c.initialized;
              active = c.active;
              read = c.read;
              silent = c.silent;
            },
          ))
      | inr m ↦ rw (ring_tried env g c.initialized m) (init_ring-Opening env g lo hi hw c)
    ]
