-- ===== src/Ring/Start.antt =====
-- The ring that lumbre_ringbuf_init hands out.
use lumbre_ext.Common.{
  Status, ok, error, ℕ, ◌-◌, ◌*◌, ◌^◌, ◌≤◌, ◌<◌, ◌≡◌, refl, ap, ◌∙◌, arith, List, [], Option, none,
  some, leb, length, take, take-all, inl, inr, leb_false→lt, Bool-cases,
}
use lumbre_ext.Ring.Write.{IsValid}
use lumbre_ext.Ring.{reset, RingBuf, count_drop, next_power_of_2, write_seen, write}
use lumbre_ext.Ring.Power.{
  IsPowerOfTwo, next_power_of_2_lem, next_power_of_2_range, next_power_of_2_wraps,
}
use lumbre_ext.Ring.Refine.{Holds}
use lumbre_ext.Ring.Frames.{done}
use lumbre_ext.Ring.Stored.{IsStored}
use lumbre_ext.Ring.Lifecycle.{Os, SysCall, fill, ring_path, init_named, init_opened, init}

-- The handle once its path is printed.
abbrev named : RingBuf → List ℕ → ℕ → ℕ → RingBuf
named rb dir pid worker_id = record rb { path = take 255 (ring_path dir pid worker_id) }

init_opened_ok :
    (rb : RingBuf) (os : Os) (fd pid worker_id capacity : ℕ)
    → (init_opened rb os fd pid worker_id capacity).0 ≡ ok
    → (init_opened rb os fd pid worker_id capacity).1 ≡ fill rb fd pid worker_id capacity
unfolding init_opened
init_opened_ok rb os fd pid worker_id capacity h = ground arith

init_named_ok :
    (rb : RingBuf) (os : Os) (o : Option ℕ) (pid worker_id capacity : ℕ)
    → (init_named rb os o pid worker_id capacity).0 ≡ ok
    → (fd : ℕ) × ((init_named rb os o pid worker_id capacity).1 ≡ fill rb fd pid worker_id capacity)
unfolding init_named
init_named_ok rb os none pid worker_id capacity h = cc
init_named_ok rb os (some fd) pid worker_id capacity h =
    (fd, init_opened_ok rb os fd pid worker_id capacity h)

init_ok :
    (rb : RingBuf) (os : Os) (dir : List ℕ) (pid worker_id capacity : ℕ)
    → (init rb os dir pid worker_id capacity).0 ≡ ok
    → (fd : ℕ) × (length (ring_path dir pid worker_id) < 256)
      × ((init rb os dir pid worker_id capacity).1
          ≡ fill (named rb dir pid worker_id) fd pid worker_id (next_power_of_2 capacity))
unfolding init
init_ok rb os dir pid worker_id capacity h =
    elim (Bool-cases (leb 256 (length (ring_path dir pid worker_id)))) [
      | inl long ↦
          absurd (let bad : (init rb os dir pid worker_id capacity).0 ≡ error = rw long in cc)
      | inr short ↦
          let step : init rb os dir pid worker_id capacity
              ≡ init_named (named rb dir pid worker_id) os os.open_fd pid worker_id
                  (next_power_of_2 capacity) =
            rw short in
          let (fd, e) =
            init_named_ok (named rb dir pid worker_id) os os.open_fd pid worker_id
              (next_power_of_2 capacity) (rw step at h) in
          (fd, leb_false→lt _ _ short, ap (λ (r : Status × RingBuf × List SysCall). r.1) step ∙ e)
    ]

fill-Holds :
    (rb : RingBuf) (fd pid worker_id capacity : ℕ)
    → IsPowerOfTwo capacity
    → 4 ≤ capacity
    → capacity ≤ 2 ^ 31
    → Holds (fill rb fd pid worker_id capacity) []
unfolding fill
fill-Holds rb fd pid worker_id capacity power lo hi = record {
  valid = record {
    rounded = power;
    least = lo;
    greatest = hi;
    masked = omega arith;
    published = refl;
    behind = omega arith;
    filled = omega arith;
  };
  frames = done 0;
}

-- After an init that returns 0 for a requested size of 3 to 2^31 bytes the ring is valid and
-- holds no message; its capacity is at least the request and below twice the request, and is in
-- the header with the magic number, the version and the worker's process id; the stored path is
-- whole.
pub init-Holds :
    (rb : RingBuf) (os : Os) (dir : List ℕ) (pid worker_id capacity : ℕ)
    → 3 ≤ capacity
    → capacity ≤ 2 ^ 31
    → (init rb os dir pid worker_id capacity).0 ≡ ok
    → let rb' = (init rb os dir pid worker_id capacity).1 in
      Holds rb' []
      × (capacity ≤ rb'.capacity)
      × (rb'.capacity < 2 * capacity)
      × (rb'.header.capacity ≡ rb'.capacity)
      × (rb'.header.magic ≡ 0x54524143)
      × (rb'.header.version ≡ 1)
      × (rb'.header.pid ≡ pid)
      × (rb'.path ≡ ring_path dir pid worker_id)
unfolding fill
init-Holds rb os dir pid worker_id capacity lo hi h =
    let (fd, short, e) = init_ok rb os dir pid worker_id capacity h in
    let (power, above, below) = next_power_of_2_lem capacity (omega arith) hi in
    let (least, most) = next_power_of_2_range capacity lo hi in
    rw e (
      fill-Holds (named rb dir pid worker_id) fd pid worker_id _ power least most,
      above,
      below,
      refl,
      refl,
      refl,
      refl,
      take-all 255 (ring_path dir pid worker_id) (omega arith),
    )

-- An init that returns 0 has counted no drop.
pub init-dropped :
    (rb : RingBuf) (os : Os) (dir : List ℕ) (pid worker_id capacity : ℕ)
    → (init rb os dir pid worker_id capacity).0 ≡ ok
    → (init rb os dir pid worker_id capacity).1.header.dropped ≡ 0
unfolding fill
init-dropped rb os dir pid worker_id capacity h =
    let (fd, short, e) = init_ok rb os dir pid worker_id capacity h in rw e refl

-- The header of a ring that an init with a process and a worker number within their types returned.
pub init-IsStored :
    (rb : RingBuf) (os : Os) (dir : List ℕ) (pid worker_id capacity : ℕ)
    → pid < 2 ^ 32
    → worker_id < 2 ^ 64
    → (init rb os dir pid worker_id capacity).0 ≡ ok
    → IsStored (init rb os dir pid worker_id capacity).1
unfolding fill
init-IsStored rb os dir pid worker_id capacity hp hw h =
    let (fd, short, e) = init_ok rb os dir pid worker_id capacity h in
    rw e (record {
      stored = refl;
      magic = omega arith;
      version = omega arith;
      write_pos = omega arith;
      dropped = omega arith;
      pid = hp;
      worker_id = hw;
    })

-- An init that returns 0 for a requested size above 2^31 (and below 2^32) makes a ring of
-- capacity 0, and a write of a payload below 2^32 - 4 bytes to it counts a drop and changes
-- nothing else.
pub init_too_large :
    (rb : RingBuf) (os : Os) (dir : List ℕ) (pid worker_id capacity : ℕ) (payload : List ℕ)
    (len : ℕ)
    → 2 ^ 31 < capacity
    → capacity < 2 ^ 32
    → len < 2 ^ 32 - 4
    → (init rb os dir pid worker_id capacity).0 ≡ ok
    → let rb' = (init rb os dir pid worker_id capacity).1 in
      (rb'.capacity ≡ 0) × (write rb' payload len ≡ (error, count_drop rb'))
unfolding fill
init_too_large rb os dir pid worker_id capacity payload len lo hi small h =
    let (fd, short, e) = init_ok rb os dir pid worker_id capacity h in
    let none_left : next_power_of_2 capacity ≡ 0 = next_power_of_2_wraps capacity lo hi in
    rw (e, none_left) (refl, unfold write write_seen in ground arith)

-- A reset of a valid ring, whatever it holds, leaves a valid ring of the same capacity that holds no
-- message, with no drop counted.
pub reset-Holds :
    (rb : RingBuf)
    → IsValid rb
    → Holds (reset rb) [] × ((reset rb).capacity ≡ rb.capacity) × ((reset rb).header.dropped ≡ 0)
unfolding reset
reset-Holds rb v = (
  record {
    valid = record {
      rounded = v.rounded;
      least = v.least;
      greatest = v.greatest;
      masked = v.masked;
      published = refl;
      behind = omega arith;
      filled = omega arith;
    };
    frames = done 0;
  },
  refl,
  refl,
)
