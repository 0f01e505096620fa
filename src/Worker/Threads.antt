-- ===== src/Worker/Threads.antt =====
-- That no two threads of a thread-safe build of php_lumbre.c write to one file.
use lumbre_ext.Common.{
  ℕ, suc, ◌+◌, ◌%◌, ◌^◌, ◌<◌, ◌≤◌, ◌≡◌, ◌≢◌, ◌⊎◌, refl, ap, sym, ◌∙◌, arith, true, false, List,
  Bool-cases, inl, inr, u32, ◌==◌, ==_iff,
}
use mathlib.Core.Path.{subst, subst₂}
use lumbre_ext.Ring.Lifecycle.{ring_path}
use lumbre_ext.Ring.Decimal.{ring_path_distinct}
use lumbre_ext.Ring.Handle.{Handle, handle_of}
use lumbre_ext.Hooks.{Globals, dir_of}
use lumbre_ext.Hooks.Nesting.{run-IsNested}
use lumbre_ext.Request.{Env}
use lumbre_ext.Worker.{worker_id, rinit_numbered}
use lumbre_ext.Worker.Lifetime.{rshutdown-handle}
use lumbre_ext.Worker.Numbered.{
  Numbered, unchanged, closed, opened, HasRing, IsNamed, rinit_numbered-le, numbered, counted,
}
use lumbre_ext.Worker.Pool.{
  Pool, update, begun, Step, Reach, begin_request, call, end_request, here, next,
}

-- Two rings are of different numbers.
abbrev Differ : Globals → Globals → Type 0
Differ g h = HasRing g → HasRing h → g.ringbuf.worker_id ≢ h.ringbuf.worker_id

record AreApart (dir : List ℕ) (pid : ℕ) (p : Pool) : Type 0 where
  named : (t : ℕ) → HasRing (p.globals t) → IsNamed dir (pid % u32) p.counter (p.globals t).ringbuf
  apart :
      (t u : ℕ)
      → t ≢ u
      → HasRing (p.globals t)
      → HasRing (p.globals u)
      → (p.globals t).ringbuf.worker_id ≢ (p.globals u).ringbuf.worker_id

globals-update :
    (p : Pool) (t counter : ℕ) (g : Globals) (u : ℕ)
    → let q = update p t g counter in
      ((u ≡ t) × (q.globals u ≡ g)) ⊎ ((u ≢ t) × (q.globals u ≡ p.globals u))
globals-update p t counter g u = elim (Bool-cases (u == t)) [
  | inl e ↦ inl ((==_iff u t).0 e, rw e refl)
  | inr e ↦ inr ((λ same. absurd (cc (sym e ∙ (==_iff u t).1 same))), rw e refl)
]

module _ (dir : List ℕ) (pid : ℕ) (p : Pool) (t counter : ℕ) (g : Globals) (a : AreApart dir pid p)
    (le : p.counter ≤ counter) where
  -- One thread's globals are new.
  AreApart-update :
      (HasRing g → IsNamed dir (pid % u32) counter g.ringbuf)
      → ((u : ℕ)
          → u ≢ t
          → HasRing g
          → HasRing (p.globals u)
          → g.ringbuf.worker_id ≢ (p.globals u).ringbuf.worker_id)
      → AreApart dir pid (update p t g counter)
  AreApart-update named apart =
      let q : Pool = update p t g counter in
      record {
        named = λ u. elim (globals-update p t counter g u) [
          | inl (_, e) ↦
              subst (λ (x : Globals). HasRing x → IsNamed dir (pid % u32) counter x.ringbuf) (sym e)
                named
          | inr (_, e) ↦
              subst (λ (x : Globals). HasRing x → IsNamed dir (pid % u32) counter x.ringbuf) (sym e)
                (λ on.
                  let n = a.named u on in
                  record { taken = omega (arith, n.taken, le); name = n.name })
        ];
        apart = λ u v other. elim (globals-update p t counter g u) [
          | inl (eu, e) ↦ elim (globals-update p t counter g v) [
            | inl (ev, e') ↦ absurd (other (eu ∙ sym ev))
            | inr (ev, e') ↦ subst₂ Differ (sym e) (sym e') (apart v ev)
          ]
          | inr (eu, e) ↦ elim (globals-update p t counter g v) [
            | inl (ev, e') ↦
                subst₂ Differ (sym e) (sym e') (λ on on' same. apart u eu on' on (sym same))
            | inr (ev, e') ↦ subst₂ Differ (sym e) (sym e') (a.apart u v other)
          ]
        ];
      }

  -- A thread that leaves its ring as it was.
  update_same :
      g.ringbuf_initialized ≡ (p.globals t).ringbuf_initialized
      → handle_of g.ringbuf ≡ handle_of (p.globals t).ringbuf
      → AreApart dir pid (update p t g counter)
  update_same i h =
      let w = ap (λ (x : Handle). x.worker_id) h in
      let path = ap (λ (x : Handle). x.path) h in
      AreApart-update
        (λ on.
          let n = a.named t (sym i ∙ on) in
          record {
            taken = omega (arith, w, n.taken, le);
            name = path ∙ n.name ∙ ap (ring_path dir (pid % u32)) (sym w);
          })
        (λ u other on on' same. a.apart t u (λ e. other (sym e)) (sym i ∙ on) on' (sym w ∙ same))

Numbered-AreApart :
    (dir : List ℕ) (pid t counter : ℕ) (p : Pool) (g : Globals)
    → AreApart dir pid p
    → p.counter ≤ counter
    → ((p.globals t).ringbuf_initialized ≡ false → HasRing g → counter ≡ suc p.counter)
    → Numbered dir (pid % u32) p.counter (p.globals t) g
    → AreApart dir pid (update p t g counter)
Numbered-AreApart dir pid t counter p g a le step (unchanged i h) =
    update_same dir pid p t counter g a le i h
Numbered-AreApart dir pid t counter p g a le step (closed i) =
    AreApart-update dir pid p t counter g a le (λ on. absurd (cc (sym on ∙ i)))
      (λ u other on. absurd (cc (sym on ∙ i)))
Numbered-AreApart dir pid t counter p g a le step (opened fresh w n) =
    AreApart-update dir pid p t counter g a le
      (λ on. record {
        taken = omega (arith, w, step fresh on);
        name = n ∙ ap (ring_path dir (pid % u32)) (sym w);
      })
      (λ u other on on' e. absurd (omega (arith, e, w, (a.named u on').taken)))

begun-AreApart :
    (dir : List ℕ) (pid t : ℕ) (env : Env) (p : Pool)
    → env.pid ≡ pid
    → dir_of (p.globals t) ≡ dir
    → p.counter + 1 < 2 ^ 64
    → AreApart dir pid p
    → AreApart dir pid (begun p t env)
begun-AreApart dir pid t env p ep ed room a =
    let n = numbered env (p.globals t) p.counter in
    Numbered-AreApart dir pid t _ p _ a (rinit_numbered-le p.counter env (p.globals t) room).0
      (counted env (p.globals t) p.counter room)
      (subst₂
        (λ (d : List ℕ) (i : ℕ).
          Numbered d (i % u32) p.counter (p.globals t)
            (rinit_numbered true p.counter env (p.globals t)).0)
        ed ep n)

Step-AreApart :
    {dir : List ℕ} {pid : ℕ} {p q : Pool}
    → Step dir pid p q
    → AreApart dir pid p
    → AreApart dir pid q
Step-AreApart {dir} {pid} (begin_request t env p ep ed room) a =
    begun-AreApart dir pid t env p ep ed room a
Step-AreApart {dir} {pid} (call t c p) a =
    let k = run-IsNested c (p.globals t) in
    update_same dir pid p t p.counter _ a (omega arith) k.ringbuf_initialized k.handle
Step-AreApart {dir} {pid} (end_request t now p) a =
    let k = rshutdown-handle (p.globals t) now in
    update_same dir pid p t p.counter _ a (omega arith) k.0 k.1

Reach-AreApart :
    {dir : List ℕ} {pid : ℕ} {p q : Pool}
    → Reach dir pid p q
    → AreApart dir pid p
    → AreApart dir pid q
Reach-AreApart here a = a
Reach-AreApart (next r s) a = Step-AreApart s (Reach-AreApart r a)

Step-counter :
    {dir : List ℕ} {pid : ℕ} {p q : Pool}
    → Step dir pid p q
    → p.counter < 2 ^ 64
    → q.counter < 2 ^ 64
unfolding rinit_numbered worker_id
Step-counter (begin_request t env p ep ed room) h = ground arith
Step-counter (call t c p) h = h
Step-counter (end_request t now p) h = h

Reach-counter :
    {dir : List ℕ} {pid : ℕ} {p q : Pool}
    → Reach dir pid p q
    → p.counter < 2 ^ 64
    → q.counter < 2 ^ 64
Reach-counter here h = h
Reach-counter (next r s) h = Step-counter s (Reach-counter r h)

-- Start with threads of one process that have no ring, and a counter below 2^64. After any interleaving of
-- starts and ends of requests and of calls of the threads, with one directory for the rings and a
-- counter that does not reach its end: two different threads that have a ring write to different
-- files.
pub Reach-files :
    {dir : List ℕ} {pid : ℕ} {p q : Pool}
    → ((t : ℕ) → (p.globals t).ringbuf_initialized ≡ false)
    → p.counter < 2 ^ 64
    → Reach dir pid p q
    → (t u : ℕ) → t ≢ u
    → HasRing (q.globals t)
    → HasRing (q.globals u)
    → (q.globals t).ringbuf.path ≢ (q.globals u).ringbuf.path
Reach-files {dir} {pid} {p} {q} fresh low r t u other on on' same =
    let start : AreApart dir pid p = record {
      named = λ t on. absurd (cc (sym on ∙ fresh t));
      apart = λ t u other on on' e. absurd (cc (sym on ∙ fresh t));
    } in
    let a : AreApart dir pid q = Reach-AreApart r start in
    let below = Reach-counter r low in
    let n : IsNamed dir (pid % u32) q.counter (q.globals t).ringbuf = a.named t on in
    let n' : IsNamed dir (pid % u32) q.counter (q.globals u).ringbuf = a.named u on' in
    a.apart t u other on on'
      (ring_path_distinct dir (pid % u32) (pid % u32) _ _ (omega arith) (omega arith)
        (omega (arith, below, n.taken)) (omega (arith, below, n'.taken))
        (sym n.name ∙ same ∙ n'.name)).1
