-- ===== src/Worker/Lifetime.antt =====
-- What a worker of php_lumbre.c owns from GINIT to MSHUTDOWN, whatever happens in between.
use mathlib.Core.Path.{subst}
use mathlib.Core.List.{Memᴰ}
use lumbre_ext.Common.{
  ℕ, ◌%◌, ◌≡◌, refl, ap, ◌∙◌, Bool, true, false, not, ◌&&◌, List, [], Bool-cases, inl, inr, ◌⊎◌,
  ◌≢◌, u32, Status, ok, error,
}
use lumbre_ext.Ring.{RingBuf}
use lumbre_ext.Ring.Lifecycle.{SysCall, init, destroy}
use lumbre_ext.Ring.Resources.{Resources, effects, init_failure_releases, init_then_destroy}
use lumbre_ext.Ring.Handle.{handle_of}
use lumbre_ext.Span.{Timespec}
use lumbre_ext.Hooks.{Globals, dir_of}
use lumbre_ext.Hooks.Calls.{Call, run}
use lumbre_ext.Hooks.Nesting.{run-IsNested}
use lumbre_ext.Hooks.Kept.{finish-handle}
use lumbre_ext.Ini.Entries.{Zend, IniEntry, ini_entries, on_modify-IsUpdate}
use lumbre_ext.Request.Root.{Status-cases}
use lumbre_ext.Request.{
  Env, ensure_ring, init_ring, ring_opened, start_root, rinit, rshutdown, mshutdown,
}
use lumbre_ext.Worker.Owned.{calls_of, IsOwned, IsOwned-handle, closed-IsOwned, calls_of-files}

-- The globals, and what the process has open, mapped and on disk.
pub record Life : Type 0 where
  pub globals : Globals
  pub resources : Resources

abbrev pub begun : Env → Life → Life
begun env l =
    let r = rinit env l.globals in record { globals = r.0; resources = effects l.resources r.1 }

abbrev pub ended : Life → Bool → Life
ended l is_cli =
    let r = mshutdown l.globals is_cli in
    record { globals = r.0; resources = effects l.resources r.1 }

-- Requests, calls and settings, in any order.
pub data Step (z : Zend) : Life → Life → Type 0 where
  begin_request : (env : Env) (l : Life) → Step z l (begun env l)
  call : (c : Call) (l : Life) → Step z l (record l { globals = run c l.globals })
  end_request :
      (now : Timespec) (l : Life) → Step z l (record l { globals = rshutdown l.globals now })
  modify :
      (e : IniEntry) (v : List ℕ) (l : Life)
      → Memᴰ e ini_entries
      → Step z l (record l { globals = (e.on_modify z v l.globals).1 })

pub data Reach (z : Zend) (l : Life) : Life → Type 0 where
  here : Reach z l l
  next : {m n : Life} → Reach z l m → Step z m n → Reach z l n

abbrev Owns : Resources → Life → Type 0
Owns base l = IsOwned base l.globals.ringbuf_initialized l.globals.ringbuf l.resources

pub rshutdown-handle :
    (g : Globals) (now : Timespec)
    → ((rshutdown g now).ringbuf_initialized ≡ g.ringbuf_initialized)
      × (handle_of (rshutdown g now).ringbuf ≡ handle_of g.ringbuf)
unfolding rshutdown
rshutdown-handle g now = elim (Bool-cases (not g.ctx.active)) [
  | inl off ↦ rw off (refl, refl)
  | inr on ↦
      rw on (refl, finish-handle g.root_span g.ringbuf g.mp_buf g.ctx 0 (g.max_query_len % u32) now)
]

-- What an RINIT of a worker without a ring gives and takes.
abbrev Opened : Resources → Resources → Status × Globals × List SysCall → Type 0
Opened base w r = IsOwned base r.1.ringbuf_initialized r.1.ringbuf (effects w r.2)

module _ (base : Resources) (w : Resources) (env : Env) where
  ring_opened-Opened :
      (g : Globals) (dir : List ℕ) (pid worker size : ℕ)
      → g.ringbuf_initialized ≡ false
      → IsOwned base false g.ringbuf w
      → Opened base w (ring_opened env g (init g.ringbuf env.os dir pid worker size))
  ring_opened-Opened g dir pid worker size closed o =
      go (init g.ringbuf env.os dir pid worker size)
        (λ skip. init_then_destroy g.ringbuf env.os dir pid worker size w skip)
        (init_failure_releases g.ringbuf env.os dir pid worker size w)
    where
      go :
          (r : Status × RingBuf × List SysCall)
          → ((skip : Bool)
              → r.0 ≡ ok
              → let (rb'', more) = destroy r.1 skip in
                ((d : ℕ) → (effects (effects w r.2) more).descriptors d ≡ w.descriptors d)
                × ((effects (effects w r.2) more).mapped_bytes ≡ w.mapped_bytes)
                × ((effects (effects w r.2) more).files r.1.path ≡ skip)
                × (destroy rb'' skip ≡ (rb'', [])))
          → (r.0 ≡ error
              → ((d : ℕ) → (effects w r.2).descriptors d ≡ w.descriptors d)
                × ((effects w r.2).mapped_bytes ≡ w.mapped_bytes)
                × ((r.2 ≡ []) ⊎ ((effects w r.2).files r.1.path ≡ false))
                × ((q : List ℕ) → q ≢ r.1.path → (effects w r.2).files q ≡ w.files q)
                × (r.1.attached ≡ g.ringbuf.attached))
          → Opened base w (ring_opened env g r)
      go (ok, rb, calls) done failed =
          unfold ring_opened in
          record {
            descriptors = λ skip d. (done skip refl).0 d ∙ o.descriptors false d;
            mapped_bytes = λ skip. (done skip refl).1 ∙ o.mapped_bytes false;
            file = λ skip on. (done skip refl).2;
          }
      go (error, rb, calls) done failed =
          unfold ring_opened in
          let same = failed refl in
          closed-IsOwned closed (λ d. same.0 d ∙ o.descriptors false d)
            (same.1 ∙ o.mapped_bytes false)

  init_ring-Opened :
      (g : Globals)
      → g.ringbuf_initialized ≡ false
      → IsOwned base false g.ringbuf w
      → Opened base w (init_ring env g)
  unfolding init_ring
  init_ring-Opened g closed o =
      ring_opened-Opened _ (dir_of g) (env.pid % u32) env.worker_id (g.buffer_size % u32) closed o

  ensure_ring-Opened :
      (g : Globals)
      → IsOwned base g.ringbuf_initialized g.ringbuf w
      → Opened base w (ensure_ring env g)
  unfolding ensure_ring
  ensure_ring-Opened g o = elim (Bool-cases g.ringbuf_initialized) [
    | inl e ↦ simp e (subst (λ (i : Bool). IsOwned base i g.ringbuf w) e o)
    | inr e ↦
        let o' : IsOwned base false g.ringbuf w =
          subst (λ (i : Bool). IsOwned base i g.ringbuf w) e o in
        elim (Bool-cases (not g.mp_storage && not env.malloc_ok)) [
          | inl m ↦ simp (e, m) o'
          | inr m ↦ simp (e, m) (init_ring-Opened g e o')
        ]
  ]

  begun-Owns :
      (g : Globals)
      → IsOwned base g.ringbuf_initialized g.ringbuf w
      → let r = rinit env g in IsOwned base r.0.ringbuf_initialized r.0.ringbuf (effects w r.1)
  unfolding rinit start_root
  begun-Owns g o = elim (Bool-cases (not g.enabled)) [
    | inl off ↦ rw off o
    | inr on ↦
        let made = ensure_ring-Opened g o in
        elim (Status-cases (ensure_ring env g).0) [
          | inl done ↦ rw (on, done) made
          | inr bad ↦ rw (on, bad) made
        ]
  ]

Step-Owns : {z : Zend} {base : Resources} {l m : Life} → Step z l m → Owns base l → Owns base m
Step-Owns {z} {base} (begin_request env l) o = begun-Owns base l.resources env l.globals o
Step-Owns (call c l) o =
    let k = run-IsNested c l.globals in IsOwned-handle k.ringbuf_initialized k.handle o
Step-Owns (end_request now l) o = let k = rshutdown-handle l.globals now in IsOwned-handle k.0 k.1 o
Step-Owns {z} (modify e v l member) o =
    let u = on_modify-IsUpdate z e v l.globals member in
    IsOwned-handle u.ringbuf_initialized (ap handle_of u.ringbuf) o

Reach-Owns : {z : Zend} {base : Resources} {l m : Life} → Reach z l m → Owns base l → Owns base m
Reach-Owns here o = o
Reach-Owns (next r s) o = Step-Owns s (Reach-Owns r o)

mshutdown-calls :
    (g : Globals) (is_cli : Bool)
    → let (g', calls) = mshutdown g is_cli in
      (calls ≡ calls_of g.ringbuf_initialized g.ringbuf is_cli) × (g'.mp_storage ≡ false)
unfolding mshutdown
mshutdown-calls g is_cli = elim (Bool-cases g.ringbuf_initialized) [
  | inl e ↦ rw e (refl, refl)
  | inr e ↦ rw e (refl, refl)
]

kept_file :
    {base : Resources} {i : Bool} {rb : RingBuf} {w : Resources}
    → IsOwned base i rb w
    → (skip : Bool) → (i ≡ false) ⊎ ((effects w (calls_of i rb skip)).files rb.path ≡ skip)
kept_file {i = true} o skip = inr (o.file skip refl)
kept_file {i = false} o skip = inl refl

-- From globals without a ring, after any sequence of request starts, calls, request ends and changes of
-- settings, whatever the system answers: MSHUTDOWN leaves each descriptor as often open, and as many
-- bytes mapped, as before, frees the msgpack buffer, and unlinks the file of the ring's path, if there is
-- a ring, exactly if the server is not the command line, and no other file.
pub Reach-ended :
    {z : Zend} {l m : Life} (is_cli : Bool)
    → l.globals.ringbuf_initialized ≡ false
    → Reach z l m
    → let after = ended m is_cli in
      ((d : ℕ) → after.resources.descriptors d ≡ l.resources.descriptors d)
      × (after.resources.mapped_bytes ≡ l.resources.mapped_bytes)
      × ((m.globals.ringbuf_initialized ≡ false)
          ⊎ (after.resources.files m.globals.ringbuf.path ≡ is_cli))
      × ((q : List ℕ) → q ≢ m.globals.ringbuf.path → after.resources.files q ≡ m.resources.files q)
      × (after.globals.mp_storage ≡ false)
Reach-ended {z} {l} {m} is_cli fresh r =
    let o : Owns l.resources m = Reach-Owns r (closed-IsOwned fresh (λ d. refl) refl) in
    let (calls, storage) = mshutdown-calls m.globals is_cli in
    let others =
      calls_of-files m.globals.ringbuf_initialized m.globals.ringbuf m.resources is_cli in
    simp calls (o.descriptors is_cli, o.mapped_bytes is_cli, kept_file o is_cli, others, storage)
