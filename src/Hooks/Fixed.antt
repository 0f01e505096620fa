-- ===== src/Hooks/Fixed.antt =====
-- The calls of php_lumbre.c's hooks that change no setting.
use lumbre_ext.Common.{◌≡◌, ◌⊎◌, refl, ap, ◌∙◌, false, Bool-cases, inl, inr}
use lumbre_ext.Ring.Handle.{handle_of}
use lumbre_ext.Span.{Timespec}
use lumbre_ext.Hooks.{Globals, Frame, execute_internal, execute_ex}
use lumbre_ext.Hooks.Calls.{Call, Calls, internal, userland, done, first, alter, run, run_all}
use lumbre_ext.Hooks.Nesting.{Tunable, tuned, tuned_all, IsNested, run-IsNested, run_all-IsNested}
use lumbre_ext.Hooks.Tree.{AreFrames, AllFrames}

-- What a call that changes no setting leaves as it was: the current parent, the trace and the switches,
-- the settings that decide about spans, the whitelist, the root span, and what the ring and the buffer own.
pub record IsKept (g g' : Globals) : Type 0 where
  pub current_parent_id : g'.ctx.current_parent_id ≡ g.ctx.current_parent_id
  pub trace_id : g'.ctx.trace_id ≡ g.ctx.trace_id
  pub active : g'.ctx.active ≡ g.ctx.active
  pub full_trace : g'.ctx.full_trace ≡ g.ctx.full_trace
  pub enabled : g'.enabled ≡ g.enabled
  pub mode : g'.mode ≡ g.mode
  pub max_query_len : g'.max_query_len ≡ g.max_query_len
  pub min_duration_ns : g'.min_duration_ns ≡ g.min_duration_ns
  pub whitelist : g'.whitelist ≡ g.whitelist
  pub root_span : g'.root_span ≡ g.root_span
  pub ringbuf_initialized : g'.ringbuf_initialized ≡ g.ringbuf_initialized
  pub mp_storage : g'.mp_storage ≡ g.mp_storage
  pub handle : handle_of g'.ringbuf ≡ handle_of g.ringbuf

IsNested-IsKept :
    {f : Tunable → Tunable} {g g' : Globals}
    → ((t : Tunable) → f t ≡ t)
    → IsNested f g g'
    → IsKept g g'
IsNested-IsKept {f} {g} same k =
    let t = k.tunable ∙ same (g.enabled, g.min_duration_ns) in
    record {
      enabled = ap (λ (t : Tunable). t.0) t;
      min_duration_ns = ap (λ (t : Tunable). t.1) t;
      current_parent_id = k.current_parent_id;
      trace_id = k.trace_id;
      active = k.active;
      full_trace = k.full_trace;
      mode = k.mode;
      max_query_len = k.max_query_len;
      whitelist = k.whitelist;
      root_span = k.root_span;
      ringbuf_initialized = k.ringbuf_initialized;
      mp_storage = k.mp_storage;
      handle = k.handle;
    }

mutual
  unfolding tuned tuned_all AreFrames AllFrames

  each-tuned : (c : Call) → AreFrames c → (t : Tunable) → tuned c t ≡ t
  each-tuned (internal frame begin inner end) f t = all-tuned inner f.1 t
  each-tuned (userland frame begin inner end) f t = all-tuned inner f.1 t

  all-tuned : (cs : Calls) → AllFrames cs → (t : Tunable) → tuned_all cs t ≡ t
  all-tuned done f t = refl
  all-tuned (first c rest) f t = ap (tuned_all rest) (each-tuned c f.0 t) ∙ all-tuned rest f.1 t
  all-tuned (alter v rest) f t = absurd f

pub run-IsKept : (c : Call) → AreFrames c → (g : Globals) → IsKept g (run c g)
run-IsKept c f g = IsNested-IsKept (each-tuned c f) (run-IsNested c g)

pub run_all-IsKept : (cs : Calls) → AllFrames cs → (g : Globals) → IsKept g (run_all cs g)
run_all-IsKept cs f g = IsNested-IsKept (all-tuned cs f) (run_all-IsNested cs g)

-- The hook does nothing but call the original handler if tracing is off.
internal_off :
    (frame : Frame) (begin end : Timespec) (original : Globals → Globals) (g : Globals)
    → (g.enabled ≡ false) ⊎ (g.ctx.active ≡ false)
    → (execute_internal frame begin end original g ≡ original g)
      × (execute_ex frame begin end original g ≡ original g)
unfolding execute_internal execute_ex
internal_off frame begin end original g (inl off) = rw off (refl, refl)
internal_off frame begin end original g (inr off) = elim (Bool-cases g.enabled) [
  | inl e ↦ rw (e, off) (refl, refl)
  | inr e ↦ rw e (refl, refl)
]

mutual
  unfolding run run_all AreFrames AllFrames

  each_off :
      (c : Call) (g : Globals)
      → AreFrames c
      → (g.enabled ≡ false) ⊎ (g.ctx.active ≡ false)
      → run c g ≡ g
  each_off (internal frame begin inner end) g f off =
      (internal_off frame begin end (run_all inner) g off).0 ∙ all_off inner g f.1 off
  each_off (userland frame begin inner end) g f off =
      (internal_off frame begin end (run_all inner) g off).1 ∙ all_off inner g f.1 off

  all_off :
      (cs : Calls) (g : Globals)
      → AllFrames cs
      → (g.enabled ≡ false) ⊎ (g.ctx.active ≡ false)
      → run_all cs g ≡ g
  all_off done g f off = refl
  all_off (alter v rest) g f off = absurd f
  all_off (first c rest) g f off = rw (each_off c g f.0 off) (all_off rest g f.1 off)

-- With tracing disabled, or outside a request, a call with all the calls in it, none of which
-- changes a setting, changes nothing of the extension's state.
pub run_off :
    (c : Call) (g : Globals)
    → AreFrames c
    → (g.enabled ≡ false) ⊎ (g.ctx.active ≡ false)
    → run c g ≡ g
run_off c g f off = each_off c g f off
