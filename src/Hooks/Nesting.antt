-- ===== src/Hooks/Nesting.antt =====
-- How the spans of php_lumbre.c's hooks nest, and the hooks with tracing off.
use lumbre_ext.Common.{
  ℕ, Bool, ◌≡◌, refl, ap, ◌∙◌, not, ◌&&◌, ◌||◌, Option, none, some, Bool-cases, Option-cases, inl,
  inr, ◌==◌,
}
use lumbre_ext.Ring.Handle.{handle_of}
use lumbre_ext.Span.{Span, Context, Timespec, span_start, span_func}
use lumbre_ext.Span.Setters.{set_func}
use lumbre_ext.Whitelist.{Entry}
use lumbre_ext.Hooks.{
  Globals, Frame, close, trace_internal, execute_internal, trace_user, with_func, execute_ex,
}
use lumbre_ext.Hooks.Calls.{
  Call, Calls, Setting, enabled_to, min_duration_to, set, internal, userland, done, first, alter,
  run, run_all,
}
use lumbre_ext.Hooks.Kept.{finish-ctx, finish-handle, with_payload-ids}

-- The settings that a script can change, and what the calls make of them.
abbrev pub Tunable : Type 0
Tunable = Bool × ℕ

abbrev pub tunable : Globals → Tunable
tunable g = (g.enabled, g.min_duration_ns)

abbrev pub tune : Setting → Tunable → Tunable
tune (enabled_to v) t = (v, t.1)
tune (min_duration_to v) t = (t.0, v)

-- The last values that are set, told from the calls alone.
unfoldable mutual
  pub tuned : Call → Tunable → Tunable
  tuned (internal frame begin inner end) t = tuned_all inner t
  tuned (userland frame begin inner end) t = tuned_all inner t

  pub tuned_all : Calls → Tunable → Tunable
  tuned_all done t = t
  tuned_all (first c rest) t = tuned_all rest (tuned c t)
  tuned_all (alter v rest) t = tuned_all rest (tune v t)

-- What a call leaves as it was: the current parent, the trace and its switches, the mode, the cut of the
-- queries, the whitelist, the root span, and what the ring and the buffer own. The
-- others are a function of what they were.
pub record IsNested (f : Tunable → Tunable) (g g' : Globals) : Type 0 where
  pub current_parent_id : g'.ctx.current_parent_id ≡ g.ctx.current_parent_id
  pub trace_id : g'.ctx.trace_id ≡ g.ctx.trace_id
  pub active : g'.ctx.active ≡ g.ctx.active
  pub full_trace : g'.ctx.full_trace ≡ g.ctx.full_trace
  pub tunable : tunable g' ≡ f (tunable g)
  pub mode : g'.mode ≡ g.mode
  pub max_query_len : g'.max_query_len ≡ g.max_query_len
  pub whitelist : g'.whitelist ≡ g.whitelist
  pub root_span : g'.root_span ≡ g.root_span
  pub ringbuf_initialized : g'.ringbuf_initialized ≡ g.ringbuf_initialized
  pub mp_storage : g'.mp_storage ≡ g.mp_storage
  pub handle : handle_of g'.ringbuf ≡ handle_of g.ringbuf

IsNested-set : (v : Setting) (g : Globals) → IsNested (tune v) g (set v g)
IsNested-set (enabled_to b) g = record {
  current_parent_id = refl;
  trace_id = refl;
  active = refl;
  full_trace = refl;
  tunable = refl;
  mode = refl;
  max_query_len = refl;
  whitelist = refl;
  root_span = refl;
  ringbuf_initialized = refl;
  mp_storage = refl;
  handle = refl;
}
IsNested-set (min_duration_to n) g = record {
  current_parent_id = refl;
  trace_id = refl;
  active = refl;
  full_trace = refl;
  tunable = refl;
  mode = refl;
  max_query_len = refl;
  whitelist = refl;
  root_span = refl;
  ringbuf_initialized = refl;
  mp_storage = refl;
  handle = refl;
}

IsNested-refl : (g : Globals) → IsNested (λ t. t) g g
IsNested-refl g = record {
  current_parent_id = refl;
  trace_id = refl;
  active = refl;
  full_trace = refl;
  tunable = refl;
  mode = refl;
  max_query_len = refl;
  whitelist = refl;
  root_span = refl;
  ringbuf_initialized = refl;
  mp_storage = refl;
  handle = refl;
}

IsNested-trans :
    {f f' : Tunable → Tunable} {g g' g'' : Globals}
    → IsNested f g g'
    → IsNested f' g' g''
    → IsNested (λ t. f' (f t)) g g''
IsNested-trans {f} {f'} k k' = record {
  current_parent_id = k'.current_parent_id ∙ k.current_parent_id;
  trace_id = k'.trace_id ∙ k.trace_id;
  active = k'.active ∙ k.active;
  full_trace = k'.full_trace ∙ k.full_trace;
  tunable = k'.tunable ∙ ap f' k.tunable;
  mode = k'.mode ∙ k.mode;
  max_query_len = k'.max_query_len ∙ k.max_query_len;
  whitelist = k'.whitelist ∙ k.whitelist;
  root_span = k'.root_span ∙ k.root_span;
  ringbuf_initialized = k'.ringbuf_initialized ∙ k.ringbuf_initialized;
  mp_storage = k'.mp_storage ∙ k.mp_storage;
  handle = k'.handle ∙ k.handle;
}

module _ (f : Tunable → Tunable) (original : Globals → Globals)
    (kept : (g : Globals) → IsNested f g (original g)) where
  -- A started span around the original handler, closed with a span of the same parent.
  close-IsNested :
      (g : Globals) (type : ℕ) (begin end : Timespec) (span : Span)
      → span.parent_id ≡ g.ctx.current_parent_id
      → IsNested f g
          (close (original (record g { ctx = (span_start type g.ctx begin).1 })) span end)
  unfolding close span_start
  close-IsNested g type begin end span parent =
      let started = record g { ctx = (span_start type g.ctx begin).1 } in
      let k : IsNested f started (original started) = kept started in
      let c =
        finish-ctx span (original started).ringbuf (original started).mp_buf (original started).ctx
          _ _ end in
      record {
        current_parent_id = ap (λ (x : Context). x.current_parent_id) c ∙ parent;
        trace_id = ap (λ (x : Context). x.trace_id) c ∙ k.trace_id;
        active = ap (λ (x : Context). x.active) c ∙ k.active;
        full_trace = ap (λ (x : Context). x.full_trace) c ∙ k.full_trace;
        tunable = k.tunable;
        mode = k.mode;
        max_query_len = k.max_query_len;
        whitelist = k.whitelist;
        root_span = k.root_span;
        ringbuf_initialized = k.ringbuf_initialized;
        mp_storage = k.mp_storage;
        handle =
            finish-handle span (original started).ringbuf (original started).mp_buf
              (original started).ctx _ _ end
            ∙ k.handle;
      }

  trace_internal-IsNested :
      (entry : Option Entry) (frame : Frame) (begin end : Timespec) (g : Globals)
      → IsNested f g (trace_internal entry frame begin end original g)
  unfolding trace_internal span_start
  trace_internal-IsNested none frame begin end g = kept g
  trace_internal-IsNested (some entry) frame begin end g =
      close-IsNested g entry.span_type begin end _
        (with_payload-ids _ frame entry.span_type g.max_query_len).0

  execute_internal-IsNested :
      (frame : Frame) (begin end : Timespec) (g : Globals)
      → IsNested f g (execute_internal frame begin end original g)
  unfolding execute_internal
  execute_internal-IsNested frame begin end g =
      elim (Bool-cases (not g.enabled || not g.ctx.active)) [
        | inl e ↦ rw e (kept g)
        | inr e ↦ elim (Option-cases frame.function_name) [
          | inl n ↦ rw (e, n) (kept g)
          | inr (name, n) ↦ rw (e, n) (trace_internal-IsNested _ frame begin end g)
        ]
      ]

  execute_ex-IsNested :
      (frame : Frame) (begin end : Timespec) (g : Globals)
      → IsNested f g (execute_ex frame begin end original g)
  unfolding execute_ex trace_user with_func set_func span_start
  execute_ex-IsNested frame begin end g = elim (Bool-cases (not g.enabled || not g.ctx.active)) [
    | inl e ↦ rw e (kept g)
    | inr e ↦ elim (Bool-cases (not (g.mode == 1) && not g.ctx.full_trace)) [
      | inl m ↦ rw (e, m) (kept g)
      | inr m ↦ elim (Option-cases frame.function_name) [
        | inl n ↦ rw (e, m, n) (kept g)
        | inr (name, n) ↦ rw (e, m, n) (close-IsNested g span_func begin end _ refl)
      ]
    ]
  ]

mutual
  unfolding run run_all tuned tuned_all

  each-IsNested : (c : Call) (g : Globals) → IsNested (tuned c) g (run c g)
  each-IsNested (internal frame begin inner end) g =
      execute_internal-IsNested (tuned_all inner) (run_all inner) (all-IsNested inner) frame begin
        end g
  each-IsNested (userland frame begin inner end) g =
      execute_ex-IsNested (tuned_all inner) (run_all inner) (all-IsNested inner) frame begin end g

  all-IsNested : (cs : Calls) (g : Globals) → IsNested (tuned_all cs) g (run_all cs g)
  all-IsNested done g = IsNested-refl g
  all-IsNested (first c rest) g = IsNested-trans (each-IsNested c g) (all-IsNested rest (run c g))
  all-IsNested (alter v rest) g = IsNested-trans (IsNested-set v g) (all-IsNested rest (set v g))

-- Whatever calls come back to the hooks during a call, whatever settings they change, and whether spans
-- are filtered, dropped or written: after the call the current parent is the one before it, and the
-- trace id, the request's switches, the mode, the cut of the queries, the whitelist, the root span,
-- the ring's mapping, descriptor, path and size, and whether the ring and the buffer are there,
-- are unchanged; lumbre.enabled and lumbre.min_duration_ns have the last values that the calls set, or
-- those before.
pub run-IsNested : (c : Call) (g : Globals) → IsNested (tuned c) g (run c g)
run-IsNested c g = each-IsNested c g

pub run_all-IsNested : (cs : Calls) (g : Globals) → IsNested (tuned_all cs) g (run_all cs g)
run_all-IsNested cs g = all-IsNested cs g
