-- ===== src/Hooks/Report.antt =====
-- What the calls of a request write to the ring, against what the tree of calls is to report.
use lumbre_ext.Common.{
  ℕ, suc, ◌+◌, ◌^◌, ◌<◌, ◌≡◌, refl, sym, ◌∙◌, arith, not, ◌&&◌, ◌||◌, List, [], ◌++◌, none, some,
  ◌==◌, Bool-cases, Option-cases, inl, inr,
}
use lumbre_ext.Span.{Span, Timespec, span_start, span_func}
use lumbre_ext.Span.Setters.{set_func}
use lumbre_ext.Span.Fields.{IsSpan}
use lumbre_ext.Span.Log.{log}
use lumbre_ext.Whitelist.Entries.{StaticEntry, static_table}
use lumbre_ext.Whitelist.Rows.{row_of, row_of-All}
use lumbre_ext.Hooks.{
  Globals, Frame, with_payload, with_func, execute_internal, trace_user, execute_ex,
}
use lumbre_ext.Hooks.Calls.{Call, Calls, internal, userland, done, first, alter, run, run_all}
use lumbre_ext.Hooks.Fixed.{IsKept, run-IsKept, run_all-IsKept}
use lumbre_ext.Hooks.Kept.{with_payload-ids}
use lumbre_ext.Hooks.Listed.{call_key, tracing, internal_unlisted, internal_listed}
use lumbre_ext.Hooks.Wellformed.{
  IsFrame, new_span, new_span-IsSpan, with_payload-IsSpan, with_func-IsSpan,
}
use lumbre_ext.Hooks.Tree.{
  Settings, settings_of, row_of_call, internal_span, user_span_if, reports_of, visit, visit_all,
  visit-le, size, size_all, AreFrames, AllFrames,
}
use lumbre_ext.Hooks.Traced.{
  IsLive, Logs, settings_of-IsKept, IsLive-IsKept, joined, untraced, traced,
}

pub row_small :
    (frame : Frame) (name : List ℕ) (src : StaticEntry)
    → row_of (call_key frame name) static_table ≡ some src
    → src.span_type < 256
unfolding static_table
row_small frame name src e =
    (row_of-All (λ (x : StaticEntry). x.span_type < 256) static_table (call_key frame name) src
      (ground arith) e).0

-- A call without a name goes to the original handler.
nameless :
    (g : Globals) (frame : Frame) (begin end : Timespec) (original : Globals → Globals)
    → frame.function_name ≡ none
    → execute_internal frame begin end original g ≡ original g
unfolding execute_internal
nameless g frame begin end original unnamed =
    elim (Bool-cases (not g.enabled || not g.ctx.active)) [
      | inl off ↦ rw off refl
      | inr on ↦ rw (on, unnamed) refl
    ]

module _ (original : Globals → Globals) (r : Settings → ℕ → ℕ → List Span × ℕ) (n : ℕ)
    (kept : (g : Globals) → IsKept g (original g))
    (logs : (g : Globals)
      → IsLive g
      → g.ctx.span_counter + n < 2 ^ 64
      → Logs g (original g) (r (settings_of g) g.ctx.current_parent_id g.ctx.span_counter)) where
  internal-Logs :
      (g : Globals) (frame : Frame) (begin end : Timespec)
      → IsLive g
      → IsFrame frame
      → g.ctx.span_counter + suc n < 2 ^ 64
      → let s = settings_of g in
        let o =
          internal_span s
            (row_of_call frame)
            frame
            begin
            g.ctx.current_parent_id
            g.ctx.span_counter in
        Logs g
          (execute_internal frame begin end original g)
          (reports_of (r s) s o end g.ctx.current_parent_id g.ctx.span_counter)
  unfolding row_of_call span_start
  internal-Logs g frame begin end l f room = elim (Option-cases frame.function_name) [
    | inl unnamed ↦
        untraced original r n kept logs g _ _ end l room (rw unnamed refl)
          (nameless g frame begin end original unnamed)
    | inr (name, named) ↦ elim (Option-cases (row_of (call_key frame name) static_table)) [
      | inl unlisted ↦
          untraced original r n kept logs g _ _ end l room (rw (named, unlisted) refl)
            (internal_unlisted g frame name begin end original l.ready named unlisted)
      | inr (src, row) ↦
          let span =
            new_span src.span_type g.ctx.trace_id g.ctx.span_counter g.ctx.current_parent_id
              begin in
          let w : IsSpan span =
            new_span-IsSpan src.span_type g.ctx.trace_id g.ctx.span_counter g.ctx.current_parent_id
              begin (row_small frame name src row) (omega (arith, room)) l.parent in
          traced original r n kept logs g _ _
            (with_payload span frame src.span_type g.max_query_len) src.span_type begin end l room
            (with_payload-IsSpan span frame src.span_type g.max_query_len w f)
            (with_payload-ids span frame src.span_type g.max_query_len).1 (rw (named, row) refl)
            (internal_listed g frame name src begin end original l.enabled l.active l.ready named
              row)
    ]
  ]

  userland-Logs :
      (g : Globals) (frame : Frame) (begin end : Timespec)
      → IsLive g
      → IsFrame frame
      → g.ctx.span_counter + suc n < 2 ^ 64
      → let s = settings_of g in
        let o = user_span_if s s.full frame begin g.ctx.current_parent_id g.ctx.span_counter in
        Logs g
          (execute_ex frame begin end original g)
          (reports_of (r s) s o end g.ctx.current_parent_id g.ctx.span_counter)
  unfolding execute_ex trace_user span_start with_func set_func
  userland-Logs g frame begin end l f room =
      let on = tracing g.enabled g.ctx.active l.enabled l.active in
      elim (Bool-cases (not (g.mode == 1) && not g.ctx.full_trace)) [
        | inl part ↦
            untraced original r n kept logs g _ _ end l room (rw part refl) (rw (on, part) refl)
        | inr full ↦ elim (Option-cases frame.function_name) [
          | inl unnamed ↦
              untraced original r n kept logs g _ _ end l room (rw (full, unnamed) refl)
                (rw (on, full, unnamed) refl)
          | inr (name, named) ↦
              let span =
                new_span span_func g.ctx.trace_id g.ctx.span_counter g.ctx.current_parent_id
                  begin in
              let w : IsSpan span =
                new_span-IsSpan span_func g.ctx.trace_id g.ctx.span_counter g.ctx.current_parent_id
                  begin (omega arith) (omega (arith, room)) l.parent in
              traced original r n kept logs g _ _ (with_func span frame name) span_func begin end l
                room (with_func-IsSpan span frame name named w f) refl (rw (full, named) refl)
                (rw (on, full, named) refl)
        ]
      ]

Logs-refl : (g : Globals) → Logs g g ([], g.ctx.span_counter)
unfolding log
Logs-refl g = record { ring = refl; counter = refl; capacity = refl }

-- The reports of two parts of a run, one after the other.
Logs-trans :
    {g g' g'' : Globals} (a b : List Span × ℕ)
    → Logs g g' a
    → Logs g' g'' b
    → Logs g g'' (a.0 ++ b.0, b.1)
Logs-trans {g} {g'} {g''} a b l l' = record {
  ring =
      l'.ring
      ∙ joined g'.mp_buf.capacity g.mp_buf.capacity g'.ringbuf g.ringbuf a.0 b.0 b.0 l.capacity
          l.ring refl;
  counter = l'.counter;
  capacity = l'.capacity ∙ l.capacity;
}

moved :
    {g g' : Globals} {s s' : Settings} {p p' n n' : ℕ} (cs : Calls)
    → s' ≡ s
    → p' ≡ p
    → n' ≡ n
    → Logs g g' (visit_all s' cs p' n')
    → Logs g g' (visit_all s cs p n)
moved cs e f h d = rw (sym e, sym f, sym h) d

-- The first call of a list, and the rest with the settings and the parent that the first has kept.
sequence_lem :
    (c : Call) (rest : Calls) (g : Globals)
    → AreFrames c
    → IsLive g
    → g.ctx.span_counter + (size c + size_all rest) < 2 ^ 64
    → Logs g (run c g) (visit (settings_of g) c g.ctx.current_parent_id g.ctx.span_counter)
    → ((g : Globals)
        → IsLive g
        → g.ctx.span_counter + size_all rest < 2 ^ 64
        → Logs g
            (run_all rest g)
            (visit_all (settings_of g) rest g.ctx.current_parent_id g.ctx.span_counter))
    → Logs g
        (run_all rest (run c g))
        (visit_all (settings_of g) (first c rest) g.ctx.current_parent_id g.ctx.span_counter)
unfolding visit_all
sequence_lem c rest g f l room d later =
    let k : IsKept g (run c g) = run-IsKept c f g in
    let taken = visit-le (settings_of g) c g.ctx.current_parent_id g.ctx.span_counter in
    let b =
      later (run c g) (IsLive-IsKept k d.capacity l) (omega (arith, d.counter, taken, room)) in
    Logs-trans _ _ d (moved rest (settings_of-IsKept k) k.current_parent_id d.counter b)

mutual
  unfolding run run_all visit visit_all size size_all AreFrames AllFrames

  each-Logs :
      (c : Call) (g : Globals)
      → IsLive g
      → AreFrames c
      → g.ctx.span_counter + size c < 2 ^ 64
      → Logs g (run c g) (visit (settings_of g) c g.ctx.current_parent_id g.ctx.span_counter)
  each-Logs (internal frame begin inner end) g l f room =
      internal-Logs (run_all inner) (λ s. visit_all s inner) (size_all inner)
        (run_all-IsKept inner f.1) (λ g' l' room'. all-Logs inner g' l' f.1 room') g frame begin end
        l f.0 room
  each-Logs (userland frame begin inner end) g l f room =
      userland-Logs (run_all inner) (λ s. visit_all s inner) (size_all inner)
        (run_all-IsKept inner f.1) (λ g' l' room'. all-Logs inner g' l' f.1 room') g frame begin end
        l f.0 room

  all-Logs :
      (cs : Calls) (g : Globals)
      → IsLive g
      → AllFrames cs
      → g.ctx.span_counter + size_all cs < 2 ^ 64
      → Logs g
          (run_all cs g)
          (visit_all (settings_of g) cs g.ctx.current_parent_id g.ctx.span_counter)
  all-Logs (alter v rest) g l f room = absurd f
  all-Logs done g l f room = Logs-refl g
  all-Logs (first c rest) g l f room =
      sequence_lem c rest g f.0 l room (each-Logs c g l f.0 (omega (arith, room)))
        (λ g' l' room'. all-Logs rest g' l' f.1 room')

pub run-Logs :
    (c : Call) (g : Globals)
    → IsLive g
    → AreFrames c
    → g.ctx.span_counter + size c < 2 ^ 64
    → Logs g (run c g) (visit (settings_of g) c g.ctx.current_parent_id g.ctx.span_counter)
run-Logs c g l f room = each-Logs c g l f room

pub run_all-Logs :
    (cs : Calls) (g : Globals)
    → IsLive g
    → AllFrames cs
    → g.ctx.span_counter + size_all cs < 2 ^ 64
    → Logs g
        (run_all cs g)
        (visit_all (settings_of g) cs g.ctx.current_parent_id g.ctx.span_counter)
run_all-Logs cs g l f room = all-Logs cs g l f room
