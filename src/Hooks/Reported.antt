-- ===== src/Hooks/Reported.antt =====
-- The spans that a tree of calls of php_lumbre.c is to report, and their well-formedness.
use lumbre_ext.Common.{
  ℕ, suc, ◌+◌, ◌%◌, ◌^◌, ◌<◌, ◌≡◌, refl, arith, Bool, true, false, List, [], Option, none, some,
  Option-cases, Bool-cases, inl, inr, u32, u64, All, All-append,
}
use lumbre_ext.Span.{Span, Timespec, span_func}
use lumbre_ext.Span.Fields.{IsSpan}
use lumbre_ext.Span.Valid.{timed_span, finished_span-IsSpan}
use lumbre_ext.Span.Log.{is_short, reported}
use lumbre_ext.Whitelist.Entries.{StaticEntry}
use lumbre_ext.Hooks.{Frame, with_func}
use lumbre_ext.Hooks.Calls.{Call, Calls, internal, userland, done, first, alter}
use lumbre_ext.Hooks.Report.{row_small}
use lumbre_ext.Hooks.Wellformed.{
  IsFrame, new_span, new_span-IsSpan, with_payload-IsSpan, with_func-IsSpan,
}
use lumbre_ext.Hooks.Tree.{
  Settings, row_of_call, internal_span, user_span_if, reports_of, visit, visit_all, visit-le, size,
  size_all, AreFrames, AllFrames,
}

-- A call's span, if it has one, is well-formed.
abbrev IsSpanIf : Option Span → Type 0
IsSpanIf none = Unit
IsSpanIf (some span) = IsSpan span

row_of_call-small :
    (frame : Frame) (src : StaticEntry) → row_of_call frame ≡ some src → src.span_type < 256
unfolding row_of_call
row_of_call-small frame src e = elim (Option-cases frame.function_name) [
  | inl unnamed ↦ absurd (cc (rw unnamed at e))
  | inr (name, named) ↦ row_small frame name src (rw named at e)
]

module _ (s : Settings) (frame : Frame) (f : IsFrame frame) (begin : Timespec) (p id : ℕ)
    (parent : p < 2 ^ 64) (fits : id < 2 ^ 64) where
  internal_span-IsSpan :
      (row : Option StaticEntry)
      → row_of_call frame ≡ row
      → IsSpanIf (internal_span s row frame begin p id)
  internal_span-IsSpan none e = tt
  internal_span-IsSpan (some src) e =
      with_payload-IsSpan (new_span src.span_type s.trace_id id p begin) frame src.span_type
        s.max_query_len
        (new_span-IsSpan src.span_type s.trace_id id p begin (row_of_call-small frame src e) fits
          parent)
        f

  user_span-IsSpan :
      (full : Bool) (name : Option (List ℕ))
      → frame.function_name ≡ name
      → IsSpanIf (user_span_if s full frame begin p id)
  unfolding with_func
  user_span-IsSpan false name e = tt
  user_span-IsSpan true none e = rw e tt
  user_span-IsSpan true (some name) e = rw e (
      with_func-IsSpan (new_span span_func s.trace_id id p begin) frame name e
        (new_span-IsSpan span_func s.trace_id id p begin (omega arith) fits parent) f)

pub reported-IsSpan :
    (min max : ℕ) (span : Span) (now : Timespec)
    → IsSpan span
    → All IsSpan (reported min max span now)
unfolding reported
reported-IsSpan min max span now w = elim (Bool-cases (is_short (timed_span span now) min)) [
  | inl e ↦ rw e tt
  | inr e ↦ rw e (finished_span-IsSpan span max now w, tt)
]

-- The reports of a call, if those of the calls inside it are well-formed.
reports_of-IsSpan :
    (r : ℕ → ℕ → List Span × ℕ) (n : ℕ) (s : Settings) (o : Option Span) (end : Timespec)
    (p next : ℕ)
    → IsSpanIf o
    → p < 2 ^ 64
    → next + suc n < 2 ^ 64
    → ((p next : ℕ) → p < 2 ^ 64 → next + n < 2 ^ 64 → All IsSpan (r p next).0)
    → All IsSpan (reports_of r s o end p next).0
reports_of-IsSpan r n s none end p next w parent room inside =
    All-append IsSpan (r p next).0 [] (inside p next parent (omega (arith, room))) tt
reports_of-IsSpan r n s (some span) end p next w parent room inside =
    All-append IsSpan (r span.span_id (suc next)).0 _
      (inside span.span_id (suc next) w.span_id (omega (arith, room)))
      (reported-IsSpan (s.min_duration_ns % u64) (s.max_query_len % u32) span end w)

mutual
  unfolding visit visit_all size size_all AreFrames AllFrames

  each-IsSpan :
      (s : Settings) (c : Call) (p next : ℕ)
      → AreFrames c
      → p < 2 ^ 64
      → next + size c < 2 ^ 64
      → All IsSpan (visit s c p next).0
  each-IsSpan s (internal frame begin inner end) p next f parent room =
      reports_of-IsSpan (visit_all s inner) (size_all inner) s _ end p next
        (internal_span-IsSpan s frame f.0 begin p next parent (omega (arith, room))
          (row_of_call frame) refl)
        parent room (λ p' next' parent' room'. calls-IsSpan s inner p' next' f.1 parent' room')
  each-IsSpan s (userland frame begin inner end) p next f parent room =
      reports_of-IsSpan (visit_all s inner) (size_all inner) s _ end p next
        (user_span-IsSpan s frame f.0 begin p next parent (omega (arith, room)) s.full
          frame.function_name refl)
        parent room (λ p' next' parent' room'. calls-IsSpan s inner p' next' f.1 parent' room')

  calls-IsSpan :
      (s : Settings) (cs : Calls) (p next : ℕ)
      → AllFrames cs
      → p < 2 ^ 64
      → next + size_all cs < 2 ^ 64
      → All IsSpan (visit_all s cs p next).0
  calls-IsSpan s (alter v rest) p next f parent room = absurd f
  calls-IsSpan s done p next f parent room = tt
  calls-IsSpan s (first c rest) p next f parent room =
      All-append IsSpan (visit s c p next).0 _
        (each-IsSpan s c p next f.0 parent (omega (arith, room)))
        (calls-IsSpan s rest p (visit s c p next).1 f.1 parent
          (omega (arith, visit-le s c p next, room)))

-- The spans that a call with all the calls in it is to report are well-formed, if the strings of the
-- calls are short, and the parent and the ids fit in 64 bits.
pub visit-IsSpan :
    (s : Settings) (c : Call) (p next : ℕ)
    → AreFrames c
    → p < 2 ^ 64
    → next + size c < 2 ^ 64
    → All IsSpan (visit s c p next).0
visit-IsSpan s c p next f parent room = each-IsSpan s c p next f parent room
