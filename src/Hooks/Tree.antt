-- ===== src/Hooks/Tree.antt =====
-- What the calls of a request report, told from the calls alone: which of them are spans, under
-- which ids and parents, and in which order they end.
use lumbre_ext.Common.{
  ℕ, suc, ◌+◌, ◌%◌, ◌==◌, ◌≤◌, arith, Bool, true, false, not, ◌&&◌, List, [], ◌++◌, Option, none,
  some, ◌>>=◌, u32, u64,
}
use lumbre_ext.Span.{Span, Timespec, span_func}
use lumbre_ext.Span.Log.{reported}
use lumbre_ext.Whitelist.Entries.{StaticEntry, static_table}
use lumbre_ext.Whitelist.Rows.{row_of}
use lumbre_ext.Hooks.{Globals, Frame, with_payload, with_func}
use lumbre_ext.Hooks.Calls.{Call, Calls, internal, userland, done, first, alter}
use lumbre_ext.Hooks.Listed.{call_key}
use lumbre_ext.Hooks.Wellformed.{IsFrame, new_span}

-- What decides about the spans of a request: whether user functions are traced, the cut of the
-- queries, the least duration and the trace's id.
pub record Settings : Type 0 where
  pub full : Bool
  pub max_query_len : ℕ
  pub min_duration_ns : ℕ
  pub trace_id : List ℕ

abbrev pub settings_of : Globals → Settings
settings_of g = record {
  full = not (not (g.mode == 1) && not g.ctx.full_trace);
  max_query_len = g.max_query_len;
  min_duration_ns = g.min_duration_ns;
  trace_id = g.ctx.trace_id;
}

-- The row of an internal call in the static table.
unfoldable pub row_of_call : Frame → Option StaticEntry
row_of_call frame = frame.function_name >>= (λ name. row_of (call_key frame name) static_table)

module _ (s : Settings) where
  -- The span of a call, under an id and a parent; none for a call that is not traced.
  abbrev pub internal_span : Option StaticEntry → Frame → Timespec → ℕ → ℕ → Option Span
  internal_span none frame begin parent id = none
  internal_span (some src) frame begin parent id = some (
      with_payload (new_span src.span_type s.trace_id id parent begin) frame src.span_type
        s.max_query_len)

  abbrev pub user_span : Option (List ℕ) → Frame → Timespec → ℕ → ℕ → Option Span
  user_span none frame begin parent id = none
  user_span (some name) frame begin parent id =
      some (with_func (new_span span_func s.trace_id id parent begin) frame name)

  abbrev pub user_span_if : Bool → Frame → Timespec → ℕ → ℕ → Option Span
  user_span_if false frame begin parent id = none
  user_span_if true frame begin parent id = user_span frame.function_name frame begin parent id

  -- The report at the end of a call.
  abbrev pub closing : Option Span → Timespec → List Span
  closing none end = []
  closing (some span) end = reported (s.min_duration_ns % u64) (s.max_query_len % u32) span end

-- The parent and the next id for the calls inside a call.
abbrev pub inner_parent : Option Span → ℕ → ℕ
inner_parent none parent = parent
inner_parent (some span) parent = span.span_id

abbrev pub inner_next : Option Span → ℕ → ℕ
inner_next none next = next
inner_next (some span) next = suc next

-- The reports of a call and the next free id, where `r` gives those of the calls inside it. The spans
-- inside a call are reported before its own.
abbrev pub reports_of :
    (ℕ → ℕ → List Span × ℕ) → Settings → Option Span → Timespec → ℕ → ℕ → List Span × ℕ
reports_of r s o end parent next =
    let below = r (inner_parent o parent) (inner_next o next) in
    (below.0 ++ closing s o end, below.1)

-- From the parent and the next free id before a call, with the settings before it throughout.
unfoldable mutual
  pub visit : Settings → Call → ℕ → ℕ → List Span × ℕ
  visit s (internal frame begin inner end) parent next =
      reports_of (visit_all s inner) s (internal_span s (row_of_call frame) frame begin parent next)
        end parent next
  visit s (userland frame begin inner end) parent next =
      reports_of (visit_all s inner) s (user_span_if s s.full frame begin parent next) end parent
        next

  pub visit_all : Settings → Calls → ℕ → ℕ → List Span × ℕ
  visit_all s done parent next = ([], next)
  visit_all s (first c rest) parent next =
      let a = visit s c parent next in let b = visit_all s rest parent a.1 in (a.0 ++ b.0, b.1)
  visit_all s (alter v rest) parent next = visit_all s rest parent next

-- The number of calls.
unfoldable mutual
  pub size : Call → ℕ
  size (internal frame begin inner end) = suc (size_all inner)
  size (userland frame begin inner end) = suc (size_all inner)

  pub size_all : Calls → ℕ
  size_all done = 0
  size_all (first c rest) = size c + size_all rest
  size_all (alter v rest) = size_all rest

-- Every call's strings are short, and no call changes a setting.
unfoldable mutual
  pub AreFrames : Call → Type 0
  AreFrames (internal frame begin inner end) = IsFrame frame × AllFrames inner
  AreFrames (userland frame begin inner end) = IsFrame frame × AllFrames inner

  pub AllFrames : Calls → Type 0
  AllFrames done = Unit
  AllFrames (first c rest) = AreFrames c × AllFrames rest
  AllFrames (alter v rest) = ⊥

-- The ids that are taken inside a call, and its own.
inner-le :
    (r : ℕ → ℕ → List Span × ℕ) (n : ℕ) (o : Option Span) (parent next : ℕ)
    → ((parent next : ℕ) → (next ≤ (r parent next).1) × ((r parent next).1 ≤ next + n))
    → let after = (r (inner_parent o parent) (inner_next o next)).1 in
      (next ≤ after) × (after ≤ next + suc n)
inner-le r n none parent next h = omega (arith, h parent next)
inner-le r n (some span) parent next h = omega (arith, h span.span_id (suc next))

mutual
  unfolding visit visit_all size size_all

  each-le :
      (s : Settings) (c : Call) (parent next : ℕ)
      → (next ≤ (visit s c parent next).1) × ((visit s c parent next).1 ≤ next + size c)
  each-le s (internal frame begin inner end) parent next =
      inner-le (visit_all s inner) (size_all inner)
        (internal_span s (row_of_call frame) frame begin parent next) parent next (all-le s inner)
  each-le s (userland frame begin inner end) parent next =
      inner-le (visit_all s inner) (size_all inner) (user_span_if s s.full frame begin parent next)
        parent next (all-le s inner)

  all-le :
      (s : Settings) (cs : Calls) (parent next : ℕ)
      → (next ≤ (visit_all s cs parent next).1)
        × ((visit_all s cs parent next).1 ≤ next + size_all cs)
  all-le s done parent next = omega arith
  all-le s (alter v rest) parent next = all-le s rest parent next
  all-le s (first c rest) parent next =
      omega (arith, each-le s c parent next, all-le s rest parent (visit s c parent next).1)

-- A call takes as many ids as it has spans, at most one for each call.
pub visit-le :
    (s : Settings) (c : Call) (parent next : ℕ)
    → (next ≤ (visit s c parent next).1) × ((visit s c parent next).1 ≤ next + size c)
visit-le s c parent next = each-le s c parent next

pub visit_all-le :
    (s : Settings) (cs : Calls) (parent next : ℕ)
    → (next ≤ (visit_all s cs parent next).1)
      × ((visit_all s cs parent next).1 ≤ next + size_all cs)
visit_all-le s cs parent next = all-le s cs parent next
