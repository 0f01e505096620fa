-- ===== src/Hooks/Ids.antt =====
-- The ids and the parents of the spans that a request reports: they are a tree under the outer parent.
use lumbre_ext.Common.{
  ℕ, suc, ◌≤◌, ◌≡◌, ◌⊎◌, refl, arith, Bool, true, false, List, [], ◌∷◌, append-nil, Option, none,
  some, Bool-cases, inl, inr, u32, u64, ◌%◌, ◌∙◌,
}
use lumbre_ext.Span.{Span, Timespec}
use lumbre_ext.Span.Setters.{set_func}
use lumbre_ext.Span.Finish.{truncate_query}
use lumbre_ext.Span.Valid.{timed_span, finished_span}
use lumbre_ext.Span.Log.{is_short, reported}
use lumbre_ext.Whitelist.Entries.{StaticEntry}
use lumbre_ext.Hooks.{Frame, with_func}
use lumbre_ext.Hooks.Calls.{Call, Calls, internal, userland, done, first, alter}
use lumbre_ext.Hooks.Kept.{with_payload-ids}
use lumbre_ext.Hooks.Wellformed.{new_span}
use lumbre_ext.Hooks.Tree.{
  Settings, row_of_call, internal_span, user_span, user_span_if, closing, reports_of, visit,
  visit_all, visit-le, visit_all-le,
}
use lumbre_ext.Hooks.Forest.{IsForest, IsForest-append, IsForest-empty, IsForest-tail}

-- The span of a call has the id and the parent that it was given.
abbrev Owns : Settings → ℕ → ℕ → Option Span → Type 0
Owns s parent id none = Unit
Owns s parent id (some x) = (x.span_id ≡ id) × (x.parent_id ≡ parent) × (x.trace_id ≡ s.trace_id)

pub finished-ids :
    (x : Span) (max : ℕ) (end : Timespec)
    → let y = finished_span x max end in
      (y.span_id ≡ x.span_id) × (y.parent_id ≡ x.parent_id) × (y.trace_id ≡ x.trace_id)
unfolding truncate_query
finished-ids x max end = ground arith

pub closing-cases :
    (s : Settings) (x : Span) (end : Timespec)
    → (closing s (some x) end ≡ [])
      ⊎ (closing s (some x) end ≡ finished_span x (s.max_query_len % u32) end ∷ [])
unfolding reported
closing-cases s x end = elim (Bool-cases (is_short (timed_span x end) (s.min_duration_ns % u64))) [
  | inl e ↦ inl (rw e refl)
  | inr e ↦ inr (rw e refl)
]

reports_of-IsForest :
    (r : ℕ → ℕ → List Span × ℕ) (s : Settings) (o : Option Span) (end : Timespec) (p next : ℕ)
    → Owns s p next o
    → ((p next : ℕ) → IsForest s.trace_id p next (r p next).1 (r p next).0)
    → ((p next : ℕ) → next ≤ (r p next).1)
    → let a = reports_of r s o end p next in IsForest s.trace_id p next a.1 a.0
reports_of-IsForest r s none end p next own f le = rw (append-nil (r p next).0) (f p next)
reports_of-IsForest r s (some x) end p next own f le =
    let ids = finished-ids x (s.max_query_len % u32) end in
    IsForest-tail s.trace_id p x.span_id next _ (r x.span_id (suc next)).0 _
      (finished_span x (s.max_query_len % u32) end) own.0 (omega (arith, le x.span_id (suc next)))
      (ids.0 ∙ own.0) (ids.1 ∙ own.1) (ids.2 ∙ own.2) (f x.span_id (suc next))
      (closing-cases s x end)

internal_span-Owns :
    (s : Settings) (row : Option StaticEntry) (frame : Frame) (begin : Timespec) (p next : ℕ)
    → Owns s p next (internal_span s row frame begin p next)
internal_span-Owns s none frame begin p next = tt
internal_span-Owns s (some src) frame begin p next =
    let ids =
      with_payload-ids (new_span src.span_type s.trace_id next p begin) frame src.span_type
        s.max_query_len in
    (ids.1, ids.0, ids.2)

user_span-Owns :
    (s : Settings) (name : Option (List ℕ)) (frame : Frame) (begin : Timespec) (p next : ℕ)
    → Owns s p next (user_span s name frame begin p next)
unfolding with_func set_func
user_span-Owns s none frame begin p next = tt
user_span-Owns s (some name) frame begin p next = (refl, refl, refl)

user_span_if-Owns :
    (s : Settings) (full : Bool) (frame : Frame) (begin : Timespec) (p next : ℕ)
    → Owns s p next (user_span_if s full frame begin p next)
user_span_if-Owns s false frame begin p next = tt
user_span_if-Owns s true frame begin p next =
    user_span-Owns s frame.function_name frame begin p next

mutual
  unfolding visit visit_all

  each-IsForest :
      (s : Settings) (c : Call) (p next : ℕ)
      → IsForest s.trace_id p next (visit s c p next).1 (visit s c p next).0
  each-IsForest s (internal frame begin inner end) p next =
      reports_of-IsForest (visit_all s inner) s
        (internal_span s (row_of_call frame) frame begin p next) end p next
        (internal_span-Owns s (row_of_call frame) frame begin p next)
        (λ p' next'. all-IsForest s inner p' next') (λ p' next'. (visit_all-le s inner p' next').0)
  each-IsForest s (userland frame begin inner end) p next =
      reports_of-IsForest (visit_all s inner) s (user_span_if s s.full frame begin p next) end p
        next (user_span_if-Owns s s.full frame begin p next)
        (λ p' next'. all-IsForest s inner p' next') (λ p' next'. (visit_all-le s inner p' next').0)

  all-IsForest :
      (s : Settings) (cs : Calls) (p next : ℕ)
      → IsForest s.trace_id p next (visit_all s cs p next).1 (visit_all s cs p next).0
  all-IsForest s (alter v rest) p next = all-IsForest s rest p next
  all-IsForest s done p next = IsForest-empty s.trace_id p next next
  all-IsForest s (first c rest) p next =
      let mid = (visit s c p next).1 in
      IsForest-append s.trace_id p next mid (visit_all s rest p mid).1 (visit s c p next).0 _
        (visit-le s c p next).0 (visit_all-le s rest p mid).0 (each-IsForest s c p next)
        (all-IsForest s rest p mid)

-- Whatever calls a list holds and whichever of their spans are filtered: the reported spans belong to
-- the trace and have ids from the next free one on and below the one after the calls, no two the
-- same; the parent of each is the outer parent or an id of that range that is less than its own, so
-- that the parents form a forest under the outer parent.
pub visit_all-IsForest :
    (s : Settings) (cs : Calls) (parent next : ℕ)
    → IsForest s.trace_id parent next (visit_all s cs parent next).1 (visit_all s cs parent next).0
visit_all-IsForest s cs parent next = all-IsForest s cs parent next
