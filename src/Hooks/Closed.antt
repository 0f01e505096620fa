-- ===== src/Hooks/Closed.antt =====
-- The least duration and the tree of reports: a span that is reported has a reported parent.
use lumbre_ext.Common.{
  ℕ, suc, ◌-◌, ◌%◌, ◌≤◌, ◌<◌, ◌≡◌, ◌⊎◌, refl, sym, ◌∙◌, List, [], ◌∷◌, ◌++◌, append-nil, Option,
  none, some, Bool-cases, inl, inr, All, All-append, All-map, u32, u64,
}
use lumbre_ext.Span.{Span, Timespec, clock_ns}
use lumbre_ext.Span.Valid.{timed_span, finished_span}
use lumbre_ext.Span.Log.{is_short, reported}
use lumbre_ext.Hooks.Calls.{Call, Calls, internal, userland, done, first, alter}
use lumbre_ext.Hooks.Ids.{finished-ids}
use lumbre_ext.Hooks.Tree.{
  Settings, row_of_call, internal_span, user_span_if, reports_of, visit, visit_all,
}
use lumbre_ext.Hooks.Short.{
  IsTimed, AreTimed, all_short, Begins, internal_span-Begins, user_span-Begins, filtered_short,
}

-- A span with this id is in the list.
unfoldable pub HasId : ℕ → List Span → Type 0
HasId id [] = ⊥
HasId id (x ∷ xs) = (x.span_id ≡ id) ⊎ HasId id xs

-- Each span's parent is the outer one or in the list.
abbrev pub IsClosed : ℕ → List Span → Type 0
IsClosed outer xs = All (λ (x : Span). (x.parent_id ≡ outer) ⊎ HasId x.parent_id xs) xs

HasId-left : (id : ℕ) (xs ys : List Span) → HasId id xs → HasId id (xs ++ ys)
unfolding HasId
HasId-left id [] ys h = absurd h
HasId-left id (x ∷ xs) ys (inl e) = inl e
HasId-left id (x ∷ xs) ys (inr h) = inr (HasId-left id xs ys h)

HasId-right : (id : ℕ) (xs ys : List Span) → HasId id ys → HasId id (xs ++ ys)
unfolding HasId
HasId-right id [] ys h = h
HasId-right id (x ∷ xs) ys h = inr (HasId-right id xs ys h)

IsClosed-append :
    (outer : ℕ) (xs ys : List Span)
    → IsClosed outer xs
    → IsClosed outer ys
    → IsClosed outer (xs ++ ys)
IsClosed-append outer xs ys f g =
    All-append _ xs ys
      (All-map _ _ xs
        (λ x k. elim k [ inl e ↦ inl e | inr h ↦ inr (HasId-left x.parent_id xs ys h) ]) f)
      (All-map _ _ ys
        (λ y k. elim k [ inl e ↦ inl e | inr h ↦ inr (HasId-right y.parent_id xs ys h) ]) g)

-- The spans inside a span, and the span itself.
pub IsClosed-close :
    (outer id : ℕ) (xs : List Span) (y : Span)
    → y.span_id ≡ id
    → y.parent_id ≡ outer
    → IsClosed id xs
    → IsClosed outer (xs ++ y ∷ [])
unfolding HasId
IsClosed-close outer id xs y same parent f =
    All-append _ xs (y ∷ [])
      (All-map _ _ xs
        (λ x k. elim k [
          | inl e ↦ inr (HasId-right x.parent_id xs (y ∷ []) (inl (same ∙ sym e)))
          | inr h ↦ inr (HasId-left x.parent_id xs (y ∷ []) h)
        ])
        f)
      (inl parent, tt)

reports_of-IsClosed :
    (r : ℕ → ℕ → List Span × ℕ) (s : Settings) (o : Option Span) (begin end : Timespec) (p next : ℕ)
    → Begins p next begin o
    → clock_ns begin ≤ clock_ns end
    → (clock_ns end - clock_ns begin < s.min_duration_ns % u64 → (p next : ℕ) → (r p next).0 ≡ [])
    → ((p next : ℕ) → IsClosed p (r p next).0)
    → IsClosed p (reports_of r s o end p next).0
unfolding reported
reports_of-IsClosed r s none begin end p next b up nothing f =
    rw (append-nil (r p next).0) (f p next)
reports_of-IsClosed r s (some x) begin end p next b up nothing f =
    let min = s.min_duration_ns % u64 in
    let ids = finished-ids x (s.max_query_len % u32) end in
    elim (Bool-cases (is_short (timed_span x end) min)) [
      | inl off ↦
          let short = filtered_short x begin end min b.2 up off in
          rw (nothing short x.span_id (suc next), off) tt
      | inr on ↦ rw on (
          IsClosed-close p x.span_id (r x.span_id (suc next)).0
            (finished_span x (s.max_query_len % u32) end) ids.0 (ids.1 ∙ b.1)
            (f x.span_id (suc next)))
    ]

mutual
  unfolding visit visit_all IsTimed AreTimed

  each-IsClosed :
      (s : Settings) (c : Call) (low high p next : ℕ)
      → IsTimed low high c
      → IsClosed p (visit s c p next).0
  each-IsClosed s (internal frame begin inner end) low high p next t =
      reports_of-IsClosed (visit_all s inner) s
        (internal_span s (row_of_call frame) frame begin p next) begin end p next
        (internal_span-Begins s frame begin p next (row_of_call frame) refl) t.1
        (λ short p' next'. all_short s inner (clock_ns begin) (clock_ns end) p' next' short t.3)
        (λ p' next'. all-IsClosed s inner (clock_ns begin) (clock_ns end) p' next' t.3)
  each-IsClosed s (userland frame begin inner end) low high p next t =
      reports_of-IsClosed (visit_all s inner) s (user_span_if s s.full frame begin p next) begin end
        p next (user_span-Begins s s.full frame frame.function_name begin p next refl) t.1
        (λ short p' next'. all_short s inner (clock_ns begin) (clock_ns end) p' next' short t.3)
        (λ p' next'. all-IsClosed s inner (clock_ns begin) (clock_ns end) p' next' t.3)

  all-IsClosed :
      (s : Settings) (cs : Calls) (low high p next : ℕ)
      → AreTimed low high cs
      → IsClosed p (visit_all s cs p next).0
  all-IsClosed s (alter v rest) low high p next t = all-IsClosed s rest low high p next t
  all-IsClosed s done low high p next t = tt
  all-IsClosed s (first c rest) low high p next t =
      IsClosed-append p (visit s c p next).0 (visit_all s rest p (visit s c p next).1).0
        (each-IsClosed s c low high p next t.0)
        (all-IsClosed s rest low high p (visit s c p next).1 t.1)

-- With a clock that does not run backwards from the start of a call to its end, and calls within their
-- callers: whatever the least duration, the parent of each reported span is the outer parent or is
-- reported too.
pub visit_all-IsClosed :
    (s : Settings) (cs : Calls) (low high parent next : ℕ)
    → AreTimed low high cs
    → IsClosed parent (visit_all s cs parent next).0
visit_all-IsClosed s cs low high parent next t = all-IsClosed s cs low high parent next t
