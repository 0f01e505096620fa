-- ===== src/Hooks/Forest.antt =====
-- Lists of spans that form a forest: distinct ids, and parents that were started before.
use lumbre_ext.Common.{
  ℕ, suc, ◌≤◌, ◌<◌, ◌≡◌, ◌≢◌, ◌⊎◌, arith, List, [], ◌∷◌, ◌++◌, append-nil, inl, inr, All,
  All-append, All-map,
}
use lumbre_ext.Span.{Span}

-- A span of the trace with an id from `low` on and below `high`, whose parent is the outer one or a
-- span that was started before it.
pub record IsNode (trace_id : List ℕ) (outer low high : ℕ) (x : Span) : Type 0 where
  pub trace : x.trace_id ≡ trace_id
  pub least : low ≤ x.span_id
  pub below : x.span_id < high
  pub parent : (x.parent_id ≡ outer) ⊎ ((low ≤ x.parent_id) × (x.parent_id < x.span_id))

-- No id occurs twice.
unfoldable pub AreDistinct : List Span → Type 0
AreDistinct [] = Unit
AreDistinct (x ∷ xs) = All (λ (y : Span). y.span_id ≢ x.span_id) xs × AreDistinct xs

pub record IsForest (trace_id : List ℕ) (parent low high : ℕ) (xs : List Span) : Type 0 where
  pub nodes : All (IsNode trace_id parent low high) xs
  pub distinct : AreDistinct xs

pub IsNode-weaken :
    {trace_id : List ℕ} {parent low low' high high' : ℕ} {x : Span}
    → low' ≤ low
    → high ≤ high'
    → IsNode trace_id parent low high x
    → IsNode trace_id parent low' high' x
IsNode-weaken a b n = record {
  trace = n.trace;
  least = omega (arith, a, n.least);
  below = omega (arith, b, n.below);
  parent = elim n.parent [ inl e ↦ inl e | inr h ↦ inr (omega (arith, a, h), h.1) ];
}

-- The spans below a span are below its parent too.
pub IsNode-up :
    {trace_id : List ℕ} {parent low high : ℕ} {x : Span}
    → IsNode trace_id low (suc low) high x
    → IsNode trace_id parent low high x
IsNode-up n = record {
  trace = n.trace;
  least = omega (arith, n.least);
  below = n.below;
  parent = elim n.parent [
    | inl e ↦ inr (omega (arith, e), omega (arith, e, n.least))
    | inr h ↦ inr (omega (arith, h), h.1)
  ];
}

-- The ids of two lists are different.
abbrev pub Apart : List Span → List Span → Type 0
Apart xs ys = All (λ (x : Span). All (λ (y : Span). y.span_id ≢ x.span_id) ys) xs

pub AreDistinct-append :
    (xs ys : List Span) → Apart xs ys → AreDistinct xs → AreDistinct ys → AreDistinct (xs ++ ys)
unfolding AreDistinct
AreDistinct-append [] ys a dx dy = dy
AreDistinct-append (x ∷ xs) ys a dx dy = (
  All-append (λ (y : Span). y.span_id ≢ x.span_id) xs ys dx.0 a.0,
  AreDistinct-append xs ys a.1 dx.1 dy,
)

-- The spans of a call, and those of the calls after it.
pub IsForest-append :
    (t : List ℕ) (p low mid high : ℕ) (xs ys : List Span)
    → low ≤ mid
    → mid ≤ high
    → IsForest t p low mid xs
    → IsForest t p mid high ys
    → IsForest t p low high (xs ++ ys)
IsForest-append t p low mid high xs ys a b f g = record {
  nodes =
      All-append (IsNode t p low high) xs ys
        (All-map (IsNode t p low mid) (IsNode t p low high) xs
          (λ x n. IsNode-weaken (omega arith) b n) f.nodes)
        (All-map (IsNode t p mid high) (IsNode t p low high) ys
          (λ x n. IsNode-weaken a (omega arith) n) g.nodes);
  distinct =
      AreDistinct-append xs ys
        (All-map (IsNode t p low mid) _ xs
          (λ x n.
            All-map (IsNode t p mid high) _ ys
              (λ y m e. absurd (omega (arith, e, m.least, n.below))) g.nodes)
          f.nodes)
        f.distinct g.distinct;
}

-- The spans of the calls inside a span, and the span itself.
pub IsForest-close :
    (t : List ℕ) (p low high : ℕ) (xs : List Span) (y : Span)
    → low < high
    → y.span_id ≡ low
    → y.parent_id ≡ p
    → y.trace_id ≡ t
    → IsForest t low (suc low) high xs
    → IsForest t p low high (xs ++ y ∷ [])
unfolding AreDistinct
IsForest-close t p low high xs y room id parent trace f = record {
  nodes =
      All-append (IsNode t p low high) xs (y ∷ [])
        (All-map (IsNode t low (suc low) high) (IsNode t p low high) xs (λ x n. IsNode-up n)
          f.nodes)
        (
          record {
            trace = trace;
            least = omega (arith, id);
            below = omega (arith, id, room);
            parent = inl parent;
          },
          tt,
        );
  distinct =
      AreDistinct-append xs (y ∷ [])
        (All-map (IsNode t low (suc low) high) _ xs
          (λ x n. ((λ e. absurd (omega (arith, e, id, n.least))), tt)) f.nodes)
        f.distinct (tt, tt);
}

pub IsForest-empty : (t : List ℕ) (p low high : ℕ) → IsForest t p low high []
unfolding AreDistinct
IsForest-empty t p low high = record { nodes = tt; distinct = tt }

-- The reports of the calls inside a span, and its own if there is one.
pub IsForest-tail :
    (t : List ℕ) (p id low high : ℕ) (xs ys : List Span) (y : Span)
    → id ≡ low
    → low < high
    → y.span_id ≡ low
    → y.parent_id ≡ p
    → y.trace_id ≡ t
    → IsForest t id (suc low) high xs
    → (ys ≡ []) ⊎ (ys ≡ y ∷ [])
    → IsForest t p low high (xs ++ ys)
IsForest-tail t p id low high xs ys y same room own_id parent trace f (inl filtered) =
    let f' : IsForest t low (suc low) high xs = rw same at f in
    rw (filtered, append-nil xs)
      (record {
        nodes =
            All-map (IsNode t low (suc low) high) (IsNode t p low high) xs (λ x n. IsNode-up n)
              f'.nodes;
        distinct = f'.distinct;
      })
IsForest-tail t p id low high xs ys y same room own_id parent trace f (inr one) =
    rw one (IsForest-close t p low high xs y room own_id parent trace (rw same at f))
