-- ===== src/Hooks/Short.antt =====
-- Calls that last less than the least duration, and the calls inside them, report nothing.
use lumbre_ext.Common.{
  ℕ, suc, ◌-◌, ◌%◌, ◌≤◌, ◌<◌, ◌≡◌, refl, ap, ◌∙◌, arith, Bool, true, false, List, [], ◌++◌, Option,
  none, some, Option-cases, inl, inr, u64, ◌==◌, ltb, lt→ltb,
}
use lumbre_ext.Span.{Span, Timespec, clock_ns, span_http_in}
use lumbre_ext.Span.Setters.{set_func}
use lumbre_ext.Span.Finish.{elapsed}
use lumbre_ext.Span.Valid.{timed_span}
use lumbre_ext.Span.Log.{is_short, reported}
use lumbre_ext.Whitelist.Entries.{StaticEntry, static_table}
use lumbre_ext.Whitelist.Rows.{row_of, row_of-All}
use lumbre_ext.Hooks.{Frame, with_func}
use lumbre_ext.Hooks.Calls.{Call, Calls, internal, userland, done, first, alter}
use lumbre_ext.Hooks.Kept.{with_payload-ids}
use lumbre_ext.Hooks.Listed.{call_key}
use lumbre_ext.Hooks.Wellformed.{new_span}
use lumbre_ext.Hooks.Tree.{
  Settings, row_of_call, internal_span, user_span_if, reports_of, visit, visit_all,
}

-- The clock does not run backwards: a call is within its caller.
unfoldable mutual
  pub IsTimed : ℕ → ℕ → Call → Type 0
  IsTimed low high (internal frame begin inner end) =
      (low ≤ clock_ns begin)
      × (clock_ns begin ≤ clock_ns end)
      × (clock_ns end ≤ high)
      × AreTimed (clock_ns begin) (clock_ns end) inner
  IsTimed low high (userland frame begin inner end) =
      (low ≤ clock_ns begin)
      × (clock_ns begin ≤ clock_ns end)
      × (clock_ns end ≤ high)
      × AreTimed (clock_ns begin) (clock_ns end) inner

  pub AreTimed : ℕ → ℕ → Calls → Type 0
  AreTimed low high done = Unit
  AreTimed low high (alter v rest) = AreTimed low high rest
  AreTimed low high (first c rest) = IsTimed low high c × AreTimed low high rest

-- What the span of a call starts with: its id, parent and start, and the type of no request.
abbrev pub Begins : ℕ → ℕ → Timespec → Option Span → Type 0
Begins p id begin none = Unit
Begins p id begin (some x) =
    (x.span_id ≡ id)
    × (x.parent_id ≡ p)
    × (x.start_ns ≡ clock_ns begin)
    × ((x.span_type == span_http_in) ≡ false)

pub row_plain :
    (frame : Frame) (name : List ℕ) (src : StaticEntry)
    → row_of (call_key frame name) static_table ≡ some src
    → (src.span_type == span_http_in) ≡ false
unfolding static_table
row_plain frame name src e =
    (row_of-All (λ (x : StaticEntry). (x.span_type == span_http_in) ≡ false) static_table
      (call_key frame name) src (ground arith) e).0

pub row_of_call-plain :
    (frame : Frame) (src : StaticEntry)
    → row_of_call frame ≡ some src
    → (src.span_type == span_http_in) ≡ false
unfolding row_of_call
row_of_call-plain frame src e = elim (Option-cases frame.function_name) [
  | inl unnamed ↦ absurd (cc (rw unnamed at e))
  | inr (name, named) ↦ row_plain frame name src (rw named at e)
]

pub internal_span-Begins :
    (s : Settings) (frame : Frame) (begin : Timespec) (p id : ℕ) (row : Option StaticEntry)
    → row_of_call frame ≡ row
    → Begins p id begin (internal_span s row frame begin p id)
internal_span-Begins s frame begin p id none e = tt
internal_span-Begins s frame begin p id (some src) e =
    let ids =
      with_payload-ids (new_span src.span_type s.trace_id id p begin) frame src.span_type
        s.max_query_len in
    (ids.1, ids.0, ids.4, ap (λ (t : ℕ). t == span_http_in) ids.3 ∙ row_of_call-plain frame src e)

pub user_span-Begins :
    (s : Settings) (full : Bool) (frame : Frame) (name : Option (List ℕ)) (begin : Timespec)
    (p id : ℕ)
    → frame.function_name ≡ name
    → Begins p id begin (user_span_if s full frame begin p id)
unfolding with_func set_func
user_span-Begins s false frame name begin p id e = tt
user_span-Begins s true frame none begin p id e = rw e tt
user_span-Begins s true frame (some name) begin p id e = rw e (refl, refl, refl, refl)

pub elapsed_lem :
    (x : Span) (begin end : Timespec)
    → x.start_ns ≡ clock_ns begin
    → clock_ns begin ≤ clock_ns end
    → elapsed x end ≡ clock_ns end - clock_ns begin
unfolding elapsed clock_ns
elapsed_lem x begin end start up = omega (arith, start, up)

-- A span that lasts less than the least duration is filtered, and only such a span.
pub short_filtered :
    (x : Span) (begin end : Timespec) (min : ℕ)
    → x.start_ns ≡ clock_ns begin
    → (x.span_type == span_http_in) ≡ false
    → clock_ns begin ≤ clock_ns end
    → clock_ns end - clock_ns begin < min
    → is_short (timed_span x end) min ≡ true
unfolding is_short
short_filtered x begin end min start plain up short =
    let dur : elapsed x end < min = omega (arith, elapsed_lem x begin end start up, short) in
    let less : ltb (elapsed x end) min ≡ true = lt→ltb (elapsed x end) min dur in
    rw (less, plain) refl

pub filtered_short :
    (x : Span) (begin end : Timespec) (min : ℕ)
    → x.start_ns ≡ clock_ns begin
    → clock_ns begin ≤ clock_ns end
    → is_short (timed_span x end) min ≡ true
    → clock_ns end - clock_ns begin < min
unfolding is_short
filtered_short x begin end min start up h =
    let dur = elapsed_lem x begin end start up in
    let less : elapsed x end < min = ground arith in omega (arith, dur, less)

pub nothing_more : (xs ys : List Span) → xs ≡ [] → ys ≡ [] → xs ++ ys ≡ []
nothing_more xs ys e f = rw (e, f) refl

-- Calls within less than the least duration report nothing.
pub reports_of_short :
    (r : ℕ → ℕ → List Span × ℕ) (s : Settings) (o : Option Span) (begin end : Timespec) (p next : ℕ)
    → Begins p next begin o
    → clock_ns begin ≤ clock_ns end
    → clock_ns end - clock_ns begin < s.min_duration_ns % u64
    → ((p next : ℕ) → (r p next).0 ≡ [])
    → (reports_of r s o end p next).0 ≡ []
unfolding reported
reports_of_short r s none begin end p next b up short nothing =
    ap (λ (l : List Span). l ++ []) (nothing p next)
reports_of_short r s (some x) begin end p next b up short nothing =
    let off = short_filtered x begin end (s.min_duration_ns % u64) b.2 b.3 up short in
    rw (nothing x.span_id (suc next), off) refl

mutual
  unfolding visit visit_all IsTimed AreTimed

  each_short :
      (s : Settings) (c : Call) (low high p next : ℕ)
      → high - low < s.min_duration_ns % u64
      → IsTimed low high c
      → (visit s c p next).0 ≡ []
  each_short s (internal frame begin inner end) low high p next short t =
      reports_of_short (visit_all s inner) s
        (internal_span s (row_of_call frame) frame begin p next) begin end p next
        (internal_span-Begins s frame begin p next (row_of_call frame) refl) t.1
        (omega (arith, short, t.0, t.1, t.2))
        (λ p' next'.
          all_short s inner (clock_ns begin) (clock_ns end) p' next'
            (omega (arith, short, t.0, t.1, t.2)) t.3)
  each_short s (userland frame begin inner end) low high p next short t =
      reports_of_short (visit_all s inner) s (user_span_if s s.full frame begin p next) begin end p
        next (user_span-Begins s s.full frame frame.function_name begin p next refl) t.1
        (omega (arith, short, t.0, t.1, t.2))
        (λ p' next'.
          all_short s inner (clock_ns begin) (clock_ns end) p' next'
            (omega (arith, short, t.0, t.1, t.2)) t.3)

  pub all_short :
      (s : Settings) (cs : Calls) (low high p next : ℕ)
      → high - low < s.min_duration_ns % u64
      → AreTimed low high cs
      → (visit_all s cs p next).0 ≡ []
  all_short s (alter v rest) low high p next short t = all_short s rest low high p next short t
  all_short s done low high p next short t = refl
  all_short s (first c rest) low high p next short t =
      nothing_more (visit s c p next).0 _ (each_short s c low high p next short t.0)
        (all_short s rest low high p (visit s c p next).1 short t.1)
