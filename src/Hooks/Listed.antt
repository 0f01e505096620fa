-- ===== src/Hooks/Listed.antt =====
-- Which internal calls lumbre_execute_internal traces.
use lumbre_ext.Common.{
  ℕ, ◌≡◌, ◌∙◌, sym, refl, Bool, true, false, not, ◌||◌, List, none, some, length, Bool-cases, inl,
  inr,
}
use mathlib.Core.Path.{subst}
use lumbre_ext.Span.{Timespec, span_start}
use lumbre_ext.Whitelist.{Table, build_key, init, match, populated}
use lumbre_ext.Whitelist.Entries.{StaticEntry, static_table}
use lumbre_ext.Whitelist.Rows.{row_of, entry_of_row}
use lumbre_ext.Whitelist.Match.{match_lem}
use lumbre_ext.Hooks.{
  Globals, Frame, string_len, trace_internal, execute_internal, with_payload, close,
}

-- The key of a call.
abbrev pub call_key : Frame → List ℕ → List ℕ
call_key frame name =
    build_key frame.scope_name (string_len frame.scope_name) (some name) (length name)

matched :
    (g : Globals) (frame : Frame) (name : List ℕ)
    → init ≡ some g.whitelist
    → match g.whitelist frame.scope_name (string_len frame.scope_name) (some name) (length name)
      ≡ some (entry_of_row (row_of (call_key frame name) static_table))
matched g frame name ready =
    let (wl, e, m) =
      match_lem frame.scope_name (string_len frame.scope_name) (some name) (length name) in
    let same : wl ≡ g.whitelist = cc (sym e ∙ ready) in
    subst
      (λ (t : Table).
        match t frame.scope_name (string_len frame.scope_name) (some name) (length name)
        ≡ some (entry_of_row (row_of (call_key frame name) static_table)))
      same m

-- With the table of the init, an internal call whose key is of no row of the static table goes to the
-- original handler, and nothing else happens.
pub internal_unlisted :
    (g : Globals) (frame : Frame) (name : List ℕ) (begin end : Timespec)
    (original : Globals → Globals)
    → init ≡ some g.whitelist
    → frame.function_name ≡ some name
    → row_of (call_key frame name) static_table ≡ none
    → execute_internal frame begin end original g ≡ original g
unfolding execute_internal trace_internal
internal_unlisted g frame name begin end original ready named none_of =
    elim (Bool-cases (not g.enabled || not g.ctx.active)) [
      | inl off ↦ rw off refl
      | inr on ↦ let m = matched g frame name ready in rw on (simp (named, m, none_of) refl)
    ]

pub tracing : (a b : Bool) → a ≡ true → b ≡ true → (not a || not b) ≡ false
tracing a b ea eb = rw (ea, eb) refl

-- With tracing on and the table of the init, an internal call whose key is of a row of the static
-- table is a span of the row's type around the original handler.
pub internal_listed :
    (g : Globals) (frame : Frame) (name : List ℕ) (src : StaticEntry) (begin end : Timespec)
    (original : Globals → Globals)
    → g.enabled ≡ true
    → g.ctx.active ≡ true
    → init ≡ some g.whitelist
    → frame.function_name ≡ some name
    → row_of (call_key frame name) static_table ≡ some src
    → let (span, ctx) = span_start src.span_type g.ctx begin in
      execute_internal frame begin end original g
      ≡ close
          (original (record g { ctx = ctx }))
          (with_payload span frame src.span_type g.max_query_len)
          end
unfolding execute_internal trace_internal populated
internal_listed g frame name src begin end original enabled active ready named row =
    let on : (not g.enabled || not g.ctx.active) ≡ false =
      tracing g.enabled g.ctx.active enabled active in
    let m = matched g frame name ready in rw on (simp (named, m, row) refl)
