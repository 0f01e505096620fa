-- ===== src/Hooks/Traced.antt =====
-- A span of php_lumbre.c around an original handler that logs reports itself.
use lumbre_ext.Common.{
  ℕ, suc, ◌+◌, ◌%◌, ◌^◌, ◌<◌, ◌≡◌, refl, ap, sym, ◌∙◌, arith, true, List, ◌++◌, append-nil, Option,
  none, some, u32, u64,
}
use mathlib.Core.Path.{subst}
use lumbre_ext.Ring.{RingBuf}
use lumbre_ext.Span.{Span, Context, Timespec, span_start}
use lumbre_ext.Span.Fields.{IsSpan}
use lumbre_ext.Span.Log.{log, log-append, reported, finish-log, finish-capacity}
use lumbre_ext.Whitelist.{init}
use lumbre_ext.Hooks.{Globals, close}
use lumbre_ext.Hooks.Fixed.{IsKept}
use lumbre_ext.Hooks.Kept.{finish-ctx}
use lumbre_ext.Hooks.Tree.{Settings, settings_of, reports_of}

-- Tracing is on inside a request, with the table of the init, a buffer below 2^32 bytes and a
-- 64-bit parent.
pub record IsLive (g : Globals) : Type 0 where
  pub enabled : g.enabled ≡ true
  pub active : g.ctx.active ≡ true
  pub ready : init ≡ some g.whitelist
  pub small : g.mp_buf.capacity < 2 ^ 32
  pub parent : g.ctx.current_parent_id < 2 ^ 64

-- From `g` to `g'` the reports are logged to the ring, and their ids are taken.
pub record Logs (g g' : Globals) (r : List Span × ℕ) : Type 0 where
  pub ring : g'.ringbuf ≡ log g.mp_buf.capacity g.ringbuf r.0
  pub counter : g'.ctx.span_counter ≡ r.1
  pub capacity : g'.mp_buf.capacity ≡ g.mp_buf.capacity

pub settings_of-IsKept : {g g' : Globals} → IsKept g g' → settings_of g' ≡ settings_of g
settings_of-IsKept k =
    rw (k.mode, k.full_trace, k.max_query_len, k.min_duration_ns, k.trace_id) refl

pub IsLive-IsKept :
    {g g' : Globals} → IsKept g g' → g'.mp_buf.capacity ≡ g.mp_buf.capacity → IsLive g → IsLive g'
IsLive-IsKept k same l = record {
  enabled = k.enabled ∙ l.enabled;
  active = k.active ∙ l.active;
  ready = l.ready ∙ ap some (sym k.whitelist);
  small = omega (arith, l.small);
  parent = omega (arith, l.parent, k.current_parent_id);
}

-- The globals once a span is started.
abbrev pub started : Globals → ℕ → Timespec → Globals
started g type begin = record g { ctx = (span_start type g.ctx begin).1 }

-- More messages after those of a log.
pub joined :
    (cap cap' : ℕ) (rb rb' : RingBuf) (xs ys zs : List Span)
    → cap ≡ cap'
    → rb ≡ log cap' rb' xs
    → ys ≡ zs
    → log cap rb ys ≡ log cap' rb' (xs ++ zs)
joined cap cap' rb rb' xs ys zs e f h = rw (e, f, h) (sym (log-append cap' rb' xs zs))

module _ (original : Globals → Globals) (r : Settings → ℕ → ℕ → List Span × ℕ) (n : ℕ)
    (kept : (g : Globals) → IsKept g (original g))
    (logs : (g : Globals)
      → IsLive g
      → g.ctx.span_counter + n < 2 ^ 64
      → Logs g (original g) (r (settings_of g) g.ctx.current_parent_id g.ctx.span_counter)) where
  around :
      (g : Globals) (type : ℕ) (begin end : Timespec) (span : Span)
      → IsLive g
      → g.ctx.span_counter + suc n < 2 ^ 64
      → IsSpan span
      → span.span_id ≡ g.ctx.span_counter
      → let below = r (settings_of g) span.span_id (suc g.ctx.span_counter) in
        Logs g
          (close (original (started g type begin)) span end)
          (below.0 ++ reported (g.min_duration_ns % u64) (g.max_query_len % u32) span end, below.1)
  unfolding close span_start
  around g type begin end span l room w id =
      let g₀ : Globals = started g type begin in
      let next : (g.ctx.span_counter + 1) % u64 ≡ suc g.ctx.span_counter = omega (arith, room) in
      let live : IsLive g₀ = record {
        enabled = l.enabled;
        active = l.active;
        ready = l.ready;
        small = l.small;
        parent = omega (arith, room);
      } in
      let k : IsKept g₀ (original g₀) = kept g₀ in
      let below = r (settings_of g) span.span_id (suc g.ctx.span_counter) in
      let same : r (settings_of g₀) g₀.ctx.current_parent_id g₀.ctx.span_counter ≡ below =
        ap (r (settings_of g) g.ctx.span_counter) next
        ∙ ap (λ (i : ℕ). r (settings_of g) i (suc g.ctx.span_counter)) (sym id) in
      let d : Logs g₀ (original g₀) below =
        subst (λ (x : List Span × ℕ). Logs g₀ (original g₀) x) same
          (logs g₀ live (omega (arith, next, room))) in
      let g₁ : Globals = original g₀ in
      let small : g₁.mp_buf.capacity < 2 ^ 32 = omega (arith, d.capacity, l.small) in
      record {
        ring =
            finish-log span g₁.ringbuf g₁.mp_buf g₁.ctx (g₁.min_duration_ns % u64)
              (g₁.max_query_len % u32) end w small
            ∙ joined g₁.mp_buf.capacity g.mp_buf.capacity g₁.ringbuf g.ringbuf below.0 _ _
                d.capacity d.ring
                (ap (λ (m : ℕ). reported (m % u64) (g₁.max_query_len % u32) span end)
                    k.min_duration_ns
                  ∙ ap (λ (m : ℕ). reported (g.min_duration_ns % u64) (m % u32) span end)
                      k.max_query_len);
        counter =
            ap (λ (x : Context). x.span_counter)
              (finish-ctx span g₁.ringbuf g₁.mp_buf g₁.ctx _ _ end)
            ∙ d.counter;
        capacity =
            finish-capacity span g₁.ringbuf g₁.mp_buf g₁.ctx (g₁.min_duration_ns % u64)
              (g₁.max_query_len % u32) end w small
            ∙ d.capacity;
      }

  pub untraced :
      (g g' : Globals) (o : Option Span) (end : Timespec)
      → IsLive g
      → g.ctx.span_counter + suc n < 2 ^ 64
      → o ≡ none
      → g' ≡ original g
      → let s = settings_of g in
        Logs g g' (reports_of (r s) s o end g.ctx.current_parent_id g.ctx.span_counter)
  untraced g g' o end l room e e' =
      let d = logs g l (omega (arith, room)) in
      let below = r (settings_of g) g.ctx.current_parent_id g.ctx.span_counter in
      let kept_reports = ap (log g.mp_buf.capacity g.ringbuf) (sym (append-nil below.0)) in
      rw (e, e')
        (record { ring = d.ring ∙ kept_reports; counter = d.counter; capacity = d.capacity })

  pub traced :
      (g g' : Globals) (o : Option Span) (span : Span) (type : ℕ) (begin end : Timespec)
      → IsLive g
      → g.ctx.span_counter + suc n < 2 ^ 64
      → IsSpan span
      → span.span_id ≡ g.ctx.span_counter
      → o ≡ some span
      → g' ≡ close (original (started g type begin)) span end
      → let s = settings_of g in
        Logs g g' (reports_of (r s) s o end g.ctx.current_parent_id g.ctx.span_counter)
  traced g g' o span type begin end l room w id e e' =
      rw (e, e') (around g type begin end span l room w id)
