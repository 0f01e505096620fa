-- ===== src/Pipeline/Reports.antt =====
-- The calls and the request ends of php_lumbre.c on the way of the messages to the daemon.
use lumbre_ext.Common.{
  ℕ, ◌+◌, ◌%◌, ◌^◌, ◌<◌, ◌≡◌, refl, ap, sym, ◌∙◌, arith, true, false, not, List, [], ◌∷◌, ◌++◌,
  append-nil, Bool-cases, inl, inr, u32, Status, ok, error, some, All, All-append,
}
use lumbre_ext.Ring.{RingBuf}
use lumbre_ext.Msgpack.{Buf, reset}
use lumbre_ext.Span.{Span, Context, Timespec, context_reset}
use lumbre_ext.Span.Fields.{IsSpan}
use lumbre_ext.Span.Finish.{finish, deliver, restore_parent, is_filtered}
use lumbre_ext.Span.Encode.{encode}
use lumbre_ext.Request.Trace.{root_reported}
use lumbre_ext.Span.Valid.{timed_span, timed_span-IsSpan, finished_span, finished_span-IsSpan}
use lumbre_ext.Span.Log.{log, finish-log, finish-capacity}
use lumbre_ext.Span.Queue.{HasHeadroom}
use lumbre_ext.Hooks.{Globals}
use lumbre_ext.Hooks.Calls.{Call, run}
use lumbre_ext.Hooks.Fixed.{IsKept, run-IsKept, run_off}
use lumbre_ext.Hooks.Kept.{finish-ctx}
use lumbre_ext.Hooks.Tree.{settings_of, visit, size, AreFrames}
use lumbre_ext.Hooks.Traced.{IsLive, Logs}
use lumbre_ext.Hooks.Report.{run-Logs}
use lumbre_ext.Hooks.Reported.{visit-IsSpan}
use lumbre_ext.Request.{rshutdown}
use lumbre_ext.Pipeline.{System, call_reports, end_reports, called, ended}
use lumbre_ext.Pipeline.Flow.{IsWorker, IsFlowing}
use lumbre_ext.Pipeline.Stage.{IsOpen-log}

-- A call with tracing on.
called_live :
    (c : Call) (s : System)
    → AreFrames c
    → s.globals.ctx.span_counter + size c < 2 ^ 64
    → HasHeadroom s.globals.ringbuf
    → s.globals.enabled ≡ true
    → s.globals.ctx.active ≡ true
    → IsFlowing s
    → IsFlowing (called c s)
called_live c s frames room headroom on active f =
    let g = s.globals in
    let spans : List Span =
      (visit (settings_of g) c g.ctx.current_parent_id g.ctx.span_counter).0 in
    let traced : call_reports c g ≡ spans = rw (on, active) refl in
    let l : IsLive g = record {
      enabled = on;
      active = active;
      ready = f.worker.ready;
      small = f.worker.small;
      parent = f.worker.parent;
    } in
    let k : IsKept g (run c g) = run-IsKept c frames g in
    let d : Logs g (run c g) (visit (settings_of g) c g.ctx.current_parent_id g.ctx.span_counter) =
      run-Logs c g l frames room in
    rw traced (record {
      worker = record {
        ready = f.worker.ready ∙ ap some (sym k.whitelist);
        small = omega (arith, d.capacity, f.worker.small);
        parent = omega (arith, k.current_parent_id, f.worker.parent);
        root = rw (k.root_span) (f.worker.root);
      };
      stage = elim (f.stage) [
        | inl o ↦ inl (IsOpen-log spans k.ringbuf_initialized d.ring d.capacity headroom o)
        | inr c ↦ absurd (cc (sym c.active ∙ active))
      ];
      spans =
          All-append IsSpan s.reported spans f.spans
            (visit-IsSpan (settings_of g) c _ _ frames f.worker.parent room);
    })

nothing_reported :
    {s : System} {g' : Globals} {spans : List Span}
    → g' ≡ s.globals
    → spans ≡ []
    → IsFlowing s
    → IsFlowing (record s { globals = g'; reported = s.reported ++ spans })
nothing_reported {s} e none_of f = rw (e, none_of, append-nil s.reported) f

-- A call keeps the messages flowing.
pub called-IsFlowing :
    (c : Call) (s : System)
    → AreFrames c
    → s.globals.ctx.span_counter + size c < 2 ^ 64
    → HasHeadroom s.globals.ringbuf
    → IsFlowing s
    → IsFlowing (called c s)
called-IsFlowing c s frames room headroom f = elim (Bool-cases s.globals.enabled) [
  | inl on ↦ elim (Bool-cases s.globals.ctx.active) [
    | inl active ↦ called_live c s frames room headroom on active f
    | inr idle ↦ nothing_reported (run_off c s.globals frames (inr idle)) (rw (on, idle) refl) f
  ]
  | inr off ↦ nothing_reported (run_off c s.globals frames (inl off)) (rw off refl) f
]

deliver-span :
    (span : Span) (rb : RingBuf) (ctx : Context) (r : Status × Buf)
    → (deliver span rb ctx r).span ≡ span
unfolding deliver
deliver-span span rb ctx (error, b) = refl
deliver-span span rb ctx (ok, b) = refl

-- A finish leaves a well-formed span.
finish-IsSpan :
    (started : Span) (rb : RingBuf) (b : Buf) (ctx : Context) (min max : ℕ) (now : Timespec)
    → IsSpan started
    → IsSpan (finish started rb b ctx min max now).span
unfolding finish
finish-IsSpan started rb b ctx min max now w =
    elim (Bool-cases (is_filtered (timed_span started now) min)) [
      | inl e ↦ rw e (timed_span-IsSpan started now w)
      | inr e ↦
          let span = finished_span started max now in
          rw
            (
              e,
              deliver-span span rb (restore_parent ctx (timed_span started now))
                  (encode span (reset b)),
            )
            (finished_span-IsSpan started max now w)
    ]

IsWorker-ended :
    (g : Globals) (now : Timespec) → g.ctx.active ≡ true → IsWorker g → IsWorker (rshutdown g now)
unfolding rshutdown context_reset
IsWorker-ended g now active w =
    let max = g.max_query_len % u32 in
    let c = finish-ctx g.root_span g.ringbuf g.mp_buf g.ctx 0 max now in
    let cap = finish-capacity g.root_span g.ringbuf g.mp_buf g.ctx 0 max now w.root w.small in
    let on : not g.ctx.active ≡ false = ap not active in
    rw on (record {
      ready = w.ready;
      small = omega (arith, cap, w.small);
      parent = rw (ap (λ (x : Context). x.current_parent_id) c) (w.root.parent_id);
      root = finish-IsSpan g.root_span g.ringbuf g.mp_buf g.ctx 0 max now w.root;
    })

-- The end of a traced request logs its root span.
ended-log :
    (g : Globals) (now : Timespec)
    → g.ctx.active ≡ true
    → IsWorker g
    → ((rshutdown g now).ringbuf ≡ log g.mp_buf.capacity g.ringbuf (end_reports g now))
      × ((rshutdown g now).ringbuf_initialized ≡ g.ringbuf_initialized)
      × ((rshutdown g now).mp_buf.capacity ≡ g.mp_buf.capacity)
unfolding rshutdown
ended-log g now active w =
    let max = g.max_query_len % u32 in
    let on : not g.ctx.active ≡ false = ap not active in
    let root : end_reports g now ≡ finished_span g.root_span max now ∷ [] = rw active refl in
    rw on (
      finish-log g.root_span g.ringbuf g.mp_buf g.ctx 0 max now w.root w.small
          ∙ ap (log g.mp_buf.capacity g.ringbuf) (root_reported g.root_span max now ∙ sym root),
      refl,
      finish-capacity g.root_span g.ringbuf g.mp_buf g.ctx 0 max now w.root w.small,
    )

ended_idle : (g : Globals) (now : Timespec) → g.ctx.active ≡ false → rshutdown g now ≡ g
unfolding rshutdown
ended_idle g now idle = rw idle refl

end_reports-IsSpan :
    (g : Globals) (now : Timespec) → IsSpan g.root_span → All IsSpan (end_reports g now)
end_reports-IsSpan g now w = elim (Bool-cases g.ctx.active) [
  | inl e ↦ rw e (finished_span-IsSpan g.root_span (g.max_query_len % u32) now w, tt)
  | inr e ↦ rw e tt
]

-- A request end keeps the messages flowing.
pub ended-IsFlowing :
    (now : Timespec) (s : System)
    → HasHeadroom s.globals.ringbuf
    → IsFlowing s
    → IsFlowing (ended now s)
ended-IsFlowing now s headroom f = elim (Bool-cases s.globals.ctx.active) [
  | inl active ↦
      let (ring, i, buf) = ended-log s.globals now active f.worker in
      record {
        worker = IsWorker-ended s.globals now active f.worker;
        stage = elim (f.stage) [
          | inl o ↦ inl (IsOpen-log (end_reports s.globals now) i ring buf headroom o)
          | inr c ↦ absurd (cc (sym c.active ∙ active))
        ];
        spans =
            All-append IsSpan s.reported (end_reports s.globals now) f.spans
              (end_reports-IsSpan s.globals now f.worker.root);
      }
  | inr idle ↦ nothing_reported (ended_idle s.globals now idle) (rw idle refl) f
]
