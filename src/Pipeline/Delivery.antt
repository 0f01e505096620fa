-- ===== src/Pipeline/Delivery.antt =====
-- What the daemon behind a worker of php_lumbre.c reads, whatever requests, calls, settings and reads
-- come in which order.
use mathlib.Core.List.{Sublistᴰ}
use mathlib.Core.List.Sublistᴰ
use lumbre_ext.Common.{
  ℕ, ◌<◌, ◌≡◌, refl, ap, sym, ◌∙◌, arith, true, false, List, [], ◌∷◌, ◌++◌, Option-cases, inl, inr,
  ◌⊎◌, some, Option, map, All,
}
use mathlib.Core.Path.{ap₂, subst}
use lumbre_ext.Worker.{ginit, zero_globals}
use lumbre_ext.Hooks.Wellformed.{new_span-IsSpan}
use lumbre_ext.Ring.Refine.{Holds}
use lumbre_ext.Msgpack.{Buf}
use lumbre_ext.Span.{Span, zero_span, zero_id, clock_ns, Context}
use lumbre_ext.Span.Fields.{IsSpan, Pair, pairs}
use lumbre_ext.Span.Reader.{read_message}
use lumbre_ext.Span.Message.{read_message-message}
use lumbre_ext.Span.Queue.{messages_of}
use lumbre_ext.Whitelist as Whitelist
use lumbre_ext.Hooks.{Globals}
use mathlib.Core.List.{Memᴰ}
use lumbre_ext.Ini.Entries.{Zend, IniEntry, ini_entries, on_modify-IsUpdate}
use lumbre_ext.Pipeline.{
  System, modified, consumed, Step, begin_request, call, end_request, modify, read, Reach, here,
  next,
}
use lumbre_ext.Pipeline.Flow.{IsFlowing, begun-IsFlowing}
use lumbre_ext.Pipeline.Reports.{called-IsFlowing, ended-IsFlowing}
use lumbre_ext.Pipeline.Stage.{Stage-same, IsOpen-read}

modified-IsFlowing :
    (z : Zend) (e : IniEntry) (v : List ℕ) (s : System)
    → Memᴰ e ini_entries
    → IsFlowing s
    → IsFlowing (modified z e v s)
modified-IsFlowing z e v s member f =
    let u = on_modify-IsUpdate z e v s.globals member in
    record {
      worker = record {
        ready = f.worker.ready ∙ ap some (sym u.whitelist);
        small = rw (u.mp_buf) (f.worker.small);
        parent = rw (u.ctx) (f.worker.parent);
        root = rw (u.root_span) (f.worker.root);
      };
      stage =
          Stage-same u.ringbuf_initialized u.ringbuf (ap (λ (b : Buf). b.capacity) u.mp_buf)
            (ap (λ (x : Context). x.active) u.ctx) f.stage;
      spans = f.spans;
    }

consumed-IsFlowing :
    (s : System)
    → s.globals.ringbuf_initialized ≡ true
    → s.globals.ringbuf.header.read_pos < s.globals.ringbuf.header.write_pos
    → IsFlowing s
    → IsFlowing (consumed s)
consumed-IsFlowing s there unread f = record {
  worker = record {
    ready = f.worker.ready;
    small = f.worker.small;
    parent = f.worker.parent;
    root = f.worker.root;
  };
  stage = elim (f.stage) [
    | inl o ↦ inl (IsOpen-read o unread)
    | inr c ↦ absurd (cc (sym c.initialized ∙ there))
  ];
  spans = f.spans;
}

Step-IsFlowing : {z : Zend} {s t : System} → Step z s t → IsFlowing s → IsFlowing t
Step-IsFlowing (begin_request env s r lo hi hw) f = begun-IsFlowing env s r lo hi hw f
Step-IsFlowing (call c s frames room headroom) f = called-IsFlowing c s frames room headroom f
Step-IsFlowing (end_request now s headroom) f = ended-IsFlowing now s headroom f
Step-IsFlowing {z} (modify e v s member) f = modified-IsFlowing z e v s member f
Step-IsFlowing (read s there unread) f = consumed-IsFlowing s there unread f

pub Reach-IsFlowing : {z : Zend} {s t : System} → IsFlowing s → Reach z s t → IsFlowing t
Reach-IsFlowing f here = f
Reach-IsFlowing f (next r s) = Step-IsFlowing s (Reach-IsFlowing f r)

-- A worker as GINIT leaves it, which has reported nothing, and whose daemon has read nothing.
abbrev pub fresh : Globals → System
fresh g = record { globals = g; reported = []; received = [] }

ginit-table :
    {g : Globals}
    → ginit ≡ some g
    → (table : Whitelist.Table) × (Whitelist.init ≡ some table)
      × (g ≡ record zero_globals { whitelist = table })
unfolding ginit
ginit-table {g} e = elim (Option-cases Whitelist.init) [
  | inl bad ↦ absurd (cc (rw bad at e))
  | inr (table, ready) ↦
      let same : some (record zero_globals { whitelist = table }) ≡ some g = rw ready at e in
      (table, ready, cc (sym same))
]

zero_span-IsSpan : IsSpan zero_span
unfolding clock_ns
zero_span-IsSpan =
    new_span-IsSpan 0 zero_id 0 0 (record { tv_sec = 0; tv_nsec = 0 }) (omega arith) (omega arith)
      (omega arith)

pub fresh-IsFlowing : {g : Globals} → ginit ≡ some g → IsFlowing (fresh g)
fresh-IsFlowing {g} started =
    let (table, ready, same) = ginit-table started in
    rw same (record {
      worker = record {
        ready = ready;
        small = omega arith;
        parent = omega arith;
        root = zero_span-IsSpan;
      };
      stage = inr (record { initialized = refl; active = refl; read = refl; silent = refl });
      spans = tt;
    })

pub All-Sublist :
    {A : Type 0} (P : A → Type 0) (xs ys : List A) → Sublistᴰ xs ys → All P ys → All P xs
All-Sublist P xs ys Sublistᴰ.slnil h = tt
All-Sublist P xs (y ∷ ys) (Sublistᴰ.cons s) h = All-Sublist P xs ys s h.1
All-Sublist P (x ∷ xs) (y ∷ ys) (Sublistᴰ.cons-cons e s) h =
    (subst P (sym e) h.0, All-Sublist P xs ys s h.1)

-- What a reader of a span's message gets.
abbrev pub decoded : Span → Option (List Pair × List ℕ)
decoded span = some (pairs span, [])

pub readable :
    (spans : List Span)
    → All IsSpan spans
    → map read_message (messages_of spans) ≡ map decoded spans
readable [] w = refl
readable (x ∷ spans) w = ap₂ ◌∷◌ (read_message-message x w.0) (readable spans w.1)

All-front : {A : Type 0} (P : A → Type 0) (xs ys : List A) → All P (xs ++ ys) → All P xs
All-front P [] ys h = tt
All-front P (x ∷ xs) ys h = (h.0, All-front P xs ys h.1)

delivered :
    (s : System) (taken pending : List Span)
    → s.received ≡ messages_of taken
    → Sublistᴰ (taken ++ pending) s.reported
    → All IsSpan s.reported
    → map read_message s.received ≡ map decoded taken
delivered s taken pending got order w = rw got (
    readable taken
      (All-front IsSpan taken pending (All-Sublist IsSpan (taken ++ pending) s.reported order w)))

-- From a worker as GINIT leaves it, after any sequence of request starts, calls, request ends, changes of
-- settings and reads of the daemon: the messages that the daemon has read decode, in their order, as
-- the pairs of spans, with nothing left over, and these spans followed by those whose messages the
-- ring still holds are some of the spans that the calls and the requests were to report, in that
-- order, each at most once. When a request starts, the buffer
-- size is 3 to 2^31; a call and a request end find three capacities between the consumer's position and the end of 64 bits; the daemon reads a ring that is
-- there and not empty; strings are short, the calls change no setting, and ids and the worker's number
-- fit in 64 bits.
pub Reach-delivers :
    {z : Zend} {g : Globals} {s : System}
    → ginit ≡ some g
    → Reach z (fresh g) s
    → (taken : List Span) × (pending : List Span) × Sublistᴰ (taken ++ pending) s.reported
      × (map read_message s.received ≡ map decoded taken)
      × ((s.globals.ringbuf_initialized ≡ false) ⊎ Holds s.globals.ringbuf (messages_of pending))
Reach-delivers {s = s} started r =
    let f : IsFlowing s = Reach-IsFlowing (fresh-IsFlowing started) r in
    elim (f.stage) [
      | inl o ↦ (
        o.taken,
        o.pending,
        o.order,
        delivered s o.taken o.pending o.read o.order f.spans,
        inr o.holds,
      )
      | inr c ↦ ([], [], Sublistᴰ.nil-sublist s.reported, rw (c.read) refl, inl c.initialized)
    ]
