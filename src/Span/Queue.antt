-- ===== src/Span/Queue.antt =====
-- What the ring holds after a sequence of finishes of lumbre_span.c, with no read in between.
use lumbre_ext.Common.{
  Bool, ℕ, ◌+◌, ◌*◌, ◌^◌, ◌<◌, ◌≡◌, refl, sym, ◌∙◌, List, [], ◌∷◌, ◌++◌, map, append-nil,
  append_assoc, length, length-append, suc, ◌%◌, if◌then◌else◌, Status, ok, error, leb, Bool-cases,
  inl, inr, arith,
}
use mathlib.Core.List.{Sublistᴰ}
use mathlib.Core.List.Sublistᴰ
use lumbre_ext.Memory.{fetch-length}
use lumbre_ext.Ring.{RingBuf, write, count_drop, put_message, put_padding}
use lumbre_ext.Ring.Write.{IsValid, IsFresh, Outcome, full, straight, wrapped, write_seen-Outcome}
use lumbre_ext.Ring.Refine.{Holds, accepted, write_seen_refines}
use lumbre_ext.Span.{Span}
use lumbre_ext.Span.Fields.{message}
use lumbre_ext.Span.Log.{send, log}

-- The consumer's side and the size, which a write leaves.
pub record IsBehind (rb rb' : RingBuf) : Type 0 where
  pub read_pos : rb'.header.read_pos ≡ rb.header.read_pos
  pub capacity : rb'.capacity ≡ rb.capacity

IsBehind-trans : {a b c : RingBuf} → IsBehind a b → IsBehind b c → IsBehind a c
IsBehind-trans p q = record {
  read_pos = q.read_pos ∙ p.read_pos;
  capacity = q.capacity ∙ p.capacity;
}

Outcome-IsBehind :
    (rb : RingBuf) (seen : ℕ) (payload : List ℕ) (len : ℕ) (r : Status × RingBuf)
    → Outcome rb seen payload len r
    → IsBehind rb r.1
unfolding count_drop put_message put_padding
Outcome-IsBehind rb seen payload len r (full crowded e) =
    rw e (record { read_pos = refl; capacity = refl })
Outcome-IsBehind rb seen payload len r (straight fits room e) =
    rw e (record { read_pos = refl; capacity = refl })
Outcome-IsBehind rb seen payload len r (wrapped fits room e) =
    rw e (record { read_pos = refl; capacity = refl })

-- Without a read the positions stay away from the end of 64 bits.
abbrev pub HasHeadroom : RingBuf → Type 0
HasHeadroom rb = rb.header.read_pos + 3 * rb.capacity < 2 ^ 64

pub HasHeadroom-IsFresh : (rb : RingBuf) → IsValid rb → HasHeadroom rb → IsFresh rb
HasHeadroom-IsFresh rb v h = omega (arith, v.published, v.filled, h)

pub write-IsBehind :
    (rb : RingBuf) (bs : List ℕ)
    → IsValid rb
    → HasHeadroom rb
    → IsBehind rb (write rb bs (length bs)).1
unfolding write
write-IsBehind rb bs v h = Outcome-IsBehind rb _ bs (length bs) _ (
    write_seen-Outcome rb rb.header.read_pos bs (length bs) v (HasHeadroom-IsFresh rb v h)
      (omega arith))

-- How many messages do not fit a buffer of `cap` bytes.
unfoldable pub too_long : ℕ → List (List ℕ) → ℕ
too_long cap [] = 0
too_long cap (bs ∷ rest) =
    let more = too_long cap rest in if leb (length bs) cap then more else suc more

pub too_long_cons :
    (cap : ℕ) (bs : List ℕ) (rest : List (List ℕ))
    → too_long cap (bs ∷ rest) ≡ too_long cap (bs ∷ []) + too_long cap rest
unfolding too_long
too_long_cons cap bs rest = elim (Bool-cases (leb (length bs) cap)) [
  | inl e ↦ rw e (omega arith)
  | inr e ↦ rw e (omega arith)
]

too_long_one :
    (cap : ℕ) (bs : List ℕ) {fits : Bool}
    → leb (length bs) cap ≡ fits
    → too_long cap (bs ∷ []) ≡ (if fits then 0 else 1)
unfolding too_long
too_long_one cap bs e = rw e refl

-- A write keeps the message or counts a drop, modulo 2^64.
Outcome-counted :
    (rb : RingBuf) (seen : ℕ) (payload : List ℕ) (len : ℕ) (bs : List ℕ) (r : Status × RingBuf)
    → Outcome rb seen payload len r
    → (r.1.header.dropped + length (accepted r.0 bs)) % 2 ^ 64 ≡ (rb.header.dropped + 1) % 2 ^ 64
unfolding count_drop put_message put_padding
Outcome-counted rb seen payload len bs r (full crowded e) = rw e (omega arith)
Outcome-counted rb seen payload len bs r (straight fits room e) = rw e refl
Outcome-counted rb seen payload len bs r (wrapped fits room e) = rw e refl

write-counted :
    (rb : RingBuf) (bs : List ℕ)
    → IsValid rb
    → HasHeadroom rb
    → let r = write rb bs (length bs) in
      (r.1.header.dropped + length (accepted r.0 bs)) % 2 ^ 64 ≡ (rb.header.dropped + 1) % 2 ^ 64
unfolding write
write-counted rb bs v h = Outcome-counted rb _ bs (length bs) bs _ (
    write_seen-Outcome rb rb.header.read_pos bs (length bs) v (HasHeadroom-IsFresh rb v h)
      (omega arith))

-- The ring after messages, each of which is kept or dropped as a whole; what is not kept is counted, or
-- did not fit a buffer of `cap` bytes.
record IsSent (cap : ℕ) (messages : List (List ℕ)) (rb rb' : RingBuf) (bs : List (List ℕ))
    : Type 0 where
  kept : List (List ℕ)
  order : Sublistᴰ kept bs
  holds : Holds rb' (messages ++ kept)
  behind : IsBehind rb rb'
  counted :
      (rb'.header.dropped + length kept + too_long cap bs) % 2 ^ 64
      ≡ (rb.header.dropped + length bs) % 2 ^ 64

accepted-Sublist : (s : Status) (bs : List ℕ) → Sublistᴰ (accepted s bs) (bs ∷ [])
accepted-Sublist ok bs = Sublistᴰ.refl (bs ∷ [])
accepted-Sublist error bs = Sublistᴰ.cons Sublistᴰ.slnil

send-IsSent :
    (cap : ℕ) (rb : RingBuf) (bs : List ℕ) (messages : List (List ℕ))
    → Holds rb messages
    → HasHeadroom rb
    → IsSent cap messages rb (send cap rb bs) (bs ∷ [])
unfolding write
send-IsSent cap rb bs messages h room = elim (Bool-cases (leb (length bs) cap)) [
  | inl fits ↦
      let r = write rb bs (length bs) in
      let fresh : IsFresh rb = HasHeadroom-IsFresh rb h.valid room in
      let holds = write_seen_refines rb rb.header.read_pos bs (length bs) h fresh (omega arith) in
      let short : too_long cap (bs ∷ []) ≡ 0 = too_long_one cap bs fits in
      let counted : (r.1.header.dropped + length (accepted r.0 bs) + too_long cap (bs ∷ []))
            % 2 ^ 64
          ≡ (rb.header.dropped + 1) % 2 ^ 64 =
        omega (arith, write-counted rb bs h.valid room, short) in
      rw fits (record {
        kept = accepted r.0 bs;
        order = accepted-Sublist r.0 bs;
        holds = rw (fetch-length bs) at holds;
        behind = write-IsBehind rb bs h.valid room;
        counted = counted;
      })
  | inr over ↦
      let long : too_long cap (bs ∷ []) ≡ 1 = too_long_one cap bs over in
      let counted : (rb.header.dropped + 0 + too_long cap (bs ∷ [])) % 2 ^ 64
          ≡ (rb.header.dropped + 1) % 2 ^ 64 =
        omega (arith, long) in
      rw over (record {
        kept = [];
        order = Sublistᴰ.cons Sublistᴰ.slnil;
        holds = rw (append-nil messages) h;
        behind = record { read_pos = refl; capacity = refl };
        counted = counted;
      })
]

abbrev pub messages_of : List Span → List (List ℕ)
messages_of spans = map message spans

log-IsSent :
    (cap : ℕ) (rb : RingBuf) (spans : List Span) (messages : List (List ℕ))
    → Holds rb messages
    → HasHeadroom rb
    → IsSent cap messages rb (log cap rb spans) (messages_of spans)
unfolding log
log-IsSent cap rb [] messages h room = record {
  kept = [];
  order = Sublistᴰ.slnil;
  holds = rw (append-nil messages) h;
  behind = record { read_pos = refl; capacity = refl };
  counted = unfold too_long in omega arith;
}
log-IsSent cap rb (span ∷ rest) messages h room =
    let a : IsSent cap messages rb (send cap rb (message span)) (message span ∷ []) =
      send-IsSent cap rb (message span) messages h room in
    let room' : HasHeadroom (send cap rb (message span)) =
      omega (arith, room, a.behind.read_pos, a.behind.capacity) in
    let b : IsSent cap (messages ++ a.kept) (send cap rb (message span))
        (log cap (send cap rb (message span)) rest) (messages_of rest) =
      log-IsSent cap (send cap rb (message span)) rest (messages ++ a.kept) a.holds room' in
    record {
      kept = a.kept ++ b.kept;
      order = Sublistᴰ.append a.order b.order;
      holds = rw (sym (append_assoc messages a.kept b.kept)) b.holds;
      behind = IsBehind-trans a.behind b.behind;
      counted = omega (
        arith,
        a.counted,
        b.counted,
        length-append a.kept b.kept,
        too_long_cons cap (message span) (messages_of rest),
      );
    }

-- From a ring that holds messages, with three capacities between the consumer's position and the end of
-- 64 bits, and with no read in between: after the reports the ring is valid and holds the old
-- messages followed by some of the new ones, each whole and in the order of the reports.
pub log-Holds :
    (cap : ℕ) (rb : RingBuf) (spans : List Span) (messages : List (List ℕ))
    → Holds rb messages
    → HasHeadroom rb
    → (kept : List (List ℕ)) × (Sublistᴰ kept (messages_of spans))
      × Holds (log cap rb spans) (messages ++ kept)
log-Holds cap rb spans messages h room =
    let s : IsSent cap messages rb (log cap rb spans) (messages_of spans) =
      log-IsSent cap rb spans messages h room in
    (s.kept, s.order, s.holds)

-- And what is not kept was counted as dropped by the ring, modulo 2^64, or did not fit the buffer.
pub log-counted :
    (cap : ℕ) (rb : RingBuf) (spans : List Span) (messages : List (List ℕ))
    → Holds rb messages
    → HasHeadroom rb
    → (kept : List (List ℕ)) × Sublistᴰ kept (messages_of spans)
      × Holds (log cap rb spans) (messages ++ kept)
      × (((log cap rb spans).header.dropped + length kept + too_long cap (messages_of spans))
            % 2 ^ 64
          ≡ (rb.header.dropped + length (messages_of spans)) % 2 ^ 64)
log-counted cap rb spans messages h room =
    let s : IsSent cap messages rb (log cap rb spans) (messages_of spans) =
      log-IsSent cap rb spans messages h room in
    (s.kept, s.order, s.holds, s.counted)
