-- ===== src/Span/Complete.antt =====
-- A sequence of finishes of lumbre_span.c whose messages all fit the ring.
use lumbre_ext.Common.{
  ℕ, ◌+◌, ◌*◌, ◌≤◌, sym, List, [], ◌∷◌, ◌++◌, append-nil, append_assoc, length, le→leb, arith, All,
}
use lumbre_ext.Memory.{fetch-length}
use lumbre_ext.Ring.{RingBuf, write}
use lumbre_ext.Ring.Write.{IsValid, IsFresh, gap}
use lumbre_ext.Ring.Refine.{Holds, write_seen_refines}
use lumbre_ext.Ring.Accept.{write_seen_accepts}
use lumbre_ext.Span.{Span}
use lumbre_ext.Span.Fields.{message}
use lumbre_ext.Span.Log.{send, log}
use lumbre_ext.Span.Queue.{IsBehind, HasHeadroom, HasHeadroom-IsFresh, write-IsBehind, messages_of}

-- The bytes of the messages with their lengths, doubled for the paddings.
unfoldable pub need : List (List ℕ) → ℕ
need [] = 0
need (bs ∷ rest) = 2 * (4 + length bs) + need rest

gap-le : (rb : RingBuf) (len : ℕ) → IsValid rb → gap rb len ≤ 4 + len
gap-le rb len v = ground arith

-- A message with room for it and for a padding is kept.
send_fits :
    (cap : ℕ) (rb : RingBuf) (bs : List ℕ) (messages : List (List ℕ))
    → Holds rb messages
    → HasHeadroom rb
    → length bs ≤ cap
    → rb.header.write_pos + 2 * (4 + length bs) ≤ rb.header.read_pos + rb.capacity
    → let rb' = send cap rb bs in
      Holds rb' (messages ++ bs ∷ [])
      × IsBehind rb rb'
      × (rb'.header.write_pos ≤ rb.header.write_pos + 2 * (4 + length bs))
unfolding write
send_fits cap rb bs messages h room small free =
    let fresh : IsFresh rb = HasHeadroom-IsFresh rb h.valid room in
    let g = gap-le rb (length bs) h.valid in
    let (done, pos, kept) =
      write_seen_accepts rb rb.header.read_pos bs (length bs) h.valid fresh (omega arith)
        (omega (arith, g, h.valid.published, free)) in
    let holds = write_seen_refines rb rb.header.read_pos bs (length bs) h fresh (omega arith) in
    rw (le→leb (length bs) cap small) (
      (rw (fetch-length bs, done) at holds),
      write-IsBehind rb bs h.valid room,
      omega (arith, pos, g, h.valid.published),
    )

-- From such a ring: if each message fits the buffer, and twice the bytes of the messages and their
-- lengths fit the free space, then all the messages are kept.
pub log_complete :
    (cap : ℕ) (rb : RingBuf) (spans : List Span) (messages : List (List ℕ))
    → Holds rb messages
    → HasHeadroom rb
    → All (λ (bs : List ℕ). length bs ≤ cap) (messages_of spans)
    → rb.header.write_pos + need (messages_of spans) ≤ rb.header.read_pos + rb.capacity
    → Holds (log cap rb spans) (messages ++ messages_of spans)
unfolding log need
log_complete cap rb [] messages h room small free = rw (append-nil messages) h
log_complete cap rb (span ∷ rest) messages h room small free =
    let bs = message span in
    let (holds, behind, pos) = send_fits cap rb bs messages h room small.0 (omega (arith, free)) in
    let b : IsBehind rb (send cap rb bs) = behind in
    rw (sym (append_assoc messages (bs ∷ []) (messages_of rest))) (
      log_complete cap (send cap rb bs) rest (messages ++ bs ∷ []) holds
        (omega (arith, room, b.read_pos, b.capacity)) small.1
        (omega (arith, pos, free, b.read_pos, b.capacity)))
