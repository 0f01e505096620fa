-- ===== src/Ring/Channel.antt =====
-- Producer and consumer on one ring, in any interleaving: the producer may work with an outdated
-- read position, as lumbre_ringbuf_write's relaxed load allows.
use lumbre_ext.Common.{
  ℕ, ◌%◌, ◌≤◌, ◌<◌, ◌≡◌, ap, sym, ◌∙◌, arith, List, [], ◌∷◌, ◌++◌, append_assoc, append-nil,
}
use lumbre_ext.Memory.{fetch}
use lumbre_ext.Ring.{RingBuf, write_seen}
use lumbre_ext.Ring.Write.{IsFresh}
use lumbre_ext.Ring.Frames.{Frames_empty}
use lumbre_ext.Ring.Refine.{Holds, accepted, write_seen_refines}
use lumbre_ext.Ring.Reader.{read_msg_at, advance, read_msg_at-Holds, advance-Holds}

-- The ring, the payloads of the writes that returned 0, and the messages that were read.
pub record Channel : Type 0 where
  pub ring : RingBuf
  pub sent : List (List ℕ)
  pub received : List (List ℕ)

abbrev pub produced : Channel → ℕ → List ℕ → ℕ → Channel
produced c seen payload len =
    let (s, ring') = write_seen c.ring seen payload len in
    record c { ring = ring'; sent = c.sent ++ accepted s (fetch payload len) }

abbrev pub consumed : Channel → Channel
consumed c = record c {
  ring = advance c.ring;
  received = c.received ++ read_msg_at c.ring (c.ring.header.read_pos % c.ring.capacity) ∷ [];
}

pub data Step : Channel → Channel → Type 0 where
  produce :
      (c : Channel) (seen : ℕ) (payload : List ℕ) (len : ℕ)
      → IsFresh c.ring
      → seen ≤ c.ring.header.read_pos
      → Step c (produced c seen payload len)
  consume : (c : Channel) → c.ring.header.read_pos < c.ring.header.write_pos → Step c (consumed c)

pub data Reach (c : Channel) : Channel → Type 0 where
  here : Reach c c
  next : {d e : Channel} → Reach c d → Step d e → Reach c e

-- What was read, followed by what the ring holds, is what was sent.
pub IsFaithful : Channel → Type 0
IsFaithful c = (pending : List (List ℕ)) × Holds c.ring pending × (c.received ++ pending ≡ c.sent)

consume-IsFaithful :
    (c : Channel) (pending : List (List ℕ))
    → c.ring.header.read_pos < c.ring.header.write_pos
    → Holds c.ring pending
    → c.received ++ pending ≡ c.sent
    → IsFaithful (consumed c)
unfolding IsFaithful
consume-IsFaithful c [] unread h e = absurd (omega (arith, Frames_empty h.frames))
consume-IsFaithful c (bytes ∷ rest) unread h e = (
  rest,
  advance-Holds c.ring bytes rest h,
  rw (read_msg_at-Holds c.ring bytes rest h) (append_assoc c.received (bytes ∷ []) rest ∙ e),
)

Step-IsFaithful : {c d : Channel} → Step c d → IsFaithful c → IsFaithful d
unfolding IsFaithful
Step-IsFaithful (produce c seen payload len fresh stale) (pending, h, e) =
    let (s, ring') = write_seen c.ring seen payload len in
    (
      pending ++ accepted s (fetch payload len),
      write_seen_refines c.ring seen payload len h fresh stale,
      sym (append_assoc c.received pending (accepted s (fetch payload len)))
          ∙ ap (λ l. l ++ accepted s (fetch payload len)) e,
    )
Step-IsFaithful (consume c unread) (pending, h, e) = consume-IsFaithful c pending unread h e

-- Start with a ring that holds no message and with as much received as sent. After any
-- interleaving of writes, each given a read position no later than the consumer's and made while
-- the positions are away from the end of 64 bits, and of reads of a ring that is not empty: the
-- messages read so far, followed by those that the ring still holds, are the payloads of the
-- accepted writes, in order and byte for byte.
pub Reach-IsFaithful :
    {c d : Channel} → Holds c.ring [] → c.received ≡ c.sent → Reach c d → IsFaithful d
unfolding IsFaithful
Reach-IsFaithful {c} h e here = ([], h, append-nil c.received ∙ e)
Reach-IsFaithful h e (next r s) = Step-IsFaithful s (Reach-IsFaithful h e r)
