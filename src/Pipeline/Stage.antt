-- ===== src/Pipeline/Stage.antt =====
-- How the steps of php_lumbre.c's worker and of the daemon move the ring, the reports and what was
-- read.
use mathlib.Core.List.{Sublistᴰ}
use mathlib.Core.List.Sublistᴰ
use lumbre_ext.Common.{
  length, length-append, ◌+◌, ℕ, ◌%◌, ◌^◌, ◌<◌, ◌≡◌, sym, ◌∙◌, arith, true, false, List, [], ◌∷◌,
  ◌++◌, append_assoc, inl, inr, ◌⊎◌,
}
use lumbre_ext.Msgpack.{msgpack_buf_size}
use lumbre_ext.Ring.Refine.{Holds}
use lumbre_ext.Ring.Frames.{Frames_empty}
use lumbre_ext.Ring.Reader.{read_msg_at, advance, read_msg_at-Holds, advance-Holds}
use lumbre_ext.Span.{Span}
use lumbre_ext.Span.Fields.{message}
use lumbre_ext.Span.Log.{log}
use lumbre_ext.Ring.Stored.{IsStored, advance-IsStored}
use lumbre_ext.Span.Queue.{messages_of, HasHeadroom}
use lumbre_ext.Hooks.{Globals}
use lumbre_ext.Pipeline.Chosen.{
  messages_of-append, log-chosen, log-IsStored, oversized, oversized-append,
}

-- There is a ring: what was read is the messages of some spans, what the ring holds those of others,
-- and together they are some of the reported spans, in their order; the ring has counted the others,
-- modulo 2^64, but for those whose message does not fit the buffer.
pub record IsOpen (g : Globals) (reported : List Span) (received : List (List ℕ)) : Type 0 where
  pub taken : List Span
  pub pending : List Span
  pub initialized : g.ringbuf_initialized ≡ true
  pub read : received ≡ messages_of taken
  pub holds : Holds g.ringbuf (messages_of pending)
  pub order : Sublistᴰ (taken ++ pending) reported
  pub capacity : g.mp_buf.capacity ≡ msgpack_buf_size
  pub counted :
      (g.ringbuf.header.dropped + length (taken ++ pending) + oversized msgpack_buf_size reported)
        % 2 ^ 64
      ≡ length reported % 2 ^ 64
  pub stored : IsStored g.ringbuf

-- There is no ring yet.
pub record IsUnopened (g : Globals) (reported : List Span) (received : List (List ℕ)) : Type 0 where
  pub initialized : g.ringbuf_initialized ≡ false
  pub active : g.ctx.active ≡ false
  pub read : received ≡ []
  pub silent : reported ≡ []

abbrev pub Stage : Globals → List Span → List (List ℕ) → Type 0
Stage g reported received = IsOpen g reported received ⊎ IsUnopened g reported received

-- Other globals with the same ring.
pub IsOpen-same :
    {g g' : Globals} {reported : List Span} {received : List (List ℕ)}
    → g'.ringbuf_initialized ≡ g.ringbuf_initialized
    → g'.ringbuf ≡ g.ringbuf
    → g'.mp_buf.capacity ≡ g.mp_buf.capacity
    → IsOpen g reported received
    → IsOpen g' reported received
IsOpen-same i r b o = record {
  taken = o.taken;
  pending = o.pending;
  initialized = i ∙ o.initialized;
  read = o.read;
  holds = rw r o.holds;
  order = o.order;
  capacity = b ∙ o.capacity;
  counted = rw r o.counted;
  stored = rw r o.stored;
}

pub Stage-same :
    {g g' : Globals} {reported : List Span} {received : List (List ℕ)}
    → g'.ringbuf_initialized ≡ g.ringbuf_initialized
    → g'.ringbuf ≡ g.ringbuf
    → g'.mp_buf.capacity ≡ g.mp_buf.capacity
    → g'.ctx.active ≡ g.ctx.active
    → Stage g reported received
    → Stage g' reported received
Stage-same i r b a (inl o) = inl (IsOpen-same i r b o)
Stage-same i r b a (inr c) = inr (record {
  initialized = i ∙ c.initialized;
  active = a ∙ c.active;
  read = c.read;
  silent = c.silent;
})

-- More reports, which are logged to the ring.
pub IsOpen-log :
    {g g' : Globals} {reported : List Span} {received : List (List ℕ)} (spans : List Span)
    → g'.ringbuf_initialized ≡ g.ringbuf_initialized
    → g'.ringbuf ≡ log g.mp_buf.capacity g.ringbuf spans
    → g'.mp_buf.capacity ≡ g.mp_buf.capacity
    → HasHeadroom g.ringbuf
    → IsOpen g reported received
    → IsOpen g' (reported ++ spans) received
IsOpen-log {g} {reported = reported} spans i r b room o =
    let r' = rw (o.capacity) at r in
    let (kept, some_of, holds, counted) =
      log-chosen msgpack_buf_size g.ringbuf o.pending spans o.holds room in
    record {
      taken = o.taken;
      pending = o.pending ++ kept;
      initialized = i ∙ o.initialized;
      read = o.read;
      holds = rw r' holds;
      order = rw (sym (append_assoc o.taken o.pending kept)) (Sublistᴰ.append o.order some_of);
      capacity = b ∙ o.capacity;
      counted = rw r' (
          omega (
            arith,
            o.counted,
            counted,
            length-append o.taken (o.pending ++ kept),
            length-append o.taken o.pending,
            length-append o.pending kept,
            length-append reported spans,
            oversized-append msgpack_buf_size reported spans,
          ));
      stored = rw r' (log-IsStored msgpack_buf_size g.ringbuf spans o.stored);
    }

-- The daemon's read of a ring that is not empty.
read_first :
    {g : Globals} {reported : List Span} {received : List (List ℕ)} (taken pending : List Span)
    → g.ringbuf_initialized ≡ true
    → received ≡ messages_of taken
    → Holds g.ringbuf (messages_of pending)
    → Sublistᴰ (taken ++ pending) reported
    → g.mp_buf.capacity ≡ msgpack_buf_size
    → (g.ringbuf.header.dropped + length (taken ++ pending) + oversized msgpack_buf_size reported)
        % 2 ^ 64
      ≡ length reported % 2 ^ 64
    → IsStored g.ringbuf
    → g.ringbuf.header.read_pos < g.ringbuf.header.write_pos
    → let rb = g.ringbuf in
      IsOpen
        (record g { ringbuf = advance rb })
        reported
        (received ++ read_msg_at rb (rb.header.read_pos % rb.capacity) ∷ [])
unfolding advance
read_first {g} taken [] i read h order cap counted stored unread =
    absurd (omega (arith, Frames_empty h.frames))
read_first {g} taken (x ∷ rest) i read h order cap counted stored unread = record {
  taken = taken ++ x ∷ [];
  pending = rest;
  initialized = i;
  read =
      rw (read_msg_at-Holds g.ringbuf (message x) (messages_of rest) h, read)
        (sym (messages_of-append taken (x ∷ [])));
  holds = advance-Holds g.ringbuf (message x) (messages_of rest) h;
  order = rw (append_assoc taken (x ∷ []) rest) order;
  capacity = cap;
  counted = rw (append_assoc taken (x ∷ []) rest) counted;
  stored = advance-IsStored g.ringbuf stored;
}

pub IsOpen-read :
    {g : Globals} {reported : List Span} {received : List (List ℕ)}
    → IsOpen g reported received
    → g.ringbuf.header.read_pos < g.ringbuf.header.write_pos
    → let rb = g.ringbuf in
      IsOpen
        (record g { ringbuf = advance rb })
        reported
        (received ++ read_msg_at rb (rb.header.read_pos % rb.capacity) ∷ [])
IsOpen-read o unread =
    read_first o.taken o.pending o.initialized o.read o.holds o.order o.capacity o.counted o.stored
      unread
