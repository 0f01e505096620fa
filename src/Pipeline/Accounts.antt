-- ===== src/Pipeline/Accounts.antt =====
-- What becomes of the spans of a worker of php_lumbre.c: none is lost without being counted, but for
-- those that are too long for the buffer.
use lumbre_ext.Common.{
  ◌+◌, ◌%◌, ◌^◌, ◌≡◌, ap, sym, ◌∙◌, arith, true, List, length, length-append, inl, inr, some,
}
use lumbre_ext.Ring.Refine.{Holds}
use lumbre_ext.Msgpack.{msgpack_buf_size}
use lumbre_ext.Span.{Span}
use lumbre_ext.Span.Queue.{messages_of}
use lumbre_ext.Hooks.{Globals}
use lumbre_ext.Ini.Entries.{Zend}
use lumbre_ext.Worker.{ginit}
use lumbre_ext.Pipeline.{System, Reach}
use lumbre_ext.Pipeline.Chosen.{oversized, length-messages_of}
use lumbre_ext.Pipeline.Flow.{IsFlowing}
use lumbre_ext.Pipeline.Delivery.{fresh, Reach-IsFlowing, fresh-IsFlowing}

-- From a worker as GINIT leaves it, after any sequence of request starts, calls, request ends, changes of
-- settings and reads of the daemon: if there is a ring, then the messages that the daemon has read,
-- those that the ring holds, those that its header counts as dropped, and the spans whose message is
-- longer than the buffer of 16384 bytes are as many as the spans that the calls and the requests were
-- to report, modulo 2^64. When a request starts, the buffer size is 3 to 2^31; a call and a request end
-- find three capacities between the consumer's position and the end of 64 bits; the daemon reads a
-- ring that is there and not empty; strings are short, the calls change no setting, and ids and the worker's number
-- fit in 64 bits.
pub Reach-accounts :
    {z : Zend} {g : Globals} {s : System}
    → ginit ≡ some g
    → Reach z (fresh g) s
    → s.globals.ringbuf_initialized ≡ true
    → let rb = s.globals.ringbuf in
      (pending : List Span) × Holds rb (messages_of pending)
      × ((length s.received
              + length pending
              + rb.header.dropped
              + oversized msgpack_buf_size s.reported)
            % 2 ^ 64
          ≡ length s.reported % 2 ^ 64)
Reach-accounts {s = s} started r there =
    let f : IsFlowing s = Reach-IsFlowing (fresh-IsFlowing started) r in
    elim (f.stage) [
      | inl o ↦
          let read : length s.received ≡ length o.taken =
            ap length o.read ∙ length-messages_of o.taken in
          (o.pending, o.holds, omega (arith, o.counted, read, length-append o.taken o.pending))
      | inr c ↦ absurd (cc (sym c.initialized ∙ there))
    ]
