-- ===== src/Ring/Stored.antt =====
-- What the header of the ring's file holds while lumbre_ringbuf.c writes and the daemon reads: fields
-- within their C types, and the capacity of the data region behind it.
use lumbre_ext.Common.{ℕ, ◌^◌, ◌<◌, ◌≡◌, arith, List}
use lumbre_ext.Ring.{RingBuf, count_drop, put_padding, put_message, write_seen, write}
use lumbre_ext.Ring.Refine.{Holds}
use lumbre_ext.Ring.Reader.{advance}
use lumbre_ext.Ring.Layout.{IsHeader}

pub record IsStored (rb : RingBuf) : Type 0 where
  pub stored : rb.header.capacity ≡ rb.capacity
  pub magic : rb.header.magic < 2 ^ 32
  pub version : rb.header.version < 2 ^ 32
  pub write_pos : rb.header.write_pos < 2 ^ 64
  pub dropped : rb.header.dropped < 2 ^ 64
  pub pid : rb.header.pid < 2 ^ 32
  pub worker_id : rb.header.worker_id < 2 ^ 64

pub write-IsStored :
    (rb : RingBuf) (payload : List ℕ) (len : ℕ) → IsStored rb → IsStored (write rb payload len).1
unfolding write write_seen count_drop put_padding put_message
write-IsStored rb payload len s = ground arith

pub advance-IsStored : (rb : RingBuf) → IsStored rb → IsStored (advance rb)
unfolding advance
advance-IsStored rb s = record {
  stored = s.stored;
  magic = s.magic;
  version = s.version;
  write_pos = s.write_pos;
  dropped = s.dropped;
  pid = s.pid;
  worker_id = s.worker_id;
}

pub IsStored-IsHeader :
    {rb : RingBuf} {messages : List (List ℕ)} → Holds rb messages → IsStored rb → IsHeader rb.header
IsStored-IsHeader {rb} h s = record {
  magic = s.magic;
  version = s.version;
  capacity = omega (arith, s.stored, h.valid.greatest);
  write_pos = s.write_pos;
  read_pos = omega (arith, h.valid.behind, s.write_pos);
  dropped = s.dropped;
  pid = s.pid;
  worker_id = s.worker_id;
}
