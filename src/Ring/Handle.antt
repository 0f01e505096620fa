-- ===== src/Ring/Handle.antt =====
-- What lumbre_ringbuf_write leaves of the handle: the mapping, the descriptor, the path and the sizes.
use lumbre_ext.Common.{ℕ, ◌≡◌, List, Bool, arith}
use lumbre_ext.Ring.{RingBuf, count_drop, put_padding, put_message, write_seen, write}

pub record Handle : Type 0 where
  pub attached : Bool
  pub fd : ℕ
  pub mmap_size : ℕ
  pub path : List ℕ
  pub capacity : ℕ
  pub worker_id : ℕ

abbrev pub handle_of : RingBuf → Handle
handle_of rb = record {
  attached = rb.attached;
  fd = rb.fd;
  mmap_size = rb.mmap_size;
  path = rb.path;
  capacity = rb.capacity;
  worker_id = rb.worker_id;
}

pub handle_of-write :
    (rb : RingBuf) (payload : List ℕ) (len : ℕ) → handle_of (write rb payload len).1 ≡ handle_of rb
unfolding write write_seen count_drop put_padding put_message
handle_of-write rb payload len = ground arith
