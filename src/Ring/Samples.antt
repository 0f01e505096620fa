-- ===== src/Ring/Samples.antt =====
-- Rings of lumbre_ringbuf.c for the tests.
use lumbre_ext.Common.{ℕ, refl, arith, true, List, [], ◌∷◌}
use lumbre_ext.Memory.{fetch}
use lumbre_ext.Ring.{RingBuf, write_seen}
use lumbre_ext.Ring.Write.{IsValid}
use lumbre_ext.Ring.Frames.{done}
use lumbre_ext.Ring.Refine.{Holds, write_seen_refines}

-- An attached ring of 16 bytes at one position, all of it read.
abbrev pub empty_at : ℕ → RingBuf
empty_at p = record {
  attached = true;
  header = record {
    magic = 0x54524143;
    version = 1;
    capacity = 16;
    write_pos = p;
    read_pos = p;
    dropped = 0;
    pid = 42;
    worker_id = 1;
  };
  data_region = λ i. 0;
  capacity = 16;
  mask = 15;
  local_write_pos = p;
  fd = 3;
  mmap_size = 80;
  path = [];
  worker_id = 1;
}

pub empty_at-IsValid : (p : ℕ) → IsValid (empty_at p)
empty_at-IsValid p = record {
  rounded = (4, refl);
  least = omega arith;
  greatest = omega arith;
  masked = refl;
  published = refl;
  behind = omega arith;
  filled = omega arith;
}

pub empty_at-Holds : (p : ℕ) → Holds (empty_at p) []
empty_at-Holds p = record { valid = empty_at-IsValid p; frames = done p }

abbrev pub three : List ℕ
three = 1 ∷ 2 ∷ 3 ∷ []

-- One message of three bytes at position 12, which wraps; and at position 0.
abbrev pub one_message : RingBuf
one_message = (write_seen (empty_at 0) 0 three 3).1

pub one_message-Holds : Holds one_message (three ∷ [])
unfolding write_seen fetch
one_message-Holds =
    write_seen_refines (empty_at 0) 0 three 3 (empty_at-Holds 0) (omega arith) (omega arith)
