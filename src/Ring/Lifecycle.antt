-- ===== src/Ring/Lifecycle.antt =====
-- lumbre_ringbuf_init and lumbre_ringbuf_destroy. What the operating system answers is an argument,
-- and the calls that took effect are returned in order.
use lumbre_ext.Common.{
  Status, ok, error, ℕ, zero, suc, ◌+◌, ◌/◌, ◌%◌, Bool, true, false, List, [], ◌∷◌, ◌++◌, Option,
  none, some, ltb, leb, if◌then◌else◌, length, take, codes, not,
}
use lumbre_ext.Ring.{RingBuf, ringbuf_magic, ringbuf_version, ringbuf_header_size, next_power_of_2}

-- What `open`, `ftruncate` and `mmap` return: a descriptor or -1, 0 or not, an address or
-- `MAP_FAILED`.
pub record Os : Type 0 where
  pub open_fd : Option ℕ
  pub truncate_ok : Bool
  pub map_ok : Bool

pub data SysCall : Type 0 where
  opened : List ℕ → ℕ → SysCall
  truncated : ℕ → ℕ → SysCall
  mapped : ℕ → ℕ → SysCall
  unmapped : ℕ → SysCall
  closed : ℕ → SysCall
  unlinked : List ℕ → SysCall

-- `%u` and `%lu`: at most twenty decimal digits.
unfoldable pub decimal_digits : ℕ → ℕ → List ℕ
decimal_digits zero v = []
decimal_digits (suc fuel) v =
    let higher = decimal_digits fuel (v / 10) in
    (if ltb v 10 then [] else higher) ++ (b'0' + v % 10) ∷ []

abbrev pub decimal : ℕ → List ℕ
decimal v = decimal_digits 20 v

-- `"%s/lumbre_%u_%lu"`
unfoldable pub ring_path : List ℕ → ℕ → ℕ → List ℕ
ring_path shm_dir pid worker_id =
    shm_dir ++ (codes "/lumbre_" ++ (decimal pid ++ (b'_' ∷ decimal worker_id)))

-- The mapped region zeroed, its header written and the handle filled in.
unfoldable pub fill : RingBuf → ℕ → ℕ → ℕ → ℕ → RingBuf
fill rb fd pid worker_id capacity = record rb {
  attached = true;
  header = record {
    magic = ringbuf_magic;
    version = ringbuf_version;
    capacity = capacity;
    write_pos = 0;
    read_pos = 0;
    dropped = 0;
    pid = pid;
    worker_id = worker_id;
  };
  data_region = λ i. 0;
  capacity = capacity;
  mask = (capacity + 0xffff_ffff) % 0x1_0000_0000;
  local_write_pos = 0;
  fd = fd;
  mmap_size = ringbuf_header_size + capacity;
  worker_id = worker_id;
}

-- The part of `init` behind `open`.
unfoldable pub init_opened : RingBuf → Os → ℕ → ℕ → ℕ → ℕ → Status × RingBuf × List SysCall
init_opened rb os fd pid worker_id capacity =
    let total_size = ringbuf_header_size + capacity in
    if not os.truncate_ok
    then (error, rb, opened rb.path fd ∷ closed fd ∷ unlinked rb.path ∷ [])
    else if not os.map_ok
    then (
      error,
      rb,
      opened rb.path fd ∷ truncated fd total_size ∷ closed fd ∷ unlinked rb.path ∷ [],
    )
    else (
      ok,
      fill rb fd pid worker_id capacity,
      opened rb.path fd ∷ truncated fd total_size ∷ mapped fd total_size ∷ [],
    )

-- The part from `open` on, by what `open` returned.
unfoldable pub init_named : RingBuf → Os → Option ℕ → ℕ → ℕ → ℕ → Status × RingBuf × List SysCall
init_named rb os none pid worker_id capacity = (error, rb, [])
init_named rb os (some fd) pid worker_id capacity = init_opened rb os fd pid worker_id capacity

-- `snprintf` keeps at most 255 bytes of the path.
unfoldable pub init : RingBuf → Os → List ℕ → ℕ → ℕ → ℕ → Status × RingBuf × List SysCall
init rb os shm_dir pid worker_id capacity =
    let name = ring_path shm_dir pid worker_id in
    let named = record rb { path = take 255 name } in
    if leb 256 (length name)
    then (error, named, [])
    else init_named named os os.open_fd pid worker_id (next_power_of_2 capacity)

unfoldable pub destroy : RingBuf → Bool → RingBuf × List SysCall
destroy rb skip_unlink =
    if rb.attached
    then (
      record rb { attached = false },
      unmapped rb.mmap_size ∷ closed rb.fd ∷ (if skip_unlink then [] else unlinked rb.path ∷ []),
    )
    else (rb, [])
