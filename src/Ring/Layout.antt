-- ===== src/Ring/Layout.antt =====
-- The ring's file: the packed header of lumbre_ringbuf.h as bytes, with the data region behind it.
use lumbre_ext.Common.{
  ℕ, ◌+◌, ◌-◌, ◌^◌, ◌<◌, ◌≡◌, refl, ap, sym, ◌∙◌, arith, List, [], ◌∷◌, ◌++◌, append_assoc, length,
  length-append, take, drop, suc, ltb, if◌then◌else◌,
}
use lumbre_ext.Memory.{
  Memory, store, load, le_bytes, of_le, of_le-le_bytes, length-le_bytes, store-append,
  load-store_before, load-store_self, store_above,
}
use lumbre_ext.Ring.{Header, RingBuf, ringbuf_header_size}

-- A member of the struct: its size, and its value as an integer.
pub record Member : Type 0 where
  bytes : ℕ
  value : Header → ℕ

abbrev member : ℕ → (Header → ℕ) → Member
member n f = record { bytes = n; value = f }

-- The members in front of each of the eight fields, and those behind.
abbrev pub header_members : List Member
header_members =
    member 4 (λ h. h.magic)
    ∷ member 4 (λ h. h.version)
    ∷ member 4 (λ h. h.capacity)
    ∷ member 4 (λ h. 0)
    ∷ member 8 (λ h. h.write_pos)
    ∷ member 8 (λ h. h.read_pos)
    ∷ member 8 (λ h. h.dropped)
    ∷ member 4 (λ h. h.pid)
    ∷ member 8 (λ h. h.worker_id)
    ∷ member 12 (λ h. 0)
    ∷ []

-- The bytes of members without gaps, and their number.
unfoldable pub packed : List Member → Header → List ℕ
packed [] h = []
packed (m ∷ rest) h = le_bytes m.bytes (m.value h) ++ packed rest h

abbrev pub size_of : List Member → ℕ
size_of [] = 0
size_of (m ∷ rest) = m.bytes + size_of rest

-- The data region as far as the file goes: `ftruncate` makes it of 64 bytes and the capacity. What is
-- behind its end is read as 0.
abbrev pub cut : RingBuf → Memory
cut rb i = if ltb i rb.capacity then rb.data_region i else 0

abbrev behind_header : RingBuf → Memory
behind_header rb i = cut rb (i - ringbuf_header_size)

-- The file: the header, and `data` behind it.
unfoldable pub file_bytes : RingBuf → Memory
file_bytes rb = store (behind_header rb) 0 (packed header_members rb.header)

-- The integer in `n` bytes at `offset`.
abbrev pub field : Memory → ℕ → ℕ → ℕ
field file offset n = of_le (load file offset n)

-- The offsets that the header's comment documents.
abbrev pub header_at : Memory → Header
header_at file = record {
  magic = field file 0 4;
  version = field file 4 4;
  capacity = field file 8 4;
  write_pos = field file 16 8;
  read_pos = field file 24 8;
  dropped = field file 32 8;
  pid = field file 40 4;
  worker_id = field file 44 8;
}

length-packed : (ms : List Member) (h : Header) → length (packed ms h) ≡ size_of ms
unfolding packed
length-packed [] h = refl
length-packed (m ∷ rest) h = omega (
  arith,
  length-append (le_bytes m.bytes (m.value h)) (packed rest h),
  length-le_bytes m.bytes (m.value h),
  length-packed rest h,
)

packed-append :
    (xs ys : List Member) (h : Header) → packed (xs ++ ys) h ≡ packed xs h ++ packed ys h
unfolding packed
packed-append [] ys h = refl
packed-append (m ∷ xs) ys h =
    ap (λ l. le_bytes m.bytes (m.value h) ++ l) (packed-append xs ys h)
    ∙ sym (append_assoc (le_bytes m.bytes (m.value h)) (packed xs h) (packed ys h))

-- A read inside a range that was written.
load-store_inside :
    (m : Memory) (xs ys zs : List ℕ)
    → load (store m 0 (xs ++ (ys ++ zs))) (length xs) (length ys) ≡ ys
load-store_inside m xs ys zs =
    let front = store m 0 xs in
    let here = length xs in
    let start : 0 + length xs ≡ here = omega arith in
    let behind : store m 0 (xs ++ (ys ++ zs)) ≡ store (store front here ys) (here + length ys) zs =
      sym (store-append front here ys zs ∙ (rw start at (store-append m 0 xs (ys ++ zs)))) in
    rw behind (
      load-store_before (store front here ys) here (length ys) (here + length ys) zs (omega arith)
      ∙ load-store_self front here ys)

-- A member is found at the sum of the sizes in front of it.
field-packed :
    (file : Memory) (before : List Member) (m : Member) (after : List Member) (h : Header)
    → m.value h < 256 ^ m.bytes
    → field (store file 0 (packed (before ++ m ∷ after) h)) (size_of before) m.bytes ≡ m.value h
field-packed file before m after h fits =
    let mine = le_bytes m.bytes (m.value h) in
    let split : packed (before ++ m ∷ after) h ≡ packed before h ++ (mine ++ packed after h) =
      packed-append before (m ∷ after) h ∙ unfold packed in refl in
    let inside : load (store file 0 (packed before h ++ (mine ++ packed after h)))
          (length (packed before h)) (length mine)
        ≡ mine =
      load-store_inside file (packed before h) mine (packed after h) in
    let same : load (store file 0 (packed (before ++ m ∷ after) h)) (size_of before) m.bytes
        ≡ mine =
      rw split (rw (length-packed before h, length-le_bytes m.bytes (m.value h)) at inside) in
    ap of_le same ∙ of_le-le_bytes m.bytes (m.value h) fits

-- The fields are within their C types.
pub record IsHeader (h : Header) : Type 0 where
  pub magic : h.magic < 2 ^ 32
  pub version : h.version < 2 ^ 32
  pub capacity : h.capacity < 2 ^ 32
  pub write_pos : h.write_pos < 2 ^ 64
  pub read_pos : h.read_pos < 2 ^ 64
  pub dropped : h.dropped < 2 ^ 64
  pub pid : h.pid < 2 ^ 32
  pub worker_id : h.worker_id < 2 ^ 64

member_field :
    (rb : RingBuf) (n : ℕ) (m : Member)
    → header_members ≡ take n header_members ++ m ∷ drop (suc n) header_members
    → m.value rb.header < 256 ^ m.bytes
    → field (file_bytes rb) (size_of (take n header_members)) m.bytes ≡ m.value rb.header
unfolding file_bytes
member_field rb n m e fits =
    let at =
      field-packed (behind_header rb) (take n header_members) m (drop (suc n) header_members)
        rb.header fits in
    ap
      (λ (ms : List Member).
        field (store (behind_header rb) 0 (packed ms rb.header)) (size_of (take n header_members))
          m.bytes)
      e
    ∙ at

-- The fields are at the documented offsets.
pub header_at-file_bytes :
    (rb : RingBuf) → IsHeader rb.header → header_at (file_bytes rb) ≡ rb.header
header_at-file_bytes rb w =
    let magic : field (file_bytes rb) 0 4 ≡ rb.header.magic =
      member_field rb 0 (member 4 (λ h. h.magic)) refl w.magic in
    let version : field (file_bytes rb) 4 4 ≡ rb.header.version =
      member_field rb 1 (member 4 (λ h. h.version)) refl w.version in
    let capacity : field (file_bytes rb) 8 4 ≡ rb.header.capacity =
      member_field rb 2 (member 4 (λ h. h.capacity)) refl w.capacity in
    let write_pos : field (file_bytes rb) 16 8 ≡ rb.header.write_pos =
      member_field rb 4 (member 8 (λ h. h.write_pos)) refl w.write_pos in
    let read_pos : field (file_bytes rb) 24 8 ≡ rb.header.read_pos =
      member_field rb 5 (member 8 (λ h. h.read_pos)) refl w.read_pos in
    let dropped : field (file_bytes rb) 32 8 ≡ rb.header.dropped =
      member_field rb 6 (member 8 (λ h. h.dropped)) refl w.dropped in
    let pid : field (file_bytes rb) 40 4 ≡ rb.header.pid =
      member_field rb 7 (member 4 (λ h. h.pid)) refl w.pid in
    let worker_id : field (file_bytes rb) 44 8 ≡ rb.header.worker_id =
      member_field rb 8 (member 8 (λ h. h.worker_id)) refl w.worker_id in
    rw (magic, version, capacity, write_pos, read_pos, dropped, pid, worker_id) refl

-- The data region begins behind the header, and ends with the file.
pub data-file_bytes : (rb : RingBuf) (i : ℕ) → file_bytes rb (64 + i) ≡ cut rb i
unfolding file_bytes
data-file_bytes rb i =
    store_above (behind_header rb) 0 (64 + i) (packed header_members rb.header)
      (omega (arith, length-packed header_members rb.header))
    ∙ ap (cut rb) (omega arith)
