-- ===== src/Whitelist.antt =====
-- The functions and the table of lumbre_whitelist.c. A probing loop runs on fuel and returns `none` when
-- it is used up.
pub mod Entries
pub mod Search
pub mod Rows
pub mod Built
pub mod Match
mod Tests
use Prim.Native.Nat.{bit_and, bit_or, bit_xor}
use lumbre_ext.Common.{
  ◌>>=◌, ℕ, zero, suc, ◌+◌, ◌*◌, ◌%◌, ◌^◌, Bool, true, false, ◌&&◌, List, [], ◌∷◌, ◌++◌, Option,
  none, some, Pointer, u32, u64, length, ltb, leb, ◌==◌, if◌then◌else◌,
}
use lumbre_ext.Memory.{fetch, pointed}
use lumbre_ext.Whitelist.Entries.{StaticEntry, static_table}

abbrev pub whitelist_size : ℕ
whitelist_size = 64

abbrev pub whitelist_mask : ℕ
whitelist_mask = 63

abbrev pub key_buf_size : ℕ
key_buf_size = 128

-- The loop of `lumbre_fnv1a` over the bytes, and the function.
unfoldable pub fnv_loop : ℕ → List ℕ → ℕ
fnv_loop hash [] = hash
fnv_loop hash (b ∷ bs) = fnv_loop (bit_xor hash b * 0x0100_0193 % u32) bs

unfoldable pub fnv1a : List ℕ → ℕ → ℕ
fnv1a object len = fnv_loop 0x811c_9dc5 (fetch object len)

-- `(c >= 'A' && c <= 'Z') ? (c | 0x20) : c`
unfoldable pub lower : ℕ → ℕ
lower c = if leb b'A' c && leb c b'Z' then bit_or c 0x20 else c

unfoldable pub lower_all : List ℕ → List ℕ
lower_all [] = []
lower_all (c ∷ cs) = lower c ∷ lower_all cs

-- The bytes that `lumbre_wl_build_key` leaves in the buffer; none where it returns 0.
unfoldable pub build_key : Pointer → ℕ → Pointer → ℕ → List ℕ
build_key none class_len func_name func_len =
    if leb key_buf_size func_len then [] else lower_all (pointed func_name func_len)
build_key (some class_name) class_len func_name func_len =
    if ltb 0 class_len
    then (if leb key_buf_size ((class_len + 2 + func_len) % u64)
        then []
        else lower_all (fetch class_name class_len)
          ++ (b':' ∷ b':' ∷ lower_all (pointed func_name func_len)))
    else (if leb key_buf_size func_len then [] else lower_all (pointed func_name func_len))

-- `lumbre_whitelist_entry_t` and `lumbre_whitelist_t`
pub record Entry : Type 0 where
  pub class_name : Pointer
  pub class_len : ℕ
  pub func_name : Pointer
  pub func_len : ℕ
  pub span_type : ℕ
  pub key_hash : ℕ
  pub occupied : Bool

abbrev pub Table : Type 0
Table = ℕ → Entry

-- `memset(wl, 0, …)`
abbrev pub vacant : Entry
vacant = record {
  class_name = none;
  class_len = 0;
  func_name = none;
  func_len = 0;
  span_type = 0;
  key_hash = 0;
  occupied = false;
}

unfoldable pub cleared : Table
cleared slot = vacant

unfoldable pub next_slot : ℕ → ℕ
next_slot slot = bit_and (slot + 1) whitelist_mask

-- "Linear probe for an empty slot"
unfoldable pub empty_slot : Table → ℕ → ℕ → Option ℕ
empty_slot wl zero slot = none
empty_slot wl (suc fuel) slot =
    let rest = empty_slot wl fuel (next_slot slot) in if (wl slot).occupied then rest else some slot

-- "Populate the slot"
unfoldable pub populated : StaticEntry → ℕ → Entry
populated src hash = record {
  class_name = src.class_name;
  class_len = src.class_len;
  func_name = src.func_name;
  func_len = src.func_len;
  span_type = src.span_type;
  key_hash = hash;
  occupied = true;
}

unfoldable pub put_entry : Table → ℕ → Entry → Table
put_entry wl slot dst i = if i == slot then dst else wl i

-- One turn of the loop of `lumbre_whitelist_init`.
unfoldable pub insert : Table → StaticEntry → Option Table
insert wl src =
    let key = build_key src.class_name src.class_len src.func_name src.func_len in
    let hash = fnv1a key (length key) in
    if length key == 0
    then some wl
    else empty_slot wl 64 (bit_and hash whitelist_mask)
      >>= (λ slot. some (put_entry wl slot (populated src hash)))

unfoldable pub insert_all : Table → List StaticEntry → Option Table
insert_all wl [] = some wl
insert_all wl (src ∷ rest) = insert wl src >>= (λ wl'. insert_all wl' rest)

unfoldable pub init : Option Table
init = insert_all cleared static_table

-- `memcmp(a, b, n) == 0` on two arrays of `n` bytes.
unfoldable pub same_bytes : List ℕ → List ℕ → Bool
same_bytes [] [] = true
same_bytes [] (y ∷ ys) = false
same_bytes (x ∷ xs) [] = false
same_bytes (x ∷ xs) (y ∷ ys) = (x == y) && same_bytes xs ys

-- Whether the loop returns the entry.
unfoldable pub is_match : Entry → List ℕ → ℕ → Bool
is_match e key hash =
    let entry_key = build_key e.class_name e.class_len e.func_name e.func_len in
    (e.key_hash == hash) && (length entry_key == length key) && same_bytes key entry_key

-- The loop of `lumbre_whitelist_match`: the entry, or `none` for NULL.
unfoldable pub find : Table → List ℕ → ℕ → ℕ → ℕ → Option (Option Entry)
find wl key hash zero slot = none
find wl key hash (suc fuel) slot =
    let rest = find wl key hash fuel (next_slot slot) in
    if (wl slot).occupied
    then (if is_match (wl slot) key hash then some (some (wl slot)) else rest)
    else some none

unfoldable pub match : Table → Pointer → ℕ → Pointer → ℕ → Option (Option Entry)
match wl class_name class_len func_name func_len =
    let key = build_key class_name class_len func_name func_len in
    let hash = fnv1a key (length key) in
    if length key == 0 then some none else find wl key hash 64 (bit_and hash whitelist_mask)

unfoldable pub destroy : Table → Table
destroy wl = cleared
