-- ===== src/Whitelist/Built.antt =====
-- The table that lumbre_whitelist_init builds: what it holds, and that a search for a row finds it.
use Prim.Native.Nat.{bit_and}
use mathlib.Core.Path.{subst}
use lumbre_ext.Common.{
  ℕ, ◌<◌, ◌≡◌, refl, arith, Bool, true, false, List, [], ◌∷◌, Option, none, some, length, ◌==◌,
  Bool-cases, Option-cases, inl, inr, All,
}
use lumbre_ext.Memory.{fetch}
use lumbre_ext.Whitelist.{
  Table, fnv1a, fnv_loop, lower, lower_all, build_key, cleared, next_slot, empty_slot, populated,
  put_entry, insert, insert_all, init, same_bytes, is_match, find, whitelist_mask,
}
use lumbre_ext.Whitelist.Entries.{StaticEntry, static_table}
use lumbre_ext.Whitelist.Search.{entry_key, static_key}
use lumbre_ext.Whitelist.Rows.{row_of, entry_of}

infixr 5 ◌▹◌
-- A pair, without its parentheses, so that a long product is written as a list.
◌▹◌ : {A B : Type 0} → A → B → A × B
a ▹ b = (a, b)

abbrev is_some : {A : Type 0} → Option A → Bool
is_some none = false
is_some (some a) = true

-- Every slot in use has the key of a row.
abbrev pub Known : Table → Type 0
Known wl =
    (slot : ℕ)
    → (wl slot).occupied ≡ true
    → is_some (row_of (entry_key (wl slot)) static_table) ≡ true

abbrev IsRow : StaticEntry → Type 0
IsRow src = is_some (row_of (static_key src) static_table) ≡ true

put_entry-Known :
    (wl : Table) (at hash : ℕ) (src : StaticEntry)
    → Known wl
    → IsRow src
    → Known (put_entry wl at (populated src hash))
unfolding put_entry populated
put_entry-Known wl at hash src known row slot used = elim (Bool-cases (slot == at)) [
  | inl e ↦ rw e row
  | inr e ↦ rw e (known slot (rw e at used))
]

some-injective : {A : Type 0} {a b : A} → some a ≡ some b → a ≡ b
some-injective h = cc h

insert-Known :
    (wl wl' : Table) (src : StaticEntry)
    → Known wl
    → IsRow src
    → insert wl src ≡ some wl'
    → Known wl'
unfolding insert
insert-Known wl wl' src known row h = elim (Bool-cases (length (static_key src) == 0)) [
  | inl e ↦ subst Known (some-injective (rw e at h)) known
  | inr e ↦
      elim (Option-cases (
        empty_slot wl 64
          (bit_and (fnv1a (static_key src) (length (static_key src))) whitelist_mask))) [
            | inl full ↦ absurd (cc (rw (e, full) at h))
            | inr (slot, found) ↦
                subst Known (some-injective (rw (e, found) at h))
                  (put_entry-Known wl slot _ src known row)
          ]
]

insert_all-Known :
    (rows : List StaticEntry) (wl wl' : Table)
    → Known wl
    → All IsRow rows
    → insert_all wl rows ≡ some wl'
    → Known wl'
unfolding insert_all
insert_all-Known [] wl wl' known all h = subst Known (some-injective h) known
insert_all-Known (src ∷ rest) wl wl' known all h = elim (Option-cases (insert wl src)) [
  | inl e ↦ absurd (cc (rw e at h))
  | inr (wl₁, e) ↦
      insert_all-Known rest wl₁ wl' (insert-Known wl wl₁ src known all.0 e) all.1 (rw e at h)
]

All-rows : All IsRow static_table
unfolding static_table row_of same_bytes lower lower_all build_key fetch
All-rows =
    refl ▹ refl ▹ refl ▹ refl ▹ refl ▹ refl ▹ refl ▹ refl ▹ refl ▹ refl ▹ refl ▹ refl ▹ refl ▹ refl
    ▹ refl ▹ refl ▹ refl ▹ refl ▹ refl ▹ refl ▹ refl ▹ refl ▹ tt

-- The table after the init.
abbrev table_of : Option Table → Table
table_of none = cleared
table_of (some wl) = wl

abbrev pub built : Table
built = table_of init

pub init_ends : init ≡ some built
unfolding init insert_all insert static_table fnv1a fnv_loop fetch lower lower_all build_key cleared
    next_slot empty_slot populated put_entry
init_ends = refl

pub free_slot : (slot : ℕ) × (slot < 64) × ((built slot).occupied ≡ false)
unfolding init insert_all insert static_table fnv1a fnv_loop fetch lower lower_all build_key cleared
    next_slot empty_slot populated put_entry
free_slot = (0, omega arith, refl)

-- The search for a row's key finds the row's entry.
abbrev pub IsFound : StaticEntry → Type 0
IsFound src =
    let key = static_key src in
    let hash = fnv1a key (length key) in
    find built key hash 64 (bit_and hash whitelist_mask) ≡ some (some (entry_of src))

pub All-IsFound : All IsFound static_table
unfolding init insert_all insert static_table fnv1a fnv_loop fetch lower lower_all build_key cleared
    next_slot empty_slot populated put_entry find is_match same_bytes
All-IsFound =
    refl ▹ refl ▹ refl ▹ refl ▹ refl ▹ refl ▹ refl ▹ refl ▹ refl ▹ refl ▹ refl ▹ refl ▹ refl ▹ refl
    ▹ refl ▹ refl ▹ refl ▹ refl ▹ refl ▹ refl ▹ refl ▹ refl ▹ tt

pub built-Known : Known built
built-Known =
    insert_all-Known static_table cleared built (λ slot used. unfold cleared in absurd (cc used))
      All-rows (unfold init in init_ends)
