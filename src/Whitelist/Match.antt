-- ===== src/Whitelist/Match.antt =====
-- lumbre_whitelist_match on the table of lumbre_whitelist_init against a plain search of the static
-- table.
use Prim.Native.Nat.{bit_and}
use lumbre_ext.Common.{
  ℕ, ◌≡◌, refl, ap, ◌∙◌, arith, true, List, none, some, Pointer, length, ◌==◌, Bool-cases,
  Option-cases, inl, inr,
}
use lumbre_ext.Bits.{bit_and_mask}
use lumbre_ext.Whitelist.{Entry, Table, fnv1a, build_key, init, find, match, whitelist_mask}
use lumbre_ext.Whitelist.Entries.{static_table}
use lumbre_ext.Whitelist.Search.{entry_key, find_sound, find_ends}
use lumbre_ext.Whitelist.Rows.{row_of, entry_of_row, row_of-All, no_row}
use lumbre_ext.Whitelist.Built.{built, built-Known, init_ends, free_slot, IsFound, All-IsFound}

unknown :
    (key : List ℕ) (entry : Entry)
    → row_of key static_table ≡ none
    → (at : ℕ) × (built at ≡ entry) × ((built at).occupied ≡ true) × (entry_key entry ≡ key)
    → ⊥
unknown key entry e (at, it, used, k) =
    let same : entry_key (built at) ≡ key = ap entry_key it ∙ k in
    cc (rw (same, e) at (built-Known at used))

search_lem :
    (key : List ℕ)
    → let hash = fnv1a key (length key) in
      find built key hash 64 (bit_and hash whitelist_mask)
      ≡ some (entry_of_row (row_of key static_table))
search_lem key =
    let hash = fnv1a key (length key) in
    let slot = bit_and hash whitelist_mask in
    elim (Option-cases (row_of key static_table)) [
      | inr (src, e) ↦
          let (found, same) = row_of-All IsFound static_table key src All-IsFound e in
          rw (e, same) found
      | inl e ↦ elim (Option-cases (find built key hash 64 slot)) [
        | inl stuck ↦ absurd (
            find_ends built key hash slot free_slot.0 (omega (arith, bit_and_mask 6 hash))
              free_slot.1 free_slot.2 stuck)
        | inr (r, found) ↦ elim (Option-cases r) [
          | inl nothing ↦ rw (found, nothing, e) refl
          | inr (entry, some_entry) ↦ absurd (
              unknown key entry e
                (find_sound built key hash 64 slot entry (found ∙ ap some some_entry)))
        ]
      ]
    ]

-- The init ends, and with its table a match ends for any class and function name; it returns the
-- entry of the first row of the static table with the same key, and NULL if there is no such row.
pub match_lem :
    (class_name : Pointer) (class_len : ℕ) (func_name : Pointer) (func_len : ℕ)
    → let key = build_key class_name class_len func_name func_len in
      (wl : Table) × (init ≡ some wl)
      × (match wl class_name class_len func_name func_len
          ≡ some (entry_of_row (row_of key static_table)))
unfolding match
match_lem class_name class_len func_name func_len =
    let key = build_key class_name class_len func_name func_len in
    elim (Bool-cases (length key == 0)) [
      | inl e ↦ (built, init_ends, rw (e, no_row key e) refl)
      | inr e ↦ (built, init_ends, rw e (search_lem key))
    ]
