-- ===== src/Whitelist/Tests.antt =====
-- The whitelist on concrete inputs.
use lumbre_ext.Common.{ℕ, ◌≡◌, ◌≢◌, arith, refl, List, Option, none, some, codes}
use lumbre_ext.Memory.{fetch}
use lumbre_ext.Whitelist.{
  Entry, Table, fnv1a, fnv_loop, lower, lower_all, build_key, cleared, next_slot, empty_slot,
  populated, put_entry, insert, insert_all, init, same_bytes, is_match, find, match,
}
use lumbre_ext.Whitelist.Rows.{row_of, entry_of_row}
use lumbre_ext.Whitelist.Match.{match_lem}
use lumbre_ext.Whitelist.Search.{find_ends}
use lumbre_ext.Whitelist.Entries.{static_table}

abbrev span_type_of : Option (Option Entry) → Option ℕ
span_type_of (some (some e)) = some e.span_type
span_type_of (some none) = none
span_type_of none = none

abbrev match_in : Option Table → Option (List ℕ) → ℕ → List ℕ → ℕ → Option (Option Entry)
match_in (some wl) c n f m = match wl c n (some f) m
match_in none c n f m = none

fnv1a_run : fnv1a (codes "foobar") 6 ≡ 0xbf9cf968
unfolding fnv1a fnv_loop fetch
fnv1a_run = refl

init_run : span_type_of (match_in init (some (codes "redis")) 5 (codes "GET") 3) ≡ some 4
unfolding init insert_all insert static_table fnv1a fnv_loop fetch lower lower_all build_key cleared
    next_slot empty_slot populated put_entry same_bytes is_match find match
init_run = refl

match_lem_example :
    let key = build_key (some (codes "redis")) 5 (some (codes "GET")) 3 in
    (wl : Table) × (init ≡ some wl)
    × (match wl (some (codes "redis")) 5 (some (codes "GET")) 3
        ≡ some (entry_of_row (row_of key static_table)))
match_lem_example = match_lem (some (codes "redis")) 5 (some (codes "GET")) 3

find_ends_example : find cleared (codes "fopen") 7 64 7 ≢ none
unfolding cleared
find_ends_example = find_ends cleared (codes "fopen") 7 7 5 (omega arith) (omega arith) refl
