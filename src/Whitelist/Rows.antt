-- ===== src/Whitelist/Rows.antt =====
-- The static table of lumbre_whitelist.c as a list that is searched from its start.
use mathlib.Core.Path.{subst}
use lumbre_ext.Common.{
  ℕ, ◌≡◌, refl, ap, ◌∙◌, arith, true, List, [], ◌∷◌, Option, none, some, length, ◌==◌,
  if◌then◌else◌, Bool-cases, ==_iff, inl, inr, All,
}
use lumbre_ext.Memory.{fetch}
use lumbre_ext.Whitelist.{Entry, fnv1a, lower, lower_all, build_key, populated, same_bytes}
use lumbre_ext.Whitelist.Entries.{StaticEntry, static_table}
use lumbre_ext.Whitelist.Search.{static_key, same_bytes→≡}

-- The first row with this key.
unfoldable pub row_of : List ℕ → List StaticEntry → Option StaticEntry
row_of key [] = none
row_of key (src ∷ rest) = if same_bytes key (static_key src) then some src else row_of key rest

-- The entry that the table holds for a row.
abbrev pub entry_of : StaticEntry → Entry
entry_of src = populated src (fnv1a (static_key src) (length (static_key src)))

abbrev pub entry_of_row : Option StaticEntry → Option Entry
entry_of_row none = none
entry_of_row (some src) = some (entry_of src)

pub row_of-All :
    (P : StaticEntry → Type 0) (rows : List StaticEntry) (key : List ℕ) (src : StaticEntry)
    → All P rows
    → row_of key rows ≡ some src
    → P src × (key ≡ static_key src)
unfolding row_of
row_of-All P [] key src all h = absurd (cc h)
row_of-All P (first ∷ rest) key src all h = elim (Bool-cases (same_bytes key (static_key first))) [
  | inl e ↦
      let it : first ≡ src = cc (rw e at h) in
      (subst P it all.0, same_bytes→≡ key (static_key first) e ∙ ap static_key it)
  | inr e ↦ row_of-All P rest key src all.1 (rw e at h)
]

pub no_row : (key : List ℕ) → (length key == 0) ≡ true → row_of key static_table ≡ none
unfolding static_table row_of same_bytes lower lower_all build_key fetch
no_row [] h = refl
no_row (c ∷ cs) h = absurd (omega (arith, (==_iff (length (c ∷ cs)) 0).0 h))
