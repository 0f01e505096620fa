-- ===== src/Whitelist/Search.antt =====
-- The probing loops of lumbre_whitelist.c: what they return, and where they end.
use lumbre_ext.Common.{
  ℕ, zero, suc, ◌+◌, ◌-◌, ◌%◌, ◌<◌, ◌≡◌, ◌≢◌, refl, ap, sym, ◌∙◌, arith, true, false, List, [], ◌∷◌,
  none, some, ◌==◌, Bool-cases, inl, inr, ==_iff,
}
use lumbre_ext.Bits.{bit_and_mask}
use lumbre_ext.Whitelist.{Entry, Table, build_key, next_slot, same_bytes, is_match, find}
use lumbre_ext.Whitelist.Entries.{StaticEntry}

abbrev pub entry_key : Entry → List ℕ
entry_key e = build_key e.class_name e.class_len e.func_name e.func_len

abbrev pub static_key : StaticEntry → List ℕ
static_key src = build_key src.class_name src.class_len src.func_name src.func_len

pub same_bytes→≡ : (xs ys : List ℕ) → same_bytes xs ys ≡ true → xs ≡ ys
unfolding same_bytes
same_bytes→≡ [] [] h = refl
same_bytes→≡ [] (y ∷ ys) h = absurd (cc h)
same_bytes→≡ (x ∷ xs) [] h = absurd (cc h)
same_bytes→≡ (x ∷ xs) (y ∷ ys) h = elim (Bool-cases (x == y)) [
  | inl e ↦
      let same : x ≡ y = (==_iff x y).0 e in
      let rest : same_bytes xs ys ≡ true = rw e at h in rw (same, same_bytes→≡ xs ys rest) refl
  | inr e ↦ absurd (cc (rw e at h))
]

is_match-key :
    (e : Entry) (key : List ℕ) (hash : ℕ) → is_match e key hash ≡ true → entry_key e ≡ key
unfolding is_match
is_match-key e key hash h = sym (same_bytes→≡ key (entry_key e) (ground arith))

-- What a search returns stands in the table, in use, and has the key.
pub find_sound :
    (wl : Table) (key : List ℕ) (hash fuel slot : ℕ) (e : Entry)
    → find wl key hash fuel slot ≡ some (some e)
    → (at : ℕ) × (wl at ≡ e) × ((wl at).occupied ≡ true) × (entry_key e ≡ key)
unfolding find is_match
find_sound wl key hash zero slot e h = absurd (cc h)
find_sound wl key hash (suc fuel) slot e h = elim (Bool-cases (wl slot).occupied) [
  | inl used ↦ elim (Bool-cases (is_match (wl slot) key hash)) [
    | inl same ↦
        let it : wl slot ≡ e = cc (rw (used, same) at h) in
        (slot, it, used, ap entry_key (sym it) ∙ is_match-key (wl slot) key hash same)
    | inr other ↦ find_sound wl key hash fuel (next_slot slot) e (rw (used, other) at h)
  ]
  | inr free ↦ absurd (cc (rw free at h))
]

-- The slot that the loop has reached after some turns.
pub later : ℕ → ℕ → ℕ
later zero slot = slot
later (suc turns) slot = later turns (next_slot slot)

next_slot_lem : (slot : ℕ) → next_slot slot ≡ (slot + 1) % 64
unfolding next_slot
next_slot_lem slot = bit_and_mask 6 (slot + 1)

later_lem : (turns slot : ℕ) → slot < 64 → later turns slot ≡ (slot + turns) % 64
unfolding later
later_lem zero slot h = omega arith
later_lem (suc turns) slot h =
    rw (next_slot_lem slot) (later_lem turns ((slot + 1) % 64) (omega arith) ∙ omega arith)

-- A search that meets a free slot within its fuel ends.
find_ends_at :
    (wl : Table) (key : List ℕ) (hash fuel slot turns : ℕ)
    → turns < fuel
    → (wl (later turns slot)).occupied ≡ false
    → find wl key hash fuel slot ≢ none
unfolding find later is_match
find_ends_at wl key hash zero slot turns h free e = omega arith
find_ends_at wl key hash (suc fuel) slot zero h free e = absurd (cc (rw free at e))
find_ends_at wl key hash (suc fuel) slot (suc turns) h free e =
    elim (Bool-cases (wl slot).occupied) [
      | inl used ↦ elim (Bool-cases (is_match (wl slot) key hash)) [
        | inl same ↦ absurd (cc (rw (used, same) at e))
        | inr other ↦
            find_ends_at wl key hash fuel (next_slot slot) turns (omega arith) free
              (rw (used, other) at e)
      ]
      | inr vacant ↦ absurd (cc (rw vacant at e))
    ]

-- With one free slot in the table, 64 turns are enough for a search from any slot.
pub find_ends :
    (wl : Table) (key : List ℕ) (hash slot free : ℕ)
    → slot < 64
    → free < 64
    → (wl free).occupied ≡ false
    → find wl key hash 64 slot ≢ none
find_ends wl key hash slot free hs hf vacant =
    let turns : ℕ = (free + 64 - slot) % 64 in
    let there : later turns slot ≡ free = later_lem turns slot hs ∙ omega arith in
    find_ends_at wl key hash 64 slot turns (omega arith) (rw there vacant)
