-- ===== src/Ring/Resources.antt =====
-- What lumbre_ringbuf_init and lumbre_ringbuf_destroy leave open, mapped and on disk.
use lumbre_ext.Common.{
  ok, error, ℕ, ◌==◌, ◌&&◌, if◌then◌else◌, refl, ==_iff, Bool-cases, inl, inr, ◌≢◌, ◌+◌, ◌-◌, ◌≡◌,
  arith, ◌⊎◌, Bool, true, false, List, [], ◌∷◌, take,
}
use mathlib.Core.Path.{ap₂}
use lumbre_ext.Ring.{RingBuf}
use lumbre_ext.Ring.Lifecycle.{
  Os, SysCall, opened, truncated, mapped, unmapped, closed, unlinked, ring_path, fill, init_named,
  init_opened, init, destroy,
}

-- Whether two paths are the same.
unfoldable pub same_path : List ℕ → List ℕ → Bool
same_path [] [] = true
same_path [] (d ∷ ds) = false
same_path (c ∷ cs) [] = false
same_path (c ∷ cs) (d ∷ ds) = (c == d) && same_path cs ds

same_path_refl : (p : List ℕ) → same_path p p ≡ true
unfolding same_path
same_path_refl [] = refl
same_path_refl (c ∷ cs) = let e = (==_iff c c).1 refl in rw (e, same_path_refl cs) refl

same_path→≡ : (p q : List ℕ) → same_path p q ≡ true → p ≡ q
unfolding same_path
same_path→≡ [] [] h = refl
same_path→≡ [] (d ∷ ds) h = absurd (cc h)
same_path→≡ (c ∷ cs) [] h = absurd (cc h)
same_path→≡ (c ∷ cs) (d ∷ ds) h = elim (Bool-cases (c == d)) [
  | inl e ↦ ap₂ ◌∷◌ ((==_iff c d).0 e) (same_path→≡ cs ds (rw e at h))
  | inr e ↦ absurd (cc (rw e at h))
]

pub other_path : (q p : List ℕ) → q ≢ p → same_path q p ≡ false
other_path q p other = elim (Bool-cases (same_path q p)) [
  | inl e ↦ absurd (other (same_path→≡ q p e))
  | inr e ↦ e
]

-- How often each descriptor is open, the bytes mapped, and which files exist.
pub record Resources : Type 0 where
  pub descriptors : ℕ → ℕ
  pub mapped_bytes : ℕ
  pub files : List ℕ → Bool

abbrev pub effect : Resources → SysCall → Resources
effect w (opened path fd) = record w {
  descriptors = λ d. if d == fd then w.descriptors d + 1 else w.descriptors d;
  files = λ q. if same_path q path then true else w.files q;
}
effect w (truncated fd size) = w
effect w (mapped fd size) = record w { mapped_bytes = w.mapped_bytes + size }
effect w (unmapped size) = record w { mapped_bytes = w.mapped_bytes - size }
effect w (closed fd) = record w {
  descriptors = λ d. if d == fd then w.descriptors d - 1 else w.descriptors d;
}
effect w (unlinked path) = record w { files = λ q. if same_path q path then false else w.files q }

abbrev pub effects : Resources → List SysCall → Resources
effects w [] = w
effects w (c ∷ cs) = effects (effect w c) cs

module _ (rb : RingBuf) (os : Os) (dir : List ℕ) (pid worker_id capacity : ℕ) (w : Resources) where
  -- An init that returns -1 leaves each descriptor as often open, and as many bytes mapped, as before,
  -- and the handle's header pointer as it was; either it made no call that took effect, or the file
  -- of the path in the handle is gone; every other file is there or not as before.
  pub init_failure_releases :
      (init rb os dir pid worker_id capacity).0 ≡ error
      → let (s, rb', calls) = init rb os dir pid worker_id capacity in
        ((d : ℕ) → (effects w calls).descriptors d ≡ w.descriptors d)
        × ((effects w calls).mapped_bytes ≡ w.mapped_bytes)
        × ((calls ≡ []) ⊎ ((effects w calls).files rb'.path ≡ false))
        × ((q : List ℕ) → q ≢ rb'.path → (effects w calls).files q ≡ w.files q)
        × (rb'.attached ≡ rb.attached)
  unfolding init init_named init_opened
  init_failure_releases h =
      let name = take 255 (ring_path dir pid worker_id) in
      let same = same_path_refl name in
      (
        (λ d. ground arith),
        ground arith,
        ground (arith, same),
        (λ q other. let e = other_path q name (ground (arith, other)) in ground (arith, e)),
        ground arith,
      )

  -- A destroy after an init that returned 0 gives back all that the init took: the descriptor,
  -- the mapping, and the file unless its unlinking is skipped; a second destroy makes no call.
  pub init_then_destroy :
      (skip : Bool)
      → (init rb os dir pid worker_id capacity).0 ≡ ok
      → let (s, rb', calls) = init rb os dir pid worker_id capacity in
        let (rb'', more) = destroy rb' skip in
        ((d : ℕ) → (effects (effects w calls) more).descriptors d ≡ w.descriptors d)
        × ((effects (effects w calls) more).mapped_bytes ≡ w.mapped_bytes)
        × ((effects (effects w calls) more).files rb'.path ≡ skip)
        × (destroy rb'' skip ≡ (rb'', []))
  unfolding init init_named init_opened fill destroy
  init_then_destroy skip h =
      let same = same_path_refl (take 255 (ring_path dir pid worker_id)) in
      ((λ d. ground arith), ground arith, ground (arith, same), ground arith)
