-- ===== src/Worker/Owned.antt =====
-- What MSHUTDOWN of php_lumbre.c gives back for a ring.
use lumbre_ext.Common.{
  ◌≡◌, refl, ap, sym, ◌∙◌, Bool, true, false, List, [], Bool-cases, inl, inr, ℕ, ◌≢◌, arith,
  if◌then◌else◌,
}
use lumbre_ext.Ring.{RingBuf}
use lumbre_ext.Ring.Lifecycle.{SysCall, destroy}
use lumbre_ext.Ring.Resources.{Resources, effects, other_path}
use lumbre_ext.Ring.Handle.{Handle, handle_of}

-- What MSHUTDOWN would give back.
abbrev pub calls_of : Bool → RingBuf → Bool → List SysCall
calls_of initialized rb skip = if initialized then (destroy rb skip).1 else []

pub record IsOwned (base : Resources) (initialized : Bool) (rb : RingBuf) (w : Resources)
    : Type 0 where
  pub descriptors :
      (skip : Bool) (d : ℕ)
      → (effects w (calls_of initialized rb skip)).descriptors d ≡ base.descriptors d
  pub mapped_bytes :
      (skip : Bool) → (effects w (calls_of initialized rb skip)).mapped_bytes ≡ base.mapped_bytes
  pub file :
      (skip : Bool)
      → initialized ≡ true
      → (effects w (calls_of initialized rb skip)).files rb.path ≡ skip

pub destroy-handle :
    (rb rb' : RingBuf) (skip : Bool)
    → handle_of rb' ≡ handle_of rb
    → (destroy rb' skip).1 ≡ (destroy rb skip).1
unfolding destroy
destroy-handle rb rb' skip e =
    let attached = ap (λ (h : Handle). h.attached) e in
    let size = ap (λ (h : Handle). h.mmap_size) e in
    let fd = ap (λ (h : Handle). h.fd) e in
    let path = ap (λ (h : Handle). h.path) e in
    elim (Bool-cases rb.attached) [
      | inl on ↦ rw (attached ∙ on, on, size, fd, path) refl
      | inr off ↦ rw (attached ∙ off, off) refl
    ]

-- The same ring, with other messages in it.
pub IsOwned-handle :
    {base : Resources} {i i' : Bool} {rb rb' : RingBuf} {w : Resources}
    → i' ≡ i
    → handle_of rb' ≡ handle_of rb
    → IsOwned base i rb w
    → IsOwned base i' rb' w
IsOwned-handle {base} {i} {i'} {rb} {rb'} {w} e h o =
    let same : (skip : Bool) → calls_of i' rb' skip ≡ calls_of i rb skip =
      λ skip. rw (e, destroy-handle rb rb' skip h) refl in
    record {
      descriptors = λ skip. rw (same skip) (o.descriptors skip);
      mapped_bytes = λ skip. rw (same skip) (o.mapped_bytes skip);
      file = λ skip on. rw (same skip, ap (λ (h : Handle). h.path) h) (o.file skip (sym e ∙ on));
    }

-- A worker without a ring gives back nothing.
pub closed-IsOwned :
    {base : Resources} {i : Bool} {rb : RingBuf} {w : Resources}
    → i ≡ false
    → ((d : ℕ) → w.descriptors d ≡ base.descriptors d)
    → w.mapped_bytes ≡ base.mapped_bytes
    → IsOwned base i rb w
closed-IsOwned e d m =
    rw e (record {
      descriptors = λ skip. d;
      mapped_bytes = λ skip. m;
      file = λ skip on. absurd (cc on);
    })

-- Giving back a ring touches no other file.
pub calls_of-files :
    (i : Bool) (rb : RingBuf) (w : Resources) (skip : Bool) (q : List ℕ)
    → q ≢ rb.path
    → (effects w (calls_of i rb skip)).files q ≡ w.files q
unfolding destroy
calls_of-files i rb w skip q other = let e = other_path q rb.path other in ground (arith, e)
