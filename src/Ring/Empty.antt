-- ===== src/Ring/Empty.antt =====
-- Which messages lumbre_ringbuf_write accepts on a ring that the daemon has read to its end.
use lumbre_ext.Common.{
  ℕ, zero, suc, ◌+◌, ◌*◌, ◌≤◌, ◌<◌, ◌≡◌, refl, ap, arith, List, Status, ok, error,
}
use lumbre_ext.Ring.{RingBuf, count_drop, write}
use lumbre_ext.Ring.Write.{IsValid, IsFresh, gap}
use lumbre_ext.Ring.Refine.{count_drop-IsValid}
use lumbre_ext.Ring.Accept.{write_seen_accepts, write_seen_refuses}

-- The daemon has read everything.
abbrev pub IsRead : RingBuf → Type 0
IsRead rb = rb.header.read_pos ≡ rb.header.write_pos

-- The ring after `n` attempts to write the same message.
unfoldable pub attempts : ℕ → RingBuf → List ℕ → ℕ → RingBuf
attempts zero rb payload len = rb
attempts (suc n) rb payload len = attempts n (write rb payload len).1 payload len

gap-le : (rb : RingBuf) (len : ℕ) → IsValid rb → gap rb len ≤ 3 + len
gap-le rb len v = ground arith

-- On a valid ring that the daemon has read to its end, with positions away from the end of 64 bits, a
-- message is accepted wherever the positions stand, if it and its 4-byte length, doubled, are at most
-- one byte longer than the ring.
pub write_half :
    (rb : RingBuf) (payload : List ℕ) (len : ℕ)
    → IsValid rb
    → IsFresh rb
    → IsRead rb
    → 2 * (4 + len) ≤ rb.capacity + 1
    → (write rb payload len).0 ≡ ok
unfolding write
write_half rb payload len v fresh empty half =
    (write_seen_accepts rb rb.header.read_pos payload len v fresh (omega arith)
      (omega (arith, gap-le rb len v, v.published, empty))).0

stuck :
    (rb : RingBuf) (payload : List ℕ) (len : ℕ)
    → IsValid rb
    → IsFresh rb
    → IsRead rb
    → rb.capacity < gap rb len + (4 + len)
    → write rb payload len ≡ (error, count_drop rb)
unfolding write count_drop
stuck rb payload len v fresh empty wide =
    write_seen_refuses rb rb.header.read_pos payload len v fresh (omega arith)
      (omega (arith, v.published, empty))

attempts_next :
    (n : ℕ) (rb : RingBuf) (payload : List ℕ) (len : ℕ) {s : Status} {rb' : RingBuf}
    → write rb payload len ≡ (s, rb')
    → attempts (suc n) rb payload len ≡ attempts n rb' payload len
unfolding attempts
attempts_next n rb payload len e = ap (λ (r : Status × RingBuf). attempts n r.1 payload len) e

-- On a valid ring that the daemon has read to its end, with positions away from the end of 64 bits, a
-- message that is, with the padding before it and its 4-byte length, longer than the ring is refused however often its write is attempted: each attempt returns -1, and the ring keeps
-- its positions, so that reading cannot make room for it.
pub write_stuck :
    (n : ℕ) (rb : RingBuf) (payload : List ℕ) (len : ℕ)
    → IsValid rb
    → IsFresh rb
    → IsRead rb
    → rb.capacity < gap rb len + (4 + len)
    → let rb' = attempts n rb payload len in
      ((write rb' payload len).0 ≡ error)
      × IsRead rb'
      × (rb'.header.write_pos ≡ rb.header.write_pos)
unfolding count_drop
write_stuck zero rb payload len v fresh empty wide =
    unfold attempts in
    (ap (λ (r : Status × RingBuf). r.0) (stuck rb payload len v fresh empty wide), empty, refl)
write_stuck (suc n) rb payload len v fresh empty wide =
    let again : attempts (suc n) rb payload len ≡ attempts n (count_drop rb) payload len =
      attempts_next n rb payload len (stuck rb payload len v fresh empty wide) in
    let rest =
      write_stuck n (count_drop rb) payload len (count_drop-IsValid rb v) fresh empty wide in
    rw again rest
