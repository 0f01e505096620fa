-- ===== src/Ring/Accept.antt =====
-- When lumbre_ringbuf_write accepts a payload, and what it changes when it does not.
use lumbre_ext.Common.{
  u64, ◌%◌, Status, ok, error, ℕ, ◌+◌, ◌-◌, ◌≤◌, ◌<◌, ◌≡◌, refl, ap, arith, List,
}
use lumbre_ext.Ring.{RingBuf, count_drop, put_padding, put_message, write_seen}
use lumbre_ext.Ring.Write.{
  IsValid, IsFresh, offset_of, offset_of-lt, gap, Outcome, full, straight, wrapped,
  write_seen-Outcome,
}

-- What a write does for a given size of message.
pub record Result (rb : RingBuf) (seen len : ℕ) (r : Status × RingBuf) : Type 0 where
  pub accepts : rb.local_write_pos + gap rb len + (4 + len) ≤ seen + rb.capacity → r.0 ≡ ok
  pub advances :
      r.0 ≡ ok
      → (rb.local_write_pos + gap rb len + (4 + len) ≤ seen + rb.capacity)
        × (r.1.header.write_pos ≡ rb.local_write_pos + gap rb len + (4 + len))
        × (r.1.header.dropped ≡ rb.header.dropped)
  pub refuses : r.0 ≡ error → r.1 ≡ count_drop rb

module _ (rb : RingBuf) (seen : ℕ) (payload : List ℕ) (len : ℕ) (v : IsValid rb)
    (fresh : IsFresh rb) (stale : seen ≤ rb.header.read_pos) where
  Outcome-Result : (r : Status × RingBuf) → Outcome rb seen payload len r → Result rb seen len r
  unfolding put_message put_padding
  Outcome-Result r (full crowded e) =
      rw e (record { accepts = λ h. absurd (omega arith); advances = λ h. cc; refuses = λ h. refl })
  Outcome-Result r (straight fits room e) =
      let none : gap rb len ≡ 0 = ground arith in
      rw e (record {
        accepts = λ h. refl;
        advances = λ h. (omega arith, omega arith, refl);
        refuses = λ h. cc;
      })
  Outcome-Result r (wrapped straddles room e) =
      let some : gap rb len ≡ rb.capacity - offset_of rb = ground arith in
      let inside : offset_of rb < rb.capacity = offset_of-lt rb v in
      rw e (record {
        accepts = λ h. refl;
        advances = λ h. (omega arith, omega arith, refl);
        refuses = λ h. cc;
      })

-- On a valid ring, with positions away from the end of 64 bits and a read position no later than
-- the consumer's, a write is accepted if the message, its 4-byte length and the padding in front
-- of it end no more than a capacity behind that read position; it then publishes that end and
-- counts no drop.
pub write_seen_accepts :
    (rb : RingBuf) (seen : ℕ) (payload : List ℕ) (len : ℕ)
    → IsValid rb
    → IsFresh rb
    → seen ≤ rb.header.read_pos
    → rb.local_write_pos + gap rb len + (4 + len) ≤ seen + rb.capacity
    → let (s, rb') = write_seen rb seen payload len in
      (s ≡ ok)
      × (rb'.header.write_pos ≡ rb.local_write_pos + gap rb len + (4 + len))
      × (rb'.header.dropped ≡ rb.header.dropped)
write_seen_accepts rb seen payload len v fresh stale room =
    let r =
      Outcome-Result rb seen payload len v fresh stale _
        (write_seen-Outcome rb seen payload len v fresh stale) in
    (r.accepts room, (r.advances (r.accepts room)).1, (r.advances (r.accepts room)).2)

-- On a valid ring, with positions away from the end of 64 bits and a read position no later than
-- the consumer's, a write is refused if the message, its 4-byte length and the padding in front
-- of it end more than a capacity behind that read position; it then counts a drop, and changes
-- nothing else.
pub write_seen_refuses :
    (rb : RingBuf) (seen : ℕ) (payload : List ℕ) (len : ℕ)
    → IsValid rb
    → IsFresh rb
    → seen ≤ rb.header.read_pos
    → seen + rb.capacity < rb.local_write_pos + gap rb len + (4 + len)
    → let one_more = record (rb.header) { dropped = (rb.header.dropped + 1) % u64 } in
      write_seen rb seen payload len ≡ (error, record rb { header = one_more })
unfolding count_drop
write_seen_refuses rb seen payload len v fresh stale crowded = go _ (
    Outcome-Result rb seen payload len v fresh stale _
      (write_seen-Outcome rb seen payload len v fresh stale))
  where
    go : (r : Status × RingBuf) → Result rb seen len r → r ≡ (error, count_drop rb)
    go (ok, rb') r = absurd (omega (arith, (r.advances refl).0))
    go (error, rb') r = ap (λ x. (error, x)) (r.refuses refl)
