-- ===== src/Ring/Write.antt =====
-- The ring's invariant, and lumbre_ringbuf_write as plain arithmetic, without wraps and with a
-- remainder for the mask.
use Prim.Native.Nat.{bit_and}
use lumbre_ext.Common.{
  Status, ok, error, ℕ, ◌+◌, ◌-◌, ◌*◌, ◌%◌, ◌^◌, ◌≤◌, ◌<◌, ◌≡◌, ap, ◌∙◌, arith, true, false, lt→ltb,
  ltb-false, List, ltb, if◌then◌else◌,
}
use lumbre_ext.Bits.{bit_and_mask}
use lumbre_ext.Ring.{RingBuf, count_drop, put_padding, put_message, write_seen}
use lumbre_ext.Ring.Power.{IsPowerOfTwo}
use native.Mathlib.Decide.{dec_lt}
use native.Mathlib.Nat.{mod-lt}

-- The fields fit together, and the consumer is no more than a capacity behind.
pub record IsValid (rb : RingBuf) : Type 0 where
  pub rounded : IsPowerOfTwo rb.capacity
  pub least : 4 ≤ rb.capacity
  pub greatest : rb.capacity ≤ 2 ^ 31
  pub masked : rb.mask ≡ rb.capacity - 1
  pub published : rb.header.write_pos ≡ rb.local_write_pos
  pub behind : rb.header.read_pos ≤ rb.header.write_pos
  pub filled : rb.header.write_pos ≤ rb.header.read_pos + rb.capacity

-- The 64-bit positions are not about to wrap.
abbrev pub IsFresh : RingBuf → Type 0
IsFresh rb = rb.local_write_pos + 2 * rb.capacity < 2 ^ 64

abbrev pub offset_of : RingBuf → ℕ
offset_of rb = rb.local_write_pos % rb.capacity

-- `local_write_pos & mask` is the position's remainder by the capacity.
pub offset_lem : (rb : RingBuf) → IsValid rb → bit_and rb.local_write_pos rb.mask ≡ offset_of rb
offset_lem rb v =
    let (k, e) = v.rounded in
    let m : rb.mask ≡ 2 ^ k - 1 = v.masked ∙ ap (λ t. t - 1) e in
    rw (m, e) (bit_and_mask k rb.local_write_pos)

pub offset_of-lt : (rb : RingBuf) → IsValid rb → offset_of rb < rb.capacity
offset_of-lt rb v = mod-lt rb.local_write_pos (omega (arith, v.least))

-- The padding that a message of `len` bytes needs where it would straddle the end of the ring.
abbrev pub gap : RingBuf → ℕ → ℕ
gap rb len = if ltb rb.capacity (offset_of rb + (4 + len)) then rb.capacity - offset_of rb else 0

-- The three ways in which a write ends.
pub data Outcome (rb : RingBuf) (seen : ℕ) (payload : List ℕ) (len : ℕ) (r : Status × RingBuf)
    : Type 0 where
  full :
      seen + rb.capacity < rb.local_write_pos + gap rb len + (4 + len)
      → r ≡ (error, count_drop rb)
      → Outcome rb seen payload len r
  straight :
      offset_of rb + (4 + len) ≤ rb.capacity
      → rb.local_write_pos + (4 + len) ≤ seen + rb.capacity
      → r ≡ (ok, put_message rb (offset_of rb) payload len (4 + len))
      → Outcome rb seen payload len r
  wrapped :
      rb.capacity < offset_of rb + (4 + len)
      → rb.local_write_pos + (rb.capacity - offset_of rb) + (4 + len) ≤ seen + rb.capacity
      → r ≡ (
        ok,
        put_message
            (put_padding rb (offset_of rb) (rb.capacity - offset_of rb))
            0
            payload
            len
            (4 + len),
      )
      → Outcome rb seen payload len r

-- The function without the wraps.
abbrev plain : RingBuf → ℕ → List ℕ → ℕ → Status × RingBuf
plain rb seen payload len =
    if ltb (rb.capacity - 4) len
    then (error, count_drop rb)
    else if ltb rb.capacity (rb.local_write_pos - seen + (4 + len))
    then (error, count_drop rb)
    else if ltb rb.capacity (offset_of rb + (4 + len))
    then (if ltb rb.capacity (rb.local_write_pos - seen + (rb.capacity - offset_of rb) + (4 + len))
        then (error, count_drop rb)
        else (
          ok,
          put_message (put_padding rb (offset_of rb) (rb.capacity - offset_of rb)) 0 payload len
              (4 + len),
        ))
    else (ok, put_message rb (offset_of rb) payload len (4 + len))

module _ (rb : RingBuf) (seen : ℕ) (payload : List ℕ) (len : ℕ) (v : IsValid rb) where
  write_seen-plain :
      IsFresh rb
      → seen ≤ rb.header.read_pos
      → len ≤ rb.capacity - 4
      → write_seen rb seen payload len ≡ plain rb seen payload len
  unfolding write_seen
  write_seen-plain f hs hl =
      let o : bit_and rb.local_write_pos rb.mask % 2 ^ 32 ≡ offset_of rb =
        rw (offset_lem rb v) (omega (arith, offset_of-lt rb v)) in
      let used : (rb.local_write_pos + 2 ^ 64 - seen) % 2 ^ 64 ≡ rb.local_write_pos - seen =
        omega arith in
      let needed : (4 + len) % 2 ^ 32 ≡ 4 + len = omega arith in
      let room : (rb.capacity + 2 ^ 32 - 4) % 2 ^ 32 ≡ rb.capacity - 4 = omega arith in
      let taken : (rb.local_write_pos - seen + (4 + len)) % 2 ^ 64
          ≡ rb.local_write_pos - seen + (4 + len) =
        omega arith in
      let stop : (offset_of rb + (4 + len)) % 2 ^ 32 ≡ offset_of rb + (4 + len) =
        omega (arith, offset_of-lt rb v) in
      let pad : (rb.capacity + 2 ^ 32 - offset_of rb) % 2 ^ 32 ≡ rb.capacity - offset_of rb =
        omega (arith, offset_of-lt rb v) in
      let taken_padded : (rb.local_write_pos - seen + (rb.capacity - offset_of rb) + (4 + len))
            % 2 ^ 64
          ≡ rb.local_write_pos - seen + (rb.capacity - offset_of rb) + (4 + len) =
        omega arith in
      rw (o, used, needed, room, taken, stop, pad, taken_padded)

  too_long : rb.capacity - 4 < len → write_seen rb seen payload len ≡ (error, count_drop rb)
  unfolding write_seen
  too_long h =
      let room : (rb.capacity + 2 ^ 32 - 4) % 2 ^ 32 ≡ rb.capacity - 4 = omega arith in
      rw (room, lt→ltb (rb.capacity - 4) len h)

  pub write_seen-Outcome :
      IsFresh rb
      → seen ≤ rb.header.read_pos
      → Outcome rb seen payload len (write_seen rb seen payload len)
  write_seen-Outcome f hs = elim (dec_lt (rb.capacity - 4) len) [
    | yes long ↦ full (ground arith) (too_long long)
    | no short ↦
        let p : write_seen rb seen payload len ≡ plain rb seen payload len =
          write_seen-plain f hs (omega arith) in
        let e0 : ltb (rb.capacity - 4) len ≡ false = ltb-false _ _ (omega arith) in
        let taken : ℕ = rb.local_write_pos - seen + (4 + len) in
        elim (dec_lt rb.capacity taken) [
          | yes crowded ↦ full (ground arith) (p ∙ rw (e0, lt→ltb _ _ crowded))
          | no roomy ↦
              let e1 : ltb rb.capacity taken ≡ false = ltb-false _ _ (omega arith) in
              let stop : ℕ = offset_of rb + (4 + len) in
              let padded : ℕ =
                rb.local_write_pos - seen + (rb.capacity - offset_of rb) + (4 + len) in
              elim (dec_lt rb.capacity stop) [
                | no fits ↦
                    let e2 : ltb rb.capacity stop ≡ false = ltb-false _ _ (omega arith) in
                    straight (omega arith) (omega arith) (p ∙ rw (e0, e1, e2))
                | yes straddles ↦
                    let e2 : ltb rb.capacity stop ≡ true = lt→ltb _ _ straddles in
                    elim (dec_lt rb.capacity padded) [
                      | yes crowded ↦
                          let e3 : ltb rb.capacity padded ≡ true = lt→ltb _ _ crowded in
                          full (ground arith) (p ∙ rw (e0, e1, e2, e3))
                      | no roomier ↦
                          let e3 : ltb rb.capacity padded ≡ false = ltb-false _ _ (omega arith) in
                          wrapped (omega arith) (omega arith) (p ∙ rw (e0, e1, e2, e3))
                    ]
              ]
        ]
  ]
