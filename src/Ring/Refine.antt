-- ===== src/Ring/Refine.antt =====
-- lumbre_ringbuf_write against a queue of messages.
use lumbre_ext.Common.{
  Status, ok, error, ℕ, ◌+◌, ◌-◌, ◌%◌, ◌^◌, ◌≤◌, ◌<◌, ◌≡◌, refl, ap, sym, ◌∙◌, arith, inl, inr,
  List, [], ◌∷◌, ◌++◌, length, append-nil, ltb, Bool-cases,
}
use mathlib.Core.Path.{subst, subst₂}
use lumbre_ext.Memory.{Memory, store, fetch, le_bytes, length-le_bytes, store-append, length-fetch}
use lumbre_ext.Ring.{RingBuf, padding_marker, count_drop, put_padding, put_message, write_seen}
use lumbre_ext.Ring.Power.{IsPowerOfTwo}
use lumbre_ext.Ring.Blocks.{padded_mod}
use lumbre_ext.Ring.Frames.{Frames, Frames-le}
use lumbre_ext.Ring.Append.{
  frame_bytes, Lead, here, Lead-le, append_message, append_padding, padding_Lead,
}
use lumbre_ext.Ring.Write.{
  IsValid, IsFresh, offset_of, offset_of-lt, Outcome, full, straight, wrapped, write_seen-Outcome,
}

-- The ring is valid and holds `messages` for the daemon.
pub record Holds (rb : RingBuf) (messages : List (List ℕ)) : Type 0 where
  pub valid : IsValid rb
  pub frames : Frames rb.data_region rb.capacity rb.header.read_pos rb.header.write_pos messages

-- What a write of `bytes` with this status adds to the queue.
abbrev pub accepted : Status → List ℕ → List (List ℕ)
accepted ok bytes = bytes ∷ []
accepted error bytes = []

-- The prefix and the payload are one range of bytes.
pub data-put_message :
    (rb : RingBuf) (o : ℕ) (payload : List ℕ) (len needed : ℕ)
    → o + 4 < 2 ^ 32
    → (put_message rb o payload len needed).data_region
      ≡ store rb.data_region o (frame_bytes (fetch payload len))
unfolding put_message fetch
data-put_message rb o payload len needed h =
    let four : length (le_bytes 4 len) ≡ 4 = length-le_bytes 4 len in
    let place : (o + 4) % 2 ^ 32 ≡ o + length (le_bytes 4 len) = omega arith in
    let both : store (store rb.data_region o (le_bytes 4 len)) (o + length (le_bytes 4 len))
          (fetch payload len)
        ≡ store rb.data_region o (le_bytes 4 len ++ fetch payload len) =
      store-append rb.data_region o (le_bytes 4 len) (fetch payload len) in
    elim (Bool-cases (ltb 0 len)) [
      | inl some_bytes ↦ rw (some_bytes, place, both, length-fetch payload len)
      | inr no_bytes ↦ let empty : len ≡ 0 = ground arith in rw (empty, append-nil)
    ]

-- What a message may be put at the end of: the local position may be
-- ahead of the published one by a padding.
record IsOpen (rb : RingBuf) (messages : List (List ℕ)) : Type 0 where
  rounded : IsPowerOfTwo rb.capacity
  least : 4 ≤ rb.capacity
  greatest : rb.capacity ≤ 2 ^ 31
  masked : rb.mask ≡ rb.capacity - 1
  held : Frames rb.data_region rb.capacity rb.header.read_pos rb.header.write_pos messages
  lead : Lead rb.data_region rb.capacity rb.header.write_pos rb.local_write_pos

module _ (rb : RingBuf) (payload : List ℕ) (len : ℕ) {messages : List (List ℕ)}
    (o : IsOpen rb messages) where
  put_message-Holds :
      offset_of rb + (4 + len) ≤ rb.capacity
      → rb.local_write_pos + (4 + len) ≤ rb.header.read_pos + rb.capacity
      → rb.local_write_pos + (4 + len) < 2 ^ 64
      → Holds
          (put_message rb (offset_of rb) payload len (4 + len))
          (messages ++ fetch payload len ∷ [])
  unfolding put_message
  put_message-Holds fits within fresh =
      let sized : length (fetch payload len) ≡ len = length-fetch payload len in
      let place : offset_of rb + 4 < 2 ^ 32 = omega (arith, o.greatest) in
      let region : (put_message rb (offset_of rb) payload len (4 + len)).data_region
          ≡ store rb.data_region (offset_of rb) (frame_bytes (fetch payload len)) =
        data-put_message rb (offset_of rb) payload len (4 + len) place in
      let next : (rb.local_write_pos + (4 + len)) % 2 ^ 64
          ≡ rb.local_write_pos + (4 + length (fetch payload len)) =
        omega arith in
      let more : Frames _ rb.capacity rb.header.read_pos
          (rb.local_write_pos + (4 + length (fetch payload len)))
          (messages ++ fetch payload len ∷ []) =
        append_message o.held (omega (arith, o.least)) rb.local_write_pos (fetch payload len) o.lead
          (omega arith) (omega arith) in
      record {
        valid = record {
          rounded = o.rounded;
          least = o.least;
          greatest = o.greatest;
          masked = o.masked;
          published = refl;
          behind = omega (arith, Frames-le o.held, Lead-le o.lead);
          filled = omega arith;
        };
        frames =
            subst₂
              (λ d e.
                Frames d rb.capacity rb.header.read_pos e (messages ++ fetch payload len ∷ []))
              (sym region) (sym next) more;
      }

Holds-IsOpen : {rb : RingBuf} {messages : List (List ℕ)} → Holds rb messages → IsOpen rb messages
Holds-IsOpen {rb} {messages} h =
    let v : IsValid rb = h.valid in
    record {
      rounded = v.rounded;
      least = v.least;
      greatest = v.greatest;
      masked = v.masked;
      held = h.frames;
      lead = here (sym v.published);
    }

put_padding-IsOpen :
    (rb : RingBuf) {messages : List (List ℕ)}
    → Holds rb messages
    → 0 < offset_of rb
    → rb.local_write_pos + (rb.capacity - offset_of rb) < rb.header.read_pos + rb.capacity
    → rb.local_write_pos + (rb.capacity - offset_of rb) < 2 ^ 64
    → IsOpen (put_padding rb (offset_of rb) (rb.capacity - offset_of rb)) messages
unfolding put_padding
put_padding-IsOpen rb {messages} h off within fresh =
    let v : IsValid rb = h.valid in
    let m : Memory = store rb.data_region (offset_of rb) (le_bytes 4 padding_marker) in
    let next : (rb.local_write_pos + (rb.capacity - offset_of rb)) % 2 ^ 64
        ≡ rb.local_write_pos + (rb.capacity - offset_of rb) =
      omega arith in
    let frames : Frames rb.data_region rb.capacity rb.header.read_pos rb.local_write_pos messages =
      rw (v.published) at h.frames in
    record {
      rounded = v.rounded;
      least = v.least;
      greatest = v.greatest;
      masked = v.masked;
      held = rw (v.published) (append_padding frames (omega (arith, v.least)) off within);
      lead = rw (v.published, next) (padding_Lead frames (omega (arith, v.least)) off within);
    }

pub count_drop-IsValid : (rb : RingBuf) → IsValid rb → IsValid (count_drop rb)
unfolding count_drop
count_drop-IsValid rb v = record {
  rounded = v.rounded;
  least = v.least;
  greatest = v.greatest;
  masked = v.masked;
  published = v.published;
  behind = v.behind;
  filled = v.filled;
}

module _ (rb : RingBuf) (seen : ℕ) (payload : List ℕ) (len : ℕ) (fresh : IsFresh rb)
    (stale : seen ≤ rb.header.read_pos) where
  wrapped_Holds :
      {messages : List (List ℕ)}
      → Holds rb messages
      → rb.capacity < offset_of rb + (4 + len)
      → rb.local_write_pos + (rb.capacity - offset_of rb) + (4 + len) ≤ seen + rb.capacity
      → Holds
          (put_message
            (put_padding rb (offset_of rb) (rb.capacity - offset_of rb))
            0
            payload
            len
            (4 + len))
          (messages ++ fetch payload len ∷ [])
  unfolding put_padding
  wrapped_Holds {messages} h fits room =
      let v : IsValid rb = h.valid in
      let inside : offset_of rb < rb.capacity = offset_of-lt rb v in
      let padded : RingBuf = put_padding rb (offset_of rb) (rb.capacity - offset_of rb) in
      let moved : padded.local_write_pos ≡ rb.local_write_pos + (rb.capacity - offset_of rb) =
        omega arith in
      let start : offset_of padded ≡ 0 =
        ap (λ t. t % rb.capacity) moved ∙ padded_mod rb.capacity rb.local_write_pos (omega arith) in
      let open_padded : IsOpen padded messages =
        put_padding-IsOpen rb h (omega arith) (omega arith) (omega arith) in
      subst
        (λ k.
          Holds (put_message padded k payload len (4 + len)) (messages ++ fetch payload len ∷ []))
        start
        (put_message-Holds padded payload len open_padded (omega arith) (omega arith) (omega arith))

  Outcome-Holds :
      {messages : List (List ℕ)}
      → Holds rb messages
      → (r : Status × RingBuf) → Outcome rb seen payload len r
      → Holds r.1 (messages ++ accepted r.0 (fetch payload len))
  unfolding count_drop
  Outcome-Holds {messages} h r (full crowded e) =
      rw (e, append-nil messages)
        (record { valid = count_drop-IsValid rb h.valid; frames = h.frames })
  Outcome-Holds {messages} h r (straight fits room e) =
      rw e (put_message-Holds rb payload len (Holds-IsOpen h) fits (omega arith) (omega arith))
  Outcome-Holds {messages} h r (wrapped fits room e) = rw e (wrapped_Holds h fits room)

-- On a ring that holds `messages`, with positions away from the end of 64 bits, a write that is
-- given a read position no later than the consumer's leaves a valid ring that holds the same
-- messages, followed by the payload exactly if the write returns ok.
pub write_seen_refines :
    (rb : RingBuf) (seen : ℕ) (payload : List ℕ) (len : ℕ) {messages : List (List ℕ)}
    → Holds rb messages
    → IsFresh rb
    → seen ≤ rb.header.read_pos
    → let (s, rb') = write_seen rb seen payload len in
      Holds rb' (messages ++ accepted s (fetch payload len))
write_seen_refines rb seen payload len h fresh stale =
    Outcome-Holds rb seen payload len fresh stale h _
      (write_seen-Outcome rb seen payload len h.valid fresh stale)
