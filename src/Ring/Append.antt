-- ===== src/Ring/Append.antt =====
-- A write of lumbre_ringbuf.c at the end of what the ring holds: a message, or a padding.
use lumbre_ext.Common.{
  ℕ, ◌+◌, ◌-◌, ◌%◌, ◌≤◌, ◌<◌, ◌≡◌, refl, ap, sym, ◌∙◌, arith, inl, inr, List, [], ◌∷◌, ◌++◌, length,
  length-append,
}
use lumbre_ext.Memory.{
  Memory, store, load, le_bytes, length-le_bytes, store_below, store_above, store-append,
  load-store_before, load-store_after, load-store_self,
}
use lumbre_ext.Ring.{padding_marker}
use lumbre_ext.Ring.Blocks.{
  ranges_apart, padding_apart, range_before_padding, one_padding, padded_mod,
}
use lumbre_ext.Ring.Frames.{
  Frames, done, message, padding, Keeps, Frames-append, Frames-le, Keeps-Frames,
}

-- The bytes of one message: its length, and itself.
abbrev pub frame_bytes : List ℕ → List ℕ
frame_bytes bytes = le_bytes 4 (length bytes) ++ bytes

length-frame_bytes : (bytes : List ℕ) → length (frame_bytes bytes) ≡ 4 + length bytes
length-frame_bytes bytes =
    omega (arith, length-append (le_bytes 4 (length bytes)) bytes, length-le_bytes 4 (length bytes))

-- The length and the message are read back.
frame_read :
    (m : Memory) (o : ℕ) (bytes : List ℕ)
    → (load (store m o (frame_bytes bytes)) o 4 ≡ le_bytes 4 (length bytes))
      × (load (store m o (frame_bytes bytes)) (o + 4) (length bytes) ≡ bytes)
frame_read m o bytes =
    let pre : List ℕ = le_bytes 4 (length bytes) in
    let four : length pre ≡ 4 = length-le_bytes 4 (length bytes) in
    let two : store (store m o pre) (o + 4) bytes ≡ store m o (pre ++ bytes) =
      ap (λ t. store (store m o pre) (o + t) bytes) (sym four) ∙ store-append m o pre bytes in
    (
      ap (λ t. load t o 4) (sym two)
          ∙ load-store_before (store m o pre) o 4 (o + 4) bytes (omega arith)
          ∙ ap (load (store m o pre) o) (sym four)
          ∙ load-store_self m o pre,
      ap (λ t. load t (o + 4) (length bytes)) (sym two)
          ∙ load-store_self (store m o pre) (o + 4) bytes,
    )

-- A message put at `w'` is the next after position `w`: at once, or behind a padding.
pub data Lead (m : Memory) (cap w w' : ℕ) : Type 0 where
  here : w' ≡ w → Lead m cap w w'
  padded :
      0 < w % cap
      → load m (w % cap) 4 ≡ le_bytes 4 padding_marker
      → w' ≡ w + (cap - w % cap)
      → Lead m cap w w'

pub Lead-le : {m : Memory} {cap w w' : ℕ} → Lead m cap w w' → w ≤ w'
Lead-le (here e) = omega arith
Lead-le (padded off mark e) = omega arith

module _ {m : Memory} {cap r w : ℕ} {l : List (List ℕ)} (held : Frames m cap r w l)
    (pos : 0 < cap) where
  message-Keeps :
      (w' : ℕ) (bytes : List ℕ)
      → w ≤ w'
      → w' + (4 + length bytes) ≤ r + cap
      → w' % cap + (4 + length bytes) ≤ cap
      → Keeps m (store m (w' % cap) (frame_bytes bytes)) cap r w
  message-Keeps w' bytes later within fits = record {
    ranges = λ q k i from to inside lo hi.
        elim (ranges_apart cap q w' pos k (4 + length bytes) (omega arith) (omega arith) fits
          inside) [
            | inl before ↦ store_below m (w' % cap) i (frame_bytes bytes) (omega arith)
            | inr after ↦
                store_above m (w' % cap) i (frame_bytes bytes)
                  (omega (arith, length-frame_bytes bytes))
          ];
    paddings = λ q i from to lo hi.
        let after : w' % cap + (4 + length bytes) ≤ q % cap =
          padding_apart cap q w' pos (4 + length bytes) (omega arith) (omega arith) in
        store_above m (w' % cap) i (frame_bytes bytes) (omega (arith, length-frame_bytes bytes));
  }

  -- The message itself, with the padding in front of it.
  last_message :
      (w' : ℕ) (bytes : List ℕ)
      → Lead m cap w w'
      → w' + (4 + length bytes) ≤ r + cap
      → w' % cap + (4 + length bytes) ≤ cap
      → Frames (store m (w' % cap) (frame_bytes bytes)) cap w (w' + (4 + length bytes)) (bytes ∷ [])
  last_message w' bytes (here e) within fits =
      let (len, body) = frame_read m (w' % cap) bytes in
      rw (← e) (message bytes fits len body (done _))
  last_message w' bytes (padded off mark e) within fits =
      let (len, body) = frame_read m (w' % cap) bytes in
      let at_start : w' % cap ≡ 0 = rw e (padded_mod cap w pos) in
      let clear : w' % cap + length (frame_bytes bytes) ≤ w % cap =
        omega (arith, length-frame_bytes bytes, Frames-le held) in
      padding off (load-store_after m (w % cap) 4 (w' % cap) (frame_bytes bytes) clear ∙ mark)
        (rw (← e) (message bytes fits len body (done _)))

  pub append_message :
      (w' : ℕ) (bytes : List ℕ)
      → Lead m cap w w'
      → w' + (4 + length bytes) ≤ r + cap
      → w' % cap + (4 + length bytes) ≤ cap
      → Frames
          (store m (w' % cap) (frame_bytes bytes))
          cap
          r
          (w' + (4 + length bytes))
          (l ++ bytes ∷ [])
  append_message w' bytes lead within fits =
      Frames-append (Keeps-Frames held (message-Keeps w' bytes (Lead-le lead) within fits))
        (last_message w' bytes lead within fits)

  module _ (off : 0 < w % cap) (within : w + (cap - w % cap) < r + cap) where
    padding-Keeps : Keeps m (store m (w % cap) (le_bytes 4 padding_marker)) cap r w
    padding-Keeps = record {
      ranges = λ q k i from to inside lo hi.
          let before : q % cap + k ≤ w % cap =
            range_before_padding cap q w pos k to (omega arith) in
          store_below m (w % cap) i (le_bytes 4 padding_marker) (omega arith);
      paddings = λ q i from to lo hi. absurd (one_padding cap q w pos to (omega arith));
    }

    pub append_padding : Frames (store m (w % cap) (le_bytes 4 padding_marker)) cap r w l
    append_padding = Keeps-Frames held padding-Keeps

    pub padding_Lead :
        Lead (store m (w % cap) (le_bytes 4 padding_marker)) cap w (w + (cap - w % cap))
    padding_Lead =
        let four : length (le_bytes 4 padding_marker) ≡ 4 = length-le_bytes 4 padding_marker in
        padded off
          (ap (load (store m (w % cap) (le_bytes 4 padding_marker)) (w % cap)) (sym four)
            ∙ load-store_self m (w % cap) (le_bytes 4 padding_marker))
          refl
