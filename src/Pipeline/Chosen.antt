-- ===== src/Pipeline/Chosen.antt =====
-- The messages that the ring of a worker keeps, as a choice of the spans that were to be reported.
use mathlib.Core.List.{Sublistᴰ}
use lumbre_ext.Common.{
  leb, Bool-cases, inl, inr, ℕ, ◌+◌, ◌%◌, ◌^◌, length, arith, ◌≡◌, refl, ap, sym, ◌∙◌, List, [],
  ◌∷◌, ◌++◌,
}
use mathlib.Core.Path.{ap₂}
use lumbre_ext.Ring.{RingBuf}
use lumbre_ext.Ring.Refine.{Holds}
use lumbre_ext.Span.{Span}
use lumbre_ext.Span.Fields.{message}
use lumbre_ext.Span.Log.{log, send}
use lumbre_ext.Ring.Stored.{IsStored, write-IsStored}
use lumbre_ext.Span.Queue.{messages_of, HasHeadroom, log-counted, too_long, too_long_cons}

pub messages_of-append :
    (xs ys : List Span) → messages_of (xs ++ ys) ≡ messages_of xs ++ messages_of ys
messages_of-append [] ys = refl
messages_of-append (x ∷ xs) ys = ap (λ l. message x ∷ l) (messages_of-append xs ys)

-- Some of the messages of spans are the messages of some of the spans.
chosen :
    (spans : List Span) (bs : List (List ℕ))
    → Sublistᴰ bs (messages_of spans)
    → (kept : List Span) × Sublistᴰ kept spans × (bs ≡ messages_of kept)
chosen [] [] Sublistᴰ.slnil = ([], Sublistᴰ.slnil, refl)
chosen [] (b ∷ bs) s = elim s [ ]
chosen (x ∷ spans) bs (Sublistᴰ.cons s) =
    let (kept, order, same) = chosen spans bs s in (kept, Sublistᴰ.cons order, same)
chosen (x ∷ spans) (b ∷ bs) (Sublistᴰ.cons-cons e s) =
    let (kept, order, same) = chosen spans bs s in
    (x ∷ kept, Sublistᴰ.cons-cons refl order, ap₂ ◌∷◌ e same)

pub length-messages_of : (spans : List Span) → length (messages_of spans) ≡ length spans
length-messages_of [] = refl
length-messages_of (x ∷ spans) = omega (arith, length-messages_of spans)

too_long-append :
    (cap : ℕ) (xs ys : List (List ℕ)) → too_long cap (xs ++ ys) ≡ too_long cap xs + too_long cap ys
too_long-append cap [] ys = unfold too_long in omega arith
too_long-append cap (x ∷ xs) ys =
    omega (arith, too_long_cons cap x (xs ++ ys), too_long_cons cap x xs, too_long-append cap xs ys)

-- How many spans have a message that does not fit a buffer of `cap` bytes.
abbrev pub oversized : ℕ → List Span → ℕ
oversized cap spans = too_long cap (messages_of spans)

pub oversized-append :
    (cap : ℕ) (xs ys : List Span) → oversized cap (xs ++ ys) ≡ oversized cap xs + oversized cap ys
oversized-append cap xs ys =
    ap (too_long cap) (messages_of-append xs ys)
    ∙ too_long-append cap (messages_of xs) (messages_of ys)

-- After the reports the ring holds the old messages and those of some of the spans, in order, and has
-- counted the others, but for those whose message does not fit the buffer.
pub log-chosen :
    (cap : ℕ) (rb : RingBuf) (pending spans : List Span)
    → Holds rb (messages_of pending)
    → HasHeadroom rb
    → (kept : List Span) × Sublistᴰ kept spans
      × Holds (log cap rb spans) (messages_of (pending ++ kept))
      × (((log cap rb spans).header.dropped + length kept + oversized cap spans) % 2 ^ 64
          ≡ (rb.header.dropped + length spans) % 2 ^ 64)
log-chosen cap rb pending spans h room =
    let (bs, some_of, holds, counted) = log-counted cap rb spans (messages_of pending) h room in
    let (kept, order, same) = chosen spans bs some_of in
    let size : length bs ≡ length kept = ap length same ∙ length-messages_of kept in
    (
      kept,
      order,
      rw (messages_of-append pending kept, sym same) holds,
      omega (arith, counted, size, length-messages_of spans),
    )

-- The log keeps the header of the ring's file in order.
pub log-IsStored :
    (cap : ℕ) (rb : RingBuf) (spans : List Span) → IsStored rb → IsStored (log cap rb spans)
unfolding log
log-IsStored cap rb [] s = s
log-IsStored cap rb (span ∷ rest) s =
    let one : IsStored (send cap rb (message span)) =
      elim (Bool-cases (leb (length (message span)) cap)) [
        | inl fits ↦ rw fits (write-IsStored rb (message span) (length (message span)) s)
        | inr over ↦ rw over s
      ] in
    log-IsStored cap (send cap rb (message span)) rest one
