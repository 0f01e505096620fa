-- ===== src/Memory/Laws.antt =====
-- A read after a write, for ranges that coincide, follow one another or lie apart.
use lumbre_ext.Common.{
  ℕ, zero, suc, ◌+◌, ◌≤◌, ◌<◌, ◌≡◌, refl, ap, ◌∙◌, List, [], ◌∷◌, ◌++◌, arith, length,
}
use lumbre_ext.Memory.Defs.{Memory, update, store, load, fetch}
use mathlib.Core.Path.{ap₂}

pub store_below : (m : Memory) (a i : ℕ) (bs : List ℕ) → i < a → store m a bs i ≡ m i
unfolding store
store_below m a i [] h = refl
store_below m a i (b ∷ bs) h = ground (arith, store_below (update m a b) (suc a) i bs (omega arith))

pub store_above : (m : Memory) (a i : ℕ) (bs : List ℕ) → a + length bs ≤ i → store m a bs i ≡ m i
unfolding store
store_above m a i [] h = refl
store_above m a i (b ∷ bs) h = ground (arith, store_above (update m a b) (suc a) i bs (omega arith))

pub load-congr :
    (m m' : Memory) (a n : ℕ)
    → ((i : ℕ) → a ≤ i → i < a + n → m i ≡ m' i)
    → load m a n ≡ load m' a n
unfolding load
load-congr m m' a zero h = refl
load-congr m m' a (suc n) h =
    ap₂ ◌∷◌ (h a (omega arith) (omega arith))
      (load-congr m m' (suc a) n (λ i p q. h i (omega arith) (omega arith)))

pub load-store_before :
    (m : Memory) (a n c : ℕ) (bs : List ℕ) → a + n ≤ c → load (store m c bs) a n ≡ load m a n
load-store_before m a n c bs h =
    load-congr (store m c bs) m a n (λ i p q. store_below m c i bs (omega arith))

pub load-store_after :
    (m : Memory) (a n c : ℕ) (bs : List ℕ)
    → c + length bs ≤ a
    → load (store m c bs) a n ≡ load m a n
load-store_after m a n c bs h =
    load-congr (store m c bs) m a n (λ i p q. store_above m c i bs (omega arith))

pub load-store_self : (m : Memory) (a : ℕ) (bs : List ℕ) → load (store m a bs) a (length bs) ≡ bs
unfolding store load
load-store_self m a [] = refl
load-store_self m a (b ∷ bs) =
    ap₂ ◌∷◌ (store_below (update m a b) (suc a) a bs (omega arith) ∙ ground arith)
      (load-store_self (update m a b) (suc a) bs)

pub length-load : (m : Memory) (a n : ℕ) → length (load m a n) ≡ n
unfolding load
length-load m a zero = refl
length-load m a (suc n) = ap suc (length-load m (suc a) n)

pub load-append : (m : Memory) (a n k : ℕ) → load m a (n + k) ≡ load m a n ++ load m (a + n) k
unfolding load
load-append m a zero k = ap₂ (load m) (omega arith) (omega arith)
load-append m a (suc n) k =
    ap (load m a) (let e : suc n + k ≡ suc (n + k) = omega arith in e)
    ∙ ap (λ l. m a ∷ l)
        (load-append m (suc a) n k ∙ ap (λ j. load m (suc a) n ++ load m j k) (omega arith))

pub store-append :
    (m : Memory) (a : ℕ) (xs ys : List ℕ)
    → store (store m a xs) (a + length xs) ys ≡ store m a (xs ++ ys)
unfolding store
store-append m a [] ys = ap (λ j. store m j ys) (omega arith)
store-append m a (x ∷ xs) ys =
    ap (λ j. store (store (update m a x) (suc a) xs) j ys) (omega arith)
    ∙ store-append (update m a x) (suc a) xs ys

pub length-fetch : (bs : List ℕ) (n : ℕ) → length (fetch bs n) ≡ n
unfolding fetch
length-fetch bs zero = refl
length-fetch [] (suc n) = ap suc (length-fetch [] n)
length-fetch (b ∷ bs) (suc n) = ap suc (length-fetch bs n)

pub fetch-length : (bs : List ℕ) → fetch bs (length bs) ≡ bs
unfolding fetch
fetch-length [] = refl
fetch-length (b ∷ bs) = ap (λ l. b ∷ l) (fetch-length bs)
