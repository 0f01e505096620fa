-- ===== src/Memory/Defs.antt =====
-- Reads and writes of byte ranges: `memcpy` to and from a region.
use lumbre_ext.Common.{Pointer, none, some, ℕ, zero, suc, List, [], ◌∷◌, ◌==◌, if◌then◌else◌}

abbrev pub Memory : Type 0
Memory = ℕ → ℕ

abbrev pub update : Memory → ℕ → ℕ → Memory
update m a b i = if i == a then b else m i

-- `memcpy(region + a, bytes, n)`
unfoldable pub store : Memory → ℕ → List ℕ → Memory
store m a [] = m
store m a (b ∷ bs) = store (update m a b) (suc a) bs

-- The `n` bytes from `region + a` on.
unfoldable pub load : Memory → ℕ → ℕ → List ℕ
load m a zero = []
load m a (suc n) = m a ∷ load m (suc a) n

-- The `n` bytes at a pointer to the object `bs`; what lies behind the object is read as 0.
unfoldable pub fetch : List ℕ → ℕ → List ℕ
fetch bs zero = []
fetch [] (suc n) = 0 ∷ fetch [] n
fetch (b ∷ bs) (suc n) = b ∷ fetch bs n

-- The bytes that a pointer and a length stand for: none for NULL.
abbrev pub pointed : Pointer → ℕ → List ℕ
pointed none len = []
pointed (some object) len = fetch object len
