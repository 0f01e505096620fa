-- ===== src/Common/Machine.antt =====
-- What the C functions that can fail return, pointers to bytes, and the sizes of C's integers.
use Prim.Native.Nat.{ℕ, ◌^◌}
use mathlib.Core.Option.{Option, none, some}
use mathlib.Core.List.{List}

-- 0, or -1.
pub data Status : Type 0 where
  ok error : Status

-- A `const char *` or `const void *`: NULL, or the bytes of the object that it points to.
abbrev pub Pointer : Type 0
Pointer = Option (List ℕ)

abbrev pub u16 : ℕ
u16 = 2 ^ 16

abbrev pub u32 : ℕ
u32 = 2 ^ 32

abbrev pub u64 : ℕ
u64 = 2 ^ 64

-- A chain of steps that can answer nothing.
infixl 5 ◌>>=◌
abbrev pub ◌>>=◌ : {A B : Type 0} → Option A → (A → Option B) → Option B
none >>= f = none
some a >>= f = f a
