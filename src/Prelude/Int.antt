-- ===== src/Prelude/Int.antt =====
-- Go's `int` where a request may hold a negative one: only its sign and its bounds are tested.
use Prim.Native.Nat.{ℕ, zero}
use mathlib.Core.Bool.{Bool, false, ◌&&◌}
use boreas.Prelude.Tests.{leb, ◌==◌}

-- `negsuc n` is -(n + 1).
pub data ℤ : Type 0 where
  pos : ℕ → ℤ
  negsuc : ℕ → ℤ

abbrev pub between : ℕ → ℕ → ℤ → Bool
between lo hi (pos n) = leb lo n && leb n hi
between lo hi (negsuc n) = false

-- `cmp.Or(n, default)`
abbrev pub or_int : ℤ → ℤ → ℤ
or_int (pos zero) d = d
or_int n d = n

abbrev pub int_eq : ℤ → ℤ → Bool
int_eq (pos a) (pos b) = a == b
int_eq (negsuc a) (negsuc b) = a == b
int_eq _ _ = false
