-- ===== src/Prelude/Int.antt =====
-- Python integers: `negsuc n` is -(n + 1).
use Prim.Native.Nat.{ℕ, ◌+◌, ◌-◌}
use mathlib.Core.Bool.{Bool, true, false}
use package.agentic_google_workspace.Prelude.Tests.{leb, ltb}

pub data ℤ : Type 0 where
  pos : ℕ → ℤ
  negsuc : ℕ → ℤ

abbrev pub leb_int : ℤ → ℤ → Bool
leb_int (pos a) (pos b) = leb a b
leb_int (pos a) (negsuc b) = false
leb_int (negsuc a) (pos b) = true
leb_int (negsuc a) (negsuc b) = leb b a

-- `bool(n)`
abbrev pub is_nonzero : ℤ → Bool
is_nonzero (pos a) = ltb 0 a
is_nonzero (negsuc a) = true

abbrev sub_nat : ℕ → ℕ → ℤ
sub_nat a b = elim (leb b a) [ true ↦ pos (a - b) | false ↦ negsuc (b - a - 1) ]

-- `m - n`
abbrev pub minus : ℤ → ℤ → ℤ
minus (pos a) (pos b) = sub_nat a b
minus (pos a) (negsuc b) = pos (a + b + 1)
minus (negsuc a) (pos b) = negsuc (a + b)
minus (negsuc a) (negsuc b) = sub_nat b a
