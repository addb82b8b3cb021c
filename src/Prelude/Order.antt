-- ===== src/Prelude/Order.antt =====
-- Boolean tests on numbers.
use Prim.Native.Nat.{ℕ, compare, Ordering}
use mathlib.Core.Bool.{Bool, true, false}
use mathlib.Core.Path.{◌≡◌}
use native.Mathlib.Omega.{arith}

abbrev pub ltb : ℕ → ℕ → Bool
ltb a b = elim (compare a b) [ Ordering.lt ↦ true | _ ↦ false ]

infix 50 ◌==◌
abbrev pub ◌==◌ : ℕ → ℕ → Bool
a == b = elim (compare a b) [ Ordering.eq ↦ true | _ ↦ false ]

-- The test by a name, beside that of texts.
abbrev pub eqb : ℕ → ℕ → Bool
eqb a b = a == b

pub eqb_same : (a b : ℕ) → a ≡ b → eqb a b ≡ true
eqb_same a b e = ground arith
