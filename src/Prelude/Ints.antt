-- ===== src/Prelude/Ints.antt =====
-- C's `gint`, as far as the program looks at it: signs, and the wrap from `guint`.
use Prim.Native.Nat.{ℕ, ◌-◌, ◌^◌, ◌<◌}
use native.Mathlib.Omega.{arith}
use mathlib.Core.Path.{◌≡◌}
use mathlib.Core.Bool.{true, false}
use urfkill.Prelude.Tests.{ltb, if◌then◌else◌}

-- `negsuc n` is -(n + 1).
pub data ℤ : Type 0 where
  pos : ℕ → ℤ
  negsuc : ℕ → ℤ

-- A 32-bit unsigned value stored in a `gint`.
pub to_gint : ℕ → ℤ
to_gint n = if ltb n (2 ^ 31) then pos n else negsuc (2 ^ 32 - 1 - n)

pub to_gint-small : (n : ℕ) → ltb n (2 ^ 31) ≡ true → to_gint n ≡ pos n
unfolding to_gint
to_gint-small n h = rw h

pub to_gint-large : (n : ℕ) → ltb n (2 ^ 31) ≡ false → to_gint n ≡ negsuc (2 ^ 32 - 1 - n)
unfolding to_gint
to_gint-large n h = rw h

-- A `gint` passed to g_variant_new for a `u`.
abbrev pub to_guint : ℤ → ℕ
to_guint (pos n) = n
to_guint (negsuc n) = 2 ^ 32 - 1 - n

-- The range of a `gint`, whose least value is -(2 ^ 31).
abbrev pub IsGint : ℤ → Type 0
IsGint (pos n) = n < 2 ^ 31
IsGint (negsuc n) = n < 2 ^ 31

-- A `gint` that is sent as a `u` and stored in a `gint` is the same.
pub to_gint-to_guint : (i : ℤ) → IsGint i → to_gint (to_guint i) ≡ i
unfolding to_gint
to_gint-to_guint (pos n) h = ground arith
to_gint-to_guint (negsuc n) h = ground arith
