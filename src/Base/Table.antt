-- ===== src/Base/Table.antt =====
-- Facts about small numbers, checked value by value.
use Prim.Native.Nat.{ℕ, zero, suc, ◌<◌}
use mathlib.Core.Path.{◌≡◌}
use mathlib.Core.Bool.{Bool, true, ◌&&◌}
use native.Mathlib.Omega.{arith}

-- The test passes at every number below `n`.
unfoldable pub passes_below : ℕ → (ℕ → Bool) → Bool
passes_below zero test = true
passes_below (suc n) test = test n && passes_below n test

pub passes_below_sound :
    (n : ℕ) (test : ℕ → Bool) (x : ℕ) → passes_below n test ≡ true → x < n → test x ≡ true
unfolding passes_below
passes_below_sound zero test x h lt = absurd (omega arith)
passes_below_sound (suc n) test x h lt = ground (arith, passes_below_sound n test x)
