-- ===== src/Prelude/Texts.antt =====
-- What the test `==` on texts decides.
use Prim.Native.String.{String}
use mathlib.Core.Path.{◌≡◌}
use mathlib.Core.Logic.{◌≢◌}
use mathlib.Core.Bool.{true, false}
use native.Mathlib.Omega.{arith}
use text.Mathlib.Text.{◌==◌}
use text.Mathlib.TextEquality.{eq_iff}

pub ==→eq : (a b : String) → (a == b) ≡ true → a ≡ b
==→eq a b h = (eq_iff a b).0 h

pub ==→ne : (a b : String) → (a == b) ≡ false → a ≢ b
==→ne a b h e = ground (arith, eq_iff a b)

pub ne→== : (a b : String) → a ≢ b → (a == b) ≡ false
ne→== a b h = ground (arith, eq_iff a b)
