-- ===== src/Prelude/Texts.antt =====
-- Text as JavaScript holds it: a sequence of UTF-16 code units. `lit` reads a literal of the
-- source, whose characters all lie in the basic multilingual plane, where the two agree.
use Prim.Native.Nat.{ℕ}
use Prim.Native.Char.{code}
use Prim.Native.String.{String}
use mathlib.Core.Path.{◌≡◌, refl}
use mathlib.Core.Logic.{◌↔◌}
use mathlib.Core.Bool.{Bool, true, false, ◌&&◌}
use mathlib.Core.List.{List, [], ◌∷◌}
use native.Mathlib.Omega.{arith}
use zen_pm.Prelude.Tests.{◌==◌}

abbrev pub Text : Type 0
Text = List ℕ

abbrev codes : String → Text
codes String.[] = []
codes (String.◌∷◌ c s) = code c ∷ codes s

unfoldable pub lit : String → Text
lit s = codes s

-- `===` on strings
infix 50 ◌===◌
unfoldable pub ◌===◌ : Text → Text → Bool
[] === [] = true
[] === (y ∷ t) = false
(x ∷ s) === [] = false
(x ∷ s) === (y ∷ t) = x == y && s === t

pub ===_sound : (s t : Text) → (s === t) ≡ true → s ≡ t
unfolding ◌===◌
===_sound [] [] h = refl
===_sound [] (y ∷ t) h = cc
===_sound (x ∷ s) [] h = cc
===_sound (x ∷ s) (y ∷ t) h = ground (arith, ===_sound s t)

pub ===_refl : (s : Text) → (s === s) ≡ true
unfolding ◌===◌
===_refl [] = refl
===_refl (x ∷ s) = ground (arith, ===_refl s)

pub ===_iff : (s t : Text) → ((s === t) ≡ true) ↔ (s ≡ t)
===_iff s t = (===_sound s t, λ e. rw e (===_refl t))

-- A string is truthy when it is not empty.
abbrev pub truthy : Text → Bool
truthy [] = false
truthy (x ∷ s) = true

-- `a || b` on strings
infixr 30 ◌or◌
abbrev pub ◌or◌ : Text → Text → Text
[] or b = b
(x ∷ s) or b = x ∷ s
