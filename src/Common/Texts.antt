-- ===== src/Common/Texts.antt =====
-- Keys that are built from a fixed prefix: two prefixes of which none extends the other never
-- meet, and one prefix keeps its arguments apart.
use Prim.Native.String
use Prim.Native.String.{String, count}
use mathlib.Core.Path.{◌≡◌, ◌∙◌, refl, ap}
use mathlib.Core.Logic.{◌≢◌}
use mathlib.Core.Bool.{Bool, true, false, false≢true}
use native.Mathlib.Omega.{arith}
use Prim.Native.Nat.{zero, ◌<◌}
use text.Mathlib.Text.{◌==◌}
use text.Mathlib.TextLemmas.{append_inj, append_assoc, length-append}
use text.Mathlib.TextEquality.{eq_iff}

infixr 66 ◌<>◌
abbrev pub ◌<>◌ : String → String → String
s <> t = String.◌++◌ s t

-- The equality test of texts, under a name of its own beside that of numbers.
abbrev pub str_eq : String → String → Bool
str_eq s t = s == t

pub str_eq-false : (s t : String) → s ≢ t → str_eq s t ≡ false
str_eq-false s t h = ground (arith, eq_iff s t)

-- The second prefix is given in two parts, of which the first is as long as the first prefix.
pub apart :
    (p q r x y : String) → str_eq p q ≡ false → count p ≡ count q → (p <> x) ≢ ((q <> r) <> y)
apart p q r x y h k e =
    let same = append_inj (e ∙ append_assoc q r y) k in ground (arith, eq_iff p q, same.0)

-- One text is not both after a prefix and after the same prefix and more.
pub extended : (p q x : String) → zero < count q → (p <> x) ≢ ((p <> q) <> x)
extended p q x h e =
    absurd
      (omega (arith, ap count e, length-append p x, length-append (p <> q) x, length-append p q))

decided {ℓ} : {A : Type ℓ} (b : Bool) → (b ≡ true → A) → (A → b ≡ true) → Dec A
decided true f g = yes (f refl)
decided false f g = no (λ a. false≢true (g a))

unfoldable pub string_discrete : Discrete String
unfolding decided
string_discrete s t = decided (s == t) (eq_iff s t).0 (eq_iff s t).1
