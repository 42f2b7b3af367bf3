-- ===== src/Common/Objects.antt =====
-- An object literal, with spreads, as the list of its fields in order: the last write wins.
use Prim.Native.String.{String}
use mathlib.Core.Path.{◌≡◌, refl}
use mathlib.Core.Option.{Option, none, some}
use mathlib.Core.List.{List, [], ◌∷◌, ◌++◌}
use native.Mathlib.Omega.{arith}
use brain_mate.Common.Tests.{if◌then◌else◌}
use brain_mate.Common.Texts.{str_eq}

abbrev pub Fields : Type 0
Fields = List (String × String)

abbrev pub over {ℓ} : {A : Type ℓ} → Option A → Option A → Option A
over (some a) o = some a
over none o = o

abbrev pub field : String → Fields → Option String
field k [] = none
field k ((j, v) ∷ m) = over (field k m) (if str_eq j k then some v else none)

over_assoc {ℓ} : {A : Type ℓ} (a b c : Option A) → over a (over b c) ≡ over (over a b) c
over_assoc none b c = refl
over_assoc (some a) b c = refl

pub field-append : (f : String) (a b : Fields) → field f (a ++ b) ≡ over (field f b) (field f a)
field-append f [] b = ground arith
field-append f ((k, v) ∷ a) b = ground (
  arith,
  field-append f a b,
  over_assoc (field f b) (field f a) (if str_eq k f then some v else none),
)
