-- ===== src/Prelude/Names.antt =====
-- Texts have decidable equality, so they form a set. Sets of names, as lists of their members.
use Prim.Native.String.{String}
use mathlib.Core.Logic.{inl, inr, ◌↔◌}
use mathlib.Core.Path.{◌≡◌, refl, sym}
use mathlib.Core.Bool.{Bool, true, false, ◌||◌}
use mathlib.Core.List.{List, [], ◌∷◌}
use native.Mathlib.Omega.{arith}
use data_spark.Prelude.Lists.{All}
use mathlib.Core.HLevel.{hedberg}
use text.Mathlib.Text.{◌==◌ as str_eq}
use text.Mathlib.TextEquality.{eq_iff}
use data_spark.Prelude.Tests.{Bool-cases}

pub String-discrete : Discrete String
String-discrete s t = elim (Bool-cases (str_eq s t)) [
  | inl e ↦ yes ((eq_iff s t).0 e)
  | inr e ↦ no (λ p. cc ((eq_iff s t).1 p))
]

pub String-set : IsSet String
String-set = hedberg String-discrete

-- `HashSet::contains`
unfoldable pub contains : String → List String → Bool
contains name [] = false
contains name (other ∷ names) = str_eq other name || contains name names

-- Each name once.
abbrev pub Distinct : List String → Type 0
Distinct [] = Unit
Distinct (name ∷ names) = (contains name names ≡ false) × Distinct names

-- None of the names is in the set.
abbrev pub Fresh : List String → List String → Type 0
Fresh seen names = All (λ name. contains name seen ≡ false) names

str_eq_comm : (s t : String) → str_eq s t ≡ true → str_eq t s ≡ true
str_eq_comm s t h = (eq_iff t s).1 (sym ((eq_iff s t).0 h))

pub Fresh-cons :
    (name : String) (seen names : List String)
    → Fresh (name ∷ seen) names ↔ ((contains name names ≡ false) × Fresh seen names)
unfolding contains
Fresh-cons name seen [] = (λ h. (refl, tt), λ h. tt)
Fresh-cons name seen (other ∷ names) = (
  λ h.
      ground
        (arith, h, (Fresh-cons name seen names).0, str_eq_comm name other, str_eq_comm other name),
  λ h.
      ground
        (arith, h, (Fresh-cons name seen names).1, str_eq_comm name other, str_eq_comm other name),
)

pub Fresh-none : (names : List String) → Fresh [] names
unfolding contains
Fresh-none [] = tt
Fresh-none (name ∷ names) = (refl, Fresh-none names)
