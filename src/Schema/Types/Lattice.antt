-- ===== src/Schema/Types/Lattice.antt =====
-- The laws of the inference lattice of src/schema.rs.
use mathlib.Core.List.{Perm, Permᴰ}
use mathlib.Core.Logic.{∥∥₁_elim}
use mathlib.Core.Path.{ap₂}
use data_spark.Prelude.{true, List, [], ◌∷◌, ◌≡◌, refl, ◌↔◌, ◌∙◌, ap, arith, All}
use data_spark.Schema.Types.{
  InferredType, FieldType, merge, field_type, fits_expected_type, observe_column,
}

-- `merge` is a commutative, idempotent and associative join with `Null` as its identity.
pub merge_comm : (a b : InferredType) → merge a b ≡ merge b a
unfolding merge
merge_comm a b = ground arith

pub merge_assoc : (a b c : InferredType) → merge (merge a b) c ≡ merge a (merge b c)
unfolding merge
merge_assoc a b c = ground arith

pub merge_self : (a : InferredType) → merge a a ≡ a
unfolding merge
merge_self a = ground arith

fits-merge :
    (a b : InferredType) (expected : FieldType)
    → (fits_expected_type (merge a b) expected ≡ true)
      ↔ ((fits_expected_type a expected ≡ true) × (fits_expected_type b expected ≡ true))
unfolding fits_expected_type
fits-merge a b expected = ground arith

-- A column of values fits a field type as a whole exactly if what was seen before fits and each
-- value fits by itself.
pub fits-observe_column :
    (expected : FieldType) (seen : InferredType) (ts : List InferredType)
    → (fits_expected_type (observe_column seen ts) expected ≡ true) ↔ (
        (fits_expected_type seen expected ≡ true)
        × All (λ t. fits_expected_type t expected ≡ true) ts)
unfolding observe_column
fits-observe_column expected seen [] = ((λ h. (h, tt)), λ h. h.0)
fits-observe_column expected seen (t ∷ ts) = (
  λ h.
      let (both, rest) = (fits-observe_column expected (merge seen t) ts).0 h in
      let (l, r) = (fits-merge seen t expected).0 both in (l, (r, rest)),
  λ h.
      (fits-observe_column expected (merge seen t) ts).1
        ((fits-merge seen t expected).1 (h.0, h.1.0), h.1.1),
)

-- Every value of a column fits the type that inference gives the column.
pub observed-fits :
    (ts : List InferredType)
    → All (λ t. fits_expected_type t (field_type (observe_column InferredType.null ts)) ≡ true) ts
observed-fits ts =
    ((fits-observe_column (field_type column) InferredType.null ts).0 (self-fits column)).1
  where
    column : InferredType
    column = observe_column InferredType.null ts

    self-fits : (t : InferredType) → fits_expected_type t (field_type t) ≡ true
    self-fits t = unfold fits_expected_type field_type in ground arith

swap_merge : (seen a b : InferredType) → merge (merge seen a) b ≡ merge (merge seen b) a
unfolding merge
swap_merge seen a b = ground arith

observe_column-Permᴰ :
    {ts us : List InferredType}
    → Permᴰ ts us
    → (seen : InferredType) → observe_column seen ts ≡ observe_column seen us
unfolding observe_column
observe_column-Permᴰ Permᴰ.nil seen = refl
observe_column-Permᴰ (Permᴰ.cons {a = a} {l₂ = us} e p) seen =
    observe_column-Permᴰ p (merge seen a) ∙ ap (λ t. observe_column (merge seen t) us) e
observe_column-Permᴰ (Permᴰ.swap {a = a} {b = b} {l = l} e f) seen =
    ap (λ t. observe_column t l) (swap_merge seen a b)
    ∙ ap₂ (λ t u. observe_column (merge (merge seen t) u) l) f e
observe_column-Permᴰ (Permᴰ.trans p q) seen =
    observe_column-Permᴰ p seen ∙ observe_column-Permᴰ q seen

-- The inferred type of a column does not depend on the order of its values.
pub observe_column-eq_of_perm :
    {ts us : List InferredType}
    → Perm ts us
    → observe_column InferredType.null ts ≡ observe_column InferredType.null us
observe_column-eq_of_perm {ts} {us} p =
    ∥∥₁_elim p (InferredType-set _ _) (λ q. observe_column-Permᴰ q InferredType.null)
  where
    InferredType-set : IsSet InferredType
    InferredType-set = hlevel
