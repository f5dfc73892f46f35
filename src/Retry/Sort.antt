-- ===== src/Retry/Sort.antt =====
-- A stable sort, as `slice::sort_by_key` gives: with a total order on keys the result is determined
-- by the list, and by its elements alone where all keys differ.
use mathlib.Core.List.{Perm, Permᴰ}
use mathlib.Core.Logic.{∥∥₁_elim}
use data_spark.Prelude.{
  Bool, true, List, [], ◌∷◌, ◌≡◌, refl, ap, ◌∙◌, arith, if◌then◌else◌, All, ◌⊎◌, subst,
}
use mathlib.Core.Path.{ap₂}

All-Permᴰ : {A : Type 0} (P : A → Type 0) {xs ys : List A} → Permᴰ xs ys → All P xs → All P ys
All-Permᴰ P Permᴰ.nil h = tt
All-Permᴰ P (Permᴰ.cons e p) h = (subst P e h.0, All-Permᴰ P p h.1)
All-Permᴰ P (Permᴰ.swap e f) h = (subst P f h.1.0, (subst P e h.0, h.1.1))
All-Permᴰ P (Permᴰ.trans p q) h = All-Permᴰ P q (All-Permᴰ P p h)

module _ {A : Type 0} (le : A → A → Bool) where
  abbrev pub insert : A → List A → List A
  insert x [] = x ∷ []
  insert x (y ∷ ys) = if le x y then x ∷ y ∷ ys else y ∷ insert x ys

  unfoldable pub sort : List A → List A
  sort [] = []
  sort (x ∷ xs) = insert x (sort xs)

  -- Neighbours are in order.
  abbrev pub IsSorted : List A → Type 0
  IsSorted [] = Unit
  IsSorted (x ∷ xs) = All (λ y. le x y ≡ true) xs × IsSorted xs

  pub sort-eq_of_IsSorted : (xs : List A) → IsSorted xs → sort xs ≡ xs
  unfolding sort
  sort-eq_of_IsSorted [] h = refl
  sort-eq_of_IsSorted (x ∷ []) h = refl
  sort-eq_of_IsSorted (x ∷ y ∷ xs) h = ap (insert x) (sort-eq_of_IsSorted (y ∷ xs) h.1) ∙ rw h.0.0

  -- The keys of x and y differ.
  abbrev pub Differ : A → A → Type 0
  Differ x y = (le x y ≡ true) → (le y x ≡ true) → ⊥

  abbrev pub AllDiffer : List A → Type 0
  AllDiffer [] = Unit
  AllDiffer (x ∷ xs) = All (Differ x) xs × AllDiffer xs

  Differ-symm : (x y : A) → Differ x y → Differ y x
  Differ-symm x y d p q = d q p

  AllDiffer-Permᴰ : {xs ys : List A} → Permᴰ xs ys → AllDiffer xs → AllDiffer ys
  AllDiffer-Permᴰ Permᴰ.nil h = tt
  AllDiffer-Permᴰ (Permᴰ.cons {a = a} {l₂ = ys} e p) h =
      (subst (λ c. All (Differ c) ys) e (All-Permᴰ (Differ a) p h.0), AllDiffer-Permᴰ p h.1)
  AllDiffer-Permᴰ (Permᴰ.swap {a = a} {b = b} {b' = b'} {l = l} e f) h = (
    (
      subst (λ c. Differ c b') f (subst (Differ b) e (Differ-symm a b h.0.0)),
      subst (λ c. All (Differ c) l) f h.1.0,
    ),
    (subst (λ c. All (Differ c) l) e h.0.1, h.1.1),
  )
  AllDiffer-Permᴰ (Permᴰ.trans p q) h = AllDiffer-Permᴰ q (AllDiffer-Permᴰ p h)

  module _ (total : (x y : A) → (le x y ≡ true) ⊎ (le y x ≡ true))
      (trans : (x y z : A) → le x y ≡ true → le y z ≡ true → le x z ≡ true) where
    insert_comm :
        (x y : A) (l : List A) → Differ x y → insert x (insert y l) ≡ insert y (insert x l)
    insert_comm x y [] d = ground (arith, total x y)
    insert_comm x y (z ∷ l) d = ground (
      arith,
      total x y,
      total x z,
      total y z,
      trans x y z,
      trans y x z,
      trans x z y,
      trans y z x,
      insert_comm x y l d,
    )

    sort-Permᴰ : {xs ys : List A} → Permᴰ xs ys → AllDiffer xs → sort xs ≡ sort ys
    unfolding sort
    sort-Permᴰ Permᴰ.nil h = refl
    sort-Permᴰ (Permᴰ.cons {a = a} {l₁ = xs} {l₂ = ys} e p) h =
        ap (insert a) (sort-Permᴰ p h.1) ∙ ap (λ c. insert c (sort ys)) e
    sort-Permᴰ (Permᴰ.swap {a = a} {b = b} {l = l} e f) h =
        insert_comm a b (sort l) h.0.0 ∙ ap₂ (λ c d. insert c (insert d (sort l))) f e
    sort-Permᴰ (Permᴰ.trans p q) h = sort-Permᴰ p h ∙ sort-Permᴰ q (AllDiffer-Permᴰ p h)

    -- The sorted list does not depend on the order of the elements.
    pub sort-eq_of_perm : IsSet A → {xs ys : List A} → Perm xs ys → AllDiffer xs → sort xs ≡ sort ys
    sort-eq_of_perm set {xs} {ys} p h =
        ∥∥₁_elim p (list_set (sort xs) (sort ys)) (λ q. sort-Permᴰ q h)
      where
        list_set : IsSet (List A)
        list_set = hlevel set
