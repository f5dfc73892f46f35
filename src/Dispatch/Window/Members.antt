-- ===== src/Dispatch/Window/Members.antt =====
-- Membership in the dispatcher's lists, by recursion, and the lowest failure of a list.
use data_spark.Prelude.{
  ℕ, ◌+◌, ◌≤◌, none, some, List, [], ◌∷◌, ◌++◌, ◌≡◌, ◌≢◌, refl, ◌⊎◌, inl, inr, arith, leb, length,
  Bool-cases, leb→le, subst,
}
use data_spark.Failure.{DestinationWriteFailure}
use data_spark.Dispatch.Window.{remove, lowest}

-- The pair (i, a) stands in the list.
abbrev pub Has : {A : Type 0} → ℕ → A → List (ℕ × A) → Type 0
Has i a [] = ⊥
Has i a ((j, b) ∷ l) = ((i ≡ j) × (a ≡ b)) ⊎ Has i a l

pub Has-append : {A : Type 0} (i : ℕ) (a : A) (l r : List (ℕ × A)) → Has i a l → Has i a (l ++ r)
Has-append i a [] r h = absurd h
Has-append i a ((j, b) ∷ l) r (inl e) = inl e
Has-append i a ((j, b) ∷ l) r (inr h) = inr (Has-append i a l r h)

pub Has-last : {A : Type 0} (i : ℕ) (a : A) (l : List (ℕ × A)) → Has i a (l ++ (i, a) ∷ [])
Has-last i a [] = inl (refl, refl)
Has-last i a ((j, b) ∷ l) = inr (Has-last i a l)

-- Only the last element is new.
pub Has-snoc :
    {A : Type 0} (i j : ℕ) (a b : A) (l : List (ℕ × A))
    → Has i a (l ++ (j, b) ∷ [])
    → Has i a l ⊎ ((i ≡ j) × (a ≡ b))
Has-snoc i j a b [] (inl e) = inr e
Has-snoc i j a b [] (inr h) = absurd h
Has-snoc i j a b ((k, c) ∷ l) (inl e) = inl (inl e)
Has-snoc i j a b ((k, c) ∷ l) (inr h) = elim (Has-snoc i j a b l h) [
  | inl m ↦ inl (inr m)
  | inr e ↦ inr e
]

pub Has-of_remove :
    {A : Type 0} (i j : ℕ) (a : A) (l : List (ℕ × A)) → Has j a (remove i l) → Has j a l
unfolding remove
Has-of_remove i j a [] h = h
Has-of_remove i j a ((k, b) ∷ l) h = ground (arith, Has-of_remove i j a l)

pub Has-remove :
    {A : Type 0} (i j : ℕ) (a : A) (l : List (ℕ × A)) → j ≢ i → Has j a l → Has j a (remove i l)
unfolding remove
Has-remove i j a [] ne h = absurd h
Has-remove i j a ((k, b) ∷ l) ne h = ground (arith, Has-remove i j a l ne)

pub length-remove :
    {A : Type 0} (i : ℕ) (a : A) (l : List (ℕ × A)) → Has i a l → length (remove i l) + 1 ≡ length l
unfolding remove
length-remove i a [] h = absurd h
length-remove i a ((k, b) ∷ l) h = ground (arith, length-remove i a l)

-- The lowest failure stands in the list, and no other has a lower index.
abbrev pub IsLowest : ℕ → DestinationWriteFailure → List (ℕ × DestinationWriteFailure) → Type 0
IsLowest i f l = Has i f l × ((j : ℕ) (g : DestinationWriteFailure) → Has j g l → i ≤ j)

pub lowest-IsLowest :
    (l : List (ℕ × DestinationWriteFailure))
    → ((l ≡ []) × (lowest l ≡ none))
      ⊎ ((i : ℕ) × (f : DestinationWriteFailure) × (lowest l ≡ some (i, f)) × IsLowest i f l)
unfolding lowest
lowest-IsLowest [] = inl (refl, refl)
lowest-IsLowest ((i, f) ∷ l) = elim (lowest-IsLowest l) [
  | inl (e, n) ↦ inr (i, f, rw (n, lowest), (inl (refl, refl), only e))
  | inr (k, g, e, (has, least)) ↦ elim (Bool-cases (leb i k)) [
    | inl t ↦
        inr (i, f, rw (e, lowest) (rw t), (inl (refl, refl), head_least k least (leb→le i k t)))
    | inr t ↦ inr (k, g, rw (e, lowest) (rw t), (inr has, rest_least k least (ground arith)))
  ]
]
  where
    only : l ≡ [] → (j : ℕ) (g : DestinationWriteFailure) → Has j g ((i, f) ∷ l) → i ≤ j
    only e j g (inl (p, q)) = omega arith
    only e j g (inr h) = absurd (subst (Has j g) e h)

    head_least :
        (k : ℕ)
        → ((j : ℕ) (g : DestinationWriteFailure) → Has j g l → k ≤ j)
        → i ≤ k
        → (j : ℕ) (g : DestinationWriteFailure) → Has j g ((i, f) ∷ l)
        → i ≤ j
    head_least k least le j g (inl (p, q)) = omega arith
    head_least k least le j g (inr h) = omega (arith, least j g h)

    rest_least :
        (k : ℕ)
        → ((j : ℕ) (g : DestinationWriteFailure) → Has j g l → k ≤ j)
        → k ≤ i
        → (j : ℕ) (g : DestinationWriteFailure) → Has j g ((i, f) ∷ l)
        → k ≤ j
    rest_least k least le j g (inl (p, q)) = omega arith
    rest_least k least le j g (inr h) = least j g h
