-- ===== src/Connector/Chunks/Cut.antt =====
-- Cutting the survivors of a pass into chunks.
use data_spark.Prelude.{append_assoc}
use data_spark.Prelude.{
  ℕ, ◌<◌, true, false, List, [], ◌∷◌, ◌++◌, ◌≡◌, refl, ap, ◌∙◌, length, length-append, ◌==◌, arith,
  All, Bool-cases, inl, inr,
}

-- The chunks of `rows` elements, and what is left over, with elements that are already in a chunk.
unfoldable pub cut : {R : Type 0} → ℕ → List R → List R → List (List R) × List R
cut rows partial [] = ([], partial)
cut rows partial (r ∷ rs) = elim (length (partial ++ r ∷ []) == rows) [
  | true ↦ ((partial ++ r ∷ []) ∷ (cut rows [] rs).0, (cut rows [] rs).1)
  | false ↦ cut rows (partial ++ r ∷ []) rs
]

pub not_full :
    {R : Type 0} (rs : List R) (r : R) (rows : ℕ)
    → length rs < rows
    → (length (rs ++ r ∷ []) == rows) ≡ false
    → length (rs ++ r ∷ []) < rows
not_full rs r rows short f = ground (arith, length-append rs (r ∷ []))

-- `concat`
unfoldable pub concat : {R : Type 0} → List (List R) → List R
concat [] = []
concat (rs ∷ rest) = rs ++ concat rest

append_nil : {R : Type 0} (xs : List R) → xs ≡ xs ++ []
append_nil [] = refl
append_nil (x ∷ xs) = ap (λ rest. x ∷ rest) (append_nil xs)

-- Nothing is lost, doubled or moved by the cut.
pub concat-cut :
    {R : Type 0} (rows : ℕ) (partial rs : List R)
    → concat (cut rows partial rs).0 ++ (cut rows partial rs).1 ≡ partial ++ rs
unfolding cut concat
concat-cut rows partial [] = append_nil partial
concat-cut rows partial (r ∷ rs) = elim (Bool-cases (length (partial ++ r ∷ []) == rows)) [
  | inl t ↦
      rw (t, cut)
        (append_assoc (partial ++ r ∷ []) (concat (cut rows [] rs).0) (cut rows [] rs).1
          ∙ ap (λ rest. (partial ++ r ∷ []) ++ rest) (concat-cut rows [] rs)
          ∙ append_assoc partial (r ∷ []) rs)
  | inr f ↦ rw (f, cut) (concat-cut rows (partial ++ r ∷ []) rs ∙ append_assoc partial (r ∷ []) rs)
]

-- Every chunk has `rows` elements and what is left over has fewer.
pub cut-sizes :
    {R : Type 0} (rows : ℕ) (partial rs : List R)
    → length partial < rows
    → All (λ chunk. length chunk ≡ rows) (cut rows partial rs).0
      × (length (cut rows partial rs).1 < rows)
unfolding cut
cut-sizes rows partial [] short = (tt, short)
cut-sizes rows partial (r ∷ rs) short = elim (Bool-cases (length (partial ++ r ∷ []) == rows)) [
  | inl t ↦
      rw (t, cut)
        (let rest = cut-sizes rows [] rs (omega arith) in ((ground arith, rest.0), rest.1))
  | inr f ↦ rw (f, cut) (cut-sizes rows (partial ++ r ∷ []) rs (not_full partial r rows short f))
]
