-- ===== src/Statistics/Sorting.antt =====
-- engine/statistics.py: sorting the passes and segments of a pair keeps them.
use openleo.Prelude.{ℕ, ◌≡◌, if_split, ◌⊎◌, inl, inr, List, [], ◌∷◌, In, here, there}
use openleo.Measure.{before}
use openleo.Statistics.{insert_by, sorted_by}

module _ {A : Type 0} (span : A → ℕ × ℕ) where
  In-insert_by : (x y : A) (l : List A) → (x ≡ y) ⊎ In x l → In x (insert_by span y l)
  In-insert_by x y [] (inl e) = here e
  In-insert_by x y [] (inr i) = elim i [ ]
  In-insert_by x y (z ∷ l) d =
      if_split (In x) (before (span y) (span z)) (λ _. elim d [ inl e ↦ here e | inr i ↦ there i ])
        (λ _. elim d [
          | inl e ↦ there (In-insert_by x y l (inl e))
          | inr i ↦ elim i [ here e ↦ here e | there k ↦ there (In-insert_by x y l (inr k)) ]
        ])

  insert_by-In : (x y : A) (l : List A) → In x (insert_by span y l) → (x ≡ y) ⊎ In x l
  insert_by-In x y [] = λ i. elim i [ here e ↦ inl e | there k ↦ inr k ]
  insert_by-In x y (z ∷ l) =
      if_split (λ r. In x r → (x ≡ y) ⊎ In x (z ∷ l)) (before (span y) (span z))
        (λ _ i. elim i [ here e ↦ inl e | there k ↦ inr k ])
        (λ _ i. elim i [
          | here e ↦ inr (here e)
          | there k ↦ elim (insert_by-In x y l k) [ inl e ↦ inl e | inr m ↦ inr (there m) ]
        ])

  -- Sorting keeps the items.
  pub In-sorted_by : (x : A) (l : List A) → In x l → In x (sorted_by span l)
  In-sorted_by x [] i = i
  In-sorted_by x (y ∷ l) (here e) = In-insert_by x y (sorted_by span l) (inl e)
  In-sorted_by x (y ∷ l) (there i) = In-insert_by x y (sorted_by span l) (inr (In-sorted_by x l i))

  pub sorted_by-In : (x : A) (l : List A) → In x (sorted_by span l) → In x l
  sorted_by-In x [] i = i
  sorted_by-In x (y ∷ l) i = elim (insert_by-In x y (sorted_by span l) i) [
    | inl e ↦ here e
    | inr k ↦ there (sorted_by-In x l k)
  ]
