-- ===== src/Measure/Union.antt =====
-- engine/integrate.py: `measure` counts every instant of the union once.
use openleo.Prelude.{
  ℕ, ◌≤◌, ◌≡◌, refl, sym, ◌∙◌, max, leb, ltb, if◌then◌else◌, Bool, inl, inr, Bool-cases, if_split,
  false, ◌&&◌, ◌||◌, none, some, List, [], ◌∷◌, arith, count_below, count_below-ext, count_below-or,
  count_below-between, count_below-never,
}
use openleo.Measure.{sum, all_ordered, proper, before, insert, sort, runs, measure}

-- Whether the instant lies in one of the half-open intervals.
abbrev pub covers : List (ℕ × ℕ) → ℕ → Bool
covers [] t = false
covers ((s, e) ∷ l) t = (leb s t && ltb t e) || covers l t

abbrev pub Below : ℕ → List (ℕ × ℕ) → Type 0
Below n [] = Unit
Below n ((s, e) ∷ l) = (e ≤ n) × Below n l

abbrev Proper : List (ℕ × ℕ) → Type 0
Proper [] = Unit
Proper ((s, e) ∷ l) = (s ≤ e) × Proper l

abbrev From : ℕ → List (ℕ × ℕ) → Type 0
From n [] = Unit
From n ((s, e) ∷ l) = (n ≤ s) × From n l

abbrev Sorted : List (ℕ × ℕ) → Type 0
Sorted [] = Unit
Sorted ((s, e) ∷ l) = From s l × Sorted l

From-mono : (m n : ℕ) (l : List (ℕ × ℕ)) → m ≤ n → From n l → From m l
From-mono m n [] h f = tt
From-mono m n ((s, e) ∷ l) h f = (omega arith, From-mono m n l h f.1)

covers-proper : (l : List (ℕ × ℕ)) (t : ℕ) → covers (proper l) t ≡ covers l t
unfolding proper
covers-proper [] t = refl
covers-proper ((s, e) ∷ l) t = ground (arith, covers-proper l t)

covers-insert : (x : ℕ × ℕ) (l : List (ℕ × ℕ)) (t : ℕ) → covers (insert x l) t ≡ covers (x ∷ l) t
unfolding insert
covers-insert x [] t = refl
covers-insert (a, b) ((c, d) ∷ l) t = ground (arith, covers-insert (a, b) l t)

covers-sort : (l : List (ℕ × ℕ)) (t : ℕ) → covers (sort l) t ≡ covers l t
unfolding sort
covers-sort [] t = refl
covers-sort ((s, e) ∷ l) t = ground (arith, covers-insert (s, e) (sort l) t, covers-sort l t)

Proper-proper : (l : List (ℕ × ℕ)) → Proper (proper l)
unfolding proper
Proper-proper [] = tt
Proper-proper ((s, e) ∷ l) =
    if_split Proper (ltb s e) (λ h. (ground arith, Proper-proper l)) (λ _. Proper-proper l)

Proper-insert : (a b : ℕ) (l : List (ℕ × ℕ)) → a ≤ b → Proper l → Proper (insert (a, b) l)
unfolding insert
Proper-insert a b [] h p = (h, tt)
Proper-insert a b ((c, d) ∷ l) h p =
    if_split Proper (before (a, b) (c, d)) (λ _. (h, p)) (λ _. (p.0, Proper-insert a b l h p.1))

Proper-sort : (l : List (ℕ × ℕ)) → Proper l → Proper (sort l)
unfolding sort
Proper-sort [] p = tt
Proper-sort ((s, e) ∷ l) p = Proper-insert s e (sort l) p.0 (Proper-sort l p.1)

Below-proper : (n : ℕ) (l : List (ℕ × ℕ)) → Below n l → Below n (proper l)
unfolding proper
Below-proper n [] h = tt
Below-proper n ((s, e) ∷ l) h =
    if_split (Below n) (ltb s e) (λ _. (h.0, Below-proper n l h.1)) (λ _. Below-proper n l h.1)

Below-insert : (n a b : ℕ) (l : List (ℕ × ℕ)) → b ≤ n → Below n l → Below n (insert (a, b) l)
unfolding insert
Below-insert n a b [] h p = (h, tt)
Below-insert n a b ((c, d) ∷ l) h p =
    if_split (Below n) (before (a, b) (c, d)) (λ _. (h, p)) (λ _. (p.0, Below-insert n a b l h p.1))

Below-sort : (n : ℕ) (l : List (ℕ × ℕ)) → Below n l → Below n (sort l)
unfolding sort
Below-sort n [] p = tt
Below-sort n ((s, e) ∷ l) p = Below-insert n s e (sort l) p.0 (Below-sort n l p.1)

From-insert : (n a b : ℕ) (l : List (ℕ × ℕ)) → n ≤ a → From n l → From n (insert (a, b) l)
unfolding insert
From-insert n a b [] h p = (h, tt)
From-insert n a b ((c, d) ∷ l) h p =
    if_split (From n) (before (a, b) (c, d)) (λ _. (h, p)) (λ _. (p.0, From-insert n a b l h p.1))

Sorted-insert : (a b : ℕ) (l : List (ℕ × ℕ)) → Sorted l → Sorted (insert (a, b) l)
unfolding insert
Sorted-insert a b [] p = (tt, tt)
Sorted-insert a b ((c, d) ∷ l) p =
    if_split Sorted (before (a, b) (c, d))
      (λ h. let le : a ≤ c = ground arith in ((le, From-mono a c l le p.0), p))
      (λ h. (From-insert c a b l (ground arith) p.0, Sorted-insert a b l p.1))

Sorted-sort : (l : List (ℕ × ℕ)) → Sorted (sort l)
unfolding sort
Sorted-sort [] = tt
Sorted-sort ((s, e) ∷ l) = Sorted-insert s e (sort l) (Sorted-sort l)

-- An interval that ends before every later one starts covers no instant of theirs.
covers-From : (e : ℕ) (l : List (ℕ × ℕ)) (t : ℕ) → From e l → (ltb t e && covers l t) ≡ false
covers-From e [] t f = ground arith
covers-From e ((a, b) ∷ l) t f = ground (arith, covers-From e l t f.1)

runs-count :
    (n s e : ℕ) (l : List (ℕ × ℕ))
    → s ≤ e
    → e ≤ n
    → From s l
    → Sorted l
    → Proper l
    → Below n l
    → sum (runs (some (s, e)) l) ≡ count_below n (covers ((s, e) ∷ l))
unfolding runs
runs-count n s e [] h k f o p b = omega (
  arith,
  count_below-between n s e,
  count_below-ext n (covers ((s, e) ∷ [])) (λ t. leb s t && ltb t e) (λ t. ground arith),
)
runs-count n s e ((a, c) ∷ l) h k f o p b = elim (Bool-cases (leb a e)) [
  | inl near ↦
      rw (near, runs)
        (runs-count n s (max e c) l (omega arith) (omega arith) f.1 o.1 p.1 b.1
          ∙ count_below-ext n _ _ (λ t. ground arith))
  | inr far ↦
      rw (far, runs)
        (omega (
          arith,
          runs-count n a c l p.0 b.0 o.0 o.1 p.1 b.1,
          count_below-between n s e,
          count_below-or n (λ t. leb s t && ltb t e) (covers ((a, c) ∷ l))
              (λ t. ground (
                arith,
                covers-From e ((a, c) ∷ l) t (ground arith, From-mono e a l (ground arith) o.0),
              )),
        ))
]

runs-count_none :
    (n : ℕ) (l : List (ℕ × ℕ))
    → Sorted l
    → Proper l
    → Below n l
    → sum (runs none l) ≡ count_below n (covers l)
unfolding runs
runs-count_none n [] o p b = sym (count_below-never n)
runs-count_none n ((s, e) ∷ l) o p b = runs-count n s e l p.0 b.0 o.0 o.1 p.1 b.1

-- `measure` returns exactly if every interval has start <= end, and then returns the number of
-- instants below any bound of the ends that lie in at least one of the half-open intervals, however
-- the intervals are ordered and overlap.
pub measure-count :
    (n : ℕ) (l : List (ℕ × ℕ))
    → Below n l
    → measure l ≡ (if all_ordered l then some (count_below n (covers l)) else none)
unfolding measure
measure-count n l b =
    rw
      (runs-count_none n (sort (proper l)) (Sorted-sort (proper l))
        (Proper-sort (proper l) (Proper-proper l)) (Below-sort n (proper l) (Below-proper n l b)))
      (rw (
        count_below-ext n (covers (sort (proper l))) (covers l)
          (λ t. covers-sort (proper l) t ∙ covers-proper l t)))
