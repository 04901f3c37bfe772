-- ===== src/Measure.antt =====
-- engine/integrate.py: the measure of a union of intervals, and the integral of a step function.
-- A time is a number of ticks, so the sums, which the source rounds once, are exact here.
mod Tests
pub mod Union
pub mod Steps
use openleo.Prelude.{
  ℕ, ◌+◌, ◌-◌, ◌*◌, max, leb, ltb, ◌==◌, if◌then◌else◌, Bool, true, false, ◌&&◌, ◌||◌, Option, none,
  some, List, [], ◌∷◌, zip3,
}

abbrev pub sum : List ℕ → ℕ
sum [] = 0
sum (x ∷ xs) = x + sum xs

-- `start <= end` for every interval.
abbrev pub all_ordered : List (ℕ × ℕ) → Bool
all_ordered [] = true
all_ordered ((s, e) ∷ l) = leb s e && all_ordered l

unfoldable pub proper : List (ℕ × ℕ) → List (ℕ × ℕ)
proper [] = []
proper ((s, e) ∷ l) = if ltb s e then (s, e) ∷ proper l else proper l

-- The order of tuples.
abbrev pub before : ℕ × ℕ → ℕ × ℕ → Bool
before (a, b) (c, d) = ltb a c || (a == c && leb b d)

insert : ℕ × ℕ → List (ℕ × ℕ) → List (ℕ × ℕ)
insert x [] = x ∷ []
insert x (y ∷ l) = if before x y then x ∷ y ∷ l else y ∷ insert x l

-- `pairs.sort()`.
unfoldable pub sort : List (ℕ × ℕ) → List (ℕ × ℕ)
unfolding insert
sort [] = []
sort (x ∷ l) = insert x (sort l)

-- The loop over the sorted intervals: the lengths of the maximal runs.
unfoldable pub runs : Option (ℕ × ℕ) → List (ℕ × ℕ) → List ℕ
runs none [] = []
runs (some (s, e)) [] = (e - s) ∷ []
runs none ((s, e) ∷ l) = runs (some (s, e)) l
runs (some (s, e)) ((a, b) ∷ l) = elim (leb a e) [
  | true ↦ runs (some (s, max e b)) l
  | false ↦ (e - s) ∷ runs (some (a, b)) l
]

-- `none` is a ValueError.
unfoldable pub measure : List (ℕ × ℕ) → Option ℕ
measure l = if all_ordered l then some (sum (runs none (sort (proper l)))) else none

abbrev pub areas : List ((ℕ × ℕ) × ℕ) → ℕ
areas [] = 0
areas (((s, e), v) ∷ l) = v * (e - s) + areas l

abbrev pub spans : List ((ℕ × ℕ) × ℕ) → List (ℕ × ℕ)
spans [] = []
spans ((i, v) ∷ l) = i ∷ spans l

-- The three arrays are zipped; arrays of different lengths are a ValueError, as is an interval that
-- ends before it starts.
unfoldable pub integrate_piecewise : List ℕ → List ℕ → List ℕ → Option ℕ
integrate_piecewise starts ends values = elim (zip3 starts ends values) [
  | none ↦ none
  | some l ↦ if all_ordered (spans l) then some (areas l) else none
]
