-- ===== src/Measure/Tests.antt =====
-- engine/integrate.py: the measure of a few intervals.
use openleo.Prelude.{
  ℕ, if◌then◌else◌, none, some, List, [], ◌∷◌, ◌≡◌, refl, arith, count_below, zip3,
}
use openleo.Measure.{proper, sort, runs, measure, all_ordered, spans, integrate_piecewise}
use openleo.Measure.Union.{covers, measure-count}
use openleo.Measure.Steps.{sum_below, height, integrate-height}

program : Unit {0}
unfolding proper sort runs measure integrate_piecewise count_below zip3
program = tt

abbrev overlapping : List (ℕ × ℕ)
overlapping = (5, 8) ∷ (0, 3) ∷ (2, 4) ∷ (7, 7) ∷ []

measured : measure overlapping ≡ some 7
unfolding program
measured = refl

measure-count_example :
    measure overlapping
    ≡ (if all_ordered overlapping then some (count_below 10 (covers overlapping)) else none)
measure-count_example = measure-count 10 overlapping (omega arith)

abbrev steps : List ((ℕ × ℕ) × ℕ)
steps = ((0, 3), 5) ∷ ((2, 4), 1) ∷ []

integrate-height_example :
    integrate_piecewise (0 ∷ 2 ∷ []) (3 ∷ 4 ∷ []) (5 ∷ 1 ∷ [])
    ≡ (if all_ordered (spans steps) then some (sum_below 6 (height steps)) else none)
unfolding program
integrate-height_example =
    integrate-height 6 (0 ∷ 2 ∷ []) (3 ∷ 4 ∷ []) (5 ∷ 1 ∷ []) steps refl (omega arith)
