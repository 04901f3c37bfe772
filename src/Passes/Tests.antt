-- ===== src/Passes/Tests.antt =====
-- engine/events.py: passes of a few samples.
use openleo.Prelude.{
  ℕ, ◌≡◌, refl, Bool, true, false, ◌==◌, ◌&&◌, ◌⊎◌, none, some, List, [], ◌∷◌, length,
}
use openleo.Passes.{Pass, rising, falling, zip, runs, argmax, pass_of, is_grid, passes_on_grid}
use openleo.Passes.Covers.{LeftHeld, passes_on_grid-LeftHeld}

program : Unit {0}
unfolding rising falling zip runs argmax pass_of passes_on_grid
program = tt

abbrev grid : List ℕ
grid = 0 ∷ 10 ∷ 20 ∷ 30 ∷ 40 ∷ []

abbrev elevations : List ℕ
elevations = 5 ∷ 8 ∷ 9 ∷ 3 ∷ 7 ∷ []

abbrev pass : ℕ → ℕ → ℕ → ℕ → Bool → Pass
pass start stop peak elevation at_end = record {
  start_s = start;
  end_s = stop;
  culmination_s = peak;
  max_elevation_deg = elevation;
  truncated_start = false;
  truncated_end = at_end;
}

two_passes :
    passes_on_grid elevations grid 7 ≡ some (pass 10 30 20 9 false ∷ pass 40 40 40 7 true ∷ [])
unfolding program
two_passes = refl

passes_on_grid-LeftHeld_example :
    (((is_grid grid && length elevations == length grid) ≡ false)
      × (passes_on_grid elevations grid 7 ≡ none))
    ⊎ ((passes : List Pass) × ((is_grid grid && length elevations == length grid) ≡ true)
        × (passes_on_grid elevations grid 7 ≡ some passes)
        × LeftHeld elevations grid 7 passes)
passes_on_grid-LeftHeld_example = passes_on_grid-LeftHeld elevations grid 7
