-- ===== src/Timegrid/Tests.antt =====
-- engine/timegrid.py: a window that is no multiple of the step.
use openleo.Prelude.{Sorted, ℕ, ◌-◌, ◌≡◌, refl, false, true, ◌⊎◌, none, some, [], ◌∷◌}
use openleo.Timegrid.{TimeGrid, samples_from, build_grid, parts_from, refined, refine}
use openleo.Timegrid.Spacing.{Spaced, Keeps, is_window, build_grid-Spaced, refine-Keeps}

program : Unit {0}
unfolding samples_from build_grid parts_from refined refine
program = tt

abbrev grid : TimeGrid
grid = record { start_utc = 100; stop_utc = 125; offsets_us = 0 ∷ 10 ∷ 20 ∷ 25 ∷ [] }

built : build_grid (50 ∷ []) 100 125 10 ≡ some grid
unfolding program
built = refl

leap : build_grid (125 ∷ []) 100 125 10 ≡ none
unfolding program
leap = refl

halves : refine grid 2 ≡ some (record grid { offsets_us = 0 ∷ 5 ∷ 10 ∷ 15 ∷ 20 ∷ 23 ∷ 25 ∷ [] })
unfolding program
halves = refl

build_grid-Spaced_example :
    ((is_window (50 ∷ []) 100 125 10 ≡ false) × (build_grid (50 ∷ []) 100 125 10 ≡ none))
    ⊎ ((g : TimeGrid) × (is_window (50 ∷ []) 100 125 10 ≡ true)
        × (build_grid (50 ∷ []) 100 125 10 ≡ some g)
        × Spaced 10 0 (125 - 100) g.offsets_us)
build_grid-Spaced_example = build_grid-Spaced (50 ∷ []) 100 125 10

abbrev factor : ℕ
factor = 2

refine-Keeps_example :
    ((factor ≡ 0) × (refine grid factor ≡ none))
    ⊎ ((finer : TimeGrid) × (refine grid factor ≡ some finer)
        × Sorted finer.offsets_us
        × Keeps grid.offsets_us finer.offsets_us)
refine-Keeps_example = refine-Keeps grid factor
