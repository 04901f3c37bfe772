-- ===== src/Timegrid.antt =====
-- engine/timegrid.py: the sample grid of a window. Times and offsets are whole microseconds, which
-- the source's checks of the step make them; a UTC time is counted from a fixed epoch, and the list
-- of the midnights that follow a leap second, which Skyfield's table gives, is an argument. The
-- step of the grid, which nothing here reads again, is not kept.
mod Tests
pub mod Spacing
use openleo.Prelude.{
  ℕ, zero, suc, ◌+◌, ◌-◌, ◌*◌, ◌/◌, ltb, leb, ◌==◌, if◌then◌else◌, Bool, true, false, not, ◌&&◌,
  ◌||◌, Option, none, some, List, [], ◌∷◌, ◌++◌,
}
use openleo.Acm.Schedule.{add_cut}

pub record TimeGrid : Type 0 where
  pub start_utc : ℕ
  pub stop_utc : ℕ
  pub offsets_us : List ℕ

abbrev pub max_grid_samples : ℕ
max_grid_samples = 1000000

-- `-(-window_us // step_us)`
abbrev pub intervals : ℕ → ℕ → ℕ
intervals window step = (window + (step - 1)) / step

-- `_step_microseconds`: what the step has to be.
abbrev pub is_step : ℕ → ℕ → Bool
is_step step window =
    ltb 0 step && leb step window && leb (intervals window step + 1) max_grid_samples

-- `_reject_leap_seconds`
abbrev pub has_leap_second : ℕ → ℕ → List ℕ → Bool
has_leap_second start stop [] = false
has_leap_second start stop (midnight ∷ l) =
    (ltb start midnight && leb midnight stop) || has_leap_second start stop l

-- `np.append(np.arange(x, window, step), window)`, where `n` samples are below the window.
unfoldable pub samples_from : ℕ → ℕ → ℕ → ℕ → List ℕ
samples_from step window x zero = window ∷ []
samples_from step window x (suc n) = x ∷ samples_from step window (x + step) n

-- `none` is a ValueError.
unfoldable pub build_grid : List ℕ → ℕ → ℕ → ℕ → Option TimeGrid
build_grid leaps start stop step =
    if ltb start stop && is_step step (stop - start) && not (has_leap_second start stop leaps)
    then some (record {
      start_utc = start;
      stop_utc = stop;
      offsets_us = samples_from step (stop - start) 0 (intervals (stop - start) step);
    })
    else none

-- The points of one interval of `refine`: halves round up.
unfoldable pub parts_from : ℕ → ℕ → ℕ → ℕ → ℕ → List ℕ
parts_from factor a length part zero = []
parts_from factor a length part (suc n) =
    (a + (2 * length * part + factor) / (2 * factor)) ∷ parts_from factor a length (part + 1) n

-- `np.unique`
abbrev pub unique : List ℕ → List ℕ
unique [] = []
unique (x ∷ l) = add_cut x (unique l)

unfoldable pub refined : ℕ → List ℕ → List ℕ
refined factor [] = []
refined factor (a ∷ []) = a ∷ []
refined factor (a ∷ b ∷ l) = parts_from factor a (b - a) 0 factor ++ refined factor (b ∷ l)

unfoldable pub refine : TimeGrid → ℕ → Option TimeGrid
refine grid factor =
    if ltb 0 factor
    then some (record grid { offsets_us = unique (refined factor grid.offsets_us) })
    else none
