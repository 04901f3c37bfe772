-- ===== src/Passes.antt =====
-- engine/events.py: passes from grid samples. A time is a number of ticks after the window start; an
-- elevation is a number of ticks above -90 degrees.
mod Tests
pub mod Runs
pub mod Covers
use openleo.Prelude.{
  ℕ, zero, suc, ◌+◌, ◌-◌, min, leb, ltb, ◌==◌, if◌then◌else◌, Bool, true, false, not, ◌&&◌, Option,
  none, some, List, [], ◌∷◌, map, length, get_or,
}

pub record Pass : Type 0 where
  pub start_s : ℕ
  pub end_s : ℕ
  pub culmination_s : ℕ
  pub max_elevation_deg : ℕ
  pub truncated_start : Bool
  pub truncated_end : Bool

-- `visible` between two False, and the places of its rising and falling edges.
unfoldable pub rising : ℕ → Bool → List Bool → List ℕ
rising i prev [] = []
rising i prev (v ∷ l) = if not prev && v then i ∷ rising (i + 1) v l else rising (i + 1) v l

unfoldable pub falling : ℕ → Bool → List Bool → List ℕ
falling i prev [] = if prev then (i - 1) ∷ [] else []
falling i prev (v ∷ l) =
    if prev && not v then (i - 1) ∷ falling (i + 1) v l else falling (i + 1) v l

unfoldable pub zip {ℓ} : {A : Type ℓ} → List A → List A → List (A × A)
zip (x ∷ xs) (y ∷ ys) = (x, y) ∷ zip xs ys
zip _ _ = []

unfoldable pub runs : List Bool → List (ℕ × ℕ)
runs visible = zip (rising 0 false visible) (falling 0 false visible)

-- `np.argmax` over values[first .. last]: the first place of the largest value.
unfoldable pub argmax : List ℕ → ℕ → ℕ → ℕ
argmax values first zero = first
argmax values first (suc n) =
    let rest = argmax values first n in
    if ltb (get_or values rest 0) (get_or values (first + suc n) 0) then first + suc n else rest

unfoldable pub pass_of : List ℕ → List ℕ → ℕ × ℕ → ℕ → ℕ → Pass
pass_of times values (first, last) start stop =
    let peak = argmax values first (last - first) in
    record {
      start_s = start;
      end_s = stop;
      culmination_s = get_or times peak 0;
      max_elevation_deg = get_or values peak 0;
      truncated_start = first == 0;
      truncated_end = last == length times - 1;
    }

abbrev pub increasing : List ℕ → Bool
increasing [] = true
increasing (x ∷ []) = true
increasing (x ∷ y ∷ l) = ltb x y && increasing (y ∷ l)

-- `_grid`: at least two samples, from 0, strictly increasing.
abbrev pub is_grid : List ℕ → Bool
is_grid grid = ltb 1 (length grid) && get_or grid 0 0 == 0 && increasing grid

-- `none` is a ValueError.
unfoldable pub passes_on_grid : List ℕ → List ℕ → ℕ → Option (List Pass)
passes_on_grid values grid mask =
    if is_grid grid && length values == length grid
    then some (
        map
          (λ (r : ℕ × ℕ).
            pass_of grid values r (get_or grid r.0 0)
              (get_or grid (min (r.1 + 1) (length grid - 1)) 0))
          (runs (map (λ v. leb mask v) values)))
    else none
