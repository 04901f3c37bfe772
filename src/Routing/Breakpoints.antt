-- ===== src/Routing/Breakpoints.antt =====
-- engine/routing.py: `route_breakpoints`, the instants at which routes are evaluated.
use openleo.Prelude.{
  In-append_left, In-append_right, Sorted, ℕ, ◌≤◌, ◌<◌, ◌≡◌, refl, ltb, leb, if◌then◌else◌,
  if_split, false, ◌⊎◌, inl, inr, Bool-cases, Option, none, some, List, [], ◌∷◌, ◌++◌, In, here,
  there, All, elem, arith, Option-cases,
}
use openleo.Passes.{Pass}
use openleo.Acm.Schedule.{RateSegment}
use openleo.Statistics.{PairResult, pair_intervals}
use openleo.Timegrid.{unique}
use openleo.Timegrid.Spacing.{unique-Sorted, unique-Keeps}

abbrev pub pass_ends : List Pass → List ℕ
pass_ends [] = []
pass_ends (p ∷ l) = p.start_s ∷ p.end_s ∷ pass_ends l

abbrev pub segment_ends : List RateSegment → List ℕ
segment_ends [] = []
segment_ends (s ∷ l) = s.start_s ∷ s.end_s ∷ segment_ends l

-- The ends of the passes and segments of the pairs whose station is among those given.
unfoldable pub pair_times : List ℕ → List PairResult → Option (List ℕ)
pair_times stations [] = some []
pair_times stations (p ∷ l) =
    let rest = pair_times stations l in
    if elem p.station_index stations
    then elim (pair_intervals p) [
      | none ↦ none
      | some (passes, segments) ↦ elim rest [
        | none ↦ none
        | some times ↦ some (pass_ends passes ++ segment_ends segments ++ times)
      ]
    ]
    else rest

abbrev pub up_to : ℕ → List ℕ → List ℕ
up_to window [] = []
up_to window (t ∷ l) = if leb t window then t ∷ up_to window l else up_to window l

unfoldable pub route_breakpoints : List ℕ → List PairResult → List ℕ → ℕ → Option (List ℕ)
route_breakpoints grid pairs stations window =
    if ltb 0 window
    then elim (pair_times stations pairs) [
      | none ↦ none
      | some times ↦ some (up_to window (unique (grid ++ times)))
    ]
    else none

up_to-All : (P : ℕ → Type 0) (window : ℕ) (l : List ℕ) → All P l → All P (up_to window l)
up_to-All P window [] h = tt
up_to-All P window (x ∷ l) h =
    if_split (All P) (leb x window) (λ _. (h.0, up_to-All P window l h.1))
      (λ _. up_to-All P window l h.1)

pub up_to-Sorted : (window : ℕ) (l : List ℕ) → Sorted l → Sorted (up_to window l)
up_to-Sorted window [] h = tt
up_to-Sorted window (x ∷ l) h =
    if_split Sorted (leb x window)
      (λ _. (up_to-All (λ y. x < y) window l h.0, up_to-Sorted window l h.1))
      (λ _. up_to-Sorted window l h.1)

up_to-le : (window : ℕ) (l : List ℕ) → All (λ x. x ≤ window) (up_to window l)
up_to-le window [] = tt
up_to-le window (x ∷ l) =
    if_split (All (λ x. x ≤ window)) (leb x window) (λ e. (ground arith, up_to-le window l))
      (λ _. up_to-le window l)

pub In-up_to : (x window : ℕ) (l : List ℕ) → x ≤ window → In x l → In x (up_to window l)
In-up_to x window [] h i = elim i [ ]
In-up_to x window (y ∷ l) h (here p) =
    if_split (In x) (leb y window) (λ _. here p) (λ e. absurd (ground arith))
In-up_to x window (y ∷ l) h (there i) =
    if_split (In x) (leb y window) (λ _. there (In-up_to x window l h i))
      (λ _. In-up_to x window l h i)

-- Increasing instants of the window with each instant of it that the grid or the pairs have.
abbrev pub AreBreakpoints : List ℕ → List ℕ → ℕ → List ℕ → Type 0
AreBreakpoints grid times window l =
    Sorted l × All (λ x. x ≤ window) l × ((x : ℕ) → x ≤ window → In x grid ⊎ In x times → In x l)

-- `route_breakpoints` raises exactly if the window is empty or the intervals of a pair are refused.
-- Else the breakpoints increase, lie in the window and contain each point of the grid and each end of
-- a pass or a segment of the stations' pairs that lies in the window.
pub route_breakpoints-AreBreakpoints :
    (grid : List ℕ) (pairs : List PairResult) (stations : List ℕ) (window : ℕ)
    → (((ltb 0 window ≡ false) ⊎ (pair_times stations pairs ≡ none))
        × (route_breakpoints grid pairs stations window ≡ none))
      ⊎ ((times : List ℕ) × (breakpoints : List ℕ) × (pair_times stations pairs ≡ some times)
          × (route_breakpoints grid pairs stations window ≡ some breakpoints)
          × AreBreakpoints grid times window breakpoints)
unfolding route_breakpoints
route_breakpoints-AreBreakpoints grid pairs stations window = elim (Bool-cases (ltb 0 window)) [
  | inr e ↦ inl (inl e, rw e refl)
  | inl e ↦ elim (Option-cases (pair_times stations pairs)) [
    | inl f ↦ inl (inr f, rw (e, f) refl)
    | inr (times, f) ↦ inr (
      times,
      up_to window (unique (grid ++ times)),
      f,
      rw (e, f) refl,
      (
        up_to-Sorted window _ (unique-Sorted (grid ++ times)),
        up_to-le window (unique (grid ++ times)),
        λ x h i. In-up_to x window (unique (grid ++ times)) h (
            unique-Keeps (grid ++ times) x (elim i [
              | inl j ↦ In-append_left x grid times j
              | inr j ↦ In-append_right x grid times j
            ])),
      ),
    )
  ]
]
