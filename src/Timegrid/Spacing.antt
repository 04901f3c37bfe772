-- ===== src/Timegrid/Spacing.antt =====
-- engine/timegrid.py: the grid runs over the whole window in steps, and `refine` keeps its points.
use native.Mathlib.Nat.{mod-lt, mod-add-div, div-eq_of_lt}
use openleo.Prelude.{
  In-append_right, Sorted, ℕ, zero, suc, ◌+◌, ◌-◌, ◌*◌, ◌≤◌, ◌<◌, ◌≡◌, refl, sym, subst, ap, ltb,
  Bool, true, false, not, ◌&&◌, Bool-cases, ◌⊎◌, inl, inr, none, some, List, [], ◌∷◌, In, here,
  there, arith,
}
use openleo.Acm.Schedule.{add_cut}
use openleo.Timegrid.{
  TimeGrid, intervals, is_step, has_leap_second, samples_from, build_grid, parts_from, unique,
  refined, refine,
}
use openleo.Statistics.Best.{add_cut-Sorted, add_cut-In, In-add_cut}

-- Increasing offsets from `a` to `b`, none more than a step after the one before it.
abbrev pub Spaced : ℕ → ℕ → ℕ → List ℕ → Type 0
Spaced step a b [] = ⊥
Spaced step a b (x ∷ []) = (x ≡ a) × (x ≡ b)
Spaced step a b (x ∷ y ∷ l) = (x ≡ a) × (x < y) × (y ≤ x + step) × Spaced step y b (y ∷ l)

samples_from-Spaced :
    (step window x n : ℕ)
    → 0 < step
    → x + n * step < window
    → window ≤ x + (suc n) * step
    → Spaced step x window (samples_from step window x (suc n))
unfolding samples_from
samples_from-Spaced step window x zero p lo hi = (refl, omega arith, omega arith, (refl, refl))
samples_from-Spaced step window x (suc n) p lo hi = (
  refl,
  omega arith,
  omega arith,
  samples_from-Spaced step window (x + step) n p (omega arith) (omega arith),
)

-- The number of intervals rounds up.
intervals-bounds :
    (window step : ℕ)
    → 0 < step
    → 0 < window
    → (n : ℕ) × (intervals window step ≡ suc n) × (n * step < window) × (window ≤ (suc n) * step)
intervals-bounds window step p q = go (intervals window step) refl
  where
    go :
        (k : ℕ)
        → intervals window step ≡ k
        → (n : ℕ) × (intervals window step ≡ suc n)
          × (n * step < window)
          × (window ≤ (suc n) * step)
    go zero e =
        let total = mod-add-div (window + (step - 1)) step in
        let less = mod-lt (window + (step - 1)) p in
        let none_left = ap (λ k. step * k) e in absurd (omega (arith, total, less, none_left))
    go (suc n) e =
        let total = mod-add-div (window + (step - 1)) step in
        let less = mod-lt (window + (step - 1)) p in
        let whole = ap (λ k. step * k) e in
        (n, e, omega (arith, total, less, whole), omega (arith, total, less, whole))

-- Every offset of the grid is one of the refined grid.
abbrev pub Keeps : List ℕ → List ℕ → Type 0
Keeps l r = (x : ℕ) → In x l → In x r

pub unique-Sorted : (l : List ℕ) → Sorted (unique l)
unique-Sorted [] = tt
unique-Sorted (x ∷ l) = add_cut-Sorted x (unique l) (unique-Sorted l)

pub unique-Keeps : (l : List ℕ) → Keeps l (unique l)
unique-Keeps (y ∷ l) x i = elim i [
  | here p ↦ subst (λ z. In z (add_cut y (unique l))) (sym p) (add_cut-In y (unique l))
  | there j ↦ In-add_cut x y (unique l) (unique-Keeps l x j)
]
unique-Keeps [] x i = elim i [ ]

refined-Keeps : (factor : ℕ) (l : List ℕ) → 0 < factor → Keeps l (refined factor l)
unfolding refined parts_from
refined-Keeps factor [] p x i = i
refined-Keeps factor (a ∷ []) p x i = i
refined-Keeps zero (a ∷ b ∷ l) p x i = absurd (omega arith)
refined-Keeps (suc n) (a ∷ b ∷ l) p x (here q) =
    here
      (omega (arith, q, div-eq_of_lt {n = 2 * (b - a) * 0 + suc n} {m = 2 * suc n} (omega arith)))
refined-Keeps (suc n) (a ∷ b ∷ l) p x (there i) =
    In-append_right x (parts_from (suc n) a (b - a) 0 (suc n)) (refined (suc n) (b ∷ l))
      (refined-Keeps (suc n) (b ∷ l) p x i)

-- Whether the inputs of `build_grid` are accepted.
abbrev pub is_window : List ℕ → ℕ → ℕ → ℕ → Bool
is_window leaps start stop step =
    ltb start stop && is_step step (stop - start) && not (has_leap_second start stop leaps)

-- `build_grid` raises exactly if the window is empty, the step is zero, longer than the window or
-- makes too many samples, or a leap second lies in the window. Else the offsets start at 0, increase
-- by at most a step each and end at the length of the window.
pub build_grid-Spaced :
    (leaps : List ℕ) (start stop step : ℕ)
    → ((is_window leaps start stop step ≡ false) × (build_grid leaps start stop step ≡ none))
      ⊎ ((grid : TimeGrid) × (is_window leaps start stop step ≡ true)
          × (build_grid leaps start stop step ≡ some grid)
          × Spaced step 0 (stop - start) grid.offsets_us)
unfolding build_grid
build_grid-Spaced leaps start stop step = elim (Bool-cases (is_window leaps start stop step)) [
  | inr e ↦ inl (e, rw e refl)
  | inl e ↦
      let n = intervals-bounds (stop - start) step (ground arith) (ground arith) in
      inr (
        record {
          start_utc = start;
          stop_utc = stop;
          offsets_us = samples_from step (stop - start) 0 (intervals (stop - start) step);
        },
        e,
        rw e refl,
        subst (λ k. Spaced step 0 (stop - start) (samples_from step (stop - start) 0 k)) (sym n.1)
            (samples_from-Spaced step (stop - start) 0 n.0 (ground arith) (omega (arith, n.2))
              (omega (arith, n.3))),
      )
]

-- `refine` refuses the factor 0 only; else its offsets increase, and every offset of the grid that
-- it is given is among them.
pub refine-Keeps :
    (grid : TimeGrid) (factor : ℕ)
    → ((factor ≡ 0) × (refine grid factor ≡ none))
      ⊎ ((finer : TimeGrid) × (refine grid factor ≡ some finer)
          × Sorted finer.offsets_us
          × Keeps grid.offsets_us finer.offsets_us)
unfolding refine
refine-Keeps grid zero = inl (refl, refl)
refine-Keeps grid (suc n) = inr (
  record grid { offsets_us = unique (refined (suc n) grid.offsets_us) },
  ground arith,
  unique-Sorted (refined (suc n) grid.offsets_us),
  λ x i.
      unique-Keeps (refined (suc n) grid.offsets_us) x
        (refined-Keeps (suc n) grid.offsets_us (omega arith) x i),
)
