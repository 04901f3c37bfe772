-- ===== src/Passes/Covers.antt =====
-- `passes_on_grid` (engine/events.py): when a station sees the satellite.
use openleo.Prelude.{
  ℕ, zero, suc, ◌+◌, ◌-◌, ◌≤◌, ◌<◌, ◌≡◌, refl, ap, subst, ◌∙◌, min, leb, ltb, ◌==◌, if_split, Bool,
  true, false, not, ◌&&◌, ◌||◌, none, some, List, [], ◌∷◌, All, ◌⊎◌, inl, inr, Bool-cases,
  length-map, map, length, get_or, arith,
}
use native.Mathlib.Decide.{dec_lt}
use openleo.Measure.Union.{covers}
use openleo.Passes.{Pass, rising, zip, runs, pass_of, increasing, is_grid, passes_on_grid}
use openleo.Passes.Runs.{in_runs, visible_at, runs-in_runs, visible_at-get}

abbrev pub span : Pass → ℕ × ℕ
span p = (p.start_s, p.end_s)

increasing-lt :
    (grid : List ℕ) (i j : ℕ)
    → increasing grid ≡ true
    → i < j
    → j < length grid
    → get_or grid i 0 < get_or grid j 0
increasing-lt [] i j h k m = absurd (omega arith)
increasing-lt (x ∷ []) i j h k m = absurd (omega arith)
increasing-lt (x ∷ y ∷ l) i zero h k m = absurd (omega arith)
increasing-lt (x ∷ y ∷ l) zero (suc zero) h k m = ground arith
increasing-lt (x ∷ y ∷ l) zero (suc (suc j)) h k m =
    let r = increasing-lt (y ∷ l) zero (suc j) (ground arith) (omega arith) (omega arith) in
    ground arith
increasing-lt (x ∷ y ∷ l) (suc i) (suc j) h k m =
    increasing-lt (y ∷ l) i j (ground arith) (omega arith) (omega arith)

increasing-le :
    (grid : List ℕ) (i j : ℕ)
    → increasing grid ≡ true
    → i ≤ j
    → j < length grid
    → get_or grid i 0 ≤ get_or grid j 0
increasing-le grid i j h k m = elim (dec_lt i j) [
  | yes lt ↦ let r = increasing-lt grid i j h lt m in omega arith
  | no ge ↦
      let same : i ≡ j = omega arith in
      subst (λ n. get_or grid i 0 ≤ get_or grid n 0) same (omega arith)
]

-- An instant of the interval after sample `j` has passed the samples up to `j`.
sample_passed :
    (grid : List ℕ) (i j t : ℕ)
    → increasing grid ≡ true
    → j + 1 < length grid
    → get_or grid j 0 ≤ t
    → t < get_or grid (j + 1) 0
    → i < length grid
    → leb (get_or grid i 0) t ≡ leb i j
sample_passed grid i j t h m lo hi f = elim (dec_lt j i) [
  | yes gt ↦ let r = increasing-le grid (j + 1) i h (omega arith) f in ground arith
  | no le ↦ let r = increasing-le grid i j h (omega arith) (omega arith) in ground arith
]

-- The pass of a run holds the instants of the interval after sample `j` if the run holds `j`.
run-covers :
    (grid : List ℕ) (first last j t : ℕ)
    → increasing grid ≡ true
    → j + 1 < length grid
    → get_or grid j 0 ≤ t
    → t < get_or grid (j + 1) 0
    → first < length grid
    → (leb (get_or grid first 0) t && ltb t (get_or grid (min (last + 1) (length grid - 1)) 0))
      ≡ (leb first j && leb j last)
run-covers grid first last j t h m lo hi f =
    let begun = sample_passed grid first j t h m lo hi f in
    let ended = sample_passed grid (min (last + 1) (length grid - 1)) j t h m lo hi (omega arith) in
    ground arith

zip-All : (P : ℕ → Type 0) (l r : List ℕ) → All P l → All (λ (x : ℕ × ℕ). P x.0) (zip l r)
unfolding zip
zip-All P [] r h = tt
zip-All P (x ∷ l) [] h = tt
zip-All P (x ∷ l) (y ∷ r) h = (h.0, zip-All P l r h.1)

rising-below :
    (i n : ℕ) (prev : Bool) (l : List Bool) → i + length l ≤ n → All (λ x. x < n) (rising i prev l)
unfolding rising
rising-below i n prev [] h = tt
rising-below i n prev (v ∷ l) h =
    if_split (All (λ x. x < n)) (not prev && v)
      (λ _. (omega arith, rising-below (i + 1) n v l (omega arith)))
      (λ _. rising-below (i + 1) n v l (omega arith))

module _ (grid values : List ℕ) where
  -- The pass of a run.
  abbrev pass : ℕ × ℕ → Pass
  pass r =
      pass_of grid values r (get_or grid r.0 0) (get_or grid (min (r.1 + 1) (length grid - 1)) 0)

  passes-covers :
      (j t : ℕ) (l : List (ℕ × ℕ))
      → increasing grid ≡ true
      → j + 1 < length grid
      → get_or grid j 0 ≤ t
      → t < get_or grid (j + 1) 0
      → All (λ (r : ℕ × ℕ). r.0 < length grid) l
      → covers (map span (map pass l)) t ≡ in_runs l j
  unfolding pass_of
  passes-covers j t [] h m lo hi b = refl
  passes-covers j t (r ∷ l) h m lo hi b =
      λ i. run-covers grid r.0 r.1 j t h m lo hi b.0 i || passes-covers j t l h m lo hi b.1 i

get_or-map :
    (f : ℕ → Bool) (l : List ℕ) (j : ℕ) → j < length l → get_or (map f l) j false ≡ f (get_or l j 0)
get_or-map f [] j h = absurd (omega arith)
get_or-map f (x ∷ l) zero h = refl
get_or-map f (x ∷ l) (suc j) h = get_or-map f l j (omega arith)

runs-below :
    (f : ℕ → Bool) (values : List ℕ) (n : ℕ)
    → length values ≤ n
    → All (λ (r : ℕ × ℕ). r.0 < n) (runs (map f values))
unfolding runs
runs-below f values n h =
    zip-All (λ x. x < n) _ _
      (rising-below 0 n false (map f values) (omega (arith, length-map values f)))

runs-get_or : (l : List Bool) (j : ℕ) → in_runs (runs l) j ≡ get_or l j false
runs-get_or l j =
    let at : j ≡ 0 + j = omega arith in
    runs-in_runs l j ∙ ap (visible_at 0 l) at ∙ visible_at-get 0 l j

-- What the passes of the samples are: left hold.
abbrev pub LeftHeld : List ℕ → List ℕ → ℕ → List Pass → Type 0
LeftHeld values grid mask passes =
    (j t : ℕ)
    → j + 1 < length grid
    → get_or grid j 0 ≤ t
    → t < get_or grid (j + 1) 0
    → covers (map span passes) t ≡ leb mask (get_or values j 0)

-- `passes_on_grid` raises exactly if the grid or the number of the samples is refused. Else an
-- instant between two samples lies in one of the passes exactly if the elevation at the sample before
-- it is at or above the mask.
pub passes_on_grid-LeftHeld :
    (values grid : List ℕ) (mask : ℕ)
    → (((is_grid grid && length values == length grid) ≡ false)
        × (passes_on_grid values grid mask ≡ none))
      ⊎ ((passes : List Pass) × ((is_grid grid && length values == length grid) ≡ true)
          × (passes_on_grid values grid mask ≡ some passes)
          × LeftHeld values grid mask passes)
unfolding passes_on_grid
passes_on_grid-LeftHeld values grid mask =
    elim (Bool-cases (is_grid grid && length values == length grid)) [
      | inr e ↦ inl (e, rw e refl)
      | inl e ↦ inr (
        map (pass grid values) (runs (map (λ v. leb mask v) values)),
        e,
        rw e refl,
        λ j t m lo hi.
            passes-covers grid values j t (runs (map (λ v. leb mask v) values)) (ground arith) m lo
              hi (runs-below (λ v. leb mask v) values (length grid) (ground arith))
            ∙ runs-get_or (map (λ v. leb mask v) values) j
            ∙ get_or-map (λ v. leb mask v) values j (ground arith),
      )
    ]
