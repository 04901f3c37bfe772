-- ===== src/Passes/Runs.antt =====
-- `_runs` (engine/events.py): the runs of visible samples.
use openleo.Prelude.{
  Sorted, All-map, ℕ, zero, suc, ◌+◌, ◌<◌, ◌≡◌, refl, leb, ltb, ◌==◌, if◌then◌else◌, Bool, true,
  false, ◌&&◌, ◌||◌, List, [], ◌∷◌, get_or, arith,
}
use openleo.Passes.{rising, falling, zip, runs, increasing}

pub increasing-Sorted : (l : List ℕ) → increasing l ≡ true → Sorted l
increasing-Sorted [] h = tt
increasing-Sorted (x ∷ []) h = (tt, tt)
increasing-Sorted (x ∷ y ∷ l) h =
    let s = increasing-Sorted (y ∷ l) (ground arith) in
    ((ground arith, All-map l (λ z k. ground arith) s.0), s)

-- Whether one of the runs holds the sample.
abbrev pub in_runs : List (ℕ × ℕ) → ℕ → Bool
in_runs [] k = false
in_runs ((first, last) ∷ l) k = (leb first k && leb k last) || in_runs l k

-- Whether a sample of those from `i` on is visible.
abbrev pub visible_at : ℕ → List Bool → ℕ → Bool
visible_at i [] k = false
visible_at i (v ∷ l) k = if k == i then v else visible_at (i + 1) l k

visible_at-before : (i : ℕ) (l : List Bool) (k : ℕ) → k < i → visible_at i l k ≡ false
visible_at-before i [] k h = refl
visible_at-before i (v ∷ l) k h = ground (arith, visible_at-before (i + 1) l k (omega arith))

-- The runs from a sample on, where no run is open, and where one is open since `s`.
runs_from :
    (l : List Bool) (s i k : ℕ)
    → (in_runs (zip (rising i false l) (falling i false l)) k ≡ visible_at i l k)
      × (s < i
          → in_runs (zip (s ∷ rising i true l) (falling i true l)) k
            ≡ ((leb s k && ltb k i) || visible_at i l k))
unfolding rising falling zip
runs_from [] s i k = (refl, λ h. ground arith)
runs_from (false ∷ l) s i k =
    let rest = runs_from l s (i + 1) k in
    let before = visible_at-before (i + 1) l k in
    (ground (arith, rest.0, before), λ h. ground (arith, rest.0, before))
runs_from (true ∷ l) s i k =
    let before = visible_at-before (i + 1) l k in
    (
      let new_run = (runs_from l i (i + 1) k).1 (omega arith) in ground (arith, new_run, before),
      λ h.
          let open_run = (runs_from l s (i + 1) k).1 (omega arith) in
          ground (arith, open_run, before),
    )

-- `_runs` holds exactly the visible samples.
pub runs-in_runs : (l : List Bool) (k : ℕ) → in_runs (runs l) k ≡ visible_at 0 l k
unfolding runs
runs-in_runs l k = (runs_from l 0 0 k).0

-- No run starts after it ends, or ends past the samples.
pub visible_at-get : (i : ℕ) (l : List Bool) (k : ℕ) → visible_at i l (i + k) ≡ get_or l k false
visible_at-get i [] k = refl
visible_at-get i (v ∷ l) zero = ground arith
visible_at-get i (v ∷ l) (suc k) = ground (arith, visible_at-get (i + 1) l k)
