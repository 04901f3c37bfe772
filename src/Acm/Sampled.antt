-- ===== src/Acm/Sampled.antt =====
-- engine/acm.py: `acm_on_grid` does what the walk of `acm_segments` does with the same samples.
use mathlib.Core.List.{reverse, reverse-cons, append-nil}
use openleo.Prelude.{
  ℕ, ◌≡◌, ◌∙◌, refl, sym, subst, ap, ◌==◌, Bool-cases, inl, inr, Option, none, some, List, [], ◌∷◌,
  ◌++◌, length, Sorted, append_assoc, check, ◌>>◌, ◌>>=◌, Option-cases, arith,
}
use openleo.Prelude.Int.{ℤ, pos, ◌-ℤ◌, int_laws}
use openleo.Passes.{Pass, is_grid}
use openleo.Passes.Runs.{increasing-Sorted}
use openleo.Acm.{Modcod, AdaptationConfig, select_available, select_modcod}
use openleo.Acm.Schedule.{
  RateSegment, ModcodEvent, Decision, Rule, rule_select, same_modcod, merge_one, merge_from, merged,
}
use openleo.Acm.Levels.{In, IncreasingList, count_le, rule_select-count}
use openleo.Acm.Grid.{
  walk, pass_segments, are_passes, members, grid_decisions, counts, segments_on_grid, rule_for,
  acm_on_grid,
}
use openleo.Acm.Walk.{
  same_modcod-≡, Ascending, Later, members-Ascending, merge_one-dropped, merge_one-kept, Later-tail,
}

-- The samples of each pass as the walk of `acm_segments` takes them: (time, level count).
module _ (rule : Rule) (count : ℤ → ℕ) where
  unfoldable pub segments_by_walk :
      List ℕ → List (Option ℤ) → List Pass → Option (List RateSegment × List ModcodEvent)
  segments_by_walk grid values [] = some ([], [])
  segments_by_walk grid values (p ∷ passes) = members p grid values >>= λ l.
      segments_by_walk grid values passes >>= λ rest.
      let one = pass_segments rule p (counts count l) in some (one.0 ++ rest.0, one.1 ++ rest.1)

-- The checks of `acm_on_grid`, and then the walk.
unfoldable pub walk_on_grid :
    (List ℤ → List ℤ)
    → (List ℤ → ℤ → ℕ)
    → List (Option ℤ)
    → List ℕ
    → List Pass
    → ℕ
    → AdaptationConfig
    → Option (List RateSegment × List ModcodEvent)
walk_on_grid unique searchsorted values grid passes delay config =
    let rule = rule_for unique searchsorted delay config in
    check (is_grid grid)
    >> check (length values == length grid)
    >> check (are_passes passes)
    >> segments_by_walk rule (searchsorted rule.levels) grid values passes

-- The walk over the counts of the samples, where a count chooses what its sample chooses.
module _ (rule : Rule) (count : ℤ → ℕ) (config : AdaptationConfig) where
  abbrev Agrees : Type 0
  Agrees =
      (a : ℤ) (state : Option Modcod)
      → rule_select rule (count a) state ≡ select_modcod a config state

  -- After the stack, the walk has the decisions of the samples.
  abbrev Walked : Option Modcod → List Decision → List (ℕ × ℤ) → Type 0
  Walked state stack l =
      reverse (merge_from stack (walk rule state (counts count l)))
      ≡ reverse stack ++ grid_decisions config state l

  Walked-cons :
      (m : Option Modcod) (stack : List Decision) (d : Decision) (l : List (ℕ × ℤ))
      → Walked m (d ∷ stack) l
      → reverse (merge_from (d ∷ stack) (walk rule m (counts count l)))
        ≡ reverse stack ++ d ∷ grid_decisions config m l
  Walked-cons m stack d l w =
      w
      ∙ ap (λ r. r ++ grid_decisions config m l) (reverse-cons d stack)
      ∙ append_assoc (reverse stack) (d ∷ []) (grid_decisions config m l)

  walk-grid :
      (state : Option Modcod) (stack : List Decision) (l : List (ℕ × ℤ))
      → Agrees
      → Ascending l
      → Later stack l
      → Walked state stack l
  unfolding merge_from walk grid_decisions
  walk-grid state stack [] same asc late = sym (append-nil (reverse stack))
  walk-grid state stack ((t, a) ∷ l) same asc late =
      let m = select_modcod a config state in
      let d : Decision = record { time = t; old = state; new = m } in
      let kept = walk-grid state stack l same asc.1 (Later-tail t a stack l late) in
      let added = walk-grid m (d ∷ stack) l same asc.1 asc.0 in
      subst
        (λ n.
          reverse (
            merge_from (merge_one (record { time = t; old = state; new = n }) stack)
              (walk rule n (counts count l)))
          ≡ reverse stack ++ grid_decisions config state ((t, a) ∷ l))
        (sym (same a state))
        (elim (Bool-cases (same_modcod m state)) [
          | inl e ↦ rw e (
              subst
                (λ k.
                  reverse (merge_from k (walk rule m (counts count l)))
                  ≡ reverse stack ++ grid_decisions config state l)
                (sym (merge_one-dropped t a state m stack l late e))
                (subst
                  (λ n.
                    reverse (merge_from stack (walk rule n (counts count l)))
                    ≡ reverse stack ++ grid_decisions config state l)
                  (sym (same_modcod-≡ m state e)) kept))
          | inr e ↦ rw e (
              subst
                (λ k.
                  reverse (merge_from k (walk rule m (counts count l)))
                  ≡ reverse stack ++ d ∷ grid_decisions config m l)
                (sym (merge_one-kept t a state m stack l late e)) (Walked-cons m stack d l added))
        ])

  merged-walk :
      (l : List (ℕ × ℤ))
      → Agrees
      → Ascending l
      → merged (walk rule none (counts count l)) ≡ grid_decisions config none l
  unfolding merged
  merged-walk l same asc = walk-grid none [] l same asc tt

  -- The loop over the passes gives the same with the walk as with the samples.
  segments_on_grid-walk :
      (grid : List ℕ) (values : List (Option ℤ)) (passes : List Pass)
      → Agrees
      → Sorted grid
      → segments_on_grid (grid_decisions config none) count rule grid values passes
        ≡ segments_by_walk rule count grid values passes
  unfolding segments_on_grid segments_by_walk pass_segments
  segments_on_grid-walk grid values [] same sorted = refl
  segments_on_grid-walk grid values (p ∷ passes) same sorted =
      elim (Option-cases (members p grid values)) [
        | inl e ↦ rw e refl
        | inr (l, e) ↦
            rw
              (
                e,
                merged-walk l same (members-Ascending p grid values l sorted e),
                segments_on_grid-walk grid values passes same sorted,
              )
              refl
      ]

minus_zero : (a : ℤ) → a -ℤ pos 0 ≡ a
minus_zero a = omega int_laws

module _ (unique : List ℤ → List ℤ) (searchsorted : List ℤ → ℤ → ℕ) where
  -- np.unique and np.searchsorted, on an increasing array.
  abbrev pub IsUnique : Type 0
  IsUnique = (l : List ℤ) → IncreasingList (unique l) × ((x : ℤ) → In x l → In x (unique l))

  abbrev pub IsSearch : Type 0
  IsSearch = (l : List ℤ) (x : ℤ) → IncreasingList l → searchsorted l x ≡ count_le l x

  module _ (delay : ℕ) (config : AdaptationConfig) (u : IsUnique) (s : IsSearch) where
    abbrev rule : Rule
    rule = rule_for unique searchsorted delay config

    abbrev without_margin : AdaptationConfig
    without_margin = record config { implementation_margin_db = 0 }

    -- Each step of the walk chooses what the samples choose.
    select-same :
        (a : ℤ) (state : Option Modcod)
        → rule_select rule (searchsorted rule.levels a) state ≡ select_modcod a without_margin state
    unfolding select_modcod
    select-same a state =
        rule_select-count unique searchsorted delay config.hysteresis_db config.symbol_rate_baud a
          state u s
        ∙ ap (λ x. select_available config.hysteresis_db x state) (sym (minus_zero a))

  -- For all samples, grids, passes and parameters, accepted or not: `acm_on_grid` gives what the walk
  -- of `acm_segments` gives, pass by pass, over the level counts of the samples, with its merging of
  -- decisions; np.unique returns the same values in strictly increasing order, and np.searchsorted
  -- counts, in such an array, the values at or below its argument.
  pub acm_on_grid-walk :
      (values : List (Option ℤ)) (grid : List ℕ) (passes : List Pass) (delay : ℕ)
      (config : AdaptationConfig)
      → IsUnique
      → IsSearch
      → acm_on_grid unique searchsorted values grid passes delay config
        ≡ walk_on_grid unique searchsorted values grid passes delay config
  unfolding acm_on_grid walk_on_grid
  acm_on_grid-walk values grid passes delay config u s = elim (Bool-cases (is_grid grid)) [
    | inr e ↦ rw e refl
    | inl e ↦
        rw
          (segments_on_grid-walk (rule_for unique searchsorted delay config)
            (searchsorted (rule_for unique searchsorted delay config).levels)
            (record config { implementation_margin_db = 0 }) grid values passes
            (select-same delay config u s) (increasing-Sorted grid (ground (arith, e))))
          refl
  ]
