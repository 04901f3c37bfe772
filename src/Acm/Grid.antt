-- ===== src/Acm/Grid.antt =====
-- engine/acm.py: the walk of `acm_segments` over the levels that a pass reaches, and `acm_on_grid`. A
-- sample that is not finite is `none`, and so is a ValueError.
use openleo.Prelude.{
  ℕ, ltb, leb, ◌==◌, if◌then◌else◌, Bool, true, ◌&&◌, ◌||◌, Option, none, some, List, [], ◌∷◌, ◌++◌,
  length, check, ◌>>◌, ◌>>=◌,
}
use openleo.Prelude.Int.{ℤ}
use openleo.Passes.{Pass, is_grid}
use openleo.Acm.{Modcod, AdaptationConfig, select_modcod}
use openleo.Acm.Schedule.{
  RateSegment, ModcodEvent, Decision, Rule, rule_select, same_modcod, merged, schedule,
}
use openleo.Acm.Levels.{rule_of}

-- The changes of state at the crossings, from (time, count after it).
unfoldable pub walk : Rule → Option Modcod → List (ℕ × ℕ) → List Decision
walk rule state [] = []
walk rule state ((t, count) ∷ l) =
    let new = rule_select rule count state in
    record { time = t; old = state; new = new } ∷ walk rule new l

-- The body of the loop over the passes in `acm_segments`.
unfoldable pub pass_segments : Rule → Pass → List (ℕ × ℕ) → List RateSegment × List ModcodEvent
pass_segments rule p levels_reached =
    schedule p (merged (walk rule none levels_reached)) levels_reached rule

-- `_passes`: in time order and without overlap.
abbrev pub are_passes : List Pass → Bool
are_passes [] = true
are_passes (p ∷ []) = leb p.start_s p.end_s
are_passes (p ∷ q ∷ l) = leb p.start_s p.end_s && leb p.end_s q.start_s && are_passes (q ∷ l)

abbrev pub is_member : Pass → ℕ → Bool
is_member p t =
    leb p.start_s t
    && (ltb t p.end_s || (t == p.end_s && (p.truncated_end || p.start_s == p.end_s)))

-- The samples of the pass; all of them have to be finite.
unfoldable pub members : Pass → List ℕ → List (Option ℤ) → Option (List (ℕ × ℤ))
members p (t ∷ grid) (v ∷ values) =
    let rest = members p grid values in
    if is_member p t then (v >>= λ a. rest >>= λ l. some ((t, a) ∷ l)) else rest
members p _ _ = some []

-- `select_modcod` at each sample, in order; a change of state is a decision.
unfoldable pub grid_decisions : AdaptationConfig → Option Modcod → List (ℕ × ℤ) → List Decision
grid_decisions config state [] = []
grid_decisions config state ((t, a) ∷ l) =
    let new = select_modcod a config state in
    let unchanged = grid_decisions config state l in
    let changed = grid_decisions config new l in
    if same_modcod new state
    then unchanged
    else record { time = t; old = state; new = new } ∷ changed

-- (time, `rule.count`) of each sample.
abbrev pub counts : (ℤ → ℕ) → List (ℕ × ℤ) → List (ℕ × ℕ)
counts count [] = []
counts count ((t, a) ∷ l) = (t, count a) ∷ counts count l

-- The loop over the passes, with the decisions that the samples of a pass lead to.
module _ (decide : List (ℕ × ℤ) → List Decision) (count : ℤ → ℕ) (rule : Rule) where
  unfoldable pub segments_on_grid :
      List ℕ → List (Option ℤ) → List Pass → Option (List RateSegment × List ModcodEvent)
  segments_on_grid grid values [] = some ([], [])
  segments_on_grid grid values (p ∷ passes) = members p grid values >>= λ l.
      segments_on_grid grid values passes >>= λ rest.
      let one = schedule p (decide l) (counts count l) rule in
      some (one.0 ++ rest.0, one.1 ++ rest.1)

-- np.unique and np.searchsorted with side="right".
module _ (unique : List ℤ → List ℤ) (searchsorted : List ℤ → ℤ → ℕ) where
  -- `_Rule(adaptation)`: the delay, and the parameters with the margin removed.
  abbrev pub rule_for : ℕ → AdaptationConfig → Rule
  rule_for delay config =
      rule_of unique searchsorted delay config.hysteresis_db config.symbol_rate_baud

  unfoldable pub acm_on_grid :
      List (Option ℤ)
      → List ℕ
      → List Pass
      → ℕ
      → AdaptationConfig
      → Option (List RateSegment × List ModcodEvent)
  acm_on_grid values grid passes delay config =
      check (is_grid grid)
      >> check (length values == length grid)
      >> check (are_passes passes)
      >> segments_on_grid (grid_decisions (record config { implementation_margin_db = 0 }) none)
          (searchsorted (rule_for delay config).levels) (rule_for delay config) grid values passes
