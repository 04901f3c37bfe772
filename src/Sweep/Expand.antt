-- ===== src/Sweep/Expand.antt =====
-- sweep.py: `expand_sweep`, the runs of a checked sweep, with the checks of a replay and of the ids.
use openleo.Prelude.{check, ◌>>=◌, ◌>>◌, Bool, true, false, ◌&&◌, Option, none, some, List, [], ◌∷◌}
use openleo.Json.{Value, Items, null, string, array, nil, cons}
use openleo.Json.Texts.{Text, text}
use openleo.Patch.{value_at}
use openleo.Sweep.Checks.{one_of}
use openleo.Sweep.Data.{oat, grid, variants, Variant, Replay, Spec}
use openleo.Sweep.Blocks.{is_some}
use openleo.Sweep.Ids.{are_portable}
use openleo.Sweep.Runs.{
  SweepRun, Extent, Clock, start_utc, stop_utc, time_at, clip, expand_oat, expand_grid,
  expand_variants,
}

module _ (clock : Clock) (normalise : Value → Option Value) (value_text : Value → Text) where
  -- `_check_replay`
  abbrev pub station_names : Items → List Text
  station_names nil = []
  station_names (cons s l) = elim (value_at (text "name" ∷ []) s) [
    | some (string n) ↦ n ∷ station_names l
    | _ ↦ station_names l
  ]

  abbrev pub text_items : Items → List Text
  text_items nil = []
  text_items (cons (string s) l) = s ∷ text_items l
  text_items (cons v l) = text_items l

  abbrev pub all_declared : List Text → List Text → Bool
  all_declared [] declared = true
  all_declared (m ∷ l) declared = one_of m declared && all_declared l declared

  abbrev pub items_at : List Text → Value → Items
  items_at place document = elim (value_at place document) [ some (array l) ↦ l | _ ↦ nil ]

  abbrev pub has_network : Value → Bool
  has_network document = elim (value_at (text "network" ∷ []) document) [
    | none ↦ false
    | some null ↦ false
    | some v ↦ true
  ]

  unfoldable pub can_replay : Replay → Value → Bool
  can_replay r document =
      elim r.link [
        | none ↦ true
        | some l ↦
            one_of l.station
              (station_names (items_at (text "ground_segment" ∷ text "stations" ∷ []) document))
      ]
      && elim r.network [
        | none ↦ true
        | some n ↦ has_network document && elim n.routing_models [
          | none ↦ true
          | some models ↦
              all_declared (text_items models)
                (text_items (items_at (text "network" ∷ text "route_models" ∷ []) document))
        ]
      ]

  abbrev pub all_can_replay : Option Replay → List SweepRun → Bool
  all_can_replay none runs = true
  all_can_replay (some r) [] = true
  all_can_replay (some r) (x ∷ l) = can_replay r x.document && all_can_replay (some r) l

  abbrev pub ids_of : List SweepRun → List Text
  ids_of [] = []
  ids_of (r ∷ l) = r.id ∷ ids_of l

  unfoldable pub runs_of : Spec → Extent → Value → Value → Option (List SweepRun)
  runs_of spec extent base clipped = elim spec.mode [
    | oat ↦ expand_oat clock normalise value_text extent spec.limit base clipped spec.parameters
    | grid ↦ expand_grid clock normalise value_text extent spec.limit base clipped spec.parameters
    | variants ↦
        expand_variants clock normalise value_text extent spec.limit clipped spec.variant_list
  ]

  unfoldable pub expand_sweep : Spec → Value → Option (List SweepRun)
  unfolding time_at
  expand_sweep spec base = do
    clipped ← clip clock normalise value_text base spec.window (is_some spec.replay)
    start ← time_at clock normalise value_text start_utc base
    stop ← time_at clock normalise value_text stop_utc base
    runs ←
        runs_of spec
          (record {
            windowed = is_some spec.window;
            replay = is_some spec.replay;
            start = start;
            stop = stop;
          })
          base clipped
    check (are_portable [] (ids_of runs))
    check (all_can_replay spec.replay runs)
    some runs

-- `baseline_run_id`
unfoldable pub flagged_run : List Variant → List SweepRun → Option Text
flagged_run (v ∷ vs) (r ∷ rs) = elim v.baseline [ true ↦ some r.id | false ↦ flagged_run vs rs ]
flagged_run _ _ = none

abbrev pub first_run : List SweepRun → Option Text
first_run [] = none
first_run (r ∷ rs) = some r.id

unfoldable pub baseline_run_id : Spec → List SweepRun → Option Text
baseline_run_id spec runs = elim spec.mode [
  | variants ↦ elim (flagged_run spec.variant_list runs) [
    | none ↦ first_run runs
    | some id ↦ some id
  ]
  | _ ↦ first_run runs
]
