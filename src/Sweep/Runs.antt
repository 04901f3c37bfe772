-- ===== src/Sweep/Runs.antt =====
-- sweep.py: the three expansions of a sweep, `_clip` and `_check_extent` over a normalised scenario
-- document. The arguments of the section are what the code calls: the scenario parser followed by
-- `scenario_document`, json.dumps, and the datetime arithmetic in whole microseconds. The hashes of
-- the documents, which the runs carry too, are left out.
use openleo.Prelude.{
  check, ◌>>=◌, ◌>>◌, ℕ, ◌+◌, ◌*◌, ◌-◌, ltb, leb, if◌then◌else◌, Bool, true, false, not, ◌&&◌, ◌||◌,
  Option, none, some, List, [], ◌∷◌, ◌++◌, length,
}
use openleo.Json.{Value, Items, string, nil, cons, to_list}
use openleo.Json.Equal.{equal}
use openleo.Json.Texts.{Text, text}
use openleo.Patch.{replace, apply_at, apply_patch, value_at}
use openleo.Sweep.Data.{Parameter, Variant, Window}
use openleo.Sweep.Blocks.{is_some}
use openleo.Sweep.Ids.{run_id, decimal}

pub record SweepRun : Type 0 where
  pub id : Text
  pub label : Text
  pub document : Value

pub record Extent : Type 0 where
  pub windowed : Bool
  pub replay : Bool
  pub start : ℕ
  pub stop : ℕ

-- `_utc`, `_utc_text` and `timedelta(seconds=x)` where it is exact.
pub record Clock : Type 0 where
  pub utc : Text → Option ℕ
  pub utc_text : ℕ → Text
  pub micros : Value → Option ℕ

abbrev pub max_replay_window_us : ℕ
max_replay_window_us = 3600000000

abbrev pub start_utc : List Text
start_utc = text "time" ∷ text "start_utc" ∷ []

abbrev pub stop_utc : List Text
stop_utc = text "time" ∷ text "stop_utc" ∷ []

abbrev pub step_s : List Text
step_s = text "time" ∷ text "step_s" ∷ []

abbrev pub text_of : Value → Option Text
text_of (string s) = some s
text_of _ = none

-- `itertools.product`: the first list varies slowest.
abbrev pub prefixed : Value → List (List Value) → List (List Value)
prefixed v [] = []
prefixed v (c ∷ l) = (v ∷ c) ∷ prefixed v l

abbrev pub each : Items → List (List Value) → List (List Value)
each nil rest = []
each (cons v l) rest = prefixed v rest ++ each l rest

unfoldable pub product : List Parameter → List (List Value)
product [] = [] ∷ []
product (p ∷ l) = each p.values (product l)

-- `_replace` of each parameter by its value of the combination.
unfoldable pub replace_all : Value → List Parameter → List Value → Option Value
replace_all document [] [] = some document
replace_all document (p ∷ ps) (v ∷ vs) = do
  d ← apply_at replace (some v) p.place document
  replace_all d ps vs
replace_all document _ _ = none

-- The values of a parameter that are not the nominal one.
abbrev pub varied : Option Value → Items → List Value
varied none l = []
varied (some n) nil = []
varied (some n) (cons v l) = if equal v n then varied (some n) l else v ∷ varied (some n) l

unfoldable pub count_oat : List Parameter → ℕ
count_oat [] = 1
count_oat (p ∷ l) = length (varied p.nominal p.values) + count_oat l

-- The nominal values are those of the base document.
abbrev pub is_nominal : Value → Parameter → Bool
is_nominal base p = elim (value_at p.place base) [
  | none ↦ false
  | some current ↦ elim p.nominal [ none ↦ false | some n ↦ equal current n ]
]

abbrev pub are_nominal : Value → List Parameter → Bool
are_nominal base [] = true
are_nominal base (p ∷ l) = is_nominal base p && are_nominal base l

abbrev pub count_combinations : List Parameter → ℕ
count_combinations [] = 1
count_combinations (p ∷ l) = length (to_list p.values) * count_combinations l

abbrev pub have_values : Value → List Parameter → Bool
have_values base [] = true
have_values base (p ∷ l) = is_some (value_at p.place base) && have_values base l

module _ (clock : Clock) (normalise : Value → Option Value) (value_text : Value → Text) where
  unfoldable pub time_at : List Text → Value → Option ℕ
  time_at place document = value_at place document >>= text_of >>= clock.utc

  unfoldable pub clip : Value → Option Window → Bool → Option Value
  unfolding time_at
  clip document none replays = do
    start ← time_at start_utc document
    stop ← time_at stop_utc document
    check (not (replays && ltb max_replay_window_us (stop - start)))
    some document
  clip document (some w) replays = do
    start ← time_at start_utc document
    stop ← time_at stop_utc document
    offset ← clock.micros w.start_offset_s
    duration ← clock.micros w.duration_s
    check (leb (offset + duration) (stop - start))
    step ← value_at step_s document >>= clock.micros
    check (leb step duration)
    check (not (replays && ltb max_replay_window_us duration))
    clipped ← apply_at replace (some (string (clock.utc_text (start + offset)))) start_utc document
    apply_at replace (some (string (clock.utc_text (start + offset + duration)))) stop_utc clipped

  -- `_check_extent`
  unfoldable pub fits_extent : Value → Extent → Option Bool
  unfolding time_at
  fits_extent document extent = do
    start ← time_at start_utc document
    stop ← time_at stop_utc document
    some (
        not (extent.windowed && (ltb start extent.start || ltb extent.stop stop))
        && not (extent.replay && ltb max_replay_window_us (stop - start)))

  -- `_generated`
  unfoldable pub generated : Extent → Text → Text → Value → Option SweepRun
  generated extent id label patched = do
    document ← normalise patched
    fits ← fits_extent document extent
    check fits
    some (record { id = id; label = label; document = document })

  abbrev pub labelled : Text → Value → Text
  labelled path v = path ++ text " = " ++ value_text v

  -- The runs of one parameter, at each value that is not its nominal one.
  unfoldable pub oat_values : Extent → Value → Parameter → List Value → Option (List SweepRun)
  oat_values extent clipped p [] = some []
  oat_values extent clipped p (v ∷ l) = do
    patched ← apply_at replace (some v) p.place clipped
    id ← run_id (text "oat:" ++ p.path ++ text "=" ++ value_text v)
    run ← generated extent id (labelled p.path v) patched
    rest ← oat_values extent clipped p l
    some (run ∷ rest)

  unfoldable pub oat_runs : Extent → Value → List Parameter → Option (List SweepRun)
  oat_runs extent clipped [] = some []
  oat_runs extent clipped (p ∷ l) = do
    first ← oat_values extent clipped p (varied p.nominal p.values)
    rest ← oat_runs extent clipped l
    some (first ++ rest)

  unfoldable pub expand_oat : Extent → ℕ → Value → Value → List Parameter → Option (List SweepRun)
  expand_oat extent maximum base clipped ps = do
    check (leb (count_oat ps) maximum)
    check (are_nominal base ps)
    id ← run_id (text "oat:nominal")
    nominal ← generated extent id (text "nominal") clipped
    rest ← oat_runs extent clipped ps
    some (nominal ∷ rest)

  abbrev pub grid_label : List Parameter → List Value → Text
  grid_label [] vs = []
  grid_label (p ∷ ps) [] = []
  grid_label (p ∷ []) (v ∷ vs) = labelled p.path v
  grid_label (p ∷ q ∷ ps) (v ∷ vs) = labelled p.path v ++ text ", " ++ grid_label (q ∷ ps) vs

  unfoldable pub grid_runs :
      Extent → Value → List Parameter → ℕ → List (List Value) → Option (List SweepRun)
  grid_runs extent clipped ps number [] = some []
  grid_runs extent clipped ps number (c ∷ l) = do
    patched ← replace_all clipped ps c
    id ← run_id (text "grid:" ++ decimal number)
    run ← generated extent id (grid_label ps c) patched
    rest ← grid_runs extent clipped ps (number + 1) l
    some (run ∷ rest)

  unfoldable pub expand_grid : Extent → ℕ → Value → Value → List Parameter → Option (List SweepRun)
  expand_grid extent maximum base clipped ps = do
    check (leb (count_combinations ps) maximum)
    check (have_values base ps)
    grid_runs extent clipped ps 0 (product ps)

  unfoldable pub variant_runs : Extent → Value → List Variant → Option (List SweepRun)
  variant_runs extent clipped [] = some []
  variant_runs extent clipped (v ∷ l) = do
    patched ← apply_patch clipped v.patch
    id ← run_id (text "variant:" ++ v.id)
    run ← generated extent id v.label patched
    rest ← variant_runs extent clipped l
    some (run ∷ rest)

  unfoldable pub expand_variants : Extent → ℕ → Value → List Variant → Option (List SweepRun)
  expand_variants extent maximum clipped vs = do
    check (leb (length vs) maximum)
    variant_runs extent clipped vs
