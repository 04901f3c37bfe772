-- ===== src/Sweep/Spec.antt =====
-- sweep.py: `parse_sweep`, the validation of a sweep document. A ValueError is `none`. The hash of
-- the document and its bytes, which the result carries on, are left out.
use openleo.Prelude.{
  check, ◌>>=◌, ◌>>◌, ℕ, if◌then◌else◌, Bool, true, false, not, ◌&&◌, ◌||◌, Option, none, some,
  List, [], ◌∷◌,
}
use openleo.Prelude.Int.{pos}
use openleo.Json.{Value, Items, Fields, bool, int, string, nil, cons, member, has}
use openleo.Json.Equal.{equal}
use openleo.Json.Texts.{Text, text, text_eq}
use openleo.Patch.{check_operation, overlap}
use openleo.Patch.Pointer.{tokens}
use openleo.Sweep.Checks.{
  one_of, only, text_in, integer_in, array_in, unique_from, get_default, get_null,
}
use openleo.Sweep.Data.{
  Mode, oat, grid, variants, max_runs, Parameter, Variant, Window, Replay, Spec, object_of,
}
use openleo.Sweep.Blocks.{window_of, replay_of, optional, is_short}

abbrev pub path_of : Value → Option Text
path_of (string s) = some s
path_of _ = none

abbrev pub overlaps_any : List Text → List (List Text) → Bool
overlaps_any ts [] = false
overlaps_any ts (us ∷ l) = overlap ts us || overlaps_any ts l

abbrev pub all_equal : Value → Items → Bool
all_equal n nil = true
all_equal n (cons v l) = equal v n && all_equal n l

-- The nominal value that a mode wants.
unfoldable pub nominal_of : Mode → Fields → Items → Option (Option Value)
nominal_of grid fs values = if has (text "nominal") fs then none else some none
nominal_of _ fs values = do
  n ← member (text "nominal") fs
  check (not (all_equal n values))
  some (some n)

-- One entry of `parameters`, with the pointers seen before it.
unfoldable pub parameter : Mode → List (List Text) → Value → Option Parameter
parameter mode seen item = do
  fs ← object_of item
  check (only (text "path" ∷ text "values" ∷ []) (text "nominal" ∷ []) fs)
  p ← member (text "path") fs >>= path_of
  ts ← tokens p
  check (not (overlaps_any ts seen))
  values ← member (text "values") fs >>= array_in 1 max_runs
  check (unique_from nil values)
  n ← nominal_of mode fs values
  some (record { path = p; place = ts; values = values; nominal = n })

unfoldable pub parameters_from : Mode → List (List Text) → Items → Option (List Parameter)
parameters_from mode seen nil = some []
parameters_from mode seen (cons item l) = do
  p ← parameter mode seen item
  rest ← parameters_from mode (p.place ∷ seen) l
  some (p ∷ rest)

-- `_check_patch_shape`
abbrev pub all_operations : Items → Bool
all_operations nil = true
all_operations (cons o l) =
    elim (check_operation o) [ none ↦ false | some _ ↦ true ] && all_operations l

abbrev pub bool_of : Value → Option Bool
bool_of (bool b) = some b
bool_of _ = none

abbrev pub max_variant_id_chars : ℕ
max_variant_id_chars = 64

-- One entry of `variants`, with the ids before it and whether one of them is the baseline.
unfoldable pub variant : List Text → Bool → Value → Option Variant
variant ids flagged item = do
  fs ← object_of item
  check (only (text "id" ∷ text "patch" ∷ []) (text "label" ∷ text "baseline" ∷ []) fs)
  id ← member (text "id") fs >>= text_in (some max_variant_id_chars)
  check (not (one_of id ids))
  label ← path_of (get_default (text "label") (string id) fs)
  baseline ← bool_of (get_default (text "baseline") (bool false) fs)
  check (not (baseline && flagged))
  patch ← member (text "patch") fs >>= array_in 0 10000
  check (all_operations patch)
  some (record { id = id; label = label; patch = patch; baseline = baseline })

unfoldable pub variants_from : List Text → Bool → Items → Option (List Variant)
variants_from ids flagged nil = some []
variants_from ids flagged (cons item l) = do
  v ← variant ids flagged item
  rest ← variants_from (v.id ∷ ids) (flagged || v.baseline) l
  some (v ∷ rest)

abbrev pub time_bounds : List (List Text)
time_bounds = (text "time" ∷ text "start_utc" ∷ []) ∷ (text "time" ∷ text "stop_utc" ∷ []) ∷ []

-- `_refuse_time_bounds`: no parameter or patch is at, under or above the times.
abbrev pub parameters_keep_time : List Parameter → Bool
parameters_keep_time [] = true
parameters_keep_time (p ∷ l) = not (overlaps_any p.place time_bounds) && parameters_keep_time l

abbrev pub patch_keeps_time : Items → Bool
patch_keeps_time nil = true
patch_keeps_time (cons o l) =
    elim (check_operation o) [ none ↦ true | some a ↦ not (overlaps_any a.path time_bounds) ]
    && patch_keeps_time l

abbrev pub variants_keep_time : List Variant → Bool
variants_keep_time [] = true
variants_keep_time (v ∷ l) = patch_keeps_time v.patch && variants_keep_time l

abbrev pub mode_of : Value → Option Mode
mode_of (string s) =
    if text_eq s (text "oat")
    then some oat
    else if text_eq s (text "grid")
    then some grid
    else if text_eq s (text "variants")
    then some variants
    else none
mode_of _ = none

abbrev pub is_schema : Value → Bool
is_schema (string s) = text_eq s (text "openleo.sweep/2")
is_schema _ = false

-- The block that the mode wants, and not the other.
unfoldable pub parameters_of : Mode → Fields → Option (List Parameter)
parameters_of variants fs = do check (not (has (text "parameters") fs)); some []
parameters_of mode fs = do
  items ← member (text "parameters") fs >>= array_in 1 max_runs
  parameters_from mode [] items

unfoldable pub variants_of : Mode → Fields → Option (List Variant)
variants_of variants fs = do
  items ← member (text "variants") fs >>= array_in 1 max_runs
  variants_from [] false items
variants_of mode fs = do check (not (has (text "variants") fs)); some []

-- The rules on the window and the replay together.
abbrev pub fits_replay : Option Window → Option Replay → Bool
fits_replay (some w) (some r) = is_short w
fits_replay _ _ = true

abbrev pub keeps_time : Option Window → List Parameter → List Variant → Bool
keeps_time none ps vs = true
keeps_time (some w) ps vs = parameters_keep_time ps && variants_keep_time vs

unfoldable pub parse_sweep : Value → Option Spec
parse_sweep raw = do
  fs ← object_of raw
  schema ← member (text "schema") fs
  check (is_schema schema)
  check (
      only (text "schema" ∷ text "name" ∷ text "base_scenario" ∷ text "mode" ∷ [])
        (text "parameters" ∷ text "variants" ∷ text "window" ∷ text "replay" ∷ text "max_runs" ∷ [])
        fs)
  mode ← member (text "mode") fs >>= mode_of
  name ← member (text "name") fs >>= text_in (some 200)
  base ← member (text "base_scenario") fs >>= text_in none
  parameters ← parameters_of mode fs
  vs ← variants_of mode fs
  window ← optional window_of (get_null (text "window") fs)
  replay ← optional replay_of (get_null (text "replay") fs)
  check (fits_replay window replay)
  limit ← integer_in 1 max_runs (get_default (text "max_runs") (int (pos max_runs)) fs)
  check (keeps_time window parameters vs)
  some (record {
    name = name;
    base_scenario = base;
    mode = mode;
    parameters = parameters;
    variant_list = vs;
    window = window;
    replay = replay;
    limit = limit;
  })

-- `spec_touches`
abbrev pub any_parameter : List Text → List Parameter → Bool
any_parameter ts [] = false
any_parameter ts (p ∷ l) = overlap p.place ts || any_parameter ts l

abbrev pub any_operation : List Text → Items → Bool
any_operation ts nil = false
any_operation ts (cons o l) =
    elim (check_operation o) [ none ↦ false | some a ↦ overlap a.path ts ] || any_operation ts l

abbrev pub any_variant : List Text → List Variant → Bool
any_variant ts [] = false
any_variant ts (v ∷ l) = any_operation ts v.patch || any_variant ts l

unfoldable pub spec_touches : Spec → List Text → Bool
spec_touches spec ts = any_parameter ts spec.parameters || any_variant ts spec.variant_list
