-- ===== src/Sweep/Tests.antt =====
-- sweep.py: small sweeps over a small document.
use openleo.Prelude.{
  ℕ, ◌≤◌, ◌≡◌, refl, false, true, if◌then◌else◌, none, some, List, [], ◌∷◌, length, ◌==◌,
}
use openleo.Prelude.Int.{pos}
use openleo.Json.{Value, Items, null, int, float, string, array, object, nil, cons, end, field}
use openleo.Json.Equal.{equal}
use openleo.Json.Texts.{Text, text, text_eq}
use openleo.Patch.{
  child, with_child, last_step, apply_at, check_operation, apply_one, apply_patch, value_at,
}
use openleo.Patch.Pointer.{split, unescape, token, tokens, index_of_token}
use openleo.Sweep.Checks.{only, text_in, number_in, integer_in, array_in, unique_from}
use openleo.Sweep.Data.{grid, Parameter, Spec}
use openleo.Sweep.Blocks.{
  window_of, loads, packet_settings, link_replay, models_of, network_replay, replay_of,
}
use openleo.Sweep.Spec.{
  nominal_of, parameter, parameters_from, variant, variants_from, parameters_of, variants_of,
  parse_sweep,
}
use openleo.Sweep.Ids.{quote, run_id, decimal_from, are_portable}
use openleo.Sweep.Runs.{
  SweepRun, Extent, Clock, product, replace_all, count_oat, count_combinations, clip, fits_extent,
  generated, oat_values, oat_runs, expand_oat, grid_runs, expand_grid, variant_runs,
  expand_variants, time_at,
}
use openleo.Sweep.Expand.{can_replay, runs_of, expand_sweep, ids_of}
use openleo.Sweep.Grid.{AreGridRuns, expand_grid-AreGridRuns}
use openleo.Sweep.Oat.{AreOatRuns, expand_oat-AreOatRuns}
use openleo.Sweep.Portable.{ArePortable, expand_sweep-ArePortable}

program : Unit {0}
unfolding split unescape token tokens index_of_token child with_child last_step apply_at
    check_operation apply_one apply_patch value_at equal only text_in number_in integer_in array_in
    unique_from window_of loads packet_settings link_replay models_of network_replay replay_of
    nominal_of parameter parameters_from variant variants_from parameters_of variants_of parse_sweep
    quote run_id decimal_from are_portable product replace_all count_oat clip fits_extent generated
    oat_values oat_runs expand_oat grid_runs expand_grid variant_runs expand_variants can_replay
    runs_of expand_sweep time_at
program = tt

-- The text "0" is the start of the window and any other its end.
abbrev clock : Clock
clock = record {
  utc = λ t. some (if text_eq t (text "0") then 0 else 100);
  utc_text = λ n. if n == 0 then text "0" else text "1";
  micros = λ v. some 1;
}

abbrev value_text : Value → Text
value_text null = text "null"
value_text _ = text "1"

abbrev number : ℕ → Value
number n = int (pos n)

-- {"time": {"start_utc": "0", "stop_utc": "1"}, "x": 1, "y": 2}
abbrev base : Value
base = object (
    field (text "time")
      (object (
        field (text "start_utc") (string (text "0"))
          (field (text "stop_utc") (string (text "1")) end)))
      (field (text "x") (number 1) (field (text "y") (number 2) end)))

abbrev extent : Extent
extent = record { windowed = false; replay = false; start = 0; stop = 100 }

same_numbers : equal (number 15) (float (pos 30) 1) ≡ true
unfolding program
same_numbers = refl

-- [{"path": "/x", "values": [5, 6]}, {"path": "/y", "values": [7]}]
abbrev items : Items
items =
    cons
      (object (
        field (text "path") (string (text "/x"))
          (field (text "values") (array (cons (number 5) (cons (number 6) nil))) end)))
      (cons
        (object (
          field (text "path") (string (text "/y"))
            (field (text "values") (array (cons (number 7) nil)) end)))
        nil)

abbrev parameters : List Parameter
parameters =
    record {
      path = text "/x";
      place = text "x" ∷ [];
      values = cons (number 5) (cons (number 6) nil);
      nominal = none;
    }
    ∷ record {
      path = text "/y";
      place = text "y" ∷ [];
      values = cons (number 7) nil;
      nominal = none;
    }
    ∷ []

abbrev with_values : Value → Value → Value
with_values x y = object (
    field (text "time")
      (object (
        field (text "start_utc") (string (text "0"))
          (field (text "stop_utc") (string (text "1")) end)))
      (field (text "x") x (field (text "y") y end)))

abbrev grid_run : Text → Value → SweepRun
grid_run id x = record {
  id = id;
  label = text "/x = 1, /y = 1";
  document = with_values x (number 7);
}

abbrev grid_expected : List SweepRun
grid_expected = grid_run (text "grid%3A0") (number 5) ∷ grid_run (text "grid%3A1") (number 6) ∷ []

expand_grid-AreGridRuns_example :
    (length grid_expected ≡ count_combinations parameters)
    × (length grid_expected ≤ 2)
    × AreGridRuns clock some value_text base parameters (product parameters) grid_expected
unfolding program
expand_grid-AreGridRuns_example =
    expand_grid-AreGridRuns clock some value_text items parameters extent 2 base base grid_expected
      refl refl

abbrev one_parameter : List Parameter
one_parameter =
    record {
      path = text "/x";
      place = text "x" ∷ [];
      values = cons (number 1) (cons (number 6) nil);
      nominal = some (number 1);
    }
    ∷ []

abbrev oat_expected : List SweepRun
oat_expected =
    record { id = text "oat%3Anominal"; label = text "nominal"; document = base }
    ∷ record {
      id = text "oat%3A%2Fx%3D1";
      label = text "/x = 1";
      document = with_values (number 6) (number 2);
    }
    ∷ []

expand_oat-AreOatRuns_example :
    (nominal : SweepRun) × (rest : List SweepRun) × (oat_expected ≡ nominal ∷ rest)
    × (some base ≡ some nominal.document)
    × AreOatRuns clock some value_text base base one_parameter rest
    × (length oat_expected ≡ count_oat one_parameter)
    × (length oat_expected ≤ 9)
unfolding program
expand_oat-AreOatRuns_example =
    expand_oat-AreOatRuns clock some value_text extent 9 base base one_parameter oat_expected refl

abbrev document : Value
document = object (
    field (text "schema") (string (text "openleo.sweep/2")) (
      field (text "name") (string (text "two")) (
        field (text "base_scenario") (string (text "base.json")) (
          field (text "mode") (string (text "grid"))
            (field (text "parameters") (array items) end)))))

abbrev spec : Spec
spec = record {
  name = text "two";
  base_scenario = text "base.json";
  mode = grid;
  parameters = parameters;
  variant_list = [];
  window = none;
  replay = none;
  limit = 512;
}

parsed : parse_sweep document ≡ some spec
unfolding program
parsed = refl

expand_sweep-ArePortable_example : ArePortable (ids_of clock some value_text grid_expected)
unfolding program
expand_sweep-ArePortable_example =
    expand_sweep-ArePortable clock some value_text spec base grid_expected refl
