-- ===== src/Statistics/Tests.antt =====
-- engine/statistics.py: two satellites over one station.
use openleo.Prelude.{ℕ, ◌≡◌, ◌≤◌, refl, false, Option, none, some, List, [], ◌∷◌, zip3}
use openleo.Passes.{Pass}
use openleo.Measure.{proper, sort, runs, measure, integrate_piecewise}
use openleo.Acm.Schedule.{RateSegment}
use openleo.Hold.{Held, hold_from}
use openleo.Statistics.{PairResult, pair_intervals, tracks_of, envelope_of, best_link_segments}
use openleo.Statistics.Metrics.{StationMetrics, collect, bits, pair_metrics, station_metrics}
use openleo.Statistics.Fractions.{station_metrics-fractions}

program : Unit {0}
unfolding pair_intervals tracks_of envelope_of best_link_segments hold_from collect bits
    pair_metrics station_metrics proper sort runs measure integrate_piecewise zip3
program = tt

abbrev pass : ℕ → ℕ → Pass
pass start stop = record {
  start_s = start;
  end_s = stop;
  culmination_s = start;
  max_elevation_deg = 40;
  truncated_start = false;
  truncated_end = false;
}

abbrev piece : ℕ → ℕ → ℕ → RateSegment
piece start stop rate = record {
  start_s = start;
  end_s = stop;
  modcod = some "QPSK 1/2";
  rate_bps = rate;
}

abbrev pair : ℕ → List Pass → List RateSegment → PairResult
pair satellite passes segments = record {
  station_index = 0;
  satellite_index = satellite;
  passes = passes;
  segments = segments;
  modcod_events = [];
  shannon_bits = 0;
  max_elevation_deg = 40;
  min_range_m = 1000;
}

abbrev two_pairs : List PairResult
two_pairs =
    pair 4 (pass 5 12 ∷ []) (piece 5 9 30 ∷ piece 9 12 10 ∷ [])
    ∷ pair 2 (pass 0 10 ∷ []) (piece 0 10 20 ∷ [])
    ∷ []

abbrev held : ℕ → ℕ → ℕ → ℕ → Held (Option ℕ × ℕ)
held start stop satellite rate = record {
  start_s = start;
  end_s = stop;
  value = (some satellite, rate);
}

envelope :
    best_link_segments two_pairs
    ≡ some (held 0 5 2 20 ∷ held 5 9 4 30 ∷ held 9 10 2 20 ∷ held 10 12 4 10 ∷ [])
unfolding program
envelope = refl

abbrev metrics : StationMetrics
metrics = record {
  visible_fraction = record { numerator = 12; denominator = 20 };
  rf_usable_fraction = record { numerator = 12; denominator = 20 };
  best_link_integrated_bits = 260;
  best_link_handovers = 3;
  best_link_mean_rate_bps = record { numerator = 260; denominator = 20 };
  fixed_capacity_integrated_bits = none;
}

station_metrics-fractions_example :
    (metrics.visible_fraction.denominator ≡ 20)
    × (metrics.rf_usable_fraction.denominator ≡ 20)
    × (metrics.rf_usable_fraction.numerator ≤ metrics.visible_fraction.numerator)
    × (metrics.visible_fraction.numerator ≤ 20)
unfolding program
station_metrics-fractions_example = station_metrics-fractions 0 two_pairs 20 none metrics refl

duplicate : station_metrics 0 (pair 2 [] [] ∷ pair 2 [] [] ∷ []) 20 none ≡ none
unfolding program
duplicate = refl
