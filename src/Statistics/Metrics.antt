-- ===== src/Statistics/Metrics.antt =====
-- engine/statistics.py: `pair_metrics` and `station_metrics`. A ratio is its two parts; `none` in
-- place of a mean is the float NaN, and a `none` result is a ValueError.
use openleo.Prelude.{
  ℕ, ◌+◌, ◌-◌, ◌*◌, leb, ltb, ◌==◌, if◌then◌else◌, Bool, true, false, not, ◌&&◌, ◌||◌, Option, none,
  some, List, [], ◌∷◌, ◌++◌, map, String, str_eq, elem,
}
use openleo.Passes.{Pass}
use openleo.Measure.{measure, integrate_piecewise}
use openleo.Acm.{Modcod, modcods, name}
use openleo.Acm.Schedule.{RateSegment, same_name}
use openleo.Hold.{Held}
use openleo.Statistics.{PairResult, pass_span, segment_span, pair_intervals, best_link_segments}

pub record Ratio : Type 0 where
  pub numerator : ℕ
  pub denominator : ℕ

pub record PairMetrics : Type 0 where
  pub pass_count : ℕ
  pub visible_duration_s : ℕ
  pub rf_usable_duration_s : ℕ
  pub integrated_rate_bits : ℕ
  pub integrated_shannon_upper_bound_bits : ℕ
  pub max_elevation_deg : ℕ
  pub min_range_m : ℕ
  pub mean_rate_visible_bps : Option Ratio
  pub residence_s : List (String × ℕ)

-- `_bits`
unfoldable pub bits : List RateSegment → Option ℕ
bits segments =
    integrate_piecewise (map (λ (s : RateSegment). s.start_s) segments)
      (map (λ (s : RateSegment). s.end_s) segments) (map (λ (s : RateSegment). s.rate_bps) segments)

abbrev pub is_in_table : String → List Modcod → Bool
is_in_table s [] = false
is_in_table s (m ∷ l) = str_eq s (name m) || is_in_table s l

-- No segment names a MODCOD outside the table.
abbrev pub all_known : List RateSegment → Bool
all_known [] = true
all_known (s ∷ l) = (elim s.modcod [ none ↦ true | some n ↦ is_in_table n modcods ]) && all_known l

abbrev pub residence : Modcod → List RateSegment → ℕ
residence m [] = 0
residence m (s ∷ l) =
    (if same_name s.modcod (some (name m)) then s.end_s - s.start_s else 0) + residence m l

abbrev pub usable_spans : List RateSegment → List (ℕ × ℕ)
usable_spans [] = []
usable_spans (s ∷ l) = if ltb 0 s.rate_bps then segment_span s ∷ usable_spans l else usable_spans l

abbrev pub count_passes : List Pass → ℕ
count_passes [] = 0
count_passes (p ∷ l) = (if ltb p.start_s p.end_s then 1 else 0) + count_passes l

abbrev pub metrics_of : PairResult → List Pass → List RateSegment → ℕ → ℕ → ℕ → PairMetrics
metrics_of pair passes segments visible usable total = record {
  pass_count = count_passes passes;
  visible_duration_s = visible;
  rf_usable_duration_s = usable;
  integrated_rate_bits = total;
  integrated_shannon_upper_bound_bits = pair.shannon_bits;
  max_elevation_deg = pair.max_elevation_deg;
  min_range_m = pair.min_range_m;
  mean_rate_visible_bps =
      if ltb 0 visible then some (record { numerator = total; denominator = visible }) else none;
  residence_s = map (λ m. (name m, residence m segments)) modcods;
}

unfoldable pub pair_metrics : PairResult → Option PairMetrics
pair_metrics pair = elim (pair_intervals pair) [
  | none ↦ none
  | some (passes, segments) ↦ elim (measure (map pass_span passes)) [
    | none ↦ none
    | some visible ↦ elim (bits segments) [
      | none ↦ none
      | some total ↦ elim (measure (usable_spans segments)) [
        | none ↦ none
        | some usable ↦
            if all_known segments
            then some (metrics_of pair passes segments visible usable total)
            else none
      ]
    ]
  ]
]

pub record StationMetrics : Type 0 where
  pub visible_fraction : Ratio
  pub rf_usable_fraction : Ratio
  pub best_link_integrated_bits : ℕ
  pub best_link_handovers : ℕ
  pub best_link_mean_rate_bps : Ratio
  pub fixed_capacity_integrated_bits : Option ℕ

-- Adjacent pieces that both have a satellite, and not the same one.
abbrev pub is_handover : Option ℕ → Option ℕ → Bool
is_handover (some a) (some b) = not (a == b)
is_handover _ _ = false

abbrev pub handovers : List (Held (Option ℕ × ℕ)) → ℕ
handovers [] = 0
handovers (x ∷ []) = 0
handovers (x ∷ y ∷ l) = (if is_handover x.value.0 y.value.0 then 1 else 0) + handovers (y ∷ l)

abbrev pub all_inside : ℕ → List Pass → Bool
all_inside window [] = true
all_inside window (p ∷ l) = leb p.end_s window && all_inside window l

-- The loop over the pairs, with the satellites seen so far: the spans of the passes and those of the
-- segments with a rate.
unfoldable pub collect : ℕ → ℕ → List ℕ → List PairResult → Option (List (ℕ × ℕ) × List (ℕ × ℕ))
collect station window seen [] = some ([], [])
collect station window seen (p ∷ l) =
    let rest = collect station window (p.satellite_index ∷ seen) l in
    if (p.station_index == station) && not (elem p.satellite_index seen)
    then elim (pair_intervals p) [
      | none ↦ none
      | some (passes, segments) ↦
          if all_inside window passes
          then elim rest [
            | none ↦ none
            | some (spans, usable) ↦
                some (map pass_span passes ++ spans, usable_spans segments ++ usable)
          ]
          else none
    ]
    else none

abbrev pub is_capacity : Option ℕ → Bool
is_capacity none = true
is_capacity (some c) = ltb 0 c

abbrev pub station_of : ℕ → Option ℕ → List (Held (Option ℕ × ℕ)) → ℕ → ℕ → ℕ → StationMetrics
station_of window fixed envelope visible usable total = record {
  visible_fraction = record { numerator = visible; denominator = window };
  rf_usable_fraction = record { numerator = usable; denominator = window };
  best_link_integrated_bits = total;
  best_link_handovers = handovers envelope;
  best_link_mean_rate_bps = record { numerator = total; denominator = window };
  fixed_capacity_integrated_bits = elim fixed [
    | none ↦ none
    | some capacity ↦ some (capacity * visible)
  ];
}

abbrev pub integral : List (Held (Option ℕ × ℕ)) → Option ℕ
integral envelope =
    integrate_piecewise (map (λ (h : Held (Option ℕ × ℕ)). h.start_s) envelope)
      (map (λ (h : Held (Option ℕ × ℕ)). h.end_s) envelope)
      (map (λ (h : Held (Option ℕ × ℕ)). h.value.1) envelope)

unfoldable pub station_metrics : ℕ → List PairResult → ℕ → Option ℕ → Option StationMetrics
station_metrics station pairs window fixed =
    if ltb 0 window && is_capacity fixed
    then elim (collect station window [] pairs) [
      | none ↦ none
      | some (spans, usable) ↦ elim (best_link_segments pairs) [
        | none ↦ none
        | some envelope ↦ elim (measure spans) [
          | none ↦ none
          | some visible ↦ elim (integral envelope) [
            | none ↦ none
            | some total ↦ elim (measure usable) [
              | none ↦ none
              | some used ↦ some (station_of window fixed envelope visible used total)
            ]
          ]
        ]
      ]
    ]
    else none
