-- ===== src/Statistics.antt =====
-- engine/statistics.py: the checked intervals of a pair, the best link of a station over time, and
-- the metrics of a pair and of a station. A ratio is kept as its two parts, and `none` in place of a
-- ratio is the float NaN.
mod Tests
pub mod Sorting
pub mod Best
pub mod Choice
pub mod Metrics
pub mod Fractions
use openleo.Prelude.{
  ℕ, ◌+◌, ◌-◌, ◌*◌, leb, ltb, ◌==◌, if◌then◌else◌, Bool, true, false, not, ◌&&◌, ◌||◌, Option, none,
  some, List, [], ◌∷◌, ◌++◌, map, String, str_eq, elem,
}
use openleo.Passes.{Pass}
use openleo.Measure.{measure, integrate_piecewise, before, sum}
use openleo.Acm.{modcods, name}
use openleo.Acm.Schedule.{RateSegment, ModcodEvent, add_cut, same_name}
use openleo.Hold.{Held, hold_from}

pub record PairResult : Type 0 where
  pub station_index : ℕ
  pub satellite_index : ℕ
  pub passes : List Pass
  pub segments : List RateSegment
  pub modcod_events : List ModcodEvent
  pub shannon_bits : ℕ
  pub max_elevation_deg : ℕ
  pub min_range_m : ℕ

abbrev pub pass_span : Pass → ℕ × ℕ
pass_span p = (p.start_s, p.end_s)

abbrev pub segment_span : RateSegment → ℕ × ℕ
segment_span s = (s.start_s, s.end_s)

module _ {A : Type 0} (span : A → ℕ × ℕ) where
  abbrev pub insert_by : A → List A → List A
  insert_by x [] = x ∷ []
  insert_by x (y ∷ l) = if before (span x) (span y) then x ∷ y ∷ l else y ∷ insert_by x l

  -- `sorted(items, key=lambda i: (i.start_s, i.end_s))`, which is stable.
  abbrev pub sorted_by : List A → List A
  sorted_by [] = []
  sorted_by (x ∷ l) = insert_by x (sorted_by l)

  -- No item ends before it starts, and none starts before the one before it ends.
  abbrev pub is_disjoint : List A → Bool
  is_disjoint [] = true
  is_disjoint (x ∷ []) = leb (span x).0 (span x).1
  is_disjoint (x ∷ y ∷ l) =
      leb (span x).0 (span x).1 && leb (span x).1 (span y).0 && is_disjoint (y ∷ l)

  -- `items[bisect_right(starts, t) - 1]` for items in order: the last that starts at or before `t`.
  abbrev pub last_started : Option A → List A → ℕ → Option A
  last_started now [] t = now
  last_started now (x ∷ l) t = if leb (span x).0 t then last_started (some x) l t else now

abbrev pub is_in_passes : List Pass → RateSegment → Bool
is_in_passes passes s = elim (last_started pass_span none passes s.start_s) [
  | none ↦ false
  | some p ↦ leb s.end_s p.end_s
]

abbrev pub all_in_passes : List Pass → List RateSegment → Bool
all_in_passes passes [] = true
all_in_passes passes (s ∷ l) = is_in_passes passes s && all_in_passes passes l

-- `_pair_intervals`: the passes and segments in order; `none` is a ValueError.
unfoldable pub pair_intervals : PairResult → Option (List Pass × List RateSegment)
pair_intervals pair =
    let passes = sorted_by pass_span pair.passes in
    let segments = sorted_by segment_span pair.segments in
    if is_disjoint pass_span passes
      && is_disjoint segment_span segments
      && all_in_passes passes segments
    then some (passes, segments)
    else none

pub record Track : Type 0 where
  pub satellite : ℕ
  pub segments : List RateSegment

abbrev pub nonempty_segments : List RateSegment → List RateSegment
nonempty_segments [] = []
nonempty_segments (s ∷ l) =
    if ltb s.start_s s.end_s then s ∷ nonempty_segments l else nonempty_segments l

abbrev pub add_track : ℕ → List RateSegment → List Track → List Track
add_track satellite [] tracks = tracks
add_track satellite (s ∷ l) tracks = record { satellite = satellite; segments = s ∷ l } ∷ tracks

-- The pairs in the order of their satellites, with their non-empty segments.
unfoldable pub tracks_of : List PairResult → Option (List Track)
tracks_of [] = some []
tracks_of (p ∷ l) = elim (pair_intervals p) [
  | none ↦ none
  | some (_, segments) ↦ elim (tracks_of l) [
    | none ↦ none
    | some tracks ↦ some (add_track p.satellite_index (nonempty_segments segments) tracks)
  ]
]

abbrev pub by_satellite : PairResult → ℕ × ℕ
by_satellite p = (p.satellite_index, 0)

-- `np.unique` of the ends of all segments.
abbrev pub add_ends : List RateSegment → List ℕ → List ℕ
add_ends [] cuts = cuts
add_ends (s ∷ l) cuts = add_cut s.start_s (add_cut s.end_s (add_ends l cuts))

abbrev pub ends_of : List Track → List ℕ
ends_of [] = []
ends_of (x ∷ l) = add_ends x.segments (ends_of l)

-- The rate of the segment that holds the instant, or 0.
abbrev pub rate_of : Option RateSegment → ℕ → ℕ
rate_of none t = 0
rate_of (some s) t = if ltb t s.end_s then s.rate_bps else 0

abbrev pub rate_at : List RateSegment → ℕ → ℕ
rate_at segments t = rate_of (last_started segment_span none segments t) t

-- One instant's column of the loop over the tracks, with its strict comparison.
abbrev pub best_from : Option ℕ × ℕ → List Track → ℕ → Option ℕ × ℕ
best_from best [] t = best
best_from best (x ∷ l) t =
    best_from
      (if ltb best.1 (rate_at x.segments t) then (some x.satellite, rate_at x.segments t) else best)
      l t

abbrev pub best_at : List Track → ℕ → Option ℕ × ℕ
best_at tracks t = best_from (none, 0) tracks t

abbrev pub same_index : Option ℕ → Option ℕ → Bool
same_index none none = true
same_index (some a) (some b) = a == b
same_index _ _ = false

abbrev pub same_key : Option ℕ × ℕ → Option ℕ × ℕ → Bool
same_key (a, r) (b, q) = same_index a b && r == q

-- The values at `cuts[:-1]`.
abbrev pub best_values : List Track → List ℕ → List (Option ℕ × ℕ)
best_values tracks [] = []
best_values tracks (t ∷ []) = []
best_values tracks (t ∷ u ∷ l) = best_at tracks t ∷ best_values tracks (u ∷ l)

unfoldable pub envelope_of : List Track → List (Held (Option ℕ × ℕ))
envelope_of tracks = hold_from same_key [] (ends_of tracks) (best_values tracks (ends_of tracks))

unfoldable pub best_link_segments : List PairResult → Option (List (Held (Option ℕ × ℕ)))
best_link_segments pairs = elim (tracks_of (sorted_by by_satellite pairs)) [
  | none ↦ none
  | some tracks ↦ some (envelope_of tracks)
]
