-- ===== src/Routing/Build.antt =====
-- engine/routing.py: the links of one instant (`link_state_from_pairs`, `_ground_edges`) and the
-- graph that they make (`_adjacency`). The delay of a link, which the caller computes from the
-- geometry, is a parameter.
use openleo.Prelude.{
  ℕ, zero, suc, ◌+◌, ltb, ◌==◌, if◌then◌else◌, Bool, true, not, ◌&&◌, ◌||◌, Option, none, some,
  List, [], ◌∷◌, ◌++◌, replicate,
}
use openleo.Passes.{Pass}
use openleo.Acm.Schedule.{RateSegment}
use openleo.Statistics.{PairResult, pass_span, last_started, pair_intervals, rate_at}
use openleo.Routing.{Edge, Graph}

-- (first, second, delay, capacity)
pub record Link : Type 0 where
  pub first : ℕ
  pub second : ℕ
  pub delay : ℕ
  pub capacity : ℕ

abbrev pub half : ℕ → Link → Edge
half node l = record { neighbor = node; delay = l.delay; capacity = l.capacity }

-- `graph[node].append(edge)`
abbrev pub add_edge : Graph → ℕ → Edge → Graph
add_edge [] node e = []
add_edge (x ∷ g) zero e = (x ++ e ∷ []) ∷ g
add_edge (x ∷ g) (suc node) e = x ∷ add_edge g node e

-- The loop over the edges; a node that is not one is an IndexError, which `adjacency` has as `none`.
abbrev pub add_links : Graph → List Link → Graph
add_links g [] = g
add_links g (l ∷ ls) =
    if ltb 0 l.capacity
    then add_links (add_edge (add_edge g l.first (half l.second l)) l.second (half l.first l)) ls
    else add_links g ls

abbrev pub are_nodes : ℕ → List Link → Bool
are_nodes n [] = true
are_nodes n (l ∷ ls) =
    (not (ltb 0 l.capacity) || (ltb l.first n && ltb l.second n)) && are_nodes n ls

unfoldable pub adjacency : ℕ → List Link → Option Graph
adjacency n links = if are_nodes n links then some (add_links (replicate n []) links) else none

-- One visible link: the rate and the delay.
pub record LinkState : Type 0 where
  pub rate : ℕ
  pub delay : ℕ

pub record PairTrack : Type 0 where
  pub station : ℕ
  pub satellite : ℕ
  pub passes : List Pass
  pub segments : List RateSegment

abbrev pub find_track : ℕ → ℕ → List PairTrack → Option PairTrack
find_track station satellite [] = none
find_track station satellite (x ∷ l) =
    if (x.station == station) && (x.satellite == satellite)
    then some x
    else find_track station satellite l

-- The tracks of the pairs; `none` is a ValueError.
unfoldable pub pair_tracks : List PairTrack → List PairResult → Option (List PairTrack)
pair_tracks tracks [] = some tracks
pair_tracks tracks (p ∷ l) = elim (find_track p.station_index p.satellite_index tracks) [
  | some _ ↦ none
  | none ↦ elim (pair_intervals p) [
    | none ↦ none
    | some (passes, segments) ↦
        pair_tracks
          (tracks
            ++ record {
              station = p.station_index;
              satellite = p.satellite_index;
              passes = passes;
              segments = segments;
            }
              ∷ [])
          l
  ]
]

module _ (delay_s : ℕ → ℕ → ℕ → ℕ) where
  -- The function `state` that `link_state_from_pairs` returns.
  unfoldable pub state_at : List PairTrack → ℕ → ℕ → ℕ → Option LinkState
  state_at tracks station satellite t = elim (find_track station satellite tracks) [
    | none ↦ none
    | some x ↦ elim (last_started pass_span none x.passes t) [
      | none ↦ none
      | some p ↦
          if ltb t p.end_s
          then some (record { rate = rate_at x.segments t; delay = delay_s station satellite t })
          else none
    ]
  ]

module _ (link_state : ℕ → ℕ → ℕ → Option LinkState) (station satellite_count t : ℕ) where
  -- `_ground_edges` over the satellites from `first`, `n` of them; a delay that is not positive is a
  -- ValueError.
  unfoldable pub ground_edges_from : ℕ → ℕ → Option (List Link)
  ground_edges_from first zero = some []
  ground_edges_from first (suc n) =
      let rest = ground_edges_from (first + 1) n in
      elim (link_state station first t) [
        | none ↦ rest
        | some s ↦
            if ltb 0 s.delay
            then elim rest [
              | none ↦ none
              | some l ↦ some (
                  record {
                    first = first;
                    second = satellite_count + station;
                    delay = s.delay;
                    capacity = s.rate;
                  }
                  ∷ l)
            ]
            else none
      ]

  abbrev pub ground_edges : Option (List Link)
  ground_edges = ground_edges_from 0 satellite_count
