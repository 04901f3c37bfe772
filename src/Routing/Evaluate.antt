-- ===== src/Routing/Evaluate.antt =====
-- engine/routing.py: `evaluate_routes`. The inter-satellite links at each breakpoint, which `_isl_edges`
-- computes from the positions, and the state of the ground links are parameters.
use openleo.Prelude.{
  ◌>>=◌, ℕ, ◌+◌, ltb, leb, ◌==◌, if◌then◌else◌, Bool, true, false, not, ◌&&◌, ◌||◌, Option, none,
  some, List, [], ◌∷◌, ◌++◌, map, length, String, str_eq,
}
use openleo.Passes.{increasing}
use openleo.Hold.{Held, hold_from}
use openleo.Routing.{
  Graph, RouteResult, invalid_endpoints, disconnected, out_of_fuel, route, shortest_path, path_eq,
}
use openleo.Routing.Widest.{widest_path, cap_eq}
use openleo.Routing.Build.{Link, LinkState, adjacency, ground_edges}

pub data RouteModel : Type 0 where
  minimum_delay maximum_rate fixed_capacity : RouteModel

-- What `evaluate_routes` reads of the network and its parameters.
pub record Network : Type 0 where
  pub pairs : List (String × String)
  pub route_models : List RouteModel
  pub fixed_capacity_bps : ℕ
  pub isl_capacity_bps : ℕ

pub record Route : Type 0 where
  pub nodes : List ℕ
  pub delay_s : ℕ
  pub bottleneck_bps : Option ℕ

abbrev pub index_of : ℕ → String → List String → Option ℕ
index_of i n [] = none
index_of i n (x ∷ l) = if str_eq n x then some i else index_of (i + 1) n l

-- The stations of each pair; an unknown name, or a station to itself, is a ValueError.
unfoldable pub endpoints_of : List String → List (String × String) → Option (List (ℕ × ℕ))
endpoints_of names [] = some []
endpoints_of names ((a, b) ∷ l) = elim (index_of 0 a names) [
  | none ↦ none
  | some i ↦ elim (index_of 0 b names) [
    | none ↦ none
    | some j ↦ elim (endpoints_of names l) [
      | none ↦ none
      | some rest ↦ if i == j then none else some ((i, j) ∷ rest)
    ]
  ]
]

-- The order of the tuples (first, second, delay, capacity).
abbrev pub link_le : Link → Link → Bool
link_le a b =
    ltb a.first b.first
    || (a.first == b.first
        && (ltb a.second b.second
            || (a.second == b.second
                && (ltb a.delay b.delay || (a.delay == b.delay && leb a.capacity b.capacity)))))

abbrev pub insert_link : Link → List Link → List Link
insert_link x [] = x ∷ []
insert_link x (y ∷ l) = if link_le x y then x ∷ y ∷ l else y ∷ insert_link x l

abbrev pub sort_links : List Link → List Link
sort_links [] = []
sort_links (x ∷ l) = insert_link x (sort_links l)

abbrev pub with_capacity : ℕ → Link → Link
with_capacity c l = record l { capacity = c }

-- `_ALGORITHMS`: the algorithm of a model, and the capacities of the graph it runs on.
abbrev pub algorithm : RouteModel → Graph → ℕ → ℕ → RouteResult
algorithm minimum_delay g source target = shortest_path g source target 0
algorithm maximum_rate g source target = widest_path g source target
algorithm fixed_capacity g source target = shortest_path g source target 0

abbrev pub ground_links : RouteModel → ℕ → List Link → List Link
ground_links minimum_delay fixed edges = edges
ground_links maximum_rate fixed edges = edges
ground_links fixed_capacity fixed edges = map (with_capacity fixed) edges

abbrev pub same_model : RouteModel → RouteModel → Bool
same_model minimum_delay minimum_delay = true
same_model maximum_rate maximum_rate = true
same_model fixed_capacity fixed_capacity = true
same_model _ _ = false

abbrev pub has_model : RouteModel → List RouteModel → Bool
has_model m [] = false
has_model m (x ∷ l) = same_model m x || has_model m l

-- A route, or None while the pair is disconnected; an error is `none`.
abbrev pub value_of : RouteResult → Option (Option Route)
value_of invalid_endpoints = none
value_of out_of_fuel = none
value_of disconnected = some none
value_of (route nodes delay bottleneck) =
    some (some (record { nodes = nodes; delay_s = delay; bottleneck_bps = bottleneck }))

abbrev pub same_route : Option Route → Option Route → Bool
same_route none none = true
same_route (some a) (some b) =
    path_eq a.nodes b.nodes && a.delay_s == b.delay_s && cap_eq a.bottleneck_bps b.bottleneck_bps
same_route _ _ = false

pub record RouteIntervals : Type 0 where
  pub pair_index : ℕ
  pub model : RouteModel
  pub pieces : List (Held (Option Route))

module _ (network : Network) (satellite_count station_count : ℕ) (isl_edges : ℕ → List Link)
    (link_state : ℕ → ℕ → ℕ → Option LinkState) where
  -- The links of one instant that a model routes a pair on.
  unfoldable pub links_at : ℕ × ℕ → RouteModel → ℕ → Option (List Link)
  links_at (source, target) model t =
      ground_edges link_state source satellite_count t >>= λ from_source.
      ground_edges link_state target satellite_count t >>= λ from_target. some (
        map (with_capacity network.isl_capacity_bps) (isl_edges t)
        ++ ground_links model network.fixed_capacity_bps (sort_links (from_source ++ from_target)))

  unfoldable pub graph_at : ℕ × ℕ → RouteModel → ℕ → Option Graph
  graph_at ends model t =
      links_at ends model t >>= λ links. adjacency (satellite_count + station_count) links

  -- The route of a pair under a model at one instant.
  unfoldable pub route_value : ℕ × ℕ → RouteModel → ℕ → Option (Option Route)
  route_value (source, target) model t = graph_at (source, target) model t >>= λ graph.
      value_of (algorithm model graph (satellite_count + source) (satellite_count + target))

  -- The values at `breakpoints[:-1]`.
  unfoldable pub route_values : ℕ × ℕ → RouteModel → List ℕ → Option (List (Option Route))
  route_values ends model [] = some []
  route_values ends model (t ∷ []) = some []
  route_values ends model (t ∷ u ∷ l) = elim (route_value ends model t) [
    | none ↦ none
    | some v ↦ elim (route_values ends model (u ∷ l)) [ none ↦ none | some rest ↦ some (v ∷ rest) ]
  ]

  -- A model named twice makes more values than breakpoints, which `zip` refuses.
  unfoldable pub model_routes : List ℕ → ℕ → ℕ × ℕ → List RouteModel → Option (List RouteIntervals)
  model_routes breakpoints index ends [] = some []
  model_routes breakpoints index ends (m ∷ l) = elim (route_values ends m breakpoints) [
    | none ↦ none
    | some values ↦ elim (model_routes breakpoints index ends l) [
      | none ↦ none
      | some rest ↦
          if has_model m l
          then none
          else some (
              record {
                pair_index = index;
                model = m;
                pieces = hold_from same_route [] breakpoints values;
              }
              ∷ rest)
    ]
  ]

  unfoldable pub pair_routes : List ℕ → ℕ → List (ℕ × ℕ) → Option (List RouteIntervals)
  pair_routes breakpoints index [] = some []
  pair_routes breakpoints index (ends ∷ l) =
      elim (model_routes breakpoints index ends network.route_models) [
        | none ↦ none
        | some first ↦ elim (pair_routes breakpoints (index + 1) l) [
          | none ↦ none
          | some rest ↦ some (first ++ rest)
        ]
      ]

-- The checks, and the routes of every pair under every model; `none` is a ValueError. The source
-- returns one flat tuple; here the intervals of one pair and model are one entry.
unfoldable pub evaluate_routes :
    Network
    → List String
    → ℕ
    → (ℕ → List Link)
    → (ℕ → ℕ → ℕ → Option LinkState)
    → List ℕ
    → Option (List RouteIntervals)
evaluate_routes network names satellite_count isl_edges link_state breakpoints =
    if ltb 0 satellite_count
      && ltb 1 (length breakpoints)
      && increasing breakpoints
      && ltb 0 network.isl_capacity_bps
      && (not (has_model fixed_capacity network.route_models) || ltb 0 network.fixed_capacity_bps)
    then elim (endpoints_of names network.pairs) [
      | none ↦ none
      | some ends ↦
          pair_routes network satellite_count (length names) isl_edges link_state breakpoints 0 ends
    ]
    else none
