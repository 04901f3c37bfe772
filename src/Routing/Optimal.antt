-- ===== src/Routing/Optimal.antt =====
-- engine/routing.py: the routes that `evaluate_routes` holds are the best ones of the graph that
-- `_adjacency` makes of the links at the latest breakpoint.
use openleo.Prelude.{
  ℕ, ◌+◌, ◌≤◌, ◌<◌, ◌≡◌, sym, subst, ap, ◌∙◌, inl, inr, Option, none, some, List, length, String,
  last, get_elem?, get_or, All, All-map, bind_some, some_injective,
}
use openleo.Hold.{Held, value_at}
use openleo.Routing.{
  Graph, RouteResult, invalid_endpoints, route, disconnected, out_of_fuel, shortest_path,
}
use openleo.Routing.Bound.{IsClosed}
use openleo.Routing.Shortest.{Correct, shortest_path-Correct}
use openleo.Routing.Widest.{widest_path}
use openleo.Routing.Widest.Correct.{Widest, widest_path-Widest}
use openleo.Routing.Build.{Link, LinkState}
use openleo.Routing.Adjacency.{IsGraphOf, adjacency-IsClosed, adjacency-IsGraphOf}
use openleo.Routing.Evaluate.{
  RouteModel, minimum_delay, maximum_rate, fixed_capacity, Network, Route, RouteIntervals,
  algorithm, value_of, links_at, graph_at, route_value, endpoints_of, evaluate_routes,
}
use openleo.Routing.Intervals.{IsLatest, FoundAt, HoldsRoutes}
use openleo.Routing.Evaluated.{IsEvaluation, evaluate_routes-IsEvaluation}

abbrev pub result_of : Option Route → RouteResult
result_of none = disconnected
result_of (some r) = route r.nodes r.delay_s r.bottleneck_bps

-- The best route under a model, and none only where there is none: of the least delay, or for
-- `maximum_rate` of the largest bottleneck and among those of the least delay.
abbrev pub IsOptimal : RouteModel → Graph → ℕ → ℕ → Option Route → Type 0
IsOptimal minimum_delay graph source target v = Correct graph 0 source target (result_of v)
IsOptimal maximum_rate graph source target v = Widest graph source target (result_of v)
IsOptimal fixed_capacity graph source target v = Correct graph 0 source target (result_of v)

result_of-value_of : (r : RouteResult) (v : Option Route) → value_of r ≡ some v → r ≡ result_of v
result_of-value_of invalid_endpoints v h = cc
result_of-value_of out_of_fuel v h = cc
result_of-value_of disconnected v h = ap result_of (some_injective h)
result_of-value_of (route nodes delay bottleneck) v h = ap result_of (some_injective h)

Correct-result_of :
    (graph : Graph) (source target : ℕ) (v : Option Route)
    → IsClosed graph
    → value_of (shortest_path graph source target 0) ≡ some v
    → Correct graph 0 source target (result_of v)
Correct-result_of graph source target v closed h =
    elim (shortest_path-Correct graph source target 0 closed) [
      | inl (_, c) ↦
          subst (Correct graph 0 source target)
            (result_of-value_of (shortest_path graph source target 0) v h) c
      | inr (_, e) ↦ absurd (refused (ap value_of (sym e) ∙ h))
    ]
  where
    refused : value_of invalid_endpoints ≡ some v → ⊥
    refused k = cc

Widest-result_of :
    (graph : Graph) (source target : ℕ) (v : Option Route)
    → IsClosed graph
    → value_of (widest_path graph source target) ≡ some v
    → Widest graph source target (result_of v)
Widest-result_of graph source target v closed h =
    elim (widest_path-Widest graph source target closed) [
      | inl (_, c) ↦
          subst (Widest graph source target)
            (result_of-value_of (widest_path graph source target) v h) c
      | inr (_, e) ↦ absurd (refused (ap value_of (sym e) ∙ h))
    ]
  where
    refused : value_of invalid_endpoints ≡ some v → ⊥
    refused k = cc

algorithm-IsOptimal :
    (model : RouteModel) (graph : Graph) (source target : ℕ) (v : Option Route)
    → IsClosed graph
    → value_of (algorithm model graph source target) ≡ some v
    → IsOptimal model graph source target v
algorithm-IsOptimal minimum_delay graph source target v closed h =
    Correct-result_of graph source target v closed h
algorithm-IsOptimal maximum_rate graph source target v closed h =
    Widest-result_of graph source target v closed h
algorithm-IsOptimal fixed_capacity graph source target v closed h =
    Correct-result_of graph source target v closed h

module _ (network : Network) (satellite_count station_count : ℕ) (isl_edges : ℕ → List Link)
    (link_state : ℕ → ℕ → ℕ → Option LinkState) where
  -- At the instant the best route over the links of the latest breakpoint holds.
  abbrev pub OptimalAt : ℕ × ℕ → RouteModel → List ℕ → ℕ → Option (Option Route) → Type 0
  OptimalAt ends model breakpoints t o =
      (c : ℕ) × (links : List Link) × (graph : Graph) × (v : Option Route) × IsLatest breakpoints t
        c
      × (links_at network satellite_count station_count isl_edges link_state ends model c
          ≡ some links)
      × IsGraphOf (satellite_count + station_count) links graph
      × IsOptimal model graph (satellite_count + ends.0) (satellite_count + ends.1) v
      × (o ≡ some v)

  FoundAt-OptimalAt :
      (ends : ℕ × ℕ) (model : RouteModel) (breakpoints : List ℕ) (t : ℕ) (o : Option (Option Route))
      → FoundAt network satellite_count station_count isl_edges link_state ends model breakpoints t
          o
      → OptimalAt ends model breakpoints t o
  unfolding route_value graph_at
  FoundAt-OptimalAt ends model breakpoints t o (c, v, latest, e, h) =
      let (graph, at, found) =
        bind_some (graph_at network satellite_count station_count isl_edges link_state ends model c)
          _ e in
      let (links, known, made) =
        bind_some (links_at network satellite_count station_count isl_edges link_state ends model c)
          _ at in
      let closed = (adjacency-IsClosed (satellite_count + station_count) links graph made).1 in
      (
        c,
        links,
        graph,
        v,
        latest,
        known,
        adjacency-IsGraphOf (satellite_count + station_count) links graph made,
        algorithm-IsOptimal model graph (satellite_count + ends.0) (satellite_count + ends.1) v
            closed found,
        h,
      )

  -- From the first to the last breakpoint the pieces hold the best routes.
  abbrev pub HoldsOptimal : ℕ × ℕ → RouteModel → List ℕ → List (Held (Option Route)) → Type 0
  HoldsOptimal ends model breakpoints pieces =
      (t : ℕ)
      → get_or breakpoints 0 0 ≤ t
      → t < last 0 breakpoints
      → OptimalAt ends model breakpoints t (value_at pieces t)

  HoldsRoutes-HoldsOptimal :
      (ends : ℕ × ℕ) (model : RouteModel) (breakpoints : List ℕ)
      (pieces : List (Held (Option Route)))
      → HoldsRoutes network satellite_count station_count isl_edges link_state ends model
          breakpoints pieces
      → HoldsOptimal ends model breakpoints pieces
  HoldsRoutes-HoldsOptimal ends model breakpoints pieces (x, l, e, _, _, found) t k m =
      FoundAt-OptimalAt ends model breakpoints t (value_at pieces t)
        (found t (subst (λ b. get_or b 0 0 ≤ t) e k) m)

-- When no input of `evaluate_routes` is refused, the entry of each pair and model has, at every
-- instant from the first to the last breakpoint, the best route of a graph that has an edge for each
-- end of each link of the latest breakpoint with a capacity, and no others: the one of least delay, or
-- for maximum_rate of the largest bottleneck and among those of least delay; ties go to the fewer hops
-- and then to the nodes that come first in lexicographic order. Where it has none, the graph has no
-- route.
pub evaluate_routes-HoldsOptimal :
    (network : Network) (names : List String) (satellite_count : ℕ) (isl_edges : ℕ → List Link)
    (link_state : ℕ → ℕ → ℕ → Option LinkState) (breakpoints : List ℕ)
    (intervals : List RouteIntervals)
    → evaluate_routes network names satellite_count isl_edges link_state breakpoints
      ≡ some intervals
    → All
        (λ (x : RouteIntervals).
          (ends : ℕ × ℕ) × (l : List (ℕ × ℕ)) × (endpoints_of names network.pairs ≡ some l)
          × (get_elem? l x.pair_index ≡ some ends)
          × HoldsOptimal network satellite_count
              (length names)
              isl_edges
              link_state
              ends
              x.model
              breakpoints
              x.pieces)
        intervals
evaluate_routes-HoldsOptimal network names satellite_count isl_edges link_state breakpoints
      intervals h =
    let (l, e, _, entries, _) =
      subst (IsEvaluation network names satellite_count isl_edges link_state breakpoints) h (
        evaluate_routes-IsEvaluation network names satellite_count isl_edges link_state
          breakpoints) in
    All-map intervals
      (λ x (k, ends, at, entry). (
        ends,
        l,
        e,
        subst (λ k. get_elem? l k ≡ some ends) (sym entry.0) at,
        HoldsRoutes-HoldsOptimal network satellite_count (length names) isl_edges link_state ends
            x.model breakpoints x.pieces entry.1,
      ))
      entries
