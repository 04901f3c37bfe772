-- ===== src/Routing/Evaluated.antt =====
-- `evaluate_routes` (engine/routing.py): the whole result.
use openleo.Prelude.{
  map-append, map, ◌++◌, All-map, ℕ, suc, ◌+◌, ◌*◌, ◌≡◌, refl, subst, ap, ◌∙◌, ltb, if_split,
  option_split, true, not, ◌&&◌, ◌||◌, Option, none, some, List, [], ◌∷◌, All, length,
  length-append, String, get_elem?, arith,
}
use openleo.Hold.{hold_from}
use openleo.Statistics.Choice.{All-append}
use openleo.Routing.Build.{Link, LinkState}
use openleo.Routing.Intervals.{HoldsRoutes, route_values-HoldsRoutes}
use openleo.Passes.{increasing}
use openleo.Routing.Evaluate.{
  RouteModel, Network, Route, same_route, has_model, fixed_capacity, RouteIntervals, route_values,
  model_routes, pair_routes, endpoints_of, evaluate_routes,
}

-- The pair and the model of an entry.
abbrev pub label : RouteIntervals → ℕ × RouteModel
label r = (r.pair_index, r.model)

-- Each pair, from an index on, with each model: the models of the first pair, then those of the next.
abbrev pub labels : ℕ → List (ℕ × ℕ) → List RouteModel → List (ℕ × RouteModel)
labels index [] models = []
labels index (_ ∷ l) models = map (λ m. (index, m)) models ++ labels (index + 1) l models

module _ (network : Network) (satellite_count station_count : ℕ) (isl_edges : ℕ → List Link)
    (link_state : ℕ → ℕ → ℕ → Option LinkState) (breakpoints : List ℕ) where
  -- An entry for the pair of stations with the index.
  abbrev pub IsEntry : ℕ → ℕ × ℕ → RouteIntervals → Type 0
  IsEntry index ends r =
      (r.pair_index ≡ index)
      × HoldsRoutes network satellite_count station_count isl_edges link_state ends r.model
          breakpoints r.pieces

  -- The entries of one pair, one for each model.
  abbrev OfModels : ℕ → ℕ × ℕ → List RouteModel → Option (List RouteIntervals) → Type 0
  OfModels index ends models none = Unit
  OfModels index ends models (some l) =
      (length l ≡ length models)
      × All (IsEntry index ends) l
      × (map label l ≡ map (λ m. (index, m)) models)

  -- The entries of the pairs from an index on.
  abbrev OfPairs : ℕ → List (ℕ × ℕ) → Option (List RouteIntervals) → Type 0
  OfPairs index l none = Unit
  OfPairs index l (some r) =
      (length r ≡ length l * length network.route_models)
      × All
          (λ (x : RouteIntervals).
            (k : ℕ) × (ends : ℕ × ℕ) × (get_elem? l k ≡ some ends) × IsEntry (index + k) ends x)
          r
      × (map label r ≡ labels index l network.route_models)

  module _ (long : ltb 1 (length breakpoints) ≡ true) (rising : increasing breakpoints ≡ true) where
    values-HoldsRoutes :
        (ends : ℕ × ℕ) (model : RouteModel) (b : List ℕ) (values : List (Option Route))
        → ltb 1 (length b) ≡ true
        → increasing b ≡ true
        → route_values network satellite_count station_count isl_edges link_state ends model b
          ≡ some values
        → HoldsRoutes network satellite_count station_count isl_edges link_state ends model b
            (hold_from same_route [] b values)
    values-HoldsRoutes ends model [] values h k e = absurd (ground (arith, h))
    values-HoldsRoutes ends model (x ∷ l) values h k e =
        route_values-HoldsRoutes network satellite_count station_count isl_edges link_state ends
          model x l values k e

    model_routes-OfModels :
        (index : ℕ) (ends : ℕ × ℕ) (models : List RouteModel)
        → OfModels index ends models (
            model_routes network satellite_count station_count isl_edges link_state breakpoints
              index ends models)
    unfolding model_routes
    model_routes-OfModels index ends [] = (refl, tt, refl)
    model_routes-OfModels index ends (m ∷ l) =
        let P : Option (List RouteIntervals) → Type 0 = OfModels index ends (m ∷ l) in
        option_split P
          (route_values network satellite_count station_count isl_edges link_state ends m
            breakpoints)
          (λ _. tt)
          (λ values e.
            option_split P
              (model_routes network satellite_count station_count isl_edges link_state breakpoints
                index ends l)
              (λ _. tt)
              (λ rest r.
                if_split P (has_model m l) (λ _. tt)
                  (λ _.
                    let ih = subst (OfModels index ends l) r (model_routes-OfModels index ends l) in
                    (
                      ap suc ih.0,
                      ((refl, values-HoldsRoutes ends m breakpoints values long rising e), ih.1),
                      ap (λ t. (index, m) ∷ t) ih.2,
                    ))))

    pair_routes-OfPairs :
        (index : ℕ) (l : List (ℕ × ℕ))
        → OfPairs index l (
            pair_routes network satellite_count station_count isl_edges link_state breakpoints index
              l)
    unfolding pair_routes
    pair_routes-OfPairs index [] = (omega arith, tt, refl)
    pair_routes-OfPairs index (ends ∷ l) =
        let P : Option (List RouteIntervals) → Type 0 = OfPairs index (ends ∷ l) in
        option_split P
          (model_routes network satellite_count station_count isl_edges link_state breakpoints index
            ends network.route_models)
          (λ _. tt)
          (λ first e.
            option_split P
              (pair_routes network satellite_count station_count isl_edges link_state breakpoints
                (index + 1) l)
              (λ _. tt)
              (λ rest r.
                let now =
                  subst (OfModels index ends network.route_models) e
                    (model_routes-OfModels index ends network.route_models) in
                let ih = subst (OfPairs (index + 1) l) r (pair_routes-OfPairs (index + 1) l) in
                let total = length-append first rest in
                (
                  omega (arith, total, now.0, ih.0),
                  All-append _ first rest
                      (All-map first (λ x h. (0, ends, refl, (h.0 ∙ omega arith, h.1))) now.1)
                      (All-map rest (λ x h. (suc h.0, h.1, h.2, (h.3.0 ∙ omega arith, h.3.1)))
                        ih.1),
                  map-append label first rest
                      ∙ ap (λ t. t ++ map label rest) now.2
                      ∙ ap (λ t. map (λ m. (index, m)) network.route_models ++ t) ih.2,
                )))

-- The entries of an evaluation: each pair with each model, in order, each with the pair's stations.
abbrev pub IsEvaluation :
    Network
    → List String
    → ℕ
    → (ℕ → List Link)
    → (ℕ → ℕ → ℕ → Option LinkState)
    → List ℕ
    → Option (List RouteIntervals)
    → Type 0
IsEvaluation network names satellite_count isl_edges link_state breakpoints none = Unit
IsEvaluation network names satellite_count isl_edges link_state breakpoints (some intervals) =
    (ends_of_pairs : List (ℕ × ℕ)) × (endpoints_of names network.pairs ≡ some ends_of_pairs)
    × (length intervals ≡ length ends_of_pairs * length network.route_models)
    × All
        (λ (x : RouteIntervals).
          (k : ℕ) × (ends : ℕ × ℕ) × (get_elem? ends_of_pairs k ≡ some ends)
          × IsEntry network satellite_count (length names) isl_edges link_state breakpoints k ends
              x)
        intervals
    × (map label intervals ≡ labels 0 ends_of_pairs network.route_models)

OfPairs-IsEvaluation :
    (network : Network) (names : List String) (satellite_count : ℕ) (isl_edges : ℕ → List Link)
    (link_state : ℕ → ℕ → ℕ → Option LinkState) (breakpoints : List ℕ) (ends : List (ℕ × ℕ))
    (o : Option (List RouteIntervals))
    → endpoints_of names network.pairs ≡ some ends
    → OfPairs network satellite_count (length names) isl_edges link_state breakpoints 0 ends o
    → IsEvaluation network names satellite_count isl_edges link_state breakpoints o
OfPairs-IsEvaluation network names count isl_edges link_state breakpoints ends none e h = tt
OfPairs-IsEvaluation network names count isl_edges link_state breakpoints ends (some r) e h =
    (ends, e, h.0, All-map r (λ x k. (k.0, k.1, k.2, (k.3.0 ∙ omega arith, k.3.1))) h.1, h.2)

-- What `evaluate_routes` returns, when no input is refused, has for each pair of the network, in order,
-- an entry for each of the network's models, in order, and no others. Each entry is of that pair's
-- stations and holds, from the first to the last breakpoint with no gap, no overlap and no empty piece, at
-- every instant the route that the model's algorithm found at the latest breakpoint, or none where it
-- found none, and neighbouring pieces differ.
pub evaluate_routes-IsEvaluation :
    (network : Network) (names : List String) (satellite_count : ℕ) (isl_edges : ℕ → List Link)
    (link_state : ℕ → ℕ → ℕ → Option LinkState) (breakpoints : List ℕ)
    → IsEvaluation network names satellite_count isl_edges link_state breakpoints
        (evaluate_routes network names satellite_count isl_edges link_state breakpoints)
unfolding evaluate_routes
evaluate_routes-IsEvaluation network names satellite_count isl_edges link_state breakpoints =
    let P : Option (List RouteIntervals) → Type 0 =
      IsEvaluation network names satellite_count isl_edges link_state breakpoints in
    if_split P
      (ltb 0 satellite_count
        && ltb 1 (length breakpoints)
        && increasing breakpoints
        && ltb 0 network.isl_capacity_bps
        && (not (has_model fixed_capacity network.route_models)
            || ltb 0 network.fixed_capacity_bps))
      (λ ok.
        option_split P (endpoints_of names network.pairs) (λ _. tt)
          (λ ends e.
            OfPairs-IsEvaluation network names satellite_count isl_edges link_state breakpoints ends
              _ e
              (pair_routes-OfPairs network satellite_count (length names) isl_edges link_state
                breakpoints (ground arith) (ground arith) 0 ends)))
      (λ _. tt)
