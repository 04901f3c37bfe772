-- ===== src/Routing/Tests.antt =====
-- engine/routing.py: routes on a small graph.
use openleo.Prelude.{
  get_elem?, Option, none, List, ◌==◌, ltb, leb, ◌&&◌, ◌||◌, if◌then◌else◌, ℕ, zero, suc, some, [],
  ◌∷◌, ◌≡◌, refl, ◌⊎◌, true, false, here, there, arith,
}
use openleo.Routing.{
  Graph, Edge, invalid_endpoints, route, disconnected, label_lt, label_eq, heappush, improves,
  is_usable, relax_one, relax, round_of, search_loop, are_endpoints, shortest_path,
}
use openleo.Hold.{hold_from}
use openleo.Routing.Widest.{push_wide, relax_wide_one, relax_wide, widest_loop, widest_path}
use openleo.Routing.Build.{
  LinkState, PairTrack, pair_tracks, state_at, adjacency, ground_edges_from,
}
use openleo.Routing.Intervals.{IsLatest}
use openleo.Routing.Steady.{delayed, state_at-Steady}
use openleo.Prelude.{◌+◌}
use openleo.Routing.Evaluate.{
  Network, Route, RouteModel, RouteIntervals, minimum_delay, fixed_capacity, endpoints_of, links_at,
  graph_at, route_value, route_values, model_routes, pair_routes, evaluate_routes,
}
use openleo.Routing.Optimal.{HoldsOptimal, evaluate_routes-HoldsOptimal}
use openleo.Routing.Evaluated.{IsEvaluation, evaluate_routes-IsEvaluation}
use openleo.Statistics.{PairResult, pair_intervals}
use openleo.Routing.Breakpoints.{pair_times, route_breakpoints}
use openleo.Routing.PairEnds.{IsRefused, AreAccepted}
use openleo.Routing.Ends.{AreEnds, route_breakpoints-AreEnds}
use openleo.Prelude.{◌<◌}
use openleo.Prelude.{zip3, All}
use openleo.Measure.{proper, sort, runs, measure, integrate_piecewise}
use openleo.Routing.Metrics.{
  RouteInterval, RouteMetrics, IsFraction, connected_of, group_metrics, all_metrics, route_metrics,
  route_metrics-AllFractions,
}
use openleo.Routing.Bound.{IsClosed}
use openleo.Routing.Shortest.{Correct, shortest_path-Correct}
use openleo.Routing.Widest.Correct.{Widest, widest_path-Widest}

program : Unit {0}
unfolding label_lt label_eq heappush improves is_usable relax_one relax round_of search_loop
    shortest_path
program = tt

abbrev edge : ℕ → ℕ → ℕ → Edge
edge n d c = record { neighbor = n; delay = d; capacity = c }

-- 0 - 1 - 2 is faster than 0 - 2, and narrower.
abbrev triangle : Graph
triangle =
    (edge 1 1 10 ∷ edge 2 5 20 ∷ [])
    ∷ (edge 0 1 10 ∷ edge 2 2 4 ∷ [])
    ∷ (edge 0 5 20 ∷ edge 1 2 4 ∷ [])
    ∷ []

fastest : shortest_path triangle 0 2 0 ≡ route (0 ∷ 1 ∷ 2 ∷ []) 3 (some 4)
unfolding program
fastest = refl

wide : shortest_path triangle 0 2 5 ≡ route (0 ∷ 2 ∷ []) 5 (some 20)
unfolding program
wide = refl

cut_off : shortest_path triangle 0 2 30 ≡ disconnected
unfolding program
cut_off = refl

triangle-IsClosed : IsClosed triangle
triangle-IsClosed zero e (here p) = rw p (omega arith)
triangle-IsClosed zero e (there (here p)) = rw p (omega arith)
triangle-IsClosed zero e (there (there i)) = elim i [ ]
triangle-IsClosed (suc zero) e (here p) = rw p (omega arith)
triangle-IsClosed (suc zero) e (there (here p)) = rw p (omega arith)
triangle-IsClosed (suc zero) e (there (there i)) = elim i [ ]
triangle-IsClosed (suc (suc zero)) e (here p) = rw p (omega arith)
triangle-IsClosed (suc (suc zero)) e (there (here p)) = rw p (omega arith)
triangle-IsClosed (suc (suc zero)) e (there (there i)) = elim i [ ]
triangle-IsClosed (suc (suc (suc n))) e i = elim i [ ]

shortest_path-Correct_example :
    ((are_endpoints triangle 0 2 ≡ true) × Correct triangle 5 0 2 (shortest_path triangle 0 2 5))
    ⊎ ((are_endpoints triangle 0 2 ≡ false) × (shortest_path triangle 0 2 5 ≡ invalid_endpoints))
shortest_path-Correct_example = shortest_path-Correct triangle 0 2 5 triangle-IsClosed

slow_and_wide : widest_path triangle 0 2 ≡ route (0 ∷ 2 ∷ []) 5 (some 20)
unfolding program push_wide relax_wide_one relax_wide widest_loop widest_path
slow_and_wide = refl

abbrev network : Network
network = record {
  pairs = ("A", "B") ∷ [];
  route_models = minimum_delay ∷ fixed_capacity ∷ [];
  fixed_capacity_bps = 7;
  isl_capacity_bps = 9;
}

-- Satellite 0 sees both stations until 10, satellite 1 sees them from 10 on.
abbrev link : ℕ → ℕ → ℕ → Option LinkState
link station satellite t =
    if (satellite == 0) && ltb t 10 || (satellite == 1) && leb 10 t
    then some (record { rate = 5; delay = 2 })
    else none

evaluate_routes-IsEvaluation_example :
    IsEvaluation network
      ("A" ∷ "B" ∷ [])
      2
      (λ _. [])
      link
      (0 ∷ 5 ∷ 10 ∷ 20 ∷ [])
      (evaluate_routes network ("A" ∷ "B" ∷ []) 2 (λ _. []) link (0 ∷ 5 ∷ 10 ∷ 20 ∷ []))
evaluate_routes-IsEvaluation_example =
    evaluate_routes-IsEvaluation network ("A" ∷ "B" ∷ []) 2 (λ _. []) link (0 ∷ 5 ∷ 10 ∷ 20 ∷ [])

abbrev through : ℕ → ℕ → Option Route
through node rate =
    some (record { nodes = 2 ∷ node ∷ 3 ∷ []; delay_s = 4; bottleneck_bps = some rate })

-- Satellite 0 and then satellite 1, at the rate of the links or at the fixed one.
abbrev entry : RouteModel → ℕ → RouteIntervals
entry model rate = record {
  pair_index = 0;
  model = model;
  pieces =
      record { start_s = 0; end_s = 10; value = through 0 rate }
      ∷ record { start_s = 10; end_s = 20; value = through 1 rate }
      ∷ [];
}

evaluated :
    evaluate_routes network ("A" ∷ "B" ∷ []) 2 (λ _. []) link (0 ∷ 5 ∷ 10 ∷ 20 ∷ [])
    ≡ some (entry minimum_delay 5 ∷ entry fixed_capacity 7 ∷ [])
unfolding program push_wide relax_wide_one relax_wide widest_loop widest_path hold_from adjacency
    ground_edges_from endpoints_of links_at graph_at route_value route_values model_routes
    pair_routes evaluate_routes
evaluated = refl

evaluate_routes-HoldsOptimal_example :
    All
      (λ (x : RouteIntervals).
        (ends : ℕ × ℕ) × (l : List (ℕ × ℕ)) × (endpoints_of ("A" ∷ "B" ∷ []) network.pairs ≡ some l)
        × (get_elem? l x.pair_index ≡ some ends)
        × HoldsOptimal network 2 2 (λ _. []) link ends x.model (0 ∷ 5 ∷ 10 ∷ 20 ∷ []) x.pieces)
      (entry minimum_delay 5 ∷ entry fixed_capacity 7 ∷ [])
evaluate_routes-HoldsOptimal_example =
    evaluate_routes-HoldsOptimal network ("A" ∷ "B" ∷ []) 2 (λ _. []) link (0 ∷ 5 ∷ 10 ∷ 20 ∷ [])
      (entry minimum_delay 5 ∷ entry fixed_capacity 7 ∷ []) evaluated

abbrev visible_pair : ℕ → PairResult
visible_pair station = record {
  station_index = station;
  satellite_index = 0;
  passes =
      record {
        start_s = 3;
        end_s = 12;
        culmination_s = 5;
        max_elevation_deg = 40;
        truncated_start = false;
        truncated_end = false;
      }
      ∷ [];
  segments = [];
  modcod_events = [];
  shannon_bits = 0;
  max_elevation_deg = 40;
  min_range_m = 1000;
}

abbrev pairs : List PairResult
pairs = visible_pair 0 ∷ visible_pair 5 ∷ []

route_breakpoints-AreEnds_example :
    (((◌≡◌ {A = ℕ} 10 0) ⊎ IsRefused (0 ∷ []) pairs)
      × (route_breakpoints (0 ∷ 10 ∷ []) pairs (0 ∷ []) 10 ≡ none))
    ⊎ ((breakpoints : List ℕ) × (0 < 10)
        × AreAccepted (0 ∷ []) pairs
        × (route_breakpoints (0 ∷ 10 ∷ []) pairs (0 ∷ []) 10 ≡ some breakpoints)
        × AreEnds (0 ∷ 10 ∷ []) pairs (0 ∷ []) 10 breakpoints)
route_breakpoints-AreEnds_example = route_breakpoints-AreEnds (0 ∷ 10 ∷ []) pairs (0 ∷ []) 10

-- The end of the pass lies past the window.
breakpoints : route_breakpoints (0 ∷ 10 ∷ []) pairs (0 ∷ []) 10 ≡ some (0 ∷ 3 ∷ 10 ∷ [])
unfolding pair_intervals pair_times route_breakpoints
breakpoints = refl

abbrev interval : ℕ → ℕ → Option Route → RouteInterval
interval start stop found = record {
  pair_index = 0;
  model = minimum_delay;
  start_s = start;
  end_s = stop;
  found = found;
}

abbrev route_runs : List RouteInterval
route_runs = interval 0 10 (through 0 5) ∷ interval 10 20 (through 1 5) ∷ interval 20 30 none ∷ []

abbrev expected : List RouteMetrics
expected =
    record {
      pair_index = 0;
      model = minimum_delay;
      connected_fraction = record { numerator = 20; denominator = 30 };
      integrated_bottleneck_bits = 100;
      route_changes = 1;
      mean_delay_connected_s = some (record { numerator = 80; denominator = 20 });
    }
    ∷ []

route_metrics-AllFractions_example : All (IsFraction 30) expected
unfolding connected_of group_metrics all_metrics route_metrics proper sort runs measure
    integrate_piecewise zip3
route_metrics-AllFractions_example = route_metrics-AllFractions route_runs 30 expected refl

widest_path-Widest_example :
    ((are_endpoints triangle 0 2 ≡ true) × Widest triangle 0 2 (widest_path triangle 0 2))
    ⊎ ((are_endpoints triangle 0 2 ≡ false) × (widest_path triangle 0 2 ≡ invalid_endpoints))
widest_path-Widest_example = widest_path-Widest triangle 0 2 triangle-IsClosed

-- The pair of station 0 is in contact from 3 to 12.
abbrev steady_tracks : List PairTrack
steady_tracks =
    record { station = 0; satellite = 0; passes = (visible_pair 0).passes; segments = [] }
    ∷ record { station = 5; satellite = 0; passes = (visible_pair 5).passes; segments = [] }
    ∷ []

accepted_tracks : pair_tracks [] pairs ≡ some steady_tracks
unfolding pair_intervals pair_tracks
accepted_tracks = refl

latest : IsLatest (0 ∷ 3 ∷ 10 ∷ []) 7 3
latest = (
  there (here refl),
  omega arith,
  λ d i k. elim i [
    | here p ↦ omega arith
    | there j ↦ elim j [
      | here p ↦ omega arith
      | there k' ↦ elim k' [ here p ↦ omega arith | there z ↦ elim z [ ] ]
    ]
  ],
)

-- At 7 the link is the one of 3.
in_contact :
    state_at (λ _ _ t. 100 + t) steady_tracks 0 0 7 ≡ some (record { rate = 0; delay = 107 })
unfolding state_at
in_contact = refl

state_at-Steady_example :
    state_at (λ _ _ t. 100 + t) steady_tracks 0 0 7
    ≡ delayed 107 (state_at (λ _ _ t. 100 + t) steady_tracks 0 0 3)
state_at-Steady_example =
    state_at-Steady (λ _ _ t. 100 + t) (0 ∷ 10 ∷ []) pairs (0 ∷ []) 10 (0 ∷ 3 ∷ 10 ∷ [])
      steady_tracks 0 0 3 7 breakpoints accepted_tracks refl latest (omega arith)
