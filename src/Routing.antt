-- ===== src/Routing.antt =====
-- engine/routing.py: the graph of one instant and the route algorithms on it. A delay is a number of
-- ticks and a capacity a whole number of bit/s, so the sums are exact; `none` for a bottleneck is
-- the float infinity.
mod Tests
pub mod Breakpoints
pub mod Build
pub mod Evaluate
pub mod Order
pub mod Walks
pub mod Widest
pub mod Evaluated
pub mod Adjacency
pub mod Optimal
pub mod Steady
pub mod PairEnds
pub mod Ends
pub mod Intervals
pub mod Invariant
pub mod Metrics
pub mod Relax
pub mod Bound
pub mod Pop
pub mod Shortest
use openleo.Prelude.{
  ℕ, zero, suc, ◌+◌, ◌*◌, ltb, leb, ◌==◌, min, if◌then◌else◌, Bool, true, false, not, ◌&&◌, ◌||◌,
  Option, none, some, List, [], ◌∷◌, ◌++◌, length, get_or, elem, last,
}

pub record Edge : Type 0 where
  pub neighbor : ℕ
  pub delay : ℕ
  pub capacity : ℕ

abbrev pub Graph : Type 0
Graph = List (List Edge)

pub record Label : Type 0 where
  pub delay : ℕ
  pub hops : ℕ
  pub path : List ℕ

pub record Entry : Type 0 where
  pub label : Label
  pub bottleneck : Option ℕ

pub data RouteResult : Type 0 where
  invalid_endpoints : RouteResult
  route : List ℕ → ℕ → Option ℕ → RouteResult
  disconnected : RouteResult
  out_of_fuel : RouteResult

-- The order of tuples of nodes.
abbrev pub path_lt : List ℕ → List ℕ → Bool
path_lt [] [] = false
path_lt [] (y ∷ ys) = true
path_lt (x ∷ xs) [] = false
path_lt (x ∷ xs) (y ∷ ys) = ltb x y || (x == y && path_lt xs ys)

abbrev pub path_eq : List ℕ → List ℕ → Bool
path_eq [] [] = true
path_eq (x ∷ xs) (y ∷ ys) = x == y && path_eq xs ys
path_eq _ _ = false

unfoldable pub label_lt : Label → Label → Bool
label_lt a b =
    ltb a.delay b.delay
    || (a.delay == b.delay && (ltb a.hops b.hops || (a.hops == b.hops && path_lt a.path b.path)))

unfoldable pub label_eq : Label → Label → Bool
label_eq a b = a.delay == b.delay && a.hops == b.hops && path_eq a.path b.path

-- `min(bottleneck, capacity)`.
abbrev pub narrower : Option ℕ → ℕ → ℕ
narrower none c = c
narrower (some b) c = min b c

-- heapq: the entries in order. (Equal labels have one path, so the bottleneck never decides.)
unfoldable pub heappush : Entry → List Entry → List Entry
heappush e [] = e ∷ []
heappush e (x ∷ l) = if label_lt x.label e.label then x ∷ heappush e l else e ∷ x ∷ l

abbrev pub Best : Type 0
Best = ℕ → Option Label

abbrev pub assign : Best → ℕ → Label → Best
assign best n l m = if n == m then some l else best m

-- `neighbor not in best or candidate < best[neighbor]`
unfoldable pub improves : Label → Option Label → Bool
improves candidate none = true
improves candidate (some old) = label_lt candidate old

-- `capacity <= 0.0 or capacity < minimum_capacity_bps or neighbor in path`, negated.
unfoldable pub is_usable : ℕ → List ℕ → Edge → Bool
is_usable minimum path e =
    ltb 0 e.capacity && not (ltb e.capacity minimum) && not (elem e.neighbor path)

abbrev pub extend_label : Label → Edge → Label
extend_label l e = record {
  delay = l.delay + e.delay;
  hops = l.hops + 1;
  path = l.path ++ e.neighbor ∷ [];
}

abbrev pub extend_entry : Entry → Edge → Entry
extend_entry x e = record {
  label = extend_label x.label e;
  bottleneck = some (narrower x.bottleneck e.capacity);
}

unfoldable pub relax_one : ℕ → Entry → Edge → List Entry → Best → List Entry × Best
relax_one minimum x e heap best =
    if is_usable minimum x.label.path e && improves (extend_label x.label e) (best e.neighbor)
    then (heappush (extend_entry x e) heap, assign best e.neighbor (extend_label x.label e))
    else (heap, best)

-- The loop over `graph[node]`.
unfoldable pub relax : ℕ → Entry → List Edge → List Entry → Best → List Entry × Best
relax minimum x [] heap best = (heap, best)
relax minimum x (e ∷ l) heap best =
    let next = relax_one minimum x e heap best in relax minimum x l next.0 next.1

abbrev pub node_of : Entry → ℕ
node_of x = last 0 x.label.path

abbrev pub is_current : Entry → Option Label → Bool
is_current x none = false
is_current x (some l) = label_eq l x.label

-- What one round does with the popped entry.
pub data Round : Type 0 where
  stale reached expanded : Round

unfoldable pub round_of : ℕ → Entry → Best → Round
round_of target x best =
    if is_current x (best (node_of x))
    then (if node_of x == target then reached else expanded)
    else stale

unfoldable pub search_loop : ℕ → Graph → ℕ → ℕ → List Entry → Best → RouteResult
search_loop zero graph target minimum heap best = out_of_fuel
search_loop (suc fuel) graph target minimum [] best = disconnected
search_loop (suc fuel) graph target minimum (x ∷ heap) best = elim (round_of target x best) [
  | stale ↦ search_loop fuel graph target minimum heap best
  | reached ↦ route x.label.path x.label.delay x.bottleneck
  | expanded ↦
      search_loop fuel graph target minimum
        (relax minimum x (get_or graph (node_of x) []) heap best).0
        (relax minimum x (get_or graph (node_of x) []) heap best).1
]

-- The largest number of entries that an entry with `free` nodes off its path can lead to.
abbrev pub work_bound : ℕ → ℕ → ℕ
work_bound degree zero = 1
work_bound degree (suc free) = 1 + degree * work_bound degree free

abbrev pub max_degree : Graph → ℕ
max_degree [] = 0
max_degree (l ∷ g) = length l + max_degree g

abbrev pub are_endpoints : Graph → ℕ → ℕ → Bool
are_endpoints graph source target =
    ltb source (length graph) && ltb target (length graph) && not (source == target)

abbrev pub start_label : ℕ → Label
start_label source = record { delay = 0; hops = 0; path = source ∷ [] }

unfoldable pub shortest_path : Graph → ℕ → ℕ → ℕ → RouteResult
shortest_path graph source target minimum =
    if are_endpoints graph source target
    then search_loop (work_bound (max_degree graph) (length graph) + 1) graph target minimum
        (record { label = start_label source; bottleneck = none } ∷ [])
        (assign (λ _. none) source (start_label source))
    else invalid_endpoints
