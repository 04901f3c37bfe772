-- ===== src/Routing/Widest.antt =====
-- engine/routing.py: `widest_path`. A capacity is a number of bit/s and `none` stands for the float
-- infinity, the capacity at the source.
pub mod Flows
pub mod Rounds
pub mod Work
pub mod Simple
pub mod Pop
pub mod Loop
pub mod Correct
use openleo.Prelude.{
  ℕ, zero, suc, ◌+◌, ◌*◌, ltb, ◌==◌, if◌then◌else◌, Bool, true, false, ◌&&◌, ◌||◌, Option, none,
  some, List, [], ◌∷◌, length, get_or,
}
use openleo.Routing.{
  Edge, Graph, RouteResult, invalid_endpoints, disconnected, out_of_fuel, are_endpoints,
  shortest_path, narrower,
}

-- (-capacity, node)
pub record Wide : Type 0 where
  pub capacity : Option ℕ
  pub node : ℕ

-- `a < b`, where `none` is infinite.
abbrev pub cap_lt : Option ℕ → Option ℕ → Bool
cap_lt none b = false
cap_lt (some a) none = true
cap_lt (some a) (some b) = ltb a b

abbrev pub cap_eq : Option ℕ → Option ℕ → Bool
cap_eq none none = true
cap_eq (some a) (some b) = a == b
cap_eq _ _ = false

-- The order of the tuples: the larger capacity first, then the smaller node.
abbrev pub wide_lt : Wide → Wide → Bool
wide_lt a b = cap_lt b.capacity a.capacity || (cap_eq a.capacity b.capacity && ltb a.node b.node)

unfoldable pub push_wide : Wide → List Wide → List Wide
push_wide e [] = e ∷ []
push_wide e (x ∷ l) = if wide_lt x e then x ∷ push_wide e l else e ∷ x ∷ l

-- `best`: the widest capacity found for each node, or none of them. A capacity in it is positive.
abbrev pub BestWide : Type 0
BestWide = ℕ → Option (Option ℕ)

abbrev pub assign_wide : BestWide → ℕ → Option ℕ → BestWide
assign_wide best n c m = if n == m then some c else best m

-- `candidate > best.get(neighbor, 0.0)`
abbrev pub widens : Option ℕ → Option (Option ℕ) → Bool
widens c none = cap_lt (some 0) c
widens c (some b) = cap_lt b c

unfoldable pub relax_wide_one : Option ℕ → Edge → List Wide → BestWide → List Wide × BestWide
relax_wide_one candidate e heap best =
    if widens candidate (best e.neighbor)
    then (
      push_wide (record { capacity = candidate; node = e.neighbor }) heap,
      assign_wide best e.neighbor candidate,
    )
    else (heap, best)

unfoldable pub relax_wide : Option ℕ → List Edge → List Wide → BestWide → List Wide × BestWide
relax_wide capacity [] heap best = (heap, best)
relax_wide capacity (e ∷ l) heap best =
    let next = relax_wide_one (some (narrower capacity e.capacity)) e heap best in
    relax_wide capacity l next.0 next.1

-- `capacity < best[node]`
abbrev pub is_stale : Wide → Option (Option ℕ) → Bool
is_stale x none = false
is_stale x (some b) = cap_lt x.capacity b

-- How the loop ends.
pub data WideResult : Type 0 where
  widest : Option ℕ → WideResult
  unreachable : WideResult
  stopped : WideResult

unfoldable pub widest_loop : ℕ → Graph → ℕ → List Wide → BestWide → WideResult
widest_loop zero graph target heap best = stopped
widest_loop (suc fuel) graph target [] best = unreachable
widest_loop (suc fuel) graph target (x ∷ heap) best =
    let next = relax_wide x.capacity (get_or graph x.node []) heap best in
    let skipped = widest_loop fuel graph target heap best in
    let relaxed = widest_loop fuel graph target next.0 next.1 in
    if is_stale x (best x.node)
    then skipped
    else if x.node == target
    then widest x.capacity
    else relaxed

abbrev pub edge_count : Graph → ℕ
edge_count [] = 0
edge_count (l ∷ g) = length l + edge_count g

-- The widest capacity, then the least delay at it. (The capacity at the target is finite, since the
-- target is not the source.)
abbrev pub route_at : Graph → ℕ → ℕ → WideResult → RouteResult
route_at graph source target stopped = out_of_fuel
route_at graph source target unreachable = disconnected
route_at graph source target (widest none) = out_of_fuel
route_at graph source target (widest (some c)) = shortest_path graph source target c

unfoldable pub widest_path : Graph → ℕ → ℕ → RouteResult
widest_path graph source target =
    if are_endpoints graph source target
    then route_at graph source target (
        widest_loop (length graph * edge_count graph + 2) graph target
          (record { capacity = none; node = source } ∷ []) (assign_wide (λ _. none) source none))
    else invalid_endpoints
