-- ===== src/Routing/Widest/Correct.antt =====
-- engine/routing.py: `widest_path` returns, and what it returns.
use openleo.Prelude.{
  ℕ, ◌*◌, ◌≤◌, ◌≡◌, ◌⊎◌, inl, inr, refl, sym, subst, Bool-cases, true, false, Option, none, some,
  List, length, arith,
}
use openleo.Routing.{
  Graph, Edge, narrower, is_usable, RouteResult, invalid_endpoints, route, disconnected,
  out_of_fuel, are_endpoints, shortest_path,
}
use openleo.Routing.Bound.{IsClosed}
use openleo.Routing.Order.{label_of, Precedes}
use openleo.Routing.Walks.{Walk, start, extend}
use openleo.Routing.Shortest.{Correct, shortest_path-Correct}
use openleo.Routing.Widest.{
  assign_wide, WideResult, widest, unreachable, stopped, route_at, widest_path,
}
use openleo.Routing.Widest.Flows.{CapLe, CapLe-refl, CapLe-trans, Flow, origin, through}
use openleo.Routing.Widest.Simple.{flow-HasWalk, walk-Flow}
use openleo.Routing.Widest.Work.{all_capacities, length-all_capacities, room, room-le}
use openleo.Routing.Widest.Loop.{WidestOf, widest_loop-WidestOf, start-Valid, start-AllKnown}

usable-capacity :
    (minimum : ℕ) (path : List ℕ) (e : Edge)
    → is_usable minimum path e ≡ true
    → minimum ≤ e.capacity
unfolding is_usable
usable-capacity minimum path e h = ground arith

usable_mono :
    (m n : ℕ) (path : List ℕ) (e : Edge)
    → n ≤ e.capacity
    → is_usable m path e ≡ true
    → is_usable n path e ≡ true
unfolding is_usable
usable_mono m n path e h u = ground arith

narrower-above :
    (m c : ℕ) (b : Option ℕ) → CapLe (some m) b → m ≤ c → CapLe (some m) (some (narrower b c))
narrower-above m c none h k = ground (arith, k)
narrower-above m c (some b) h k = ground (arith, h, k)

narrower-parts :
    (m c : ℕ) (b : Option ℕ) → CapLe (some m) (some (narrower b c)) → CapLe (some m) b × (m ≤ c)
narrower-parts m c none h = (refl, ground (arith, h))
narrower-parts m c (some b) h = (ground (arith, h), ground (arith, h))

-- The edges of a walk let its minimum pass.
walk-CapLe :
    {graph : Graph} {m source : ℕ} {p : List ℕ} {v d h : ℕ} {b : Option ℕ}
    → Walk graph m source p v d h b
    → CapLe (some m) b
walk-CapLe {m = m} (start _ _ _ _ r) = subst (CapLe (some m)) (sym r) refl
walk-CapLe {m = m} (extend {p} {b = b} wk e ie u q t s k a) =
    subst (CapLe (some m)) (sym a)
      (narrower-above m e.capacity b (walk-CapLe wk) (usable-capacity m p e u))

-- A walk whose bottleneck is at least another minimum is a walk at that one.
walk_mono :
    {graph : Graph} {m source : ℕ} {p : List ℕ} {v d h : ℕ} {b : Option ℕ} (n : ℕ)
    → CapLe (some n) b
    → Walk graph m source p v d h b
    → Walk graph n source p v d h b
walk_mono n le (start p v d h b) = start p v d h b
walk_mono {m = m} n le (extend {p} {b = b} wk e ie u q t s k a) =
    let parts = narrower-parts n e.capacity b (subst (CapLe (some n)) a le) in
    extend (walk_mono n parts.0 wk) e ie (usable_mono m n p e parts.1 u) q t s k a

zero-CapLe : (b : Option ℕ) → CapLe (some 0) b
zero-CapLe none = refl
zero-CapLe (some b) = ground arith

no_infinite :
    {graph : Graph} {source v : ℕ} {a : Option ℕ} → Flow graph source a v → a ≡ none → v ≡ source
no_infinite (origin p q) h = q
no_infinite (through f e ie pos p q) h = absurd (cc)

module _ (graph : Graph) (source target : ℕ) where
  -- A route: a simple path of edges with a positive capacity, whose delay and bottleneck are the
  -- reported ones; no such path has a larger bottleneck, and it precedes those that have the same.
  -- Disconnected: there is no such path.
  abbrev pub Widest : RouteResult → Type 0
  Widest invalid_endpoints = ⊥
  Widest out_of_fuel = ⊥
  Widest (route nodes d b) =
      (h : ℕ) × Walk graph 0 source nodes target d h b
      × ((p : List ℕ) (c k : ℕ) (a : Option ℕ)
          → Walk graph 0 source p target c k a
          → CapLe a b × (CapLe b a → Precedes (label_of nodes d h) (label_of p c k)))
  Widest disconnected = (p : List ℕ) (c k : ℕ) (a : Option ℕ) → ¬ Walk graph 0 source p target c k a

  fastest-Widest :
      (c : ℕ) (r : RouteResult)
      → WidestOf graph source target (widest (some c))
      → Correct graph c source target r
      → Widest r
  fastest-Widest c invalid_endpoints w k = k
  fastest-Widest c out_of_fuel w k = k
  fastest-Widest c disconnected w k =
      let (p, d, h, b, wk) = flow-HasWalk c (CapLe-refl (some c)) w.0 in absurd (k p d h b wk)
  fastest-Widest c (route nodes d b) w (h, own, first) = (
    h,
    walk_mono 0 (zero-CapLe b) own,
    λ p e k a wk. (
      CapLe-trans a (some c) b (w.1 a (walk-Flow wk)) above,
      λ le. first p e k a (walk_mono c (CapLe-trans (some c) b a above le) wk),
    ),
  )
    where
      above : CapLe (some c) b
      above = walk-CapLe own

  route_at-Widest :
      (o : WideResult)
      → IsClosed graph
      → are_endpoints graph source target ≡ true
      → WidestOf graph source target o
      → Widest (route_at graph source target o)
  route_at-Widest stopped closed ends w = w
  route_at-Widest unreachable closed ends w = λ p c k a wk. w a (walk-Flow wk)
  route_at-Widest (widest none) closed ends w =
      let same = no_infinite w.0 refl in absurd (ground arith)
  route_at-Widest (widest (some c)) closed ends w =
      elim (shortest_path-Correct graph source target c closed) [
        | inl (_, k) ↦ fastest-Widest c (shortest_path graph source target c) w k
        | inr (bad, _) ↦ absurd (cc)
      ]

-- On a graph whose edges lead to its nodes, `widest_path` between two distinct nodes of it returns
-- (both searches are bounded), and: a route it returns is a simple path from the source to the target
-- over edges with a positive capacity, with its delay and its bottleneck reported; no such path has a
-- larger bottleneck, and it precedes every one whose bottleneck is as large, by delay, then hops, then
-- the lexicographic order of the nodes; it returns none only if there is no such path. Endpoints that are equal or not nodes are refused.
pub widest_path-Widest :
    (graph : Graph) (source target : ℕ)
    → IsClosed graph
    → ((are_endpoints graph source target ≡ true)
        × Widest graph source target (widest_path graph source target))
      ⊎ ((are_endpoints graph source target ≡ false)
          × (widest_path graph source target ≡ invalid_endpoints))
unfolding widest_path
widest_path-Widest graph source target closed =
    elim (Bool-cases (are_endpoints graph source target)) [
      | inr no_ends ↦ rw no_ends (inr (refl, refl))
      | inl ends ↦
          let count = length-all_capacities graph in
          let few =
            room-le (all_capacities graph) (length graph) (assign_wide (λ _. none) source none) in
          let enough =
            subst
              (λ n.
                room (all_capacities graph) (length graph) (assign_wide (λ _. none) source none)
                ≤ length graph * n)
              count few in
          rw ends (
            inl (
              refl,
              route_at-Widest graph source target _ closed ends (
                  widest_loop-WidestOf graph source target _ _ _ closed
                    (start-AllKnown (all_capacities graph) source) (omega (arith, enough))
                    (start-Valid graph source target)),
            ))
    ]
