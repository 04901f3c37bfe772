-- ===== src/Routing/Shortest.antt =====
-- engine/routing.py: `shortest_path` returns, and what it returns.
use openleo.Prelude.{
  some_injective, ℕ, zero, suc, ◌<◌, ◌≡◌, ◌≢◌, ◌⊎◌, inl, inr, refl, sym, subst, ap, ◌∙◌, ◌==◌, true,
  false, not, Bool-cases, Option, none, some, List, [], ◌∷◌, length, get_or, elem, In, here, there,
  arith, count_below-le,
}
use openleo.Routing.{
  Graph, Label, Entry, RouteResult, invalid_endpoints, route, disconnected, out_of_fuel, Best,
  assign, relax, node_of, is_current, stale, reached, expanded, round_of, search_loop, max_degree,
  are_endpoints, start_label, shortest_path,
}
use openleo.Routing.Walks.{Walk, start}
use openleo.Routing.Order.{
  label_of, LabelLe, LabelLe-refl, LabelLe-trans, Precedes, LabelLe-Precedes, IsSized,
}
use openleo.Routing.Invariant.{Reached, Waits, Settled, IsRoute}
use openleo.Routing.Bound.{
  IsClosed, free, weight, work_bound_mono, length-le-max_degree, relax-weight-lt, work_bound-pos,
}
use openleo.Routing.Pop.{
  NoPending, Front, Valid, is_current-≡, frontier, stale-IsValid, expanded-IsValid,
}

module _ (graph : Graph) (minimum source target : ℕ) where
  -- A route: a simple path of edges with the capacity that precedes every other one to the target, and
  -- its delay and bottleneck are the reported ones. Disconnected: there is no such path.
  abbrev pub Correct : RouteResult → Type 0
  Correct invalid_endpoints = ⊥
  Correct out_of_fuel = ⊥
  Correct (route nodes d b) =
      (h : ℕ) × Walk graph minimum source nodes target d h b
      × ((p : List ℕ) (c k : ℕ) (a : Option ℕ)
          → Walk graph minimum source p target c k a
          → Precedes (label_of nodes d h) (label_of p c k))
  Correct disconnected =
      (p : List ℕ) (c k : ℕ) (a : Option ℕ) → ¬ Walk graph minimum source p target c k a

  reached-Correct :
      (x : Entry) (heap : List Entry) (best : Best)
      → is_current x (best (node_of x)) ≡ true
      → node_of x ≡ target
      → Valid graph minimum source target (x ∷ heap) best
      → Correct (route x.label.path x.label.delay x.bottleneck)
  reached-Correct x heap best now at i = (
    x.label.hops,
    subst (λ n. Walk graph minimum source x.label.path n x.label.delay x.label.hops x.bottleneck) at
        (i.routes x (here refl)),
    λ p c k a wk.
        LabelLe-Precedes x.label (label_of p c k)
          (least (label_of p c k) (frontier graph minimum source target (x ∷ heap) best i wk)),
  )
    where
      first : (y : Entry) → In y (x ∷ heap) → LabelLe x.label y.label
      first y (here p) = rw p (LabelLe-refl x.label)
      first y (there j) = i.ordered.0 y j

      least :
          (m : Label)
          → Reached best target m ⊎ Front graph minimum source target (x ∷ heap) m
          → LabelLe x.label m
      least m (inr (y, j, k)) = LabelLe-trans x.label y.label m (first y j) k
      least m (inl (l, f, k)) =
          let mine : best target ≡ some x.label =
            ap best (sym at) ∙ is_current-≡ x (best (node_of x)) now in
          subst (λ l. LabelLe l m) (some_injective (sym f ∙ mine)) k

  disconnected-Correct :
      (best : Best) → Valid graph minimum source target [] best → Correct disconnected
  disconnected-Correct best i p c k a wk =
      none_left (frontier graph minimum source target [] best i wk)
    where
      no_entry :
          (l : Label)
          → Waits l []
            ⊎ ((target ≢ target) × Settled graph minimum best target l)
            ⊎ NoPending target l
          → ⊥
      no_entry l (inl (y, j, q)) = elim j [ ]
      no_entry l (inr (inl (ne, _))) = ne refl
      no_entry l (inr (inr bad)) = bad

      none_left :
          Reached best target (label_of p c k)
            ⊎ Front graph minimum source target [] (label_of p c k)
          → ⊥
      none_left (inl (l, f, _)) = no_entry l (i.tried target l f)
      none_left (inr (y, j, _)) = elim j [ ]

  round-cases :
      (x : Entry) (best : Best)
      → ((round_of target x best ≡ stale) × (is_current x (best (node_of x)) ≡ false))
        ⊎ ((round_of target x best ≡ reached)
            × (is_current x (best (node_of x)) ≡ true)
            × (node_of x ≡ target))
        ⊎ ((round_of target x best ≡ expanded)
            × (is_current x (best (node_of x)) ≡ true)
            × (node_of x ≢ target))
  unfolding round_of
  round-cases x best = elim (Bool-cases (is_current x (best (node_of x)))) [
    | inr old ↦ inl (rw (old, round_of), old)
    | inl now ↦ elim (Bool-cases (node_of x == target)) [
      | inl at ↦ inr (inl (rw (now, at), now, ground arith))
      | inr away ↦ inr (inr (rw (now, away), now, λ e. ground arith))
    ]
  ]

  loop-Correct :
      (fuel : ℕ) (heap : List Entry) (best : Best)
      → IsClosed graph
      → weight (max_degree graph) (length graph) heap < fuel
      → Valid graph minimum source target heap best
      → Correct (search_loop fuel graph target minimum heap best)
  unfolding search_loop
  loop-Correct zero heap best closed h i = absurd (omega arith)
  loop-Correct (suc fuel) [] best closed h i = disconnected-Correct best i
  loop-Correct (suc fuel) (x ∷ heap) best closed h i =
      let pos = work_bound-pos (max_degree graph) (free (length graph) x.label.path) in
      let edges = get_or graph (node_of x) [] in
      let next = relax minimum x edges heap best in
      let less =
        relax-weight-lt (max_degree graph) (length graph) minimum x edges heap best
          (λ e j. closed (node_of x) e j) (length-le-max_degree graph (node_of x)) in
      elim (round-cases x best) [
        | inl (r, old) ↦
            rw (r, search_loop)
              (loop-Correct fuel heap best closed (omega arith)
                (stale-IsValid graph minimum source target x heap best old i))
        | inr (inl (r, now, at)) ↦ rw (r, search_loop) (reached-Correct x heap best now at i)
        | inr (inr (r, now, ne)) ↦
            rw (r, search_loop)
              (loop-Correct fuel next.0 next.1 closed (omega arith)
                (expanded-IsValid graph minimum source target x heap best now ne i))
      ]

  start-IsValid :
      Valid graph minimum source target
        (record { label = start_label source; bottleneck = none } ∷ [])
        (assign (λ _. none) source (start_label source))
  start-IsValid = record {
    routes = λ x j. route_of x j;
    ordered = (λ y j. elim j [ ], tt);
    begun = (start_label source, at_source, LabelLe-refl (start_label source));
    ends = λ v l h. ground arith;
    sized = λ v l h. subst IsSized (label_at v l h) refl;
    passed = λ v l w h j. passed_of v l w h j;
    tried = λ v l h.
        inl (record { label = start_label source; bottleneck = none }, here refl, ground arith);
  }
    where
      at_source : assign (λ _. none) source (start_label source) source ≡ some (start_label source)
      at_source = ground arith

      route_of :
          (x : Entry)
          → In x (record { label = start_label source; bottleneck = none } ∷ [])
          → IsRoute graph minimum source target x
      route_of x (here p) =
          subst (IsRoute graph minimum source target) (sym p) (start refl refl refl refl refl)
      route_of x (there j) = elim j [ ]

      label_at :
          (v : ℕ) (l : Label)
          → assign (λ _. none) source (start_label source) v ≡ some l
          → start_label source ≡ l
      label_at v l h = ground arith

      passed_of :
          (v : ℕ) (l : Label) (w : ℕ)
          → assign (λ _. none) source (start_label source) v ≡ some l
          → elem w l.path ≡ true
          → Reached (assign (λ _. none) source (start_label source)) w l
      passed_of v l w h j =
          let same = label_at v l h in
          let at : source ≡ w = ground arith in
          subst (λ w. Reached (assign (λ _. none) source (start_label source)) w l) at
            (
              start_label source,
              at_source,
              subst (LabelLe (start_label source)) same (LabelLe-refl (start_label source)),
            )

-- On a graph whose edges lead to its nodes, `shortest_path` between two distinct nodes of it returns
-- (its rounds are bounded), and: a route it returns is a simple path from the source to the target
-- over edges with a positive capacity of at least the minimum, its delay is the sum of the edges'
-- delays and its bottleneck their smallest capacity, and it precedes every such path: it has a smaller
-- delay, or the same and fewer hops, or the same and nodes that come first in lexicographic order (or
-- are the same). It returns none only if there is no such path. Endpoints that are equal or not nodes
-- are refused.
pub shortest_path-Correct :
    (graph : Graph) (source target minimum : ℕ)
    → IsClosed graph
    → ((are_endpoints graph source target ≡ true)
        × Correct graph minimum source target (shortest_path graph source target minimum))
      ⊎ ((are_endpoints graph source target ≡ false)
          × (shortest_path graph source target minimum ≡ invalid_endpoints))
unfolding shortest_path
shortest_path-Correct graph source target minimum closed =
    elim (Bool-cases (are_endpoints graph source target)) [
      | inr no_ends ↦ rw no_ends (inr (refl, refl))
      | inl both_ends ↦
          let few = count_below-le (length graph) (λ i. not (elem i (source ∷ []))) in
          let bound =
            work_bound_mono (max_degree graph) (free (length graph) (source ∷ [])) (length graph)
              few in
          rw both_ends (
            inl (
              refl,
              loop-Correct graph minimum source target _ _ _ closed (omega arith)
                  (start-IsValid graph minimum source target),
            ))
    ]
