-- ===== src/Routing/Widest/Loop.antt =====
-- engine/routing.py: the loop of `widest_path` returns, with the largest capacity of a flow to the
-- target.
use openleo.Prelude.{
  ℕ, zero, suc, ◌<◌, ◌≡◌, ◌≢◌, ◌⊎◌, inl, inr, refl, sym, subst, ap, ◌∙◌, ◌==◌, Bool-cases, false,
  Option, none, some, List, [], ◌∷◌, length, get_or, In, here, there, arith,
}
use openleo.Routing.{Graph}
use openleo.Routing.Bound.{IsClosed}
use openleo.Routing.Widest.{
  Wide, BestWide, assign_wide, relax_wide, is_stale, WideResult, widest, unreachable, stopped,
  widest_loop,
}
use openleo.Routing.Widest.Flows.{
  CapLe, CapLe-refl, CapLe-trans, Flow, origin, WideReached, WideWaits, WideSettled,
}
use openleo.Routing.Widest.Rounds.{assign_wide-cases}
use openleo.Routing.Widest.Work.{
  AllKnown, work_left, relax_wide-work_left, all_capacities, In-all_capacities,
}
use openleo.Routing.Widest.Pop.{NoPending, Front, Valid, frontier, stale-Valid, expanded-Valid}

module _ (graph : Graph) (source target : ℕ) where
  -- Widest: some flow to the target has the capacity and none a larger one. Unreachable: there is no
  -- flow to the target.
  abbrev pub WidestOf : WideResult → Type 0
  WidestOf (widest c) =
      Flow graph source c target × ((a : Option ℕ) → Flow graph source a target → CapLe a c)
  WidestOf unreachable = (a : Option ℕ) → ¬ Flow graph source a target
  WidestOf stopped = ⊥

  reached-WidestOf :
      (x : Wide) (heap : List Wide) (best : BestWide)
      → is_stale x (best x.node) ≡ false
      → x.node ≡ target
      → Valid graph source target (x ∷ heap) best
      → WidestOf (widest x.capacity)
  reached-WidestOf x heap best now at i = (
    subst (Flow graph source x.capacity) at (i.flows x (here refl)),
    λ a f. most a (frontier graph source target (x ∷ heap) best i f),
  )
    where
      first : (y : Wide) → In y (x ∷ heap) → CapLe y.capacity x.capacity
      first y (here p) = rw p (CapLe-refl x.capacity)
      first y (there j) = i.ordered.0 y j

      most :
          (a : Option ℕ)
          → WideReached best target a ⊎ Front graph source target (x ∷ heap) a
          → CapLe a x.capacity
      most a (inr (y, j, k)) = CapLe-trans a y.capacity x.capacity k (first y j)
      most a (inl (b, f, k)) =
          CapLe-trans a b x.capacity k (ap (is_stale x) (sym (ap best at ∙ f)) ∙ now)

  unreachable-WidestOf :
      (best : BestWide) → Valid graph source target [] best → WidestOf unreachable
  unreachable-WidestOf best i a f = none_left (frontier graph source target [] best i f)
    where
      no_entry :
          (b : Option ℕ)
          → WideWaits target b []
            ⊎ ((target ≢ target) × WideSettled graph best target b)
            ⊎ NoPending target b
          → ⊥
      no_entry b (inl (y, j, m, q)) = elim j [ ]
      no_entry b (inr (inl (ne, _))) = ne refl
      no_entry b (inr (inr bad)) = bad

      none_left : WideReached best target a ⊎ Front graph source target [] a → ⊥
      none_left (inl (b, f, _)) = no_entry b (i.tried target b f)
      none_left (inr (y, j, _)) = elim j [ ]

  pub widest_loop-WidestOf :
      (fuel : ℕ) (heap : List Wide) (best : BestWide)
      → IsClosed graph
      → AllKnown (all_capacities graph) heap
      → work_left (all_capacities graph) (length graph) heap best < fuel
      → Valid graph source target heap best
      → WidestOf (widest_loop fuel graph target heap best)
  unfolding widest_loop
  widest_loop-WidestOf zero heap best closed known h i = absurd (omega (arith, h))
  widest_loop-WidestOf (suc fuel) [] best closed known h i = unreachable-WidestOf best i
  widest_loop-WidestOf (suc fuel) (x ∷ heap) best closed known h i =
      let edges = get_or graph x.node [] in
      let next = relax_wide x.capacity edges heap best in
      let less =
        relax_wide-work_left (all_capacities graph) (length graph) x.capacity edges heap best
          (λ e j. (closed x.node e j, In-all_capacities graph x.node e j)) (known x (here refl))
          (λ y j. known y (there j)) in
      elim (Bool-cases (is_stale x (best x.node))) [
        | inl old ↦ rw old (
            widest_loop-WidestOf fuel heap best closed (λ y j. known y (there j)) (omega (arith, h))
              (stale-Valid graph source target x heap best old i))
        | inr now ↦ elim (Bool-cases (x.node == target)) [
          | inl at ↦ rw (now, at) (reached-WidestOf x heap best now (ground (arith, at)) i)
          | inr away ↦
              (let shorter = less.0 in
                rw (now, away)
                  (widest_loop-WidestOf fuel next.0 next.1 closed less.1 (omega (arith, h, shorter))
                    (expanded-Valid graph source target x heap best (λ e. ground (arith, away)) i)))
        ]
      ]

  pub start-Valid :
      Valid graph source target
        (record { capacity = none; node = source } ∷ [])
        (assign_wide (λ _. none) source none)
  start-Valid = record {
    flows = λ x j. flow_of x j;
    ordered = (λ y j. elim j [ ], tt);
    begun = (none, ground arith, refl);
    tried = λ v b h. waiting (at v b h);
  }
    where
      flow_of :
          (x : Wide)
          → In x (record { capacity = none; node = source } ∷ [])
          → Flow graph source x.capacity x.node
      flow_of x (here p) =
          subst (λ (z : Wide). Flow graph source z.capacity z.node) (sym p) (origin refl refl)
      flow_of x (there j) = elim j [ ]

      waiting :
          {v : ℕ} {b : Option ℕ}
          → (source ≡ v) × (none ≡ b)
          → WideWaits v b (record { capacity = none; node = source } ∷ [])
            ⊎ ((v ≢ target) × WideSettled graph (assign_wide (λ _. none) source none) v b)
            ⊎ NoPending v b
      waiting (p, q) = inl (record { capacity = none; node = source }, here refl, p, q)

      at_source :
          (v : ℕ) (b : Option ℕ)
          → ((source ≡ v) × (b ≡ none)) ⊎ (none ≡ some b)
          → (source ≡ v) × (none ≡ b)
      at_source v b (inl (p, q)) = (p, sym q)
      at_source v b (inr bad) = absurd (cc bad)

      at :
          (v : ℕ) (b : Option ℕ)
          → assign_wide (λ _. none) source none v ≡ some b
          → (source ≡ v) × (none ≡ b)
      at v b h = at_source v b (assign_wide-cases (λ _. none) source none v b h)

pub start-AllKnown :
    (caps : List ℕ) (source : ℕ) → AllKnown caps (record { capacity = none; node = source } ∷ [])
start-AllKnown caps source x (here p) = inl (ap (λ (z : Wide). z.capacity) p)
start-AllKnown caps source x (there i) = elim i [ ]
