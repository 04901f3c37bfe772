-- ===== src/Routing/Widest/Pop.antt =====
-- engine/routing.py: what a round of `widest_path` does with the entry it pops.
use openleo.Prelude.{
  ℕ, ◌≡◌, ◌≢◌, ◌⊎◌, inl, inr, refl, sym, subst, ap, ◌∙◌, ltb, some_injective, true, Option, none,
  some, List, [], ◌∷◌, get_or, In, here, there, arith,
}
use openleo.Routing.{Graph, narrower}
use openleo.Routing.Widest.{Wide, cap_lt, BestWide, relax_wide, is_stale}
use openleo.Routing.Widest.Flows.{
  CapLe, CapLe-refl, CapLe-trans, narrower-CapLe, narrower_mono, Flow, origin, through, WideReached,
  WideWaits, WideSettled, IsWide,
}
use openleo.Routing.Widest.Rounds.{relax_wide-IsWide}

abbrev pub NoPending : ℕ → Option ℕ → Type 0
NoPending v a = ⊥

ltb-narrower_mono :
    (a b : Option ℕ) (c : ℕ) → CapLe a b → ltb 0 (narrower a c) ≡ true → ltb 0 (narrower b c) ≡ true
ltb-narrower_mono a b c h k = let le = narrower_mono a b c h in ground (arith, le, k)

-- What is left of an alternative once the first entry of the heap is gone.
waits_rest :
    (x : Wide) (heap : List Wide) (v : ℕ) (b : Option ℕ)
    → WideWaits v b (x ∷ heap)
    → WideWaits v b heap ⊎ ((x.node ≡ v) × (x.capacity ≡ b))
waits_rest x heap v b (y, there j, m, q) = inl (y, j, m, q)
waits_rest x heap v b (y, here p, m, q) =
    inr (ap (λ (z : Wide). z.node) (sym p) ∙ m, ap (λ (z : Wide). z.capacity) (sym p) ∙ q)

stale-cases :
    (x : Wide) (o : Option (Option ℕ))
    → is_stale x o ≡ true
    → (b : Option ℕ) × (o ≡ some b) × (cap_lt x.capacity b ≡ true)
stale-cases x none h = cc
stale-cases x (some b) h = (b, refl, h)

module _ (graph : Graph) (source target : ℕ) where
  abbrev pub Valid : List Wide → BestWide → Type 0
  Valid heap best = IsWide graph source target NoPending heap best

  abbrev pub Front : List Wide → Option ℕ → Type 0
  Front heap a = (y : Wide) × In y heap × CapLe a y.capacity

  -- Along a flow, each node has as much, or some entry of the heap has.
  pub frontier :
      (heap : List Wide) (best : BestWide) {a : Option ℕ} {v : ℕ}
      → Valid heap best
      → Flow graph source a v
      → WideReached best v a ⊎ Front heap a
  frontier heap best i (origin p q) = inl (rw (p, q) i.begun)
  frontier heap best i (through {a} {b} {v = n} {w} f e ie pos p q) =
      further (frontier heap best i f)
    where
      less : CapLe b a
      less = subst (λ c. CapLe c a) (sym p) (narrower-CapLe a e.capacity)

      settled : (c : Option ℕ) → CapLe a c → WideSettled graph best n c → WideReached best w b
      settled c k done =
          let (o, at, le) = done e ie (ltb-narrower_mono a c e.capacity k pos) in
          (
            o,
            ap best q ∙ at,
            subst (λ z. CapLe z o) (sym p)
                (CapLe-trans (some (narrower a e.capacity)) (some (narrower c e.capacity)) o
                  (narrower_mono a c e.capacity k) le),
          )

      by_capacity :
          (c : Option ℕ)
          → CapLe a c
          → WideWaits n c heap ⊎ ((n ≢ target) × WideSettled graph best n c) ⊎ NoPending n c
          → WideReached best w b ⊎ Front heap b
      by_capacity c k (inl (y, iy, m, z)) =
          inr (y, iy, subst (CapLe b) (sym z) (CapLe-trans b a c less k))
      by_capacity c k (inr (inl (ne, done))) = inl (settled c k done)
      by_capacity c k (inr (inr bad)) = absurd bad

      further : WideReached best n a ⊎ Front heap a → WideReached best w b ⊎ Front heap b
      further (inr (y, iy, k)) = inr (y, iy, CapLe-trans b a y.capacity less k)
      further (inl (c, f, k)) = by_capacity c k (i.tried n c f)

  -- An entry below its node's capacity can be dropped.
  pub stale-Valid :
      (x : Wide) (heap : List Wide) (best : BestWide)
      → is_stale x (best x.node) ≡ true
      → Valid (x ∷ heap) best
      → Valid heap best
  stale-Valid x heap best old i = record {
    flows = λ y j. i.flows y (there j);
    ordered = i.ordered.1;
    begun = i.begun;
    tried = λ v b h. kept v b h (i.tried v b h);
  }
    where
      not_it : (v : ℕ) (b : Option ℕ) → best v ≡ some b → x.node ≡ v → x.capacity ≡ b → ⊥
      not_it v b h p q =
          let (c, at, lt) = stale-cases x (best x.node) old in
          let same : c ≡ b = some_injective (sym at ∙ ap best p ∙ h) in
          let self = CapLe-refl b in
          let bad : cap_lt b b ≡ true =
            subst (λ z. cap_lt z b ≡ true) q (subst (λ z. cap_lt x.capacity z ≡ true) same lt) in
          cc

      after :
          (v : ℕ) (b : Option ℕ)
          → best v ≡ some b
          → WideWaits v b heap ⊎ ((x.node ≡ v) × (x.capacity ≡ b))
          → WideWaits v b heap
      after v b h (inl w) = w
      after v b h (inr (p, q)) = absurd (not_it v b h p q)

      kept :
          (v : ℕ) (b : Option ℕ)
          → best v ≡ some b
          → WideWaits v b (x ∷ heap) ⊎ ((v ≢ target) × WideSettled graph best v b) ⊎ NoPending v b
          → WideWaits v b heap ⊎ ((v ≢ target) × WideSettled graph best v b) ⊎ NoPending v b
      kept v b h (inr other) = inr other
      kept v b h (inl w) = inl (after v b h (waits_rest x heap v b w))

  -- The entry that is expanded: its capacity is settled after the loop over its edges.
  abbrev At : Wide → ℕ → Option ℕ → Type 0
  At x v b = (x.node ≡ v) × (x.capacity ≡ b)

  popped-Valid :
      (x : Wide) (heap : List Wide) (best : BestWide)
      → Valid (x ∷ heap) best
      → IsWide graph source target (At x) heap best
  popped-Valid x heap best i = record {
    flows = λ y j. i.flows y (there j);
    ordered = i.ordered.1;
    begun = i.begun;
    tried = λ v b h. kept v b (i.tried v b h);
  }
    where
      after :
          (v : ℕ) (b : Option ℕ)
          → WideWaits v b heap ⊎ ((x.node ≡ v) × (x.capacity ≡ b))
          → WideWaits v b heap ⊎ ((v ≢ target) × WideSettled graph best v b) ⊎ At x v b
      after v b (inl w) = inl w
      after v b (inr at) = inr (inr at)

      kept :
          (v : ℕ) (b : Option ℕ)
          → WideWaits v b (x ∷ heap) ⊎ ((v ≢ target) × WideSettled graph best v b) ⊎ NoPending v b
          → WideWaits v b heap ⊎ ((v ≢ target) × WideSettled graph best v b) ⊎ At x v b
      kept v b (inr (inl done)) = inr (inl done)
      kept v b (inr (inr bad)) = absurd bad
      kept v b (inl w) = after v b (waits_rest x heap v b w)

  pub expanded-Valid :
      (x : Wide) (heap : List Wide) (best : BestWide)
      → x.node ≢ target
      → Valid (x ∷ heap) best
      → let next = relax_wide x.capacity (get_or graph x.node []) heap best in Valid next.0 next.1
  expanded-Valid x heap best ne i =
      let (v, up, got) =
        relax_wide-IsWide graph source target (At x) x (i.flows x (here refl))
          (get_or graph x.node []) heap best (λ e j. j) (popped-Valid x heap best i) in
      record {
        flows = v.flows;
        ordered = v.ordered;
        begun = v.begun;
        tried = λ n b h. kept n b got (v.tried n b h);
      }
    where
      next : List Wide × BestWide
      next = relax_wide x.capacity (get_or graph x.node []) heap best

      kept :
          (n : ℕ) (b : Option ℕ)
          → WideSettled graph next.1 x.node x.capacity
          → WideWaits n b next.0 ⊎ ((n ≢ target) × WideSettled graph next.1 n b) ⊎ At x n b
          → WideWaits n b next.0 ⊎ ((n ≢ target) × WideSettled graph next.1 n b) ⊎ NoPending n b
      kept n b got (inl w) = inl w
      kept n b got (inr (inl s)) = inr (inl s)
      kept n b got (inr (inr (p, q))) = inr (
          inl (
            λ e. ne (p ∙ e),
            subst (λ n. WideSettled graph next.1 n b) p
                (subst (WideSettled graph next.1 x.node) q got),
          ))
