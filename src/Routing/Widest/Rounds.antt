-- ===== src/Routing/Widest/Rounds.antt =====
-- engine/routing.py: the rounds of `widest_path` keep what holds between them.
use openleo.Prelude.{
  In-cons, ℕ, ◌≡◌, ◌≢◌, ◌⊎◌, inl, inr, refl, sym, subst, ap, ◌∙◌, ltb, ◌==◌, Bool, Bool-cases,
  Option-cases, some_injective, if◌then◌else◌, true, false, Option, none, some, List, [], ◌∷◌,
  get_or, In, here, there, arith,
}
use openleo.Routing.{Graph, Edge, narrower}
use openleo.Routing.Widest.{
  Wide, push_wide, BestWide, assign_wide, widens, relax_wide_one, relax_wide,
}
use openleo.Routing.Widest.Flows.{
  CapLe, CapLe-refl, CapLe-trans, cap_lt-CapLe, Flow, through, WideReached, WideWaits, WideSettled,
  IsWide, In-push_wide, push_wide-In_self, push_wide-In, push_wide-WideOrdered,
}

-- No node gets a smaller capacity.
abbrev Widens : BestWide → BestWide → Type 0
Widens old new = (v : ℕ) (a : Option ℕ) → WideReached old v a → WideReached new v a

widens-CapLe :
    (c : Option ℕ) (o : Option (Option ℕ)) (b : Option ℕ)
    → widens c o ≡ true
    → o ≡ some b
    → CapLe b c
widens-CapLe c none b h e = cc
widens-CapLe c (some d) b h e = subst (λ x. CapLe x c) (some_injective e) (cap_lt-CapLe d c h)

widens-pos : (n : ℕ) (o : Option (Option ℕ)) → widens (some n) o ≡ true → ltb 0 n ≡ true
widens-pos n none h = h
widens-pos n (some none) h = cc
widens-pos n (some (some b)) h = ground (arith, h)

not_both : (b : Bool) → b ≡ true → b ≡ false → ⊥
not_both b h k = cc

not_widens :
    (n : ℕ) (best : BestWide) (v : ℕ)
    → widens (some n) (best v) ≡ false
    → ltb 0 n ≡ true
    → WideReached best v (some n)
not_widens n best v h pos = elim (Option-cases (best v)) [
  | inl e ↦ absurd (not_both (ltb 0 n) pos (ap (widens (some n)) (sym e) ∙ h))
  | inr (b, e) ↦ (b, e, ap (widens (some n)) (sym e) ∙ h)
]

pub assign_wide-cases :
    (best : BestWide) (n : ℕ) (c : Option ℕ) (v : ℕ) (b : Option ℕ)
    → assign_wide best n c v ≡ some b
    → ((n ≡ v) × (b ≡ c)) ⊎ (best v ≡ some b)
assign_wide-cases best n c v b h = elim (Bool-cases (n == v)) [
  | inl eq ↦
      inl (ground arith, sym (some_injective (ap (λ t. if t then some c else best v) (sym eq) ∙ h)))
  | inr ne ↦ inr (ap (λ t. if t then some c else best v) (sym ne) ∙ h)
]

assign_wide_self : (best : BestWide) (n : ℕ) (c : Option ℕ) → assign_wide best n c n ≡ some c
assign_wide_self best n c = ground arith

assign_wide-Widens :
    (best : BestWide) (n : ℕ) (c : Option ℕ)
    → widens c (best n) ≡ true
    → Widens best (assign_wide best n c)
assign_wide-Widens best n c h v a (b, e, k) = elim (Bool-cases (n == v)) [
  | inr ne ↦ (b, rw ne e, k)
  | inl eq ↦
      let same : n ≡ v = ground arith in
      (c, rw eq refl, CapLe-trans a b c k (widens-CapLe c (best n) b h (ap best same ∙ e)))
]

module _ (graph : Graph) (source target : ℕ) (Pending : ℕ → Option ℕ → Type 0) where
  abbrev Valid : List Wide → BestWide → Type 0
  Valid heap best = IsWide graph source target Pending heap best

  push-IsWide :
      (x : Wide) (e : Edge) (heap : List Wide) (best : BestWide)
      → In e (get_or graph x.node [])
      → Flow graph source x.capacity x.node
      → Valid heap best
      → let c = narrower x.capacity e.capacity in
        widens (some c) (best e.neighbor) ≡ true
        → Valid
            (push_wide (record { capacity = some c; node = e.neighbor }) heap)
            (assign_wide best e.neighbor (some c))
  push-IsWide x e heap best i flow v better = record {
    flows = λ y j. flow_of y (In-push_wide new heap y j);
    ordered = push_wide-WideOrdered new heap v.ordered;
    begun = up source none v.begun;
    tried = λ n b h. tried_of n b (assign_wide-cases best e.neighbor (some c) n b h);
  }
    where
      c : ℕ
      c = narrower x.capacity e.capacity

      new : Wide
      new = record { capacity = some c; node = e.neighbor }

      best' : BestWide
      best' = assign_wide best e.neighbor (some c)

      up : Widens best best'
      up = assign_wide-Widens best e.neighbor (some c) better

      flow_of : (y : Wide) → (y ≡ new) ⊎ In y heap → Flow graph source y.capacity y.node
      flow_of y (inl p) =
          subst (λ (z : Wide). Flow graph source z.capacity z.node) (sym p)
            (through flow e i (widens-pos c (best e.neighbor) better) refl refl)
      flow_of y (inr j) = v.flows y j

      settled_of :
          (n : ℕ) (b : Option ℕ)
          → WideWaits n b heap ⊎ ((n ≢ target) × WideSettled graph best n b) ⊎ Pending n b
          → WideWaits n b (push_wide new heap)
            ⊎ ((n ≢ target) × WideSettled graph best' n b)
            ⊎ Pending n b
      settled_of n b (inl (y, j, p, q)) = inl (y, push_wide-In new heap y j, p, q)
      settled_of n b (inr (inl (ne, s))) =
          inr (inl (ne, λ f j u. up f.neighbor (some (narrower b f.capacity)) (s f j u)))
      settled_of n b (inr (inr p)) = inr (inr p)

      tried_of :
          (n : ℕ) (b : Option ℕ)
          → ((e.neighbor ≡ n) × (b ≡ some c)) ⊎ (best n ≡ some b)
          → WideWaits n b (push_wide new heap)
            ⊎ ((n ≢ target) × WideSettled graph best' n b)
            ⊎ Pending n b
      tried_of n b (inl (p, q)) = inl (new, push_wide-In_self new heap, p, sym q)
      tried_of n b (inr h) = settled_of n b (v.tried n b h)

  module _ (x : Wide) (flow : Flow graph source x.capacity x.node) where
    -- After an edge: what is left of it.
    abbrev After : Edge → BestWide → List Wide × BestWide → Type 0
    After e best next =
        Valid next.0 next.1
        × Widens best next.1
        × (ltb 0 (narrower x.capacity e.capacity) ≡ true
            → WideReached next.1 e.neighbor (some (narrower x.capacity e.capacity)))

    relax_wide_one-IsWide :
        (e : Edge) (heap : List Wide) (best : BestWide)
        → In e (get_or graph x.node [])
        → Valid heap best
        → After e best (relax_wide_one (some (narrower x.capacity e.capacity)) e heap best)
    unfolding relax_wide_one
    relax_wide_one-IsWide e heap best i v =
        let c = narrower x.capacity e.capacity in
        elim (Bool-cases (widens (some c) (best e.neighbor))) [
          | inr worse ↦ rw worse (v, λ n a r. r, λ u. not_widens c best e.neighbor worse u)
          | inl better ↦ rw better (
            push-IsWide x e heap best i flow v better,
            assign_wide-Widens best e.neighbor (some c) better,
            λ u. (some c, assign_wide_self best e.neighbor (some c), CapLe-refl (some c)),
          )
        ]

    pub relax_wide-IsWide :
        (l : List Edge) (heap : List Wide) (best : BestWide)
        → ((e : Edge) → In e l → In e (get_or graph x.node []))
        → Valid heap best
        → let next = relax_wide x.capacity l heap best in
          Valid next.0 next.1
          × Widens best next.1
          × ((e : Edge)
              → In e l
              → ltb 0 (narrower x.capacity e.capacity) ≡ true
              → WideReached next.1 e.neighbor (some (narrower x.capacity e.capacity)))
    unfolding relax_wide
    relax_wide-IsWide [] heap best sub v = (v, λ n a r. r, λ e i. elim i [ ])
    relax_wide-IsWide (e ∷ l) heap best sub v =
        let next = relax_wide_one (some (narrower x.capacity e.capacity)) e heap best in
        let (v1, up1, got1) = relax_wide_one-IsWide e heap best (sub e (here refl)) v in
        let (v2, up2, got2) = relax_wide-IsWide l next.0 next.1 (λ f i. sub f (there i)) v1 in
        (
          v2,
          λ n a r. up2 n a (up1 n a r),
          In-cons
              (λ (f : Edge).
                ltb 0 (narrower x.capacity f.capacity) ≡ true
                → WideReached (relax_wide x.capacity (e ∷ l) heap best).1 f.neighbor
                    (some (narrower x.capacity f.capacity)))
              (λ u. up2 e.neighbor (some (narrower x.capacity e.capacity)) (got1 u)) got2,
        )
