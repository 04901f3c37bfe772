-- ===== src/Routing/Relax.antt =====
-- engine/routing.py: the loop over a node's edges in `shortest_path` keeps the invariant.
use openleo.Prelude.{
  In-cons, ℕ, ◌≡◌, ◌≢◌, ◌⊎◌, inl, inr, refl, sym, subst, ap, ◌∙◌, true, Bool-cases, some, List, [],
  ◌∷◌, ◌++◌, get_or, elem, elem-append, last, last-append_one, In, here, there, arith,
}
use openleo.Routing.{
  Graph, Edge, Label, Entry, heappush, Best, assign, improves, is_usable, start_label, extend_label,
  extend_entry, relax_one, relax, node_of,
}
use openleo.Routing.Walks.{extend}
use openleo.Routing.Order.{LabelLe, LabelLe-refl, LabelLe-trans, LabelLe-extend_label, IsSized}
use openleo.Routing.Invariant.{
  Reached, Waits, Settled, IsRoute, IsValid, In-heappush, heappush-In, heappush-In_self,
  heappush-Ordered, Improves, assign-Improves, not_improves-Reached, walk-IsSized,
}

assign-cases :
    (best : Best) (n : ℕ) (c : Label) (v : ℕ) (l : Label)
    → assign best n c v ≡ some l
    → ((n ≡ v) × (l ≡ c)) ⊎ (best v ≡ some l)
assign-cases best n c v l h = ground arith

assign_self : (best : Best) (n : ℕ) (c : Label) → assign best n c n ≡ some c
assign_self best n c = ground arith

pub Reached-LabelLe :
    (best : Best) (v : ℕ) (m n : Label) → LabelLe m n → Reached best v m → Reached best v n
Reached-LabelLe best v m n h (l, p, k) = (l, p, LabelLe-trans l m n k h)

module _ (graph : Graph) (minimum source target : ℕ) (Pending : ℕ → Label → Type 0) where
  abbrev Valid : List Entry → Best → Type 0
  Valid heap best = IsValid graph minimum source target Pending heap best

  -- Every node of the popped entry's path has its label, or one that comes before it.
  abbrev pub Covered : Best → Entry → Type 0
  Covered best x = (w : ℕ) → elem w x.label.path ≡ true → Reached best w x.label

  module _ (x : Entry) (e : Edge) (heap : List Entry) (best : Best)
      (edge : In e (get_or graph (node_of x) [])) (rx : IsRoute graph minimum source target x)
      (cover : Covered best x) (v : Valid heap best)
      (usable : is_usable minimum x.label.path e ≡ true)
      (better : improves (extend_label x.label e) (best e.neighbor) ≡ true) where
    abbrev c : Label
    c = extend_label x.label e

    abbrev best' : Best
    best' = assign best e.neighbor c

    up : Improves best best'
    up = assign-Improves best e.neighbor c better

    pushed-IsRoute : IsRoute graph minimum source target (extend_entry x e)
    pushed-IsRoute =
        extend rx e edge usable refl (last-append_one 0 e.neighbor x.label.path) refl refl refl

    pushed_passed : (w : ℕ) → elem w (x.label.path ++ e.neighbor ∷ []) ≡ true → Reached best' w c
    pushed_passed w i = elim (Bool-cases (elem w x.label.path)) [
      | inl old ↦
          Reached-LabelLe best' w x.label c (LabelLe-extend_label x.label e)
            (up w x.label (cover w old))
      | inr new ↦
          let same : e.neighbor ≡ w =
            ground (arith, elem-append w x.label.path (e.neighbor ∷ [])) in
          subst (λ w. Reached best' w c) same (c, assign_self best e.neighbor c, LabelLe-refl c)
    ]

    push-IsValid : Valid (heappush (extend_entry x e) heap) best'
    push-IsValid = record {
      routes = λ y i. route_of y (In-heappush (extend_entry x e) heap y i);
      ordered = heappush-Ordered (extend_entry x e) heap v.ordered;
      begun = up source (start_label source) v.begun;
      ends = λ n l h. ends_of n l (assign-cases best e.neighbor c n l h);
      sized = λ n l h. sized_of n l (assign-cases best e.neighbor c n l h);
      passed = λ n l w h i. passed_of n l w i (assign-cases best e.neighbor c n l h);
      tried = λ n l h. tried_of n l (assign-cases best e.neighbor c n l h);
    }
      where
        route_of :
            (y : Entry) → (y ≡ extend_entry x e) ⊎ In y heap → IsRoute graph minimum source target y
        route_of y (inl p) = subst (IsRoute graph minimum source target) (sym p) pushed-IsRoute
        route_of y (inr i) = v.routes y i

        ends_of :
            (n : ℕ) (l : Label)
            → ((e.neighbor ≡ n) × (l ≡ c)) ⊎ (best n ≡ some l)
            → last 0 l.path ≡ n
        ends_of n l (inl (p, q)) =
            ap (λ (l : Label). last 0 l.path) q ∙ last-append_one 0 e.neighbor x.label.path ∙ p
        ends_of n l (inr h) = v.ends n l h

        sized_of :
            (n : ℕ) (l : Label) → ((e.neighbor ≡ n) × (l ≡ c)) ⊎ (best n ≡ some l) → IsSized l
        sized_of n l (inl (p, q)) = subst IsSized (sym q) (walk-IsSized pushed-IsRoute)
        sized_of n l (inr h) = v.sized n l h

        passed_of :
            (n : ℕ) (l : Label) (w : ℕ)
            → elem w l.path ≡ true
            → ((e.neighbor ≡ n) × (l ≡ c)) ⊎ (best n ≡ some l)
            → Reached best' w l
        passed_of n l w i (inl (p, q)) =
            subst (Reached best' w) (sym q)
              (pushed_passed w (subst (λ (l : Label). elem w l.path ≡ true) q i))
        passed_of n l w i (inr h) = up w l (v.passed n l w h i)

        settled_of :
            (n : ℕ) (l : Label)
            → Waits l heap ⊎ ((n ≢ target) × Settled graph minimum best n l) ⊎ Pending n l
            → Waits l (heappush (extend_entry x e) heap)
              ⊎ ((n ≢ target) × Settled graph minimum best' n l)
              ⊎ Pending n l
        settled_of n l (inl (y, i, q)) = inl (y, heappush-In (extend_entry x e) heap y i, q)
        settled_of n l (inr (inl (ne, s))) =
            inr (inl (ne, λ f j u. up f.neighbor (extend_label l f) (s f j u)))
        settled_of n l (inr (inr p)) = inr (inr p)

        tried_of :
            (n : ℕ) (l : Label)
            → ((e.neighbor ≡ n) × (l ≡ c)) ⊎ (best n ≡ some l)
            → Waits l (heappush (extend_entry x e) heap)
              ⊎ ((n ≢ target) × Settled graph minimum best' n l)
              ⊎ Pending n l
        tried_of n l (inl (p, q)) =
            inl (extend_entry x e, heappush-In_self (extend_entry x e) heap, sym q)
        tried_of n l (inr h) = settled_of n l (v.tried n l h)

  module _ (x : Entry) (rx : IsRoute graph minimum source target x) where
    abbrev After : Edge → List Entry → Best → List Entry × Best → Type 0
    After e heap best next =
        Valid next.0 next.1
        × Improves best next.1
        × (is_usable minimum x.label.path e ≡ true
            → Reached next.1 e.neighbor (extend_label x.label e))

    relax_one-IsValid :
        (e : Edge) (heap : List Entry) (best : Best)
        → In e (get_or graph (node_of x) [])
        → Covered best x
        → Valid heap best
        → After e heap best (relax_one minimum x e heap best)
    unfolding relax_one
    relax_one-IsValid e heap best i cover v =
        let c = extend_label x.label e in
        elim (Bool-cases (is_usable minimum x.label.path e)) [
          | inr no_use ↦ rw no_use (v, λ n d r. r, λ u. cc)
          | inl use_it ↦ elim (Bool-cases (improves c (best e.neighbor))) [
            | inr worse ↦
                rw (use_it, worse)
                  (v, λ n d r. r, λ u. not_improves-Reached c best e.neighbor worse)
            | inl better ↦
                rw (use_it, better)
                  (
                    push-IsValid x e heap best i rx cover v use_it better,
                    assign-Improves best e.neighbor c better,
                    λ u. (c, assign_self best e.neighbor c, LabelLe-refl c),
                  )
          ]
        ]

    pub relax-IsValid :
        (l : List Edge) (heap : List Entry) (best : Best)
        → ((e : Edge) → In e l → In e (get_or graph (node_of x) []))
        → Covered best x
        → Valid heap best
        → let next = relax minimum x l heap best in
          Valid next.0 next.1
          × Improves best next.1
          × ((e : Edge)
              → In e l
              → is_usable minimum x.label.path e ≡ true
              → Reached next.1 e.neighbor (extend_label x.label e))
    unfolding relax
    relax-IsValid [] heap best sub cover v = (v, λ n d r. r, λ e i. elim i [ ])
    relax-IsValid (e ∷ l) heap best sub cover v =
        let next = relax_one minimum x e heap best in
        let (v1, up1, got1) = relax_one-IsValid e heap best (sub e (here refl)) cover v in
        let (v2, up2, got2) =
          relax-IsValid l next.0 next.1 (λ f i. sub f (there i)) (λ w i. up1 w x.label (cover w i))
            v1 in
        (
          v2,
          λ n d r. up2 n d (up1 n d r),
          In-cons
              (λ (f : Edge).
                is_usable minimum x.label.path f ≡ true
                → Reached (relax minimum x (e ∷ l) heap best).1 f.neighbor (extend_label x.label f))
              (λ u. up2 e.neighbor (extend_label x.label e) (got1 u)) got2,
        )
