-- ===== src/Routing/Pop.antt =====
-- engine/routing.py: what a round of `shortest_path` does with the entry it pops.
use openleo.Prelude.{
  ℕ, ◌≡◌, ◌≢◌, ◌⊎◌, inl, inr, refl, sym, subst, ap, ◌∙◌, true, false, Bool-cases, Option, none,
  some, List, [], ◌∷◌, get_or, elem, last, In, here, there, arith,
}
use openleo.Routing.{
  extend_label, Graph, Edge, Label, Entry, label_eq, path_eq, Best, is_usable, relax, node_of,
  is_current,
}
use openleo.Routing.Walks.{Walk, start, extend}
use openleo.Routing.Order.{
  label_of, LabelLe, LabelLe-trans, LabelLe-extend_label, extend_label_mono,
}
use openleo.Routing.Invariant.{walk-IsSized, Reached, Waits, Settled, IsValid}
use openleo.Routing.Relax.{Reached-LabelLe, relax-IsValid}

pub path_eq-≡ : (p q : List ℕ) → path_eq p q ≡ true → p ≡ q
path_eq-≡ [] [] h = refl
path_eq-≡ [] (y ∷ q) h = cc
path_eq-≡ (x ∷ p) [] h = cc
path_eq-≡ (x ∷ p) (y ∷ q) h = ground (arith, path_eq-≡ p q)

path_eq_refl : (p : List ℕ) → path_eq p p ≡ true
path_eq_refl [] = refl
path_eq_refl (x ∷ p) = ground (arith, path_eq_refl p)

label_eq-≡ : (a b : Label) → label_eq a b ≡ true → a ≡ b
unfolding label_eq
label_eq-≡ a b h = ground (arith, path_eq-≡ a.path b.path)

label_eq_refl : (a : Label) → label_eq a a ≡ true
unfolding label_eq
label_eq_refl a = ground (arith, path_eq_refl a.path)

-- A current entry's label is its node's.
pub is_current-≡ : (x : Entry) (o : Option Label) → is_current x o ≡ true → o ≡ some x.label
is_current-≡ x none h = cc
is_current-≡ x (some l) h = ap some (label_eq-≡ l x.label h)

≡-is_current :
    (x : Entry) (o : Option Label) (l : Label) → o ≡ some l → x.label ≡ l → is_current x o ≡ true
≡-is_current x o l p q = rw p (rw q (label_eq_refl l))

abbrev pub NoPending : ℕ → Label → Type 0
NoPending v l = ⊥

module _ (graph : Graph) (minimum source target : ℕ) where
  abbrev pub Valid : List Entry → Best → Type 0
  Valid heap best = IsValid graph minimum source target NoPending heap best

  abbrev pub Front : List Entry → Label → Type 0
  Front heap m = (y : Entry) × In y heap × LabelLe y.label m

  -- Along a walk, each node has the walk's label or an earlier one, or some entry of the heap has.
  pub frontier :
      (heap : List Entry) (best : Best) {p : List ℕ} {v d h : ℕ} {b : Option ℕ}
      → Valid heap best
      → Walk graph minimum source p v d h b
      → Reached best v (label_of p d h) ⊎ Front heap (label_of p d h)
  frontier heap best i (start p v d h _) = inl (rw (p, v, d, h) i.begun)
  frontier heap best i (extend {p} {q} {v = n} {w} {d} {c} {h} {k} wk e ie u q' t c' k' _) =
      further (frontier heap best i wk)
    where
      old : Label
      old = label_of p d h

      longer : extend_label old e ≡ label_of q c k
      longer = λ i. label_of (sym q' i) (sym c' i) (sym k' i)

      after : (l : Label) → LabelLe l old → LabelLe l (label_of q c k)
      after l j =
          subst (LabelLe l) longer
            (LabelLe-trans l old (extend_label old e) j (LabelLe-extend_label old e))

      by_label :
          (l : Label)
          → best n ≡ some l
          → LabelLe l old
          → Waits l heap ⊎ ((n ≢ target) × Settled graph minimum best n l) ⊎ NoPending n l
          → Reached best w (label_of q c k) ⊎ Front heap (label_of q c k)
      by_label l f j (inl (y, iy, z)) =
          inr (y, iy, subst (λ m. LabelLe m (label_of q c k)) (sym z) (after l j))
      by_label l f j (inr (inr bad)) = absurd bad
      by_label l f j (inr (inl (ne, done))) = elim (Bool-cases (elem e.neighbor l.path)) [
        | inl on ↦ inl (
            subst (λ w. Reached best w (label_of q c k)) (sym t)
              (Reached-LabelLe best e.neighbor l (label_of q c k) (after l j)
                (i.passed n l e.neighbor f on)))
        | inr off ↦ inl (
            subst (λ w. Reached best w (label_of q c k)) (sym t)
              (Reached-LabelLe best e.neighbor (extend_label l e) (label_of q c k)
                (subst (LabelLe (extend_label l e)) longer
                  (extend_label_mono l old e (i.sized n l f) (walk-IsSized wk) j))
                (done e ie (unfold is_usable in ground arith))))
      ]

      further :
          Reached best n old ⊎ Front heap old
          → Reached best w (label_of q c k) ⊎ Front heap (label_of q c k)
      further (inr (y, iy, j)) = inr (y, iy, after y.label j)
      further (inl (l, f, j)) = by_label l f j (i.tried n l f)

  -- An entry that is no longer its node's label can be dropped.
  pub stale-IsValid :
      (x : Entry) (heap : List Entry) (best : Best)
      → is_current x (best (node_of x)) ≡ false
      → Valid (x ∷ heap) best
      → Valid heap best
  stale-IsValid x heap best old i = record {
    routes = λ y j. i.routes y (there j);
    ordered = i.ordered.1;
    begun = i.begun;
    ends = i.ends;
    sized = i.sized;
    passed = i.passed;
    tried = λ v l h. kept v l h (i.tried v l h);
  }
    where
      not_it : (v : ℕ) (l : Label) → best v ≡ some l → x.label ≡ l → ⊥
      not_it v l h q =
          let at : node_of x ≡ v = ap (λ (m : Label). last 0 m.path) q ∙ i.ends v l h in
          cc (≡-is_current x (best (node_of x)) l (ap best at ∙ h) q)

      kept :
          (v : ℕ) (l : Label)
          → best v ≡ some l
          → Waits l (x ∷ heap) ⊎ ((v ≢ target) × Settled graph minimum best v l) ⊎ NoPending v l
          → Waits l heap ⊎ ((v ≢ target) × Settled graph minimum best v l) ⊎ NoPending v l
      kept v l h (inr other) = inr other
      kept v l h (inl (y, there j, q)) = inl (y, j, q)
      kept v l h (inl (y, here p, q)) =
          absurd (not_it v l h (ap (λ (z : Entry). z.label) (sym p) ∙ q))

  -- A current entry that is expanded: its label is settled after the loop over its edges.
  abbrev At : Entry → ℕ → Label → Type 0
  At x v l = (v ≡ node_of x) × (l ≡ x.label)

  popped-IsValid :
      (x : Entry) (heap : List Entry) (best : Best)
      → Valid (x ∷ heap) best
      → IsValid graph minimum source target (At x) heap best
  popped-IsValid x heap best i = record {
    routes = λ y j. i.routes y (there j);
    ordered = i.ordered.1;
    begun = i.begun;
    ends = i.ends;
    sized = i.sized;
    passed = i.passed;
    tried = λ v l h. kept v l h (i.tried v l h);
  }
    where
      kept :
          (v : ℕ) (l : Label)
          → best v ≡ some l
          → Waits l (x ∷ heap) ⊎ ((v ≢ target) × Settled graph minimum best v l) ⊎ NoPending v l
          → Waits l heap ⊎ ((v ≢ target) × Settled graph minimum best v l) ⊎ At x v l
      kept v l h (inr (inl done)) = inr (inl done)
      kept v l h (inr (inr bad)) = absurd bad
      kept v l h (inl (y, there j, q)) = inl (y, j, q)
      kept v l h (inl (y, here p, q)) =
          let same : l ≡ x.label = sym q ∙ ap (λ (z : Entry). z.label) p in
          inr (inr (sym (i.ends v l h) ∙ ap (λ (m : Label). last 0 m.path) same, same))

  pub expanded-IsValid :
      (x : Entry) (heap : List Entry) (best : Best)
      → is_current x (best (node_of x)) ≡ true
      → node_of x ≢ target
      → Valid (x ∷ heap) best
      → let next = relax minimum x (get_or graph (node_of x) []) heap best in Valid next.0 next.1
  expanded-IsValid x heap best now ne i =
      let cover : (w : ℕ) → elem w x.label.path ≡ true → Reached best w x.label =
        λ w j. i.passed (node_of x) x.label w (is_current-≡ x (best (node_of x)) now) j in
      let (v, up, got) =
        relax-IsValid graph minimum source target (At x) x (i.routes x (here refl))
          (get_or graph (node_of x) []) heap best (λ e j. j) cover (popped-IsValid x heap best i) in
      record {
        routes = v.routes;
        ordered = v.ordered;
        begun = v.begun;
        ends = v.ends;
        sized = v.sized;
        passed = v.passed;
        tried = λ n l h. kept n l got (v.tried n l h);
      }
    where
      next : List Entry × Best
      next = relax minimum x (get_or graph (node_of x) []) heap best

      kept :
          (n : ℕ) (l : Label)
          → ((e : Edge)
              → In e (get_or graph (node_of x) [])
              → is_usable minimum x.label.path e ≡ true
              → Reached next.1 e.neighbor (extend_label x.label e))
          → Waits l next.0 ⊎ ((n ≢ target) × Settled graph minimum next.1 n l) ⊎ At x n l
          → Waits l next.0 ⊎ ((n ≢ target) × Settled graph minimum next.1 n l) ⊎ NoPending n l
      kept n l got (inl w) = inl w
      kept n l got (inr (inl s)) = inr (inl s)
      kept n l got (inr (inr (p, q))) = inr (
          inl (
            λ e. ne (sym p ∙ e),
            subst (λ n. Settled graph minimum next.1 n l) (sym p)
                (subst (λ l. Settled graph minimum next.1 (node_of x) l) (sym q) got),
          ))
