-- ===== src/Routing/Invariant.antt =====
-- engine/routing.py: what holds between two rounds of `shortest_path`.
use openleo.Prelude.{
  suc, sym, subst, some_injective, length, length-append, ℕ, ◌≡◌, ◌≢◌, ◌⊎◌, inl, inr, refl, ap, ◌∙◌,
  ◌==◌, if_split, true, false, Bool-cases, Option-cases, Option, none, some, List, [], ◌∷◌, get_or,
  elem, last, In, here, there, arith,
}
use openleo.Routing.{
  Graph, Edge, Label, Entry, start_label, extend_label, label_lt, heappush, Best, assign, improves,
  is_usable, node_of,
}
use openleo.Routing.Walks.{Walk, start, extend}
use openleo.Routing.Order.{LabelLe, LabelLe-trans, label_lt-LabelLe, IsSized}

-- The node has the label, or one that comes before it.
abbrev pub Reached : Best → ℕ → Label → Type 0
Reached best v m = (l : Label) × (best v ≡ some l) × LabelLe l m

-- Some entry of the heap has the label.
abbrev pub Waits : Label → List Entry → Type 0
Waits l heap = (x : Entry) × In x heap × (x.label ≡ l)

-- Every edge that continues the label's path has been tried.
abbrev pub Settled : Graph → ℕ → Best → ℕ → Label → Type 0
Settled graph minimum best v l =
    (e : Edge)
    → In e (get_or graph v [])
    → is_usable minimum l.path e ≡ true
    → Reached best e.neighbor (extend_label l e)

abbrev pub Ordered : List Entry → Type 0
Ordered [] = Unit
Ordered (x ∷ heap) = ((y : Entry) → In y heap → LabelLe x.label y.label) × Ordered heap

module _ (graph : Graph) (minimum source target : ℕ) where
  abbrev pub IsRoute : Entry → Type 0
  IsRoute x =
      Walk graph minimum source x.label.path (node_of x) x.label.delay x.label.hops x.bottleneck

  -- `Pending v l` is what the round at hand still has to do.
  pub record IsValid (Pending : ℕ → Label → Type 0) (heap : List Entry) (best : Best) : Type 0 where
    pub routes : (x : Entry) → In x heap → IsRoute x
    pub ordered : Ordered heap
    pub begun : Reached best source (start_label source)
    pub ends : (v : ℕ) (l : Label) → best v ≡ some l → last 0 l.path ≡ v
    pub sized : (v : ℕ) (l : Label) → best v ≡ some l → IsSized l
    pub passed :
        (v : ℕ) (l : Label) (w : ℕ) → best v ≡ some l → elem w l.path ≡ true → Reached best w l
    pub tried :
        (v : ℕ) (l : Label)
        → best v ≡ some l
        → Waits l heap ⊎ ((v ≢ target) × Settled graph minimum best v l) ⊎ Pending v l

pub In-heappush :
    (e : Entry) (heap : List Entry) (x : Entry) → In x (heappush e heap) → (x ≡ e) ⊎ In x heap
unfolding heappush
In-heappush e [] x (here p) = inl p
In-heappush e [] x (there i) = inr i
In-heappush e (y ∷ l) x i =
    if_split (λ r. In x r → (x ≡ e) ⊎ In x (y ∷ l)) (label_lt y.label e.label)
      (λ _. deeper (In-heappush e l x)) (λ _. at_head) i
  where
    at_head : In x (e ∷ y ∷ l) → (x ≡ e) ⊎ In x (y ∷ l)
    at_head (here p) = inl p
    at_head (there j) = inr j

    behind : (x ≡ e) ⊎ In x l → (x ≡ e) ⊎ In x (y ∷ l)
    behind (inl p) = inl p
    behind (inr j) = inr (there j)

    deeper :
        (In x (heappush e l) → (x ≡ e) ⊎ In x l) → In x (y ∷ heappush e l) → (x ≡ e) ⊎ In x (y ∷ l)
    deeper ih (here p) = inr (here p)
    deeper ih (there j) = behind (ih j)

pub heappush-In_self : (e : Entry) (heap : List Entry) → In e (heappush e heap)
unfolding heappush
heappush-In_self e [] = here refl
heappush-In_self e (y ∷ l) =
    if_split (In e) (label_lt y.label e.label) (λ _. there (heappush-In_self e l)) (λ _. here refl)

pub heappush-In : (e : Entry) (heap : List Entry) (x : Entry) → In x heap → In x (heappush e heap)
unfolding heappush
heappush-In e [] x i = elim i [ ]
heappush-In e (y ∷ l) x (here p) =
    if_split (In x) (label_lt y.label e.label) (λ _. here p) (λ _. there (here p))
heappush-In e (y ∷ l) x (there i) =
    if_split (In x) (label_lt y.label e.label) (λ _. there (heappush-In e l x i))
      (λ _. there (there i))

pub heappush-Ordered : (e : Entry) (heap : List Entry) → Ordered heap → Ordered (heappush e heap)
unfolding heappush
heappush-Ordered e [] o = (λ y i. elim i [ ], tt)
heappush-Ordered e (y ∷ l) o =
    if_split Ordered (label_lt y.label e.label)
      (λ lt. (
        λ x i. y_first (label_lt-LabelLe y.label e.label lt) x (In-heappush e l x i),
        heappush-Ordered e l o.1,
      ))
      (λ ge. (λ x i. e_first ge x i, o))
  where
    y_first : LabelLe y.label e.label → (x : Entry) → (x ≡ e) ⊎ In x l → LabelLe y.label x.label
    y_first k x (inl p) = rw p k
    y_first k x (inr i) = o.0 x i

    e_first : LabelLe e.label y.label → (x : Entry) → In x (y ∷ l) → LabelLe e.label x.label
    e_first k x (here p) = rw p k
    e_first k x (there i) = LabelLe-trans e.label y.label x.label k (o.0 x i)

-- A better label for a node: no node gets a later label.
abbrev pub Improves : Best → Best → Type 0
Improves old new = (v : ℕ) (m : Label) → Reached old v m → Reached new v m

improves-LabelLe :
    (c : Label) (old : Option Label) (l : Label)
    → improves c old ≡ true
    → old ≡ some l
    → LabelLe c l
unfolding improves
improves-LabelLe c none l h e = cc
improves-LabelLe c (some o) l h e = subst (LabelLe c) (some_injective e) (label_lt-LabelLe c o h)

pub assign-Improves :
    (best : Best) (n : ℕ) (c : Label) → improves c (best n) ≡ true → Improves best (assign best n c)
assign-Improves best n c h v m (l, e, k) = elim (Bool-cases (n == v)) [
  | inr ne ↦ (l, rw ne e, k)
  | inl eq ↦
      let same : n ≡ v = ground arith in
      (c, rw eq refl, LabelLe-trans c l m (improves-LabelLe c (best n) l h (ap best same ∙ e)) k)
]

-- An edge that was not better had that label already, or one that comes before it.
pub not_improves-Reached :
    (c : Label) (best : Best) (n : ℕ) → improves c (best n) ≡ false → Reached best n c
not_improves-Reached c best n h = elim (Option-cases (best n)) [
  | inl e ↦ absurd (never (ap (improves c) (sym e) ∙ h))
  | inr (l, e) ↦ (l, e, kept l (ap (improves c) (sym e) ∙ h))
]
  where
    never : improves c none ≡ false → ⊥
    never k = unfold improves in cc

    kept : (l : Label) → improves c (some l) ≡ false → LabelLe l c
    kept l k = unfold improves in k

-- A walk has one node more than hops.
pub walk-IsSized :
    {graph : Graph} {minimum source : ℕ} {p : List ℕ} {v d h : ℕ} {b : Option ℕ}
    → Walk graph minimum source p v d h b
    → length p ≡ suc h
walk-IsSized (start p v d h b) = rw (p, h) refl
walk-IsSized (extend {p = r} wk e ie u q w c k a) =
    let longer = length-append r (e.neighbor ∷ []) in
    let before = walk-IsSized wk in ap length q ∙ omega (arith, longer, before, k)
