-- ===== src/Routing/Widest/Simple.antt =====
-- engine/routing.py: a flow to a node has a simple path of edges that let all of it pass.
use openleo.Prelude.{
  ℕ, ◌+◌, ◌≡◌, inl, inr, refl, sym, subst, ap, ◌∙◌, ltb, Bool-cases, true, false, not, ◌&&◌, ◌||◌,
  Option, none, some, List, [], ◌∷◌, ◌++◌, elem, elem-append, arith,
}
use openleo.Routing.{Graph, Edge, narrower, is_usable}
use openleo.Routing.Walks.{Walk, start, extend}
use openleo.Routing.Widest.{cap_lt}
use openleo.Routing.Widest.Flows.{CapLe, CapLe-trans, narrower-CapLe, Flow, origin, through}

-- The path, delay, hops and bottleneck of some walk to the node.
abbrev pub HasWalk : Graph → ℕ → ℕ → ℕ → Type 0
HasWalk graph minimum source v =
    (p : List ℕ) × (d : ℕ) × (h : ℕ) × (b : Option ℕ) × Walk graph minimum source p v d h b

only_elem : (w x : ℕ) → elem w (x ∷ []) ≡ true → w ≡ x
only_elem w x h = ground (arith, h)

last_elem : (w x : ℕ) (p : List ℕ) → elem w (p ++ x ∷ []) ≡ true → elem w p ≡ false → w ≡ x
last_elem w x p h off =
    only_elem w x (ap (λ b. b || elem w (x ∷ [])) (sym off) ∙ sym (elem-append w p (x ∷ [])) ∙ h)

-- A node on a walk has a walk of its own.
walk-prefix :
    {graph : Graph} {minimum source : ℕ} {p : List ℕ} {v d h : ℕ} {b : Option ℕ} (n : ℕ)
    → Walk graph minimum source p v d h b
    → elem n p ≡ true
    → HasWalk graph minimum source n
walk-prefix {source = source} n (start p v d h b) i =
    let same : n ≡ source = only_elem n source (ap (elem n) (sym p) ∙ i) in
    (source ∷ [], 0, 0, none, start refl same refl refl refl)
walk-prefix n (extend {p} {q} {c = c} {k = k} {a = a} wk e ie u q' x' c' k' a') i =
    elim (Bool-cases (elem n p)) [
      | inl on ↦ walk-prefix n wk on
      | inr off ↦
          let same : n ≡ e.neighbor = last_elem n e.neighbor p (ap (elem n) (sym q') ∙ i) off in
          (q, c, k, a, extend wk e ie u q' same c' k' a')
    ]

lets_pass :
    (minimum c : ℕ) (a : Option ℕ)
    → ltb 0 (narrower a c) ≡ true
    → CapLe (some minimum) (some (narrower a c))
    → (ltb 0 c && not (ltb c minimum)) ≡ true
lets_pass minimum c none h k = ground (arith, h, k)
lets_pass minimum c (some b) h k = ground (arith, h, k)

usable :
    (minimum : ℕ) (p : List ℕ) (e : Edge) (a : Option ℕ)
    → ltb 0 (narrower a e.capacity) ≡ true
    → CapLe (some minimum) (some (narrower a e.capacity))
    → elem e.neighbor p ≡ false
    → is_usable minimum p e ≡ true
unfolding is_usable
usable minimum p e a h k off = let t = lets_pass minimum e.capacity a h k in ground arith

-- If all of `minimum` passes along a flow, some simple path has edges of at least that capacity.
pub flow-HasWalk :
    {graph : Graph} {source : ℕ} {a : Option ℕ} {v : ℕ} (minimum : ℕ)
    → CapLe (some minimum) a
    → Flow graph source a v
    → HasWalk graph minimum source v
flow-HasWalk {source = source} minimum h (origin p q) =
    (source ∷ [], 0, 0, none, start refl q refl refl refl)
flow-HasWalk {graph} {source} minimum h (through {a} {b} {v} {w} f e ie pos p q) =
    let le : CapLe (some minimum) (some (narrower a e.capacity)) =
      subst (CapLe (some minimum)) p h in
    let (path, d, k, c, wk) =
      flow-HasWalk minimum
        (CapLe-trans (some minimum) (some (narrower a e.capacity)) a le
          (narrower-CapLe a e.capacity))
        f in
    elim (Bool-cases (elem e.neighbor path)) [
      | inl on ↦ subst (HasWalk graph minimum source) (sym q) (walk-prefix e.neighbor wk on)
      | inr off ↦ (
        path ++ e.neighbor ∷ [],
        d + e.delay,
        k + 1,
        some (narrower c e.capacity),
        extend wk e ie (usable minimum path e a pos le off) refl q refl refl refl,
      )
    ]

usable-pos :
    (minimum : ℕ) (p : List ℕ) (e : Edge) → is_usable minimum p e ≡ true → ltb 0 e.capacity ≡ true
unfolding is_usable
usable-pos minimum p e h = ground arith

-- Some capacity is left.
abbrev Positive : Option ℕ → Type 0
Positive b = cap_lt (some 0) b ≡ true

narrower-Positive :
    (b : Option ℕ) (c : ℕ) → Positive b → ltb 0 c ≡ true → Positive (some (narrower b c))
narrower-Positive none c h k = k
narrower-Positive (some b) c h k = ground (arith, h, k)

walk-Positive :
    {graph : Graph} {minimum source : ℕ} {p : List ℕ} {v d h : ℕ} {b : Option ℕ}
    → Walk graph minimum source p v d h b
    → Positive b
walk-Positive (start p v d h b) = subst Positive (sym b) refl
walk-Positive {minimum = minimum} (extend {p} {b = b} wk e ie u q t s k a) =
    subst Positive (sym a)
      (narrower-Positive b e.capacity (walk-Positive wk) (usable-pos minimum p e u))

-- A walk is a flow of its bottleneck.
pub walk-Flow :
    {graph : Graph} {minimum source : ℕ} {p : List ℕ} {v d h : ℕ} {b : Option ℕ}
    → Walk graph minimum source p v d h b
    → Flow graph source b v
walk-Flow (start _ q _ _ r) = origin r q
walk-Flow {minimum = minimum} (extend {p} {b = b} wk e ie u q t s k a) =
    through (walk-Flow wk) e ie
      (narrower-Positive b e.capacity (walk-Positive wk) (usable-pos minimum p e u)) a t
