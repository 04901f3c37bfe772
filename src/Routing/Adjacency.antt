-- ===== src/Routing/Adjacency.antt =====
-- engine/routing.py: the graph that `_adjacency` makes has an edge for each end of each link that has
-- a capacity, and no others.
use openleo.Prelude.{
  Bool, false, In-append_left, In-append_right, ◌↔◌, ℕ, zero, suc, ◌<◌, ◌≡◌, refl, sym, subst, ap,
  ◌∙◌, ltb, if_split, true, ◌⊎◌, inl, inr, some, List, [], ◌∷◌, ◌++◌, length, length-replicate,
  replicate, get_or, In, here, there, Bool-cases, if_some, arith,
}
use openleo.Routing.{Graph, Edge}
use openleo.Routing.Bound.{IsClosed}
use openleo.Routing.Build.{Link, half, add_edge, add_links, are_nodes, adjacency}

In-append_one : (e h : Edge) (l : List Edge) → In e (l ++ h ∷ []) → In e l ⊎ (e ≡ h)
In-append_one e h [] (here p) = inr p
In-append_one e h [] (there i) = elim i [ ]
In-append_one e h (x ∷ l) (here p) = inl (here p)
In-append_one e h (x ∷ l) (there i) = elim (In-append_one e h l i) [
  | inl j ↦ inl (there j)
  | inr p ↦ inr p
]

length-add_edge : (g : Graph) (node : ℕ) (h : Edge) → length (add_edge g node h) ≡ length g
length-add_edge [] node h = refl
length-add_edge (x ∷ g) zero h = refl
length-add_edge (x ∷ g) (suc node) h = ap suc (length-add_edge g node h)

-- The edges of a node are those it had, and the one that is added to it.
In-add_edge :
    (g : Graph) (node : ℕ) (h e : Edge) (v : ℕ)
    → In e (get_or (add_edge g node h) v [])
    → In e (get_or g v []) ⊎ ((v ≡ node) × (e ≡ h))
In-add_edge [] node h e v i = inl i
In-add_edge (x ∷ g) zero h e zero i = elim (In-append_one e h x i) [
  | inl j ↦ inl j
  | inr p ↦ inr (refl, p)
]
In-add_edge (x ∷ g) zero h e (suc v) i = inl i
In-add_edge (x ∷ g) (suc node) h e zero i = inl i
In-add_edge (x ∷ g) (suc node) h e (suc v) i = elim (In-add_edge g node h e v i) [
  | inl j ↦ inl j
  | inr (p, q) ↦ inr (ap suc p, q)
]

-- A graph of `n` nodes whose edges lead to them.
abbrev ClosedBelow : ℕ → Graph → Type 0
ClosedBelow n g = (length g ≡ n) × ((v : ℕ) (e : Edge) → In e (get_or g v []) → e.neighbor < n)

add_edge-ClosedBelow :
    (n : ℕ) (g : Graph) (node : ℕ) (h : Edge)
    → h.neighbor < n
    → ClosedBelow n g
    → ClosedBelow n (add_edge g node h)
add_edge-ClosedBelow n g node h k c = (
  length-add_edge g node h ∙ c.0,
  λ v e i. elim (In-add_edge g node h e v i) [
    | inl j ↦ c.1 v e j
    | inr (_, p) ↦ subst (λ (e : Edge). e.neighbor < n) (sym p) k
  ],
)

add_links-ClosedBelow :
    (n : ℕ) (g : Graph) (links : List Link)
    → are_nodes n links ≡ true
    → ClosedBelow n g
    → ClosedBelow n (add_links g links)
add_links-ClosedBelow n g [] h c = c
add_links-ClosedBelow n g (l ∷ links) h c = elim (Bool-cases (ltb 0 l.capacity)) [
  | inr closed ↦ rw closed (add_links-ClosedBelow n g links (ground arith) c)
  | inl used ↦ rw used (
      add_links-ClosedBelow n _ links (ground arith) (
        add_edge-ClosedBelow n (add_edge g l.first (half l.second l)) l.second (half l.first l)
          (ground arith) (add_edge-ClosedBelow n g l.first (half l.second l) (ground arith) c)))
]

no_edges : (n v : ℕ) (e : Edge) → In e (get_or (replicate n []) v []) → ⊥
no_edges zero v e i = elim i [ ]
no_edges (suc n) zero e i = elim i [ ]
no_edges (suc n) (suc v) e i = no_edges n v e i

-- An end of the link, with the edge to the other one.
abbrev pub IsEnd : Link → ℕ → Edge → Type 0
IsEnd l v e = ((v ≡ l.first) × (e ≡ half l.second l)) ⊎ ((v ≡ l.second) × (e ≡ half l.first l))

-- The edge comes from a link that has a capacity.
abbrev pub Joined : List Link → ℕ → Edge → Type 0
Joined links v e = (l : Link) × In l links × (ltb 0 l.capacity ≡ true) × IsEnd l v e

-- The nodes, and the links at each of them.
abbrev pub IsGraphOf : ℕ → List Link → Graph → Type 0
IsGraphOf n links graph =
    (length graph ≡ n) × ((v : ℕ) (e : Edge) → In e (get_or graph v []) ↔ Joined links v e)

add_edge-In :
    (g : Graph) (node : ℕ) (h e : Edge) (v : ℕ)
    → In e (get_or g v [])
    → In e (get_or (add_edge g node h) v [])
add_edge-In [] node h e v i = i
add_edge-In (x ∷ g) zero h e zero i = In-append_left e x (h ∷ []) i
add_edge-In (x ∷ g) zero h e (suc v) i = i
add_edge-In (x ∷ g) (suc node) h e zero i = i
add_edge-In (x ∷ g) (suc node) h e (suc v) i = add_edge-In g node h e v i

add_edge-In_self :
    (g : Graph) (node : ℕ) (h : Edge) → node < length g → In h (get_or (add_edge g node h) node [])
add_edge-In_self [] node h k = absurd (omega (arith, k))
add_edge-In_self (x ∷ g) zero h k = In-append_right h x (h ∷ []) (here refl)
add_edge-In_self (x ∷ g) (suc node) h k = add_edge-In_self g node h (omega (arith, k))

add_links-In :
    (g : Graph) (links : List Link) (v : ℕ) (e : Edge)
    → In e (get_or g v [])
    → In e (get_or (add_links g links) v [])
add_links-In g [] v e i = i
add_links-In g (l ∷ links) v e i =
    if_split (λ (r : Graph). In e (get_or r v [])) (ltb 0 l.capacity)
      (λ _. add_links-In _ links v e (
        add_edge-In (add_edge g l.first (half l.second l)) l.second (half l.first l) e v
          (add_edge-In g l.first (half l.second l) e v i)))
      (λ _. add_links-In g links v e i)

pub adjacency-IsClosed :
    (n : ℕ) (links : List Link) (g : Graph)
    → adjacency n links ≡ some g
    → (length g ≡ n) × IsClosed g
unfolding adjacency
adjacency-IsClosed n links g h =
    let (nodes, e) = if_some (are_nodes n links) h in
    let closed = subst (ClosedBelow n) e (
      add_links-ClosedBelow n (replicate n []) links nodes
        (length-replicate n [], λ v x i. absurd (no_edges n v x i))) in
    (closed.0, λ v x i. subst (λ k. x.neighbor < k) (sym closed.0) (closed.1 v x i))

abbrev with_link : Graph → Link → Graph
with_link g l = add_edge (add_edge g l.first (half l.second l)) l.second (half l.first l)

In-with_link :
    (g : Graph) (l : Link) (v : ℕ) (e : Edge)
    → In e (get_or (with_link g l) v [])
    → In e (get_or g v []) ⊎ IsEnd l v e
In-with_link g l v e i =
    elim (In-add_edge (add_edge g l.first (half l.second l)) l.second (half l.first l) e v i) [
      | inr p ↦ inr (inr p)
      | inl j ↦ elim (In-add_edge g l.first (half l.second l) e v j) [
        | inr p ↦ inr (inl p)
        | inl k ↦ inl k
      ]
    ]

with_link-In :
    (g : Graph) (l : Link) (v : ℕ) (e : Edge)
    → l.first < length g
    → l.second < length g
    → IsEnd l v e
    → In e (get_or (with_link g l) v [])
with_link-In g l v e h k (inl (p, q)) =
    add_edge-In (add_edge g l.first (half l.second l)) l.second (half l.first l) e v
      (rw (p, q) (add_edge-In_self g l.first (half l.second l) h))
with_link-In g l v e h k (inr (p, q)) =
    rw (p, q)
      (add_edge-In_self (add_edge g l.first (half l.second l)) l.second (half l.first l)
        (subst (λ n. l.second < n) (sym (length-add_edge g l.first (half l.second l))) k))

length-with_link : (g : Graph) (l : Link) → length (with_link g l) ≡ length g
length-with_link g l =
    length-add_edge (add_edge g l.first (half l.second l)) l.second (half l.first l)
    ∙ length-add_edge g l.first (half l.second l)

-- Every edge is one that was there, or comes from a link.
add_links-Joined :
    (g : Graph) (links : List Link) (v : ℕ) (e : Edge)
    → In e (get_or (add_links g links) v [])
    → In e (get_or g v []) ⊎ Joined links v e
add_links-Joined g [] v e = λ i. inl i
add_links-Joined g (l ∷ links) v e =
    if_split (λ (r : Graph). In e (get_or r v []) → In e (get_or g v []) ⊎ Joined (l ∷ links) v e)
      (ltb 0 l.capacity)
      (λ used i. elim (add_links-Joined (with_link g l) links v e i) [
        | inr (k, j, u, ends) ↦ inr (k, there j, u, ends)
        | inl j ↦ elim (In-with_link g l v e j) [
          | inl k ↦ inl k
          | inr ends ↦ inr (l, here refl, used, ends)
        ]
      ])
      (λ _ i. elim (add_links-Joined g links v e i) [
        | inl k ↦ inl k
        | inr (k, j, u, ends) ↦ inr (k, there j, u, ends)
      ])

-- Both ends of each link are there.
Joined-add_links :
    (g : Graph) (links : List Link) (v : ℕ) (e : Edge)
    → are_nodes (length g) links ≡ true
    → Joined links v e
    → In e (get_or (add_links g links) v [])
Joined-add_links g [] v e h (l, i, used, ends) = elim i [ ]
Joined-add_links g (x ∷ links) v e h (l, there i, used, ends) =
    if_split (λ (r : Graph). In e (get_or r v [])) (ltb 0 x.capacity)
      (λ _.
        Joined-add_links (with_link g x) links v e
          (subst (λ n. are_nodes n links ≡ true) (sym (length-with_link g x)) (ground (arith, h)))
          (l, i, used, ends))
      (λ _. Joined-add_links g links v e (ground (arith, h)) (l, i, used, ends))
Joined-add_links g (x ∷ links) v e h (l, here p, used, ends) =
    if_split (λ (r : Graph). In e (get_or r v [])) (ltb 0 x.capacity)
      (λ has. add_links-In (with_link g x) links v e (
        with_link-In g x v e (ground (arith, h, has)) (ground (arith, h, has))
          (subst (λ l. IsEnd l v e) p ends)))
      (λ no.
        absurd
          (not_both (ltb 0 x.capacity) (subst (λ (l : Link). ltb 0 l.capacity ≡ true) p used) no))
  where
    not_both : (b : Bool) → b ≡ true → b ≡ false → ⊥
    not_both b m n = cc

pub adjacency-IsGraphOf :
    (n : ℕ) (links : List Link) (g : Graph) → adjacency n links ≡ some g → IsGraphOf n links g
unfolding adjacency
adjacency-IsGraphOf n links g h =
    let (nodes, made) = if_some (are_nodes n links) h in
    let size = length-replicate n [] in
    (
      (adjacency-IsClosed n links g h).0,
      λ v e. (
        λ i.
            elim (add_links-Joined (replicate n []) links v e
              (subst (λ (g : Graph). In e (get_or g v [])) (sym made) i)) [
                | inl j ↦ absurd (no_edges n v e j)
                | inr j ↦ j
              ],
        λ j.
            subst (λ (g : Graph). In e (get_or g v [])) made
              (Joined-add_links (replicate n []) links v e
                (subst (λ k. are_nodes k links ≡ true) (sym size) nodes) j),
      ),
    )
