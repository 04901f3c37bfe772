-- ===== src/Routing/Bound.antt =====
-- engine/routing.py: the rounds of `shortest_path` are bounded by the simple paths it can push.
use openleo.Prelude.{
  ℕ, zero, suc, ◌+◌, ◌*◌, ◌≤◌, ◌<◌, ◌≡◌, refl, if_split, false, not, ◌&&◌, List, [], ◌∷◌, ◌++◌,
  length, get_or, elem, elem-append, In, here, there, arith, count_below, count_below-without,
}
use openleo.Routing.{
  Graph, Edge, Entry, label_lt, heappush, Best, improves, is_usable, extend_label, extend_entry,
  relax_one, relax, work_bound, max_degree,
}

-- Every edge leads to a node of the graph.
abbrev pub IsClosed : Graph → Type 0
IsClosed graph = (v : ℕ) (e : Edge) → In e (get_or graph v []) → e.neighbor < length graph

abbrev pub free : ℕ → List ℕ → ℕ
free n path = count_below n (λ i. not (elem i path))

free-append :
    (n w : ℕ) (path : List ℕ)
    → w < n
    → elem w path ≡ false
    → free n (path ++ w ∷ []) + 1 ≡ free n path
free-append n w path h e =
    let dropped =
      count_below-without n w (λ i. not (elem i path)) (λ i. not (elem i (path ++ w ∷ [])))
        (ground arith) (λ i. ground (arith, elem-append i path (w ∷ []))) in
    ground arith

pub work_bound-pos : (d n : ℕ) → 1 ≤ work_bound d n
work_bound-pos d zero = omega arith
work_bound-pos d (suc n) = omega arith

pub work_bound_mono : (d a b : ℕ) → a ≤ b → work_bound d a ≤ work_bound d b
work_bound_mono d zero b h = work_bound-pos d b
work_bound_mono d (suc a) zero h = absurd (omega arith)
work_bound_mono d (suc a) (suc b) h = grind (arith, work_bound_mono d a b (omega arith))

pub length-le-max_degree : (graph : Graph) (v : ℕ) → length (get_or graph v []) ≤ max_degree graph
length-le-max_degree [] v = omega arith
length-le-max_degree (l ∷ g) zero = omega arith
length-le-max_degree (l ∷ g) (suc v) = omega (arith, length-le-max_degree g v)

module _ (degree n : ℕ) where
  abbrev pub weight : List Entry → ℕ
  weight [] = 0
  weight (x ∷ heap) = work_bound degree (free n x.label.path) + weight heap

  weight-heappush : (x : Entry) (heap : List Entry) → weight (heappush x heap) ≡ weight (x ∷ heap)
  unfolding heappush
  weight-heappush x [] = refl
  weight-heappush x (y ∷ heap) =
      if_split (λ r. weight r ≡ weight (x ∷ y ∷ heap)) (label_lt y.label x.label)
        (λ _. omega (arith, weight-heappush x heap)) (λ _. refl)

  -- What one more edge can add.
  abbrev below_bound : ℕ → ℕ
  below_bound zero = 0
  below_bound (suc f) = work_bound degree f

  below_bound-lt : (a f : ℕ) → a + 1 ≡ f → work_bound degree a ≤ below_bound f
  below_bound-lt a zero h = absurd (omega arith)
  below_bound-lt a (suc f) h = work_bound_mono degree a f (omega arith)

  relax_one-weight :
      (minimum : ℕ) (x : Entry) (e : Edge) (heap : List Entry) (best : Best)
      → e.neighbor < n
      → weight (relax_one minimum x e heap best).0 ≤ weight heap + below_bound (free n x.label.path)
  unfolding relax_one is_usable
  relax_one-weight minimum x e heap best h =
      let Q : List Entry × Best → Type 0 =
        λ r. weight r.0 ≤ weight heap + below_bound (free n x.label.path) in
      if_split Q
        (is_usable minimum x.label.path e && improves (extend_label x.label e) (best e.neighbor))
        (λ u. omega (
          arith,
          weight-heappush (extend_entry x e) heap,
          below_bound-lt (free n (x.label.path ++ e.neighbor ∷ [])) (free n x.label.path)
              (free-append n e.neighbor x.label.path h (ground arith)),
        ))
        (λ _. omega arith)

  relax-weight :
      (minimum : ℕ) (x : Entry) (l : List Edge) (heap : List Entry) (best : Best)
      → ((e : Edge) → In e l → e.neighbor < n)
      → weight (relax minimum x l heap best).0
        ≤ weight heap + length l * below_bound (free n x.label.path)
  unfolding relax
  relax-weight minimum x [] heap best h = omega arith
  relax-weight minimum x (e ∷ l) heap best h =
      let next = relax_one minimum x e heap best in
      let one = relax_one-weight minimum x e heap best (h e (here refl)) in
      let more = relax-weight minimum x l next.0 next.1 (λ f i. h f (there i)) in omega arith

  work_bound-below_bound : (f : ℕ) → work_bound degree f ≡ 1 + degree * below_bound f
  work_bound-below_bound zero = omega arith
  work_bound-below_bound (suc f) = refl

  -- A round that expands an entry lowers the weight of the heap.
  pub relax-weight-lt :
      (minimum : ℕ) (x : Entry) (l : List Edge) (heap : List Entry) (best : Best)
      → ((e : Edge) → In e l → e.neighbor < n)
      → length l ≤ degree
      → weight (relax minimum x l heap best).0 < weight (x ∷ heap)
  relax-weight-lt minimum x l heap best h k =
      let more = relax-weight minimum x l heap best h in
      let whole = work_bound-below_bound (free n x.label.path) in grind arith
