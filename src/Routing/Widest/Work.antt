-- ===== src/Routing/Widest/Work.antt =====
-- engine/routing.py: the rounds of `widest_path` are bounded: a capacity at a node is that of an edge,
-- and only grows.
use native.Mathlib.Nat.{le_trans}
use openleo.Prelude.{
  In-append_left, In-append_right, ℕ, zero, suc, ◌+◌, ◌*◌, ◌≤◌, ◌<◌, ◌≡◌, ◌⊎◌, inl, inr, refl, sym,
  subst, ap, ◌∙◌, ltb, ◌==◌, Bool-cases, if◌then◌else◌, if_split, some_injective, true, false, min,
  Option, none, some, List, [], ◌∷◌, ◌++◌, length, length-append, get_or, In, here, there, arith,
}
use openleo.Routing.{Graph, Edge, narrower}
use openleo.Routing.Widest.{
  Wide, wide_lt, push_wide, BestWide, assign_wide, widens, relax_wide_one, relax_wide, edge_count,
}
use openleo.Routing.Widest.Flows.{In-push_wide}

abbrev capacities : List Edge → List ℕ
capacities [] = []
capacities (e ∷ l) = e.capacity ∷ capacities l

abbrev pub all_capacities : Graph → List ℕ
all_capacities [] = []
all_capacities (l ∷ g) = capacities l ++ all_capacities g

In-capacities : (e : Edge) (l : List Edge) → In e l → In e.capacity (capacities l)
In-capacities e [] i = elim i [ ]
In-capacities e (x ∷ l) (here p) = here (ap (λ (z : Edge). z.capacity) p)
In-capacities e (x ∷ l) (there i) = there (In-capacities e l i)

pub In-all_capacities :
    (g : Graph) (v : ℕ) (e : Edge) → In e (get_or g v []) → In e.capacity (all_capacities g)
In-all_capacities [] v e i = elim i [ ]
In-all_capacities (l ∷ g) zero e i =
    In-append_left e.capacity (capacities l) (all_capacities g) (In-capacities e l i)
In-all_capacities (l ∷ g) (suc v) e i =
    In-append_right e.capacity (capacities l) (all_capacities g) (In-all_capacities g v e i)

length-capacities : (l : List Edge) → length (capacities l) ≡ length l
length-capacities [] = refl
length-capacities (e ∷ l) = ap suc (length-capacities l)

pub length-all_capacities : (g : Graph) → length (all_capacities g) ≡ edge_count g
length-all_capacities [] = refl
length-all_capacities (l ∷ g) = omega (
  arith,
  length-append (capacities l) (all_capacities g),
  length-capacities l,
  length-all_capacities g,
)

min_left : (b c : ℕ) → ltb b c ≡ true → min b c ≡ b
min_left b c h = ground (arith, h)

min_right : (b c : ℕ) → ltb b c ≡ false → min b c ≡ c
min_right b c h = ground (arith, h)

module _ (caps : List ℕ) where
  -- A capacity that can stand in the heap.
  abbrev pub Known : Option ℕ → Type 0
  Known a = (a ≡ none) ⊎ ((c : ℕ) × (a ≡ some c) × In c caps)

  pub narrower-Known : (a : Option ℕ) (c : ℕ) → Known a → In c caps → In (narrower a c) caps
  narrower-Known none c k i = i
  narrower-Known (some b) c (inl e) i = absurd (cc e)
  narrower-Known (some b) c (inr (d, e, j)) i = elim (Bool-cases (ltb b c)) [
    | inl l ↦
        subst (λ m. In m caps) (sym (min_left b c l))
          (subst (λ m. In m caps) (sym (some_injective e)) j)
    | inr l ↦ subst (λ m. In m caps) (sym (min_right b c l)) i
  ]

-- How many of the capacities are above that of a node.
abbrev pub above : List ℕ → Option (Option ℕ) → ℕ
above [] o = 0
above (c ∷ caps) o = (if widens (some c) o then 1 else 0) + above caps o

widens_trans :
    (c d : ℕ) (o : Option (Option ℕ))
    → widens (some c) o ≡ true
    → widens (some d) (some (some c)) ≡ true
    → widens (some d) o ≡ true
widens_trans c d none h k = ground (arith, h, k)
widens_trans c d (some none) h k = cc
widens_trans c d (some (some b)) h k = ground (arith, h, k)

not_widens_self : (c : ℕ) → widens (some c) (some (some c)) ≡ false
not_widens_self c = ground arith

above-le :
    (caps : List ℕ) (c : ℕ) (o : Option (Option ℕ))
    → widens (some c) o ≡ true
    → above caps (some (some c)) ≤ above caps o
above-le [] c o h = omega arith
above-le (d ∷ caps) c o h =
    let ih = above-le caps c o h in
    elim (Bool-cases (widens (some d) (some (some c)))) [
      | inl e ↦ rw (e, widens_trans c d o h e) (omega (arith, ih))
      | inr e ↦ rw e (omega (arith, ih))
    ]

above-lt :
    (caps : List ℕ) (c : ℕ) (o : Option (Option ℕ))
    → widens (some c) o ≡ true
    → In c caps
    → above caps (some (some c)) < above caps o
above-lt [] c o h i = elim i [ ]
above-lt (d ∷ caps) c o h (here p) =
    let le = above-le caps c o h in
    subst (λ d. above (d ∷ caps) (some (some c)) < above (d ∷ caps) o) p
      (rw (not_widens_self c, h) (omega (arith, le)))
above-lt (d ∷ caps) c o h (there i) =
    let ih = above-lt caps c o h i in
    elim (Bool-cases (widens (some d) (some (some c)))) [
      | inl e ↦ rw (e, widens_trans c d o h e) (omega (arith, ih))
      | inr e ↦ rw e (omega (arith, ih))
    ]

above-length : (caps : List ℕ) (o : Option (Option ℕ)) → above caps o ≤ length caps
above-length [] o = omega arith
above-length (c ∷ caps) o =
    let ih = above-length caps o in
    if_split (λ k. k + above caps o ≤ length (c ∷ caps)) (widens (some c) o)
      (λ _. omega (arith, ih)) (λ _. omega (arith, ih))

-- How often the nodes below `n` can still get a larger capacity.
unfoldable pub room : List ℕ → ℕ → BestWide → ℕ
room caps zero best = 0
room caps (suc n) best = above caps (best n) + room caps n best

pub room-le : (caps : List ℕ) (n : ℕ) (best : BestWide) → room caps n best ≤ n * length caps
unfolding room
room-le caps zero best = omega arith
room-le caps (suc n) best =
    let ih = room-le caps n best in let one = above-length caps (best n) in omega (arith, ih, one)

room-before :
    (caps : List ℕ) (n w : ℕ) (best : BestWide) (c : Option ℕ)
    → n ≤ w
    → room caps n (assign_wide best w c) ≡ room caps n best
unfolding room
room-before caps zero w best c h = refl
room-before caps (suc n) w best c h =
    let other : (w == n) ≡ false = ground (arith, h) in
    rw (other, room-before caps n w best c (omega (arith, h))) refl

room-assign_wide :
    (caps : List ℕ) (n w : ℕ) (best : BestWide) (c : ℕ)
    → w < n
    → widens (some c) (best w) ≡ true
    → In c caps
    → room caps n (assign_wide best w (some c)) < room caps n best
unfolding room
room-assign_wide caps zero w best c h k i = absurd (omega (arith, h))
room-assign_wide caps (suc n) w best c h k i = elim (Bool-cases (w == n)) [
  | inl e ↦
      let same : w ≡ n = ground (arith, e) in
      let less = above-lt caps c (best w) k i in
      let rest = room-before caps n w best (some c) (omega (arith, same)) in
      (let there_too = subst (λ v. above caps (some (some c)) < above caps (best v)) same less in
        rw e (omega (arith, there_too, rest)))
  | inr e ↦
      let ih = room-assign_wide caps n w best c (ground (arith, e, h)) k i in
      rw e (omega (arith, ih))
]

length-push_wide : (e : Wide) (heap : List Wide) → length (push_wide e heap) ≡ suc (length heap)
unfolding push_wide
length-push_wide e [] = refl
length-push_wide e (y ∷ l) =
    if_split (λ (r : List Wide). length r ≡ suc (suc (length l))) (wide_lt y e)
      (λ _. ap suc (length-push_wide e l)) (λ _. refl)

abbrev pub AllKnown : List ℕ → List Wide → Type 0
AllKnown caps heap = (x : Wide) → In x heap → Known caps x.capacity

module _ (caps : List ℕ) (n : ℕ) where
  -- The entries, and those that can still come.
  abbrev pub work_left : List Wide → BestWide → ℕ
  work_left heap best = length heap + room caps n best

  relax_wide_one-work_left :
      (a : Option ℕ) (e : Edge) (heap : List Wide) (best : BestWide)
      → e.neighbor < n
      → In e.capacity caps
      → Known caps a
      → AllKnown caps heap
      → let next = relax_wide_one (some (narrower a e.capacity)) e heap best in
        (work_left next.0 next.1 ≤ work_left heap best) × AllKnown caps next.0
  unfolding relax_wide_one
  relax_wide_one-work_left a e heap best h i k all =
      let c = narrower a e.capacity in
      let known = narrower-Known caps a e.capacity k i in
      let new : Wide = record { capacity = some c; node = e.neighbor } in
      elim (Bool-cases (widens (some c) (best e.neighbor))) [
        | inr worse ↦ rw worse (omega arith, all)
        | inl better ↦
            (let long = length-push_wide new heap in
              let less = room-assign_wide caps n e.neighbor best c h better known in
              rw better (
                omega (arith, long, less),
                λ x j. known_of new c refl known all x (In-push_wide new heap x j),
              ))
      ]
    where
      known_of :
          (new : Wide) (c : ℕ)
          → new.capacity ≡ some c
          → In c caps
          → AllKnown caps heap
          → (x : Wide) → (x ≡ new) ⊎ In x heap
          → Known caps x.capacity
      known_of new c q i all x (inl p) = inr (c, ap (λ (z : Wide). z.capacity) p ∙ q, i)
      known_of new c q i all x (inr j) = all x j

  pub relax_wide-work_left :
      (a : Option ℕ) (l : List Edge) (heap : List Wide) (best : BestWide)
      → ((e : Edge) → In e l → (e.neighbor < n) × In e.capacity caps)
      → Known caps a
      → AllKnown caps heap
      → let next = relax_wide a l heap best in
        (work_left next.0 next.1 ≤ work_left heap best) × AllKnown caps next.0
  unfolding relax_wide
  relax_wide-work_left a [] heap best h k all = (omega arith, all)
  relax_wide-work_left a (e ∷ l) heap best h k all =
      let next = relax_wide_one (some (narrower a e.capacity)) e heap best in
      let edge = h e (here refl) in
      let one = relax_wide_one-work_left a e heap best edge.0 edge.1 k all in
      let more = relax_wide-work_left a l next.0 next.1 (λ f i. h f (there i)) k one.1 in
      (le_trans more.0 one.0, more.1)
