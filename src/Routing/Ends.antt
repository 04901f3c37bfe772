-- ===== src/Routing/Ends.antt =====
-- engine/routing.py: `route_breakpoints` has the ends of the passes and segments, and no other instants
-- than those and the grid's.
use openleo.Prelude.{
  Sorted, ℕ, ◌==◌, ◌≤◌, ◌<◌, ◌≡◌, refl, subst, ltb, leb, ◌⊎◌, inl, inr, Bool-cases, none, some,
  List, [], ◌∷◌, ◌++◌, In, here, there, In-append_left, In-append_right, arith, Option-cases,
  if_split,
}
use openleo.Statistics.{PairResult}
use openleo.Timegrid.{unique}
use openleo.Acm.Schedule.{add_cut}
use openleo.Timegrid.Spacing.{unique-Sorted, unique-Keeps}
use openleo.Routing.Breakpoints.{pair_times, up_to, route_breakpoints, up_to-Sorted, In-up_to}
use openleo.Routing.PairEnds.{
  IsPairEnd, In-append, IsRefused, AreAccepted, TimesOf, pair_times-TimesOf,
}

In-add_cut_or : (x t : ℕ) (l : List ℕ) → In x (add_cut t l) → (x ≡ t) ⊎ In x l
In-add_cut_or x t [] = λ i. elim i [ here e ↦ inl e | there j ↦ inr j ]
In-add_cut_or x t (y ∷ l) =
    let P : List ℕ → Type 0 = λ r. In x r → (x ≡ t) ⊎ In x (y ∷ l) in
    if_split P (ltb t y) (λ _ i. elim i [ here e ↦ inl e | there j ↦ inr j ])
      (λ _.
        if_split P (t == y) (λ _ i. inr i)
          (λ _ i. elim i [
            | here e ↦ inr (here e)
            | there j ↦ elim (In-add_cut_or x t l j) [ inl e ↦ inl e | inr k ↦ inr (there k) ]
          ]))

unique-In : (x : ℕ) (l : List ℕ) → In x (unique l) → In x l
unique-In x [] i = i
unique-In x (y ∷ l) i = elim (In-add_cut_or x y (unique l) i) [
  | inl e ↦ here e
  | inr j ↦ there (unique-In x l j)
]

up_to-In : (x window : ℕ) (l : List ℕ) → In x (up_to window l) → In x l
up_to-In x window [] = λ i. i
up_to-In x window (y ∷ l) =
    if_split (λ r. In x r → In x (y ∷ l)) (leb y window)
      (λ _ i. elim i [ here e ↦ here e | there j ↦ there (up_to-In x window l j) ])
      (λ _ i. there (up_to-In x window l i))

up_to-le : (x window : ℕ) (l : List ℕ) → In x (up_to window l) → x ≤ window
up_to-le x window [] = λ i. elim i [ ]
up_to-le x window (y ∷ l) =
    if_split (λ r. In x r → x ≤ window) (leb y window)
      (λ k i. elim i [ here e ↦ ground arith | there j ↦ up_to-le x window l j ])
      (λ _ i. up_to-le x window l i)

-- The breakpoints increase, and are the instants of the window that the grid has or that are an end
-- of a pass or a segment of the stations' pairs.
abbrev pub AreEnds : List ℕ → List PairResult → List ℕ → ℕ → List ℕ → Type 0
AreEnds grid pairs stations window l =
    Sorted l
    × ((x : ℕ) → In x l → (x ≤ window) × (In x grid ⊎ IsPairEnd stations pairs x))
    × ((x : ℕ) → x ≤ window → In x grid ⊎ IsPairEnd stations pairs x → In x l)

breakpoints-AreEnds :
    (grid times : List ℕ) (pairs : List PairResult) (stations : List ℕ) (window : ℕ)
    → TimesOf stations pairs (some times)
    → AreEnds grid pairs stations window (up_to window (unique (grid ++ times)))
breakpoints-AreEnds grid times pairs stations window (_, sound, complete) =
    let all : List ℕ = unique (grid ++ times) in
    (
      up_to-Sorted window all (unique-Sorted (grid ++ times)),
      λ x i. (
        up_to-le x window all i,
        elim (In-append x grid times (unique-In x (grid ++ times) (up_to-In x window all i))) [
          | inl j ↦ inl j
          | inr j ↦ inr (sound x j)
        ],
      ),
      λ x k d. In-up_to x window all k (
          unique-Keeps (grid ++ times) x (elim d [
            | inl j ↦ In-append_left x grid times j
            | inr e ↦ In-append_right x grid times (complete x e)
          ])),
    )

-- `route_breakpoints` raises exactly if the window is empty or the intervals of a pair whose station
-- is given are refused. Else the breakpoints increase strictly, and an instant is one of them exactly
-- if it lies in the window and is a point of the grid, or the start or the end of a pass or of a rate
-- segment of a pair whose station is given.
pub route_breakpoints-AreEnds :
    (grid : List ℕ) (pairs : List PairResult) (stations : List ℕ) (window : ℕ)
    → (((window ≡ 0) ⊎ IsRefused stations pairs)
        × (route_breakpoints grid pairs stations window ≡ none))
      ⊎ ((breakpoints : List ℕ) × (0 < window)
          × AreAccepted stations pairs
          × (route_breakpoints grid pairs stations window ≡ some breakpoints)
          × AreEnds grid pairs stations window breakpoints)
unfolding route_breakpoints
route_breakpoints-AreEnds grid pairs stations window =
    let times_of = pair_times-TimesOf stations pairs in
    elim (Bool-cases (ltb 0 window)) [
      | inr e ↦ inl (inl (ground arith), rw e refl)
      | inl e ↦ elim (Option-cases (pair_times stations pairs)) [
        | inl f ↦ inl (inr (subst (TimesOf stations pairs) f times_of), rw (e, f) refl)
        | inr (times, f) ↦
            let known = subst (TimesOf stations pairs) f times_of in
            inr (
              up_to window (unique (grid ++ times)),
              ground arith,
              known.0,
              rw (e, f) refl,
              breakpoints-AreEnds grid times pairs stations window known,
            )
      ]
    ]
