-- ===== src/Routing/Intervals.antt =====
-- `evaluate_routes` (engine/routing.py): the intervals of a pair and model hold the route that was
-- found at the latest breakpoint.
use openleo.Prelude.{
  Sorted, ℕ, ◌≤◌, ◌<◌, ◌≡◌, refl, sym, subst, ◌∙◌, ltb, leb, if_split, option_split, true, ◌&&◌,
  Bool-cases, inl, inr, Option, none, some, List, [], ◌∷◌, In, here, there, All, last, arith,
}
use openleo.Hold.{
  Held, hold_from, Tiles, Cuts, Differ, value_at, step_value, hold_from-Tiles, hold_from-Differ,
  hold_from-value,
}
use openleo.Statistics.Best.{All-In}
use openleo.Routing.Pop.{path_eq-≡}
use openleo.Routing.Widest.{cap_eq}
use openleo.Routing.Build.{Link, LinkState}
use openleo.Passes.{increasing}
use openleo.Passes.Runs.{increasing-Sorted}
use openleo.Routing.Evaluate.{RouteModel, Network, Route, same_route, route_value, route_values}

cap_eq_sound : (a b : Option ℕ) → cap_eq a b ≡ true → a ≡ b
cap_eq_sound none none h = refl
cap_eq_sound none (some b) h = absurd (ground (arith, h))
cap_eq_sound (some a) none h = absurd (ground (arith, h))
cap_eq_sound (some a) (some b) h = ground arith

same_route_sound : (a b : Option Route) → same_route a b ≡ true → a ≡ b
same_route_sound none none h = refl
same_route_sound none (some b) h = absurd (ground (arith, h))
same_route_sound (some a) none h = absurd (ground (arith, h))
same_route_sound (some a) (some b) h =
    let nodes = path_eq-≡ a.nodes b.nodes (ground arith) in
    let bottleneck = cap_eq_sound a.bottleneck_bps b.bottleneck_bps (ground arith) in
    let delay : a.delay_s ≡ b.delay_s = ground arith in
    λ i. some (record { nodes = nodes i; delay_s = delay i; bottleneck_bps = bottleneck i })

-- The latest breakpoint up to the instant.
abbrev pub IsLatest : List ℕ → ℕ → ℕ → Type 0
IsLatest breakpoints t c = In c breakpoints × (c ≤ t) × ((d : ℕ) → In d breakpoints → d ≤ t → d ≤ c)

IsLatest-head :
    (x y t : ℕ) (l : List ℕ) → x ≤ t → t < y → All (λ z. y < z) l → IsLatest (x ∷ y ∷ l) t x
IsLatest-head x y t l k m s = (
  here refl,
  k,
  λ d i j. elim i [
    | here p ↦ omega arith
    | there i ↦ elim i [
      | here p ↦ omega arith
      | there i ↦ let after = All-In (λ z. y < z) d l s i in omega arith
    ]
  ],
)

IsLatest-tail :
    (x y t c : ℕ) (l : List ℕ)
    → All (λ z. x < z) (y ∷ l)
    → IsLatest (y ∷ l) t c
    → IsLatest (x ∷ y ∷ l) t c
IsLatest-tail x y t c l s h = (
  there h.0,
  h.1,
  λ d i j. elim i [
    | here p ↦ let after = All-In (λ z. x < z) c (y ∷ l) s h.0 in omega arith
    | there i ↦ h.2 d i j
  ],
)

module _ (network : Network) (satellite_count station_count : ℕ) (isl_edges : ℕ → List Link)
    (link_state : ℕ → ℕ → ℕ → Option LinkState) (ends : ℕ × ℕ) (model : RouteModel) where
  -- The route found at the latest breakpoint, as a value that holds at the instant.
  abbrev pub FoundAt : List ℕ → ℕ → Option (Option Route) → Type 0
  FoundAt breakpoints t o =
      (c : ℕ) × (v : Option Route) × IsLatest breakpoints t c
      × (route_value network satellite_count station_count isl_edges link_state ends model c
          ≡ some v)
      × (o ≡ some v)

  abbrev Stepped : ℕ → List ℕ → Option (List (Option Route)) → Type 0
  Stepped x l none = Unit
  Stepped x l (some values) =
      Cuts x (last 0 (x ∷ l)) (x ∷ l) values
      × ((t : ℕ) → x ≤ t → t < last 0 (x ∷ l) → FoundAt (x ∷ l) t (step_value (x ∷ l) values t))

  route_values-Stepped :
      (x : ℕ) (l : List ℕ)
      → Sorted (x ∷ l)
      → Stepped x l (
          route_values network satellite_count station_count isl_edges link_state ends model
            (x ∷ l))
  unfolding route_values
  route_values-Stepped x [] s = ((refl, refl), λ t k m. absurd (omega arith))
  route_values-Stepped x (y ∷ l) s =
      option_split (Stepped x (y ∷ l))
        (route_value network satellite_count station_count isl_edges link_state ends model x)
        (λ _. tt)
        (λ v e.
          option_split (Stepped x (y ∷ l))
            (route_values network satellite_count station_count isl_edges link_state ends model
              (y ∷ l))
            (λ _. tt)
            (λ rest r.
              let ih = subst (Stepped y l) r (route_values-Stepped y l s.1) in
              (
                (refl, s.0.0, ih.0),
                λ t k m. elim (Bool-cases (ltb t y)) [
                  | inl lt ↦ (x, v, IsLatest-head x y t l k (ground arith) s.1.0, e, ground arith)
                  | inr ge ↦
                      let f = ih.1 t (ground arith) m in
                      (
                        f.0,
                        f.1,
                        IsLatest-tail x y t f.0 l s.0 f.2,
                        f.3,
                        if_split (λ w. w ≡ some f.1) (leb x t && ltb t y)
                            (λ h. absurd (ground arith)) (λ _. f.4),
                      )
                ],
              )))

  -- From the first to the last breakpoint the pieces hold, with no gap, no overlap and no empty
  -- piece, at each instant the route found at the latest breakpoint, and neighbours differ.
  abbrev pub HoldsRoutes : List ℕ → List (Held (Option Route)) → Type 0
  HoldsRoutes breakpoints pieces =
      (x : ℕ) × (l : List ℕ) × (breakpoints ≡ x ∷ l)
      × Tiles x (last 0 breakpoints) pieces
      × Differ same_route pieces
      × ((t : ℕ) → x ≤ t → t < last 0 breakpoints → FoundAt breakpoints t (value_at pieces t))

  pub route_values-HoldsRoutes :
      (x : ℕ) (l : List ℕ) (values : List (Option Route))
      → increasing (x ∷ l) ≡ true
      → route_values network satellite_count station_count isl_edges link_state ends model (x ∷ l)
        ≡ some values
      → HoldsRoutes (x ∷ l) (hold_from same_route [] (x ∷ l) values)
  route_values-HoldsRoutes x l values h e =
      let s = subst (Stepped x l) e (route_values-Stepped x l (increasing-Sorted (x ∷ l) h)) in
      (
        x,
        l,
        refl,
        hold_from-Tiles same_route x x _ [] (x ∷ l) values refl s.0,
        hold_from-Differ same_route [] (x ∷ l) values tt,
        λ t k m.
            subst (FoundAt (x ∷ l) t)
              (sym (
                hold_from-value same_route same_route_sound x x _ [] (x ∷ l) values t refl s.0
                ∙ if_split (λ v. v ≡ step_value (x ∷ l) values t) (leb x t && ltb t x)
                    (λ g. absurd (ground arith)) (λ _. refl)))
              (s.1 t k m),
      )
