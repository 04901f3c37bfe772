-- ===== src/Acm/Tiling.antt =====
-- engine/acm.py: the segments of `_schedule` tile the pass.
use openleo.Prelude.{
  ℕ, ◌+◌, ◌≤◌, ◌<◌, ◌≡◌, refl, subst, sym, ◌∙◌, min, ltb, ◌==◌, if_split, true, false, ◌&&◌, Option,
  List, [], ◌∷◌, arith, inl, inr, Bool-cases,
}
use native.Mathlib.Decide.{dec_lt}
use openleo.Passes.{Pass}
use openleo.Acm.{Modcod}
use openleo.Acm.Schedule.{
  RateSegment, Decision, Rule, name_of, rate_bps_of, same_name, append_segment, segment,
  segments_of, add_cut, inside, add_switches, add_blackouts, add_reached, switches_of, blackouts_of,
  is_downgrade, cuts_of, schedule,
}

-- The segments follow one another without gap or overlap from `a` to `b`, and none is empty.
abbrev pub Tiles : ℕ → ℕ → List RateSegment → Type 0
Tiles a b [] = a ≡ b
Tiles a b (s ∷ l) = (s.start_s ≡ a) × (a < s.end_s) × Tiles s.end_s b l

-- No segment has the MODCOD and the rate of the one before it.
abbrev pub Differ : List RateSegment → Type 0
Differ [] = Unit
Differ (s ∷ []) = Unit
Differ (s ∷ t ∷ l) =
    ((same_name s.modcod t.modcod && s.rate_bps == t.rate_bps) ≡ false) × Differ (t ∷ l)

-- Each segment has the rate of its MODCOD, and 0 without one.
abbrev pub Rated : Rule → RateSegment → Type 0
Rated rule s = (m : Option Modcod) × (s.modcod ≡ name_of m) × (s.rate_bps ≡ rate_bps_of rule m)

abbrev pub AllRated : Rule → List RateSegment → Type 0
AllRated rule [] = Unit
AllRated rule (s ∷ l) = Rated rule s × AllRated rule l

-- Times that increase from `a` to `b`.
abbrev pub Chain : ℕ → ℕ → List ℕ → Type 0
Chain a b [] = ⊥
Chain a b (x ∷ []) = (x ≡ a) × (x ≡ b)
Chain a b (x ∷ y ∷ l) = (x ≡ a) × (x < y) × Chain y b (y ∷ l)

Tiles-append :
    (a m b : ℕ) (l : List RateSegment) (s : RateSegment)
    → Tiles a m l
    → s.start_s ≡ m
    → s.end_s ≡ b
    → m < b
    → Tiles a b (append_segment l s)
Tiles-append a m b [] s t p q h = ground arith
Tiles-append a m b (x ∷ []) s t p q h =
    if_split (Tiles a b) (same_name x.modcod s.modcod && x.rate_bps == s.rate_bps)
      (λ _. (t.0, omega arith, q)) (λ _. (t.0, t.1, (omega arith, omega arith, q)))
Tiles-append a m b (x ∷ y ∷ l) s t p q h = (t.0, t.1, Tiles-append x.end_s m b (y ∷ l) s t.2 p q h)

Differ-append : (l : List RateSegment) (s : RateSegment) → Differ l → Differ (append_segment l s)
Differ-append [] s d = tt
Differ-append (x ∷ []) s d =
    elim (Bool-cases (same_name x.modcod s.modcod && x.rate_bps == s.rate_bps)) [
      | inl e ↦ rw e tt
      | inr e ↦ rw e (e, tt)
    ]
Differ-append (x ∷ y ∷ []) s d =
    elim (Bool-cases (same_name y.modcod s.modcod && y.rate_bps == s.rate_bps)) [
      | inl e ↦ rw e (d.0, tt)
      | inr e ↦ rw e (d.0, (e, tt))
    ]
Differ-append (x ∷ y ∷ z ∷ l) s d = (d.0, Differ-append (y ∷ z ∷ l) s d.1)

AllRated-append :
    (rule : Rule) (l : List RateSegment) (s : RateSegment)
    → AllRated rule l
    → Rated rule s
    → AllRated rule (append_segment l s)
AllRated-append rule [] s r q = (q, tt)
AllRated-append rule (x ∷ []) s r q =
    if_split (AllRated rule) (same_name x.modcod s.modcod && x.rate_bps == s.rate_bps) (λ _. r)
      (λ _. (r.0, (q, tt)))
AllRated-append rule (x ∷ y ∷ l) s r q = (r.0, AllRated-append rule (y ∷ l) s r.1 q)

segments-Tiles :
    (rule : Rule) (mode : ℕ → Option Modcod) (a m b : ℕ) (acc : List RateSegment) (cuts : List ℕ)
    → Tiles a m acc
    → Differ acc
    → AllRated rule acc
    → Chain m b cuts
    → let l = segments_of rule mode acc cuts in Tiles a b l × Differ l × AllRated rule l
unfolding segments_of
segments-Tiles rule mode a m b acc [] t d r c = absurd c
segments-Tiles rule mode a m b acc (x ∷ []) t d r c =
    (subst (λ n. Tiles a n acc) (sym c.0 ∙ c.1) t, d, r)
segments-Tiles rule mode a m b acc (x ∷ y ∷ l) t d r c =
    let s = segment rule mode x y in
    segments-Tiles rule mode a y b (append_segment acc s) (y ∷ l)
      (Tiles-append a m y acc s t c.0 refl (omega arith)) (Differ-append acc s d)
      (AllRated-append rule acc s r (mode x, refl, refl)) c.2

Chain-cons : (a y b : ℕ) (l : List ℕ) → a < y → Chain y b l → Chain a b (a ∷ l)
Chain-cons a y b [] h c = absurd c
Chain-cons a y b (x ∷ []) h c = (refl, omega arith, (refl, c.1))
Chain-cons a y b (x ∷ z ∷ l) h c = (refl, omega arith, (refl, c.1, c.2))

ltb_self : (x : ℕ) → ltb x x ≡ false
ltb_self x = ground arith

ltb_of_lt : (x y : ℕ) → x < y → ltb x y ≡ true
ltb_of_lt x y h = ground arith

eq_self : (x : ℕ) → (x == x) ≡ true
eq_self x = ground arith

-- A cut inside the chain keeps its ends.
Chain-add :
    (a b t : ℕ) (cuts : List ℕ) → a ≤ t → t ≤ b → Chain a b cuts → Chain a b (add_cut t cuts)
Chain-add a b t [] h k c = absurd c
Chain-add a b t (x ∷ []) h k c = elim (dec_lt x t) [
  | yes lt ↦ absurd (omega arith)
  | no ge ↦ let e : t ≡ x = omega arith in rw (e, ltb_self x, eq_self x) c
]
Chain-add a b t (x ∷ y ∷ l) h k c =
    if_split (Chain a b) (ltb t x) (λ lt. absurd (ground arith))
      (λ _.
        if_split (Chain a b) (t == x) (λ _. c)
          (λ ne. elim (Bool-cases (ltb t y)) [
            | inl lt ↦ rw lt (c.0, ground arith, (refl, ground arith, c.2))
            | inr ge ↦
                subst (λ v. Chain a b (v ∷ add_cut t (y ∷ l))) (sym c.0)
                  (Chain-cons a y b (add_cut t (y ∷ l)) (omega arith)
                    (Chain-add y b t (y ∷ l) (ground arith) k c.2))
          ]))

-- The decisions are made within the pass.
abbrev pub DecidedIn : Pass → List Decision → Type 0
DecidedIn p [] = Unit
DecidedIn p (d ∷ l) = (p.start_s ≤ d.time) × (d.time ≤ p.end_s) × DecidedIn p l

module _ (p : Pass) (delay : ℕ) where
  Chain-switches :
      (decisions : List Decision) (cuts : List ℕ)
      → DecidedIn p decisions
      → Chain p.start_s p.end_s cuts
      → Chain p.start_s p.end_s (add_switches (switches_of p.end_s delay decisions) cuts)
  Chain-switches [] cuts h c = c
  Chain-switches (d ∷ l) cuts h c = elim (Bool-cases (ltb (d.time + delay) p.end_s)) [
    | inl lt ↦ rw lt (
        Chain-add p.start_s p.end_s (d.time + delay) _ (omega arith) (ground arith)
          (Chain-switches l cuts h.2 c))
    | inr ge ↦ rw ge (Chain-switches l cuts h.2 c)
  ]

  Chain-blackouts :
      (decisions : List Decision) (cuts : List ℕ)
      → DecidedIn p decisions
      → Chain p.start_s p.end_s cuts
      → Chain p.start_s p.end_s (add_blackouts (blackouts_of p.end_s delay decisions) cuts)
  Chain-blackouts [] cuts h c = c
  Chain-blackouts (d ∷ l) cuts h c = elim (Bool-cases (is_downgrade d.old d.new && ltb 0 delay)) [
    | inl e ↦ rw e (
        Chain-add p.start_s p.end_s d.time _ h.0 h.1 (
          Chain-add p.start_s p.end_s (min (d.time + delay) p.end_s) _ (omega arith) (omega arith)
            (Chain-blackouts l cuts h.2 c)))
    | inr e ↦ rw e (Chain-blackouts l cuts h.2 c)
  ]

  abbrev AllIn : List (ℕ × ℕ) → Type 0
  AllIn [] = Unit
  AllIn ((a, b) ∷ l) = (p.start_s ≤ a) × (b ≤ p.end_s) × AllIn l

  blackouts-AllIn :
      (decisions : List Decision)
      → DecidedIn p decisions
      → AllIn (blackouts_of p.end_s delay decisions)
  blackouts-AllIn [] h = tt
  blackouts-AllIn (d ∷ l) h =
      if_split AllIn (is_downgrade d.old d.new && ltb 0 delay)
        (λ _. (h.0, omega arith, blackouts-AllIn l h.2)) (λ _. blackouts-AllIn l h.2)

  inside_pass :
      (t : ℕ) (l : List (ℕ × ℕ)) → AllIn l → inside t l ≡ true → (p.start_s ≤ t) × (t ≤ p.end_s)
  inside_pass t [] h e = cc
  inside_pass t ((a, b) ∷ l) h e = elim (Bool-cases (inside t l)) [
    | inl i ↦ inside_pass t l h.2 i
    | inr o ↦ ground arith
  ]

  Chain-reached :
      (blackouts levels : List (ℕ × ℕ)) (cuts : List ℕ)
      → AllIn blackouts
      → Chain p.start_s p.end_s cuts
      → Chain p.start_s p.end_s (add_reached blackouts levels cuts)
  Chain-reached blackouts [] cuts h c = c
  Chain-reached blackouts ((t, n) ∷ l) cuts h c = elim (Bool-cases (inside t blackouts)) [
    | inl e ↦
        let bounds = inside_pass t blackouts h e in
        rw e
          (Chain-add p.start_s p.end_s t _ bounds.0 bounds.1 (Chain-reached blackouts l cuts h c))
    | inr e ↦ rw e (Chain-reached blackouts l cuts h c)
  ]

  cuts-Chain :
      (decisions : List Decision) (levels : List (ℕ × ℕ))
      → p.start_s ≤ p.end_s
      → DecidedIn p decisions
      → Chain p.start_s p.end_s (cuts_of p delay decisions levels)
  unfolding cuts_of
  cuts-Chain decisions levels h d =
      Chain-reached (blackouts_of p.end_s delay decisions) levels _ (blackouts-AllIn decisions d)
        (Chain-blackouts decisions _ d (Chain-switches decisions _ d (ends h)))
    where
      ends : p.start_s ≤ p.end_s → Chain p.start_s p.end_s (add_cut p.start_s (p.end_s ∷ []))
      ends h = elim (dec_lt p.start_s p.end_s) [
        | yes lt ↦ rw (ltb_of_lt p.start_s p.end_s lt) (refl, lt, (refl, refl))
        | no ge ↦
            let e : p.start_s ≡ p.end_s = omega arith in
            rw (e, ltb_self p.end_s, eq_self p.end_s) (refl, refl)
      ]

-- For a pass with start <= end and decisions made within it, whatever the feedback delay, the rule
-- and the levels reached: the segments of `_schedule` cover the pass from its start to its end with
-- no gap, no overlap and no empty segment (a pass of zero duration has none), neighbours differ in
-- MODCOD or rate, and each rate is that of the segment's MODCOD, or 0 where it has none.
pub schedule-Tiles :
    (p : Pass) (decisions : List Decision) (levels : List (ℕ × ℕ)) (rule : Rule)
    → p.start_s ≤ p.end_s
    → DecidedIn p decisions
    → let l = (schedule p decisions levels rule).0 in
      Tiles p.start_s p.end_s l × Differ l × AllRated rule l
unfolding schedule
schedule-Tiles p decisions levels rule h d =
    segments-Tiles rule _ p.start_s p.start_s p.end_s [] (cuts_of p rule.delay_s decisions levels)
      refl tt tt (cuts-Chain p rule.delay_s decisions levels h d)
