-- ===== src/Statistics/Best.antt =====
-- `best_link_segments` (engine/statistics.py): the envelope is the best link at each instant.
use openleo.Prelude.{
  Sorted, All-map, ℕ, ◌≤◌, ◌<◌, ◌≡◌, refl, sym, subst, ap, ◌∙◌, ltb, leb, ◌==◌, if◌then◌else◌,
  if_split, Bool, true, false, ◌&&◌, Bool-cases, inl, inr, Option, none, some, List, [], ◌∷◌, In,
  here, there, All, last, arith,
}
use openleo.Acm.Schedule.{RateSegment, add_cut}
use openleo.Hold.{
  Held, hold_from, Tiles, Cuts, Differ, value_at, step_value, hold_from-Tiles, hold_from-Differ,
  hold_from-value,
}
use openleo.Statistics.{
  Track, segment_span, last_started, rate_of, rate_at, best_from, best_at, best_values, add_ends,
  ends_of, same_key, envelope_of,
}

add_cut-All : (P : ℕ → Type 0) (t : ℕ) (l : List ℕ) → P t → All P l → All P (add_cut t l)
add_cut-All P t [] p h = (p, tt)
add_cut-All P t (x ∷ l) p h =
    if_split (All P) (ltb t x) (λ _. (p, h))
      (λ _. if_split (All P) (t == x) (λ _. h) (λ _. (h.0, add_cut-All P t l p h.1)))

pub add_cut-Sorted : (t : ℕ) (l : List ℕ) → Sorted l → Sorted (add_cut t l)
add_cut-Sorted t [] s = (tt, tt)
add_cut-Sorted t (x ∷ l) s =
    if_split Sorted (ltb t x) (λ lt. ((ground arith, All-map l (λ a k. ground arith) s.0), s))
      (λ ge.
        if_split Sorted (t == x) (λ _. s)
          (λ ne. (add_cut-All (λ y. x < y) t l (ground arith) s.0, add_cut-Sorted t l s.1)))

pub add_cut-In : (t : ℕ) (l : List ℕ) → In t (add_cut t l)
add_cut-In t [] = here refl
add_cut-In t (x ∷ l) =
    if_split (In t) (ltb t x) (λ _. here refl)
      (λ _. if_split (In t) (t == x) (λ e. here (ground arith)) (λ _. there (add_cut-In t l)))

pub In-add_cut : (x t : ℕ) (l : List ℕ) → In x l → In x (add_cut t l)
In-add_cut x t [] i = there i
In-add_cut x t (y ∷ l) i =
    if_split (In x) (ltb t y) (λ _. there i)
      (λ _.
        if_split (In x) (t == y) (λ _. i)
          (λ _. elim i [ here p ↦ here p | there j ↦ there (In-add_cut x t l j) ]))

-- The ends of the segments are cuts.
abbrev pub HasEnds : List ℕ → List RateSegment → Type 0
HasEnds cuts segments = All (λ (s : RateSegment). In s.start_s cuts × In s.end_s cuts) segments

add_ends-Sorted :
    (segments : List RateSegment) (cuts : List ℕ) → Sorted cuts → Sorted (add_ends segments cuts)
add_ends-Sorted [] cuts s = s
add_ends-Sorted (x ∷ l) cuts s =
    add_cut-Sorted x.start_s _ (add_cut-Sorted x.end_s _ (add_ends-Sorted l cuts s))

In-add_ends :
    (x : ℕ) (segments : List RateSegment) (cuts : List ℕ)
    → In x cuts
    → In x (add_ends segments cuts)
In-add_ends x [] cuts i = i
In-add_ends x (s ∷ l) cuts i =
    In-add_cut x s.start_s _ (In-add_cut x s.end_s _ (In-add_ends x l cuts i))

add_ends-HasEnds :
    (segments : List RateSegment) (cuts : List ℕ) → HasEnds (add_ends segments cuts) segments
add_ends-HasEnds [] cuts = tt
add_ends-HasEnds (x ∷ l) cuts = (
  (add_cut-In x.start_s _, In-add_cut x.end_s x.start_s _ (add_cut-In x.end_s _)),
  All-map l
      (λ s h. (
        In-add_cut s.start_s x.start_s _ (In-add_cut s.start_s x.end_s _ h.0),
        In-add_cut s.end_s x.start_s _ (In-add_cut s.end_s x.end_s _ h.1),
      ))
      (add_ends-HasEnds l cuts),
)

ends_of-Sorted : (tracks : List Track) → Sorted (ends_of tracks)
ends_of-Sorted [] = tt
ends_of-Sorted (x ∷ l) = add_ends-Sorted x.segments (ends_of l) (ends_of-Sorted l)

ends_of-HasEnds :
    (tracks : List Track) → All (λ (x : Track). HasEnds (ends_of tracks) x.segments) tracks
ends_of-HasEnds [] = tt
ends_of-HasEnds (x ∷ l) = (
  add_ends-HasEnds x.segments (ends_of l),
  All-map l
      (λ y h.
        All-map y.segments
          (λ s k. (In-add_ends s.start_s x.segments _ k.0, In-add_ends s.end_s x.segments _ k.1)) h)
      (ends_of-HasEnds l),
)

-- No cut lies after `c` up to `t`.
abbrev pub Quiet : ℕ → ℕ → List ℕ → Type 0
Quiet c t cuts = (x : ℕ) → In x cuts → (leb x c ≡ leb x t) × (ltb c x ≡ ltb t x)

pub if_cong :
    {A B : Type 0} (f g : A → B) (b c : Bool) {x y z w : A}
    → b ≡ c
    → f x ≡ g y
    → f z ≡ g w
    → f (if b then x else z) ≡ g (if c then y else w)
if_cong f g true true e p q = p
if_cong f g true false e p q = absurd (ground (arith, e))
if_cong f g false true e p q = absurd (ground (arith, e))
if_cong f g false false e p q = q

module _ (c t : ℕ) (cuts : List ℕ) (q : Quiet c t cuts) where
  rate_of-Quiet :
      (now : Option RateSegment) (l : List RateSegment)
      → rate_of now c ≡ rate_of now t
      → HasEnds cuts l
      → rate_of (last_started segment_span now l c) c
        ≡ rate_of (last_started segment_span now l t) t
  rate_of-Quiet now [] e h = e
  rate_of-Quiet now (s ∷ l) e h =
      if_cong (λ n. rate_of n c) (λ n. rate_of n t) _ _ (q s.start_s h.0.0).0
        (rate_of-Quiet (some s) l (if_cong (λ r. r) (λ r. r) _ _ (q s.end_s h.0.1).1 refl refl) h.1)
        e

  pub rate_at-Quiet : (l : List RateSegment) → HasEnds cuts l → rate_at l c ≡ rate_at l t
  rate_at-Quiet l h = rate_of-Quiet none l refl h

  best_from-Quiet :
      (tracks : List Track) (best : Option ℕ × ℕ)
      → All (λ (x : Track). HasEnds cuts x.segments) tracks
      → best_from best tracks c ≡ best_from best tracks t
  best_from-Quiet [] best h = refl
  best_from-Quiet (x ∷ l) best h =
      ap (λ r. best_from (if ltb best.1 r then (some x.satellite, r) else best) l c)
        (rate_at-Quiet x.segments h.0)
      ∙ best_from-Quiet l _ h.1

-- The cuts and the values at them agree in number.
best_values-Cuts :
    (tracks : List Track) (x : ℕ) (l : List ℕ)
    → Sorted (x ∷ l)
    → Cuts x (last 0 (x ∷ l)) (x ∷ l) (best_values tracks (x ∷ l))
best_values-Cuts tracks x [] s = (refl, refl)
best_values-Cuts tracks x (y ∷ l) s = (refl, s.0.0, best_values-Cuts tracks y l s.1)

pub All-In : {A : Type 0} (P : A → Type 0) (x : A) (l : List A) → All P l → In x l → P x
All-In P x [] h i = elim i [ ]
All-In P x (y ∷ l) h (here p) = subst P (sym p) h.0
All-In P x (y ∷ l) h (there i) = All-In P x l h.1 i

Quiet-after : (x y t : ℕ) (l : List ℕ) → x ≤ t → t < y → All (λ z. y < z) l → Quiet x t (x ∷ y ∷ l)
Quiet-after x y t l k m s z i = elim i [
  | here p ↦ ground arith
  | there j ↦ elim j [
    | here p ↦ ground arith
    | there j ↦ let h = All-In (λ z. y < z) z l s j in ground arith
  ]
]

Quiet-cons : (c x t : ℕ) (l : List ℕ) → x ≤ c → c ≤ t → Quiet c t l → Quiet c t (x ∷ l)
Quiet-cons c x t l k m q z i = elim i [ here p ↦ ground arith | there j ↦ q z j ]

-- The cut that an instant goes back to.
step_value-cut :
    (tracks : List Track) (x t : ℕ) (l : List ℕ)
    → Sorted (x ∷ l)
    → x ≤ t
    → t < last 0 (x ∷ l)
    → (c : ℕ) × (x ≤ c)
      × (c ≤ t)
      × (step_value (x ∷ l) (best_values tracks (x ∷ l)) t ≡ some (best_at tracks c))
      × Quiet c t (x ∷ l)
step_value-cut tracks x t [] s k m = absurd (omega arith)
step_value-cut tracks x t (y ∷ l) s k m = elim (Bool-cases (ltb t y)) [
  | inl lt ↦ (x, omega arith, k, ground arith, Quiet-after x y t l k (ground arith) s.1.0)
  | inr ge ↦
      let r = step_value-cut tracks y t l s.1 (ground arith) m in
      let below = s.0.0 in
      (
        r.0,
        omega arith,
        r.2,
        if_split (λ v. v ≡ some (best_at tracks r.0)) (leb x t && ltb t y)
            (λ e. absurd (ground arith)) (λ _. r.3),
        Quiet-cons r.0 x t (y ∷ l) (omega arith) r.2 r.4,
      )
]

-- On the cuts of the tracks the held value is the best link at the instant itself.
step_value-best :
    (tracks : List Track) (x t : ℕ) (l : List ℕ)
    → ends_of tracks ≡ x ∷ l
    → x ≤ t
    → t < last 0 (x ∷ l)
    → step_value (x ∷ l) (best_values tracks (x ∷ l)) t ≡ some (best_at tracks t)
step_value-best tracks x t l e k m =
    let r = step_value-cut tracks x t l (subst Sorted e (ends_of-Sorted tracks)) k m in
    r.3
    ∙ ap some (
        best_from-Quiet r.0 t (x ∷ l) r.4 tracks (none, 0)
          (subst (λ cuts. All (λ (y : Track). HasEnds cuts y.segments) tracks) e
            (ends_of-HasEnds tracks)))

same_key_sound : (v w : Option ℕ × ℕ) → same_key v w ≡ true → v ≡ w
same_key_sound (none, r) (none, q) h = ground arith
same_key_sound (none, r) (some b, q) h = absurd (ground arith)
same_key_sound (some a, r) (none, q) h = absurd (ground arith)
same_key_sound (some a, r) (some b, q) h = ground arith

-- Pieces from the first cut to the last that give at each instant the best link at that instant.
abbrev pub IsEnvelope : List Track → ℕ → List ℕ → List (Held (Option ℕ × ℕ)) → Type 0
IsEnvelope tracks x l pieces =
    Tiles x (last 0 (x ∷ l)) pieces
    × Differ same_key pieces
    × ((t : ℕ) → x ≤ t → t < last 0 (x ∷ l) → value_at pieces t ≡ some (best_at tracks t))

pub envelope_of-IsEnvelope :
    (tracks : List Track) (x : ℕ) (l : List ℕ)
    → ends_of tracks ≡ x ∷ l
    → IsEnvelope tracks x l (envelope_of tracks)
unfolding envelope_of
envelope_of-IsEnvelope tracks x l e =
    let c = best_values-Cuts tracks x l (subst Sorted e (ends_of-Sorted tracks)) in
    subst (λ cuts. IsEnvelope tracks x l (hold_from same_key [] cuts (best_values tracks cuts)))
      (sym e)
      (
        hold_from-Tiles same_key x x _ [] (x ∷ l) _ refl c,
        hold_from-Differ same_key [] (x ∷ l) _ tt,
        λ t k m.
            hold_from-value same_key same_key_sound x x _ [] (x ∷ l) _ t refl c
            ∙ if_split (λ v. v ≡ some (best_at tracks t)) (leb x t && ltb t x)
                (λ h. absurd (ground arith)) (λ _. step_value-best tracks x t l e k m),
      )
