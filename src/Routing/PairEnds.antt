-- ===== src/Routing/PairEnds.antt =====
-- engine/routing.py: the instants that `route_breakpoints` collects from the pairs.
use openleo.Prelude.{
  ℕ, ◌≡◌, refl, subst, ap, ◌∙◌, Bool, true, false, ◌⊎◌, inl, inr, Option, none, some, List, [], ◌∷◌,
  ◌++◌, In, here, there, In-append_left, In-append_right, In-cons, option_split, elem, if_split,
  if_some, ◌&&◌,
}
use openleo.Passes.{Pass}
use openleo.Statistics.{
  PairResult, sorted_by, pass_span, segment_span, is_disjoint, all_in_passes, pair_intervals,
}
use openleo.Statistics.Sorting.{In-sorted_by, sorted_by-In}
use openleo.Acm.Schedule.{RateSegment}
use openleo.Routing.Breakpoints.{pass_ends, segment_ends, pair_times}

-- An end of one of the passes or segments.
abbrev pub IsEnd : List Pass → List RateSegment → ℕ → Type 0
IsEnd passes segments x =
    ((p : Pass) × In p passes × ((x ≡ p.start_s) ⊎ (x ≡ p.end_s)))
    ⊎ ((s : RateSegment) × In s segments × ((x ≡ s.start_s) ⊎ (x ≡ s.end_s)))

-- An end of a pass or a segment of one of the pairs, its station being one of those.
abbrev pub IsPairEnd : List ℕ → List PairResult → ℕ → Type 0
IsPairEnd stations pairs x =
    (r : PairResult) × In r pairs
    × (elem r.station_index stations ≡ true)
    × IsEnd r.passes r.segments x

-- The checked intervals have the ends of the pair's own.
abbrev SameEnds : PairResult → List Pass × List RateSegment → Type 0
SameEnds p own =
    ((x : ℕ) → IsEnd own.0 own.1 x → IsEnd p.passes p.segments x)
    × ((x : ℕ) → IsEnd p.passes p.segments x → IsEnd own.0 own.1 x)

pair_intervals-SameEnds :
    (p : PairResult) (own : List Pass × List RateSegment)
    → pair_intervals p ≡ some own
    → SameEnds p own
unfolding pair_intervals
pair_intervals-SameEnds p own h =
    let passes = sorted_by pass_span p.passes in
    let segments = sorted_by segment_span p.segments in
    subst (SameEnds p)
      (if_some
        (is_disjoint pass_span passes
          && is_disjoint segment_span segments
          && all_in_passes passes segments)
        h).1
      (
        λ x d. elim d [
          | inl (q, i, e) ↦ inl (q, sorted_by-In pass_span q p.passes i, e)
          | inr (q, i, e) ↦ inr (q, sorted_by-In segment_span q p.segments i, e)
        ],
        λ x d. elim d [
          | inl (q, i, e) ↦ inl (q, In-sorted_by pass_span q p.passes i, e)
          | inr (q, i, e) ↦ inr (q, In-sorted_by segment_span q p.segments i, e)
        ],
      )

pass_ends-In :
    (l : List Pass) (p : Pass) (x : ℕ)
    → In p l
    → (x ≡ p.start_s) ⊎ (x ≡ p.end_s)
    → In x (pass_ends l)
pass_ends-In [] p x i e = elim i [ ]
pass_ends-In (q ∷ l) p x (here same) (inl e) = here (e ∙ ap (λ (z : Pass). z.start_s) same)
pass_ends-In (q ∷ l) p x (here same) (inr e) = there (here (e ∙ ap (λ (z : Pass). z.end_s) same))
pass_ends-In (q ∷ l) p x (there i) e = there (there (pass_ends-In l p x i e))

segment_ends-In :
    (l : List RateSegment) (p : RateSegment) (x : ℕ)
    → In p l
    → (x ≡ p.start_s) ⊎ (x ≡ p.end_s)
    → In x (segment_ends l)
segment_ends-In [] p x i e = elim i [ ]
segment_ends-In (q ∷ l) p x (here same) (inl e) =
    here (e ∙ ap (λ (z : RateSegment). z.start_s) same)
segment_ends-In (q ∷ l) p x (here same) (inr e) =
    there (here (e ∙ ap (λ (z : RateSegment). z.end_s) same))
segment_ends-In (q ∷ l) p x (there i) e = there (there (segment_ends-In l p x i e))

In-pass_ends :
    (l : List Pass) (x : ℕ)
    → In x (pass_ends l)
    → (p : Pass) × In p l × ((x ≡ p.start_s) ⊎ (x ≡ p.end_s))
In-pass_ends [] x i = elim i [ ]
In-pass_ends (q ∷ l) x (here e) = (q, here refl, inl e)
In-pass_ends (q ∷ l) x (there (here e)) = (q, here refl, inr e)
In-pass_ends (q ∷ l) x (there (there i)) = let (p, j, e) = In-pass_ends l x i in (p, there j, e)

In-segment_ends :
    (l : List RateSegment) (x : ℕ)
    → In x (segment_ends l)
    → (p : RateSegment) × In p l × ((x ≡ p.start_s) ⊎ (x ≡ p.end_s))
In-segment_ends [] x i = elim i [ ]
In-segment_ends (q ∷ l) x (here e) = (q, here refl, inl e)
In-segment_ends (q ∷ l) x (there (here e)) = (q, here refl, inr e)
In-segment_ends (q ∷ l) x (there (there i)) =
    let (p, j, e) = In-segment_ends l x i in (p, there j, e)

pub In-append : (x : ℕ) (l r : List ℕ) → In x (l ++ r) → In x l ⊎ In x r
In-append x [] r i = inr i
In-append x (y ∷ l) r (here e) = inl (here e)
In-append x (y ∷ l) r (there i) = elim (In-append x l r i) [ inl j ↦ inl (there j) | inr j ↦ inr j ]

module _ (stations : List ℕ) where
  -- The intervals of one of the stations' pairs are refused.
  abbrev pub IsRefused : List PairResult → Type 0
  IsRefused pairs =
      (r : PairResult) × In r pairs
      × (elem r.station_index stations ≡ true)
      × (pair_intervals r ≡ none)

  -- Those of none of them are.
  abbrev pub AreAccepted : List PairResult → Type 0
  AreAccepted pairs =
      (r : PairResult)
      → In r pairs
      → elem r.station_index stations ≡ true
      → (passes : List Pass) × (segments : List RateSegment) × (pair_intervals r
          ≡ some (passes, segments))

  -- The times are the ends, and none of them where a pair is refused.
  abbrev pub TimesOf : List PairResult → Option (List ℕ) → Type 0
  TimesOf pairs none = IsRefused pairs
  TimesOf pairs (some times) =
      AreAccepted pairs
      × ((x : ℕ) → In x times → IsPairEnd stations pairs x)
      × ((x : ℕ) → IsPairEnd stations pairs x → In x times)

  -- What an end of the pairs is in terms of the first one.
  abbrev IsFirstEnd : PairResult → ℕ → Type 0
  IsFirstEnd p x = (elem p.station_index stations ≡ true) × IsEnd p.passes p.segments x

  IsPairEnd-cons :
      (p : PairResult) (l : List PairResult) (x : ℕ)
      → IsPairEnd stations (p ∷ l) x
      → IsFirstEnd p x ⊎ IsPairEnd stations l x
  IsPairEnd-cons p l x (r, here same, e, d) = inl (subst (λ q. IsFirstEnd q x) same (e, d))
  IsPairEnd-cons p l x (r, there i, e, d) = inr (r, i, e, d)

  IsPairEnd-later :
      (p : PairResult) (l : List PairResult) (x : ℕ)
      → IsPairEnd stations l x
      → IsPairEnd stations (p ∷ l) x
  IsPairEnd-later p l x (r, i, e, d) = (r, there i, e, d)

  not_both : {b : Bool} → b ≡ true → b ≡ false → ⊥
  not_both m n = cc

  TimesOf-skip :
      (p : PairResult) (l : List PairResult) (o : Option (List ℕ))
      → elem p.station_index stations ≡ false
      → TimesOf l o
      → TimesOf (p ∷ l) o
  TimesOf-skip p l none other (r, i, e, g) = (r, there i, e, g)
  TimesOf-skip p l (some times) other (accepted, sound, complete) = (
    In-cons
        (λ r.
          elem r.station_index stations ≡ true
          → (passes : List Pass) × (segments : List RateSegment) × (pair_intervals r
              ≡ some (passes, segments)))
        (λ one. absurd (not_both one other)) accepted,
    λ x i. IsPairEnd-later p l x (sound x i),
    λ x d. elim (IsPairEnd-cons p l x d) [
      | inl first ↦ absurd (not_both first.0 other)
      | inr later ↦ complete x later
    ],
  )

  TimesOf-take :
      (p : PairResult) (l : List PairResult) (a : List Pass) (s : List RateSegment) (t : List ℕ)
      → elem p.station_index stations ≡ true
      → pair_intervals p ≡ some (a, s)
      → TimesOf l (some t)
      → TimesOf (p ∷ l) (some (pass_ends a ++ segment_ends s ++ t))
  TimesOf-take p l a s t one g (accepted, sound, complete) = (
    In-cons
        (λ r.
          elem r.station_index stations ≡ true
          → (passes : List Pass) × (segments : List RateSegment) × (pair_intervals r
              ≡ some (passes, segments)))
        (λ _. (a, s, g)) accepted,
    λ x i. elim (In-append x (pass_ends a ++ segment_ends s) t i) [
      | inr j ↦ IsPairEnd-later p l x (sound x j)
      | inl j ↦ elim (In-append x (pass_ends a) (segment_ends s) j) [
        | inl k ↦ (p, here refl, one, ends.0 x (inl (In-pass_ends a x k)))
        | inr k ↦ (p, here refl, one, ends.0 x (inr (In-segment_ends s x k)))
      ]
    ],
    λ x d. elim (IsPairEnd-cons p l x d) [
      | inl first ↦ own x (ends.1 x first.1)
      | inr later ↦ In-append_right x (pass_ends a ++ segment_ends s) t (complete x later)
    ],
  )
    where
      ends : SameEnds p (a, s)
      ends = pair_intervals-SameEnds p (a, s) g

      own : (x : ℕ) → IsEnd a s x → In x (pass_ends a ++ segment_ends s ++ t)
      own x (inl (q, i, e)) =
          In-append_left x (pass_ends a ++ segment_ends s) t
            (In-append_left x (pass_ends a) (segment_ends s) (pass_ends-In a q x i e))
      own x (inr (q, i, e)) =
          In-append_left x (pass_ends a ++ segment_ends s) t
            (In-append_right x (pass_ends a) (segment_ends s) (segment_ends-In s q x i e))

  pub pair_times-TimesOf : (pairs : List PairResult) → TimesOf pairs (pair_times stations pairs)
  unfolding pair_times
  pair_times-TimesOf [] = (λ r i. elim i [ ], λ x i. elim i [ ], λ x (r, i, e, d). elim i [ ])
  pair_times-TimesOf (p ∷ l) =
      let P : Option (List ℕ) → Type 0 = TimesOf (p ∷ l) in
      let ih = pair_times-TimesOf l in
      if_split P (elem p.station_index stations)
        (λ one.
          option_split P (pair_intervals p) (λ refused. (p, here refl, one, refused))
            (λ own g.
              option_split P (pair_times stations l)
                (λ f. let (r, i, e, g) = subst (TimesOf l) f ih in (r, there i, e, g))
                (λ t e. TimesOf-take p l own.0 own.1 t one g (subst (TimesOf l) e ih))))
        (λ other. TimesOf-skip p l (pair_times stations l) other ih)
