-- ===== src/Statistics/Fractions.antt =====
-- `station_metrics` (engine/statistics.py): the fractions of a station are fractions.
use openleo.Prelude.{
  ℕ, ◌+◌, ◌≤◌, ◌<◌, ◌≡◌, refl, subst, ltb, leb, ◌==◌, if_split, option_split, true, false, ◌&&◌,
  ◌||◌, not, Bool-cases, inl, inr, Option, none, some, List, [], ◌∷◌, ◌++◌, map, elem, arith,
  count_below, count_below-imp, count_below-le,
}
use openleo.Passes.{Pass}
use openleo.Acm.Schedule.{RateSegment}
use openleo.Measure.{measure}
use openleo.Measure.Union.{covers, Below, measure-count}
use openleo.Statistics.{
  PairResult, pass_span, last_started, is_in_passes, all_in_passes, pair_intervals,
  best_link_segments, sorted_by, segment_span, is_disjoint,
}
use openleo.Statistics.Metrics.{
  StationMetrics, usable_spans, all_inside, collect, station_metrics, is_capacity, integral,
}

-- A pass that starts by the instant, and that the spans cover.
abbrev Good : List (ℕ × ℕ) → ℕ → Option Pass → Type 0
Good spans u none = Unit
Good spans u (some p) =
    (p.start_s ≤ u) × ((t : ℕ) → p.start_s ≤ t → t < p.end_s → covers spans t ≡ true)

abbrev Covered : List (ℕ × ℕ) → List (ℕ × ℕ) → Type 0
Covered l spans = (t : ℕ) → covers l t ≡ true → covers spans t ≡ true

Covered-tail : (i : ℕ × ℕ) (l spans : List (ℕ × ℕ)) → Covered (i ∷ l) spans → Covered l spans
Covered-tail i l spans f t h = let k = f t in ground (arith, h, k)

covers-head : (i : ℕ × ℕ) (l : List (ℕ × ℕ)) (t : ℕ) → i.0 ≤ t → t < i.1 → covers (i ∷ l) t ≡ true
covers-head i l t h k = ground arith

covers-append : (l r : List (ℕ × ℕ)) (t : ℕ) → covers (l ++ r) t ≡ (covers l t || covers r t)
covers-append [] r t = refl
covers-append (i ∷ l) r t = ground (arith, covers-append l r t)

last_started-Good :
    (spans : List (ℕ × ℕ)) (u : ℕ) (now : Option Pass) (l : List Pass)
    → Good spans u now
    → Covered (map pass_span l) spans
    → Good spans u (last_started pass_span now l u)
last_started-Good spans u now [] g f = g
last_started-Good spans u now (x ∷ l) g f =
    if_split (Good spans u) (leb x.start_s u)
      (λ le.
        last_started-Good spans u (some x) l
          (ground arith, λ t h k. f t (covers-head (pass_span x) (map pass_span l) t h k))
          (Covered-tail (pass_span x) (map pass_span l) spans f))
      (λ _. g)

is_in_passes-covers :
    (passes : List Pass) (s : RateSegment)
    → is_in_passes passes s ≡ true
    → (t : ℕ) → s.start_s ≤ t
    → t < s.end_s
    → covers (map pass_span passes) t ≡ true
is_in_passes-covers passes s h t k m =
    go (last_started pass_span none passes s.start_s)
      (last_started-Good (map pass_span passes) s.start_s none passes tt (λ _ e. e)) h
  where
    go :
        (o : Option Pass)
        → Good (map pass_span passes) s.start_s o
        → (elim o [ none ↦ false | some p ↦ leb s.end_s p.end_s ]) ≡ true
        → covers (map pass_span passes) t ≡ true
    go none g e = absurd (ground (arith, e))
    go (some p) g e = g.1 t (omega (arith, g.0)) (ground (arith, e))

usable-Covered :
    (passes : List Pass) (segments : List RateSegment)
    → all_in_passes passes segments ≡ true
    → Covered (usable_spans segments) (map pass_span passes)
usable-Covered passes [] h = λ t c. absurd (ground (arith, c))
usable-Covered passes (s ∷ l) h =
    if_split (λ u. Covered u (map pass_span passes)) (ltb 0 s.rate_bps)
      (λ _ t c. elim (Bool-cases (leb s.start_s t && ltb t s.end_s)) [
        | inl e ↦ is_in_passes-covers passes s (ground (arith, h)) t (ground arith) (ground arith)
        | inr e ↦ usable-Covered passes l (ground (arith, h)) t (ground (arith, c))
      ])
      (λ _. usable-Covered passes l (ground (arith, h)))

Below-passes :
    (window : ℕ) (passes : List Pass)
    → all_inside window passes ≡ true
    → Below window (map pass_span passes)
Below-passes window [] h = tt
Below-passes window (p ∷ l) h = (ground arith, Below-passes window l (ground arith))

Below-append : (n : ℕ) (l r : List (ℕ × ℕ)) → Below n l → Below n r → Below n (l ++ r)
Below-append n [] r h k = k
Below-append n (i ∷ l) r h k = (h.0, Below-append n l r h.1 k)

abbrev bound : List (ℕ × ℕ) → ℕ
bound [] = 0
bound (i ∷ l) = i.1 + bound l

Below-mono : (m n : ℕ) (l : List (ℕ × ℕ)) → m ≤ n → Below m l → Below n l
Below-mono m n [] k b = tt
Below-mono m n (i ∷ l) k b = (omega arith, Below-mono m n l k b.1)

Below-bound : (l : List (ℕ × ℕ)) → Below (bound l) l
Below-bound [] = tt
Below-bound (i ∷ l) = (omega arith, Below-mono (bound l) _ l (omega arith) (Below-bound l))

pub measure-value :
    (n : ℕ) (l : List (ℕ × ℕ)) (v : ℕ)
    → Below n l
    → measure l ≡ some v
    → v ≡ count_below n (covers l)
measure-value n l v b e = ground (arith, measure-count n l b)

-- What the loop over the pairs collects.
abbrev Collected : ℕ → Option (List (ℕ × ℕ) × List (ℕ × ℕ)) → Type 0
Collected window none = Unit
Collected window (some (spans, usable)) = Below window spans × Covered usable spans

-- The checked segments lie in the checked passes.
abbrev InPasses : Option (List Pass × List RateSegment) → Type 0
InPasses none = Unit
InPasses (some (passes, segments)) = all_in_passes passes segments ≡ true

pair_intervals-InPasses : (p : PairResult) → InPasses (pair_intervals p)
unfolding pair_intervals
pair_intervals-InPasses p =
    if_split InPasses
      (is_disjoint pass_span (sorted_by pass_span p.passes)
        && is_disjoint segment_span (sorted_by segment_span p.segments)
        && all_in_passes (sorted_by pass_span p.passes) (sorted_by segment_span p.segments))
      (λ e. ground arith) (λ _. tt)

Covered-append : (a b c d : List (ℕ × ℕ)) → Covered a b → Covered c d → Covered (a ++ c) (b ++ d)
Covered-append a b c d f g t h =
    let k = f t in let l = g t in ground (arith, covers-append a c t, covers-append b d t, h, k, l)

collect-Collected :
    (station window : ℕ) (seen : List ℕ) (pairs : List PairResult)
    → Collected window (collect station window seen pairs)
unfolding collect
collect-Collected station window seen [] = (tt, λ t c. c)
collect-Collected station window seen (p ∷ l) =
    if_split (Collected window) ((p.station_index == station) && not (elem p.satellite_index seen))
      (λ _.
        option_split (Collected window) (pair_intervals p) (λ _. tt)
          (λ r e.
            if_split (Collected window) (all_inside window r.0)
              (λ inside.
                option_split (Collected window)
                  (collect station window (p.satellite_index ∷ seen) l) (λ _. tt)
                  (λ u k.
                    let ih =
                      subst (Collected window) k
                        (collect-Collected station window (p.satellite_index ∷ seen) l) in
                    (
                      Below-append window _ u.0 (Below-passes window r.0 inside) ih.0,
                      Covered-append _ _ u.1 u.0
                          (usable-Covered r.0 r.1 (subst InPasses e (pair_intervals-InPasses p)))
                          ih.1,
                    )))
              (λ _. tt)))
      (λ _. tt)

-- The station's numerators: the usable time within the visible time, and this within the window.
abbrev Fractions : ℕ → Option StationMetrics → Type 0
Fractions window none = Unit
Fractions window (some m) =
    (m.visible_fraction.denominator ≡ window)
    × (m.rf_usable_fraction.denominator ≡ window)
    × (m.rf_usable_fraction.numerator ≤ m.visible_fraction.numerator)
    × (m.visible_fraction.numerator ≤ window)

measured-Fractions :
    (window : ℕ) (spans usable : List (ℕ × ℕ)) (visible used : ℕ)
    → Collected window (some (spans, usable))
    → measure spans ≡ some visible
    → measure usable ≡ some used
    → (used ≤ visible) × (visible ≤ window)
measured-Fractions window spans usable visible used c p q =
    let n = window + bound usable in
    let at_window = measure-value window spans visible c.0 p in
    let at_bound =
      measure-value (window + bound usable) spans visible
        (Below-mono window (window + bound usable) spans (omega arith) c.0) p in
    let at_used =
      measure-value (window + bound usable) usable used
        (Below-mono (bound usable) (window + bound usable) usable (omega arith)
          (Below-bound usable))
        q in
    (
      omega (
        arith,
        at_bound,
        at_used,
        count_below-imp (window + bound usable) (covers usable) (covers spans) c.1,
      ),
      omega (arith, at_window, count_below-le window (covers spans)),
    )

station-Fractions :
    (station : ℕ) (pairs : List PairResult) (window : ℕ) (fixed : Option ℕ)
    → Fractions window (station_metrics station pairs window fixed)
unfolding station_metrics
station-Fractions station pairs window fixed =
    if_split (Fractions window) (ltb 0 window && is_capacity fixed)
      (λ _.
        option_split (Fractions window) (collect station window [] pairs) (λ _. tt)
          (λ u c.
            option_split (Fractions window) (best_link_segments pairs) (λ _. tt)
              (λ envelope _.
                option_split (Fractions window) (measure u.0) (λ _. tt)
                  (λ visible p.
                    option_split (Fractions window) (integral envelope) (λ _. tt)
                      (λ total _.
                        option_split (Fractions window) (measure u.1) (λ _. tt)
                          (λ used q.
                            let collected =
                              subst (Collected window) c
                                (collect-Collected station window [] pairs) in
                            let r = measured-Fractions window u.0 u.1 visible used collected p q in
                            (refl, refl, r.0, r.1)))))))
      (λ _. tt)

-- When `station_metrics` returns, its two fractions have the window as denominator, the usable time
-- is at most the visible time, and the visible time is at most the window.
pub station_metrics-fractions :
    (station : ℕ) (pairs : List PairResult) (window : ℕ) (fixed : Option ℕ) (m : StationMetrics)
    → station_metrics station pairs window fixed ≡ some m
    → (m.visible_fraction.denominator ≡ window)
      × (m.rf_usable_fraction.denominator ≡ window)
      × (m.rf_usable_fraction.numerator ≤ m.visible_fraction.numerator)
      × (m.visible_fraction.numerator ≤ window)
station_metrics-fractions station pairs window fixed m e =
    subst (Fractions window) e (station-Fractions station pairs window fixed)
