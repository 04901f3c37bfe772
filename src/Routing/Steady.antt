-- ===== src/Routing/Steady.antt =====
-- engine/routing.py: `link_state_from_pairs` between the instants of `route_breakpoints`.
use openleo.Prelude.{
  ℕ, ◌≤◌, ◌≡◌, refl, sym, subst, ap, ◌∙◌, leb, ◌==◌, if◌then◌else◌, if_split, ◌&&◌, true, false,
  Bool, ◌⊎◌, inl, inr, Bool-cases, Option, none, some, some_injective, List, [], ◌∷◌, ◌++◌, In,
  here, there, In-append_left, In-append_right, All, elem, arith, Option-cases,
}
use openleo.Passes.{Pass}
use openleo.Acm.Schedule.{RateSegment}
use openleo.Statistics.{PairResult, pass_span, last_started, pair_intervals}
use openleo.Statistics.Best.{Quiet, HasEnds, if_cong, rate_at-Quiet, All-In}
use openleo.Statistics.Choice.{All-append}
use openleo.Routing.Build.{LinkState, PairTrack, find_track, pair_tracks, state_at}
use openleo.Routing.Breakpoints.{
  pass_ends, segment_ends, pair_times, route_breakpoints, AreBreakpoints,
  route_breakpoints-AreBreakpoints,
}
use openleo.Routing.Intervals.{IsLatest}

-- The ends of the passes and of the segments are among the times.
abbrev Marks : List ℕ → List Pass → List RateSegment → Type 0
Marks times passes segments =
    ((x : ℕ) → In x (pass_ends passes) → In x times)
    × ((x : ℕ) → In x (segment_ends segments) → In x times)

-- A track of one of the stations.
abbrev IsMarked : List ℕ → List ℕ → PairTrack → Type 0
IsMarked stations times x = elem x.station stations ≡ true → Marks times x.passes x.segments

segment_ends-HasEnds :
    (times : List ℕ) (l : List RateSegment)
    → ((x : ℕ) → In x (segment_ends l) → In x times)
    → HasEnds times l
segment_ends-HasEnds times [] h = tt
segment_ends-HasEnds times (s ∷ l) h = (
  (h s.start_s (here refl), h s.end_s (there (here refl))),
  segment_ends-HasEnds times l (λ x i. h x (there (there i))),
)

-- A pair that is accepted: its intervals, and the tracks with its own.
tracks_step :
    (f : Option PairTrack) (g : Option (List Pass × List RateSegment))
    (k : List Pass → List RateSegment → Option (List PairTrack)) (r : List PairTrack)
    → elim f [ some _ ↦ none | none ↦ elim g [ none ↦ none | some (a, b) ↦ k a b ] ] ≡ some r
    → (a : List Pass) × (b : List RateSegment) × (g ≡ some (a, b)) × (k a b ≡ some r)
tracks_step (some x) g k r h = cc
tracks_step none none k r h = cc
tracks_step none (some (a, b)) k r h = (a, b, refl, h)

-- The times of a pair of the stations, and of the others.
times_step :
    (b : Bool) (g : Option (List Pass × List RateSegment)) (rest : Option (List ℕ)) (own : List ℕ)
    → (if b
        then elim g [
          | none ↦ none
          | some (a, s) ↦ elim rest [
            | none ↦ none
            | some t ↦ some (pass_ends a ++ segment_ends s ++ t)
          ]
        ]
        else rest)
      ≡ some own
    → ((b ≡ false) × (rest ≡ some own))
      ⊎ ((a : List Pass) × (s : List RateSegment) × (t : List ℕ) × (g ≡ some (a, s))
          × (rest ≡ some t)
          × (pass_ends a ++ segment_ends s ++ t ≡ own))
times_step false g rest own h = inl (refl, h)
times_step true none rest own h = cc
times_step true (some (a, s)) none own h = cc
times_step true (some (a, s)) (some t) own h = inr (a, s, t, refl, refl, some_injective h)

module _ (stations times : List ℕ) where
  -- The times of the stations' pairs mark their tracks.
  pair_tracks-IsMarked :
      (pairs : List PairResult) (tracks : List PairTrack) (own : List ℕ) (result : List PairTrack)
      → All (IsMarked stations times) tracks
      → pair_times stations pairs ≡ some own
      → ((x : ℕ) → In x own → In x times)
      → pair_tracks tracks pairs ≡ some result
      → All (IsMarked stations times) result
  unfolding pair_tracks pair_times
  pair_tracks-IsMarked [] tracks own result a e sub h =
      subst (All (IsMarked stations times)) (some_injective h) a
  pair_tracks-IsMarked (p ∷ l) tracks own result a e sub h =
      let (passes, segments, g, more) = tracks_step _ (pair_intervals p) _ result h in
      let new : PairTrack = record {
        station = p.station_index;
        satellite = p.satellite_index;
        passes = passes;
        segments = segments;
      } in
      let add : IsMarked stations times new → All (IsMarked stations times) (tracks ++ new ∷ []) =
        λ m. All-append (IsMarked stations times) tracks (new ∷ []) a (m, tt) in
      elim (times_step (elem p.station_index stations) (pair_intervals p) (pair_times stations l)
        own e) [
          | inl (other, rest) ↦
              pair_tracks-IsMarked l (tracks ++ new ∷ []) own result
                (add (λ one. absurd (not_both one other))) rest sub more
          | inr (ps, ss, t, g', rest, parts) ↦
              pair_tracks-IsMarked l (tracks ++ new ∷ []) t result
                (add (λ _. marks passes segments ps ss t (some_injective (sym g ∙ g')) parts)) rest
                (λ x i.
                  sub x
                    (subst (In x) parts (In-append_right x (pass_ends ps ++ segment_ends ss) t i)))
                more
        ]
    where
      not_both : {b : Bool} → b ≡ true → b ≡ false → ⊥
      not_both m n = cc

      marks :
          (passes : List Pass) (segments : List RateSegment) (ps : List Pass)
          (ss : List RateSegment) (t : List ℕ)
          → ◌≡◌ {A = List Pass × List RateSegment} (passes, segments) (ps, ss)
          → pass_ends ps ++ segment_ends ss ++ t ≡ own
          → Marks times passes segments
      marks passes segments ps ss t same parts = (
        λ x i. sub x (
            subst (In x) parts (
              In-append_left x (pass_ends ps ++ segment_ends ss) t (
                In-append_left x (pass_ends ps) (segment_ends ss) (
                  subst (λ (l : List Pass). In x (pass_ends l))
                    (ap (λ (r : List Pass × List RateSegment). r.0) same) i)))),
        λ x i. sub x (
            subst (In x) parts (
              In-append_left x (pass_ends ps ++ segment_ends ss) t (
                In-append_right x (pass_ends ps) (segment_ends ss) (
                  subst (λ (l : List RateSegment). In x (segment_ends l))
                    (ap (λ (r : List Pass × List RateSegment). r.1) same) i)))),
      )

-- No mark lies between the latest breakpoint and the instant.
IsLatest-Quiet :
    (grid times breakpoints : List ℕ) (window c t : ℕ)
    → AreBreakpoints grid times window breakpoints
    → IsLatest breakpoints t c
    → t ≤ window
    → Quiet c t times
IsLatest-Quiet grid times breakpoints window c t b (_, le, latest) w x i =
    elim (Bool-cases (leb x t)) [
      | inr after ↦ (ground (arith, after, le), ground (arith, after, le))
      | inl before ↦
          let here_too =
            latest x (b.2 x (ground (arith, before, w)) (inr i)) (ground (arith, before)) in
          (ground (arith, before, here_too), ground (arith, before, here_too))
    ]

-- The track of a pair.
find_track-In :
    (station satellite : ℕ) (l : List PairTrack) (x : PairTrack)
    → find_track station satellite l ≡ some x
    → (x.station ≡ station) × In x l
find_track-In station satellite [] x h = cc
find_track-In station satellite (y ∷ l) x h =
    found_or ((y.station == station) && (y.satellite == satellite)) (λ b. ground (arith, b))
      (find_track-In station satellite l x) h
  where
    found_or :
        (b : Bool)
        → (b ≡ true → y.station ≡ station)
        → (find_track station satellite l ≡ some x → (x.station ≡ station) × In x l)
        → (if b then some y else find_track station satellite l) ≡ some x
        → (x.station ≡ station) × In x (y ∷ l)
    found_or true own ih h = (
      subst (λ (z : PairTrack). z.station ≡ station) (some_injective h) (own refl),
      here (sym (some_injective h)),
    )
    found_or false own ih h = ((ih h).0, there (ih h).1)

-- The pass that started last is the same at both instants, and it is one of the passes.
last_started-Quiet :
    (c t : ℕ) (times : List ℕ) (now : Option Pass) (l : List Pass)
    → Quiet c t times
    → ((x : ℕ) → In x (pass_ends l) → In x times)
    → last_started pass_span now l c ≡ last_started pass_span now l t
last_started-Quiet c t times now [] q h = refl
last_started-Quiet c t times now (p ∷ l) q h =
    if_cong (λ r. r) (λ r. r) _ _ (q p.start_s (h p.start_s (here refl))).0
      (last_started-Quiet c t times (some p) l q (λ x i. h x (there (there i)))) refl

last_started-In :
    (t : ℕ) (now : Option Pass) (l : List Pass) (p : Pass)
    → last_started pass_span now l t ≡ some p
    → (now ≡ some p) ⊎ In p.end_s (pass_ends l)
last_started-In t now [] p = λ h. inl h
last_started-In t now (x ∷ l) p =
    if_split (λ r. r ≡ some p → (now ≡ some p) ⊎ In p.end_s (pass_ends (x ∷ l))) (leb x.start_s t)
      (λ _ h. elim (last_started-In t (some x) l p h) [
        | inl e ↦ inr (there (here (ap (λ (z : Pass). z.end_s) (sym (some_injective e)))))
        | inr i ↦ inr (there (there i))
      ])
      (λ _ h. inl h)

-- The same link with another delay.
abbrev pub delayed : ℕ → Option LinkState → Option LinkState
delayed d none = none
delayed d (some s) = some (record { rate = s.rate; delay = d })

open_or_not :
    (b c : Bool) (r s d e : ℕ)
    → c ≡ b
    → s ≡ r
    → (if b then some (record { rate = r; delay = d }) else none)
      ≡ delayed d (if c then some (record { rate = s; delay = e }) else none)
open_or_not true true r s d e same rates =
    ap (λ (x : ℕ). some (record { rate = x; delay = d })) (sym rates)
open_or_not false false r s d e same rates = refl
open_or_not true false r s d e same rates = absurd (cc)
open_or_not false true r s d e same rates = absurd (cc)

state_at-Quiet :
    (delay_s : ℕ → ℕ → ℕ → ℕ) (tracks : List PairTrack) (station satellite c t : ℕ) (times : List ℕ)
    → Quiet c t times
    → ((x : PairTrack)
        → find_track station satellite tracks ≡ some x
        → Marks times x.passes x.segments)
    → state_at delay_s tracks station satellite t
      ≡ delayed (delay_s station satellite t) (state_at delay_s tracks station satellite c)
unfolding state_at
state_at-Quiet delay_s tracks station satellite c t times q marks =
    elim (Option-cases (find_track station satellite tracks)) [
      | inl e ↦ rw (e, state_at) refl
      | inr (x, e) ↦
          let m = marks x e in
          let same = last_started-Quiet c t times none x.passes q m.0 in
          let rates =
            rate_at-Quiet c t times q x.segments (segment_ends-HasEnds times x.segments m.1) in
          elim (Option-cases (last_started pass_span none x.passes c)) [
            | inl n ↦ rw (state_at, e, n, sym same ∙ n) refl
            | inr (p, f) ↦ elim (last_started-In c none x.passes p f) [
              | inl bad ↦ absurd (cc)
              | inr i ↦
                  rw (state_at, e, f, sym same ∙ f)
                    (open_or_not _ _ _ _ _ _ (q p.end_s (m.0 p.end_s i)).1 rates)
            ]
          ]
    ]

-- What `route_breakpoints` gives has the times of the stations' pairs among its breakpoints.
breakpoints_times :
    (grid : List ℕ) (pairs : List PairResult) (stations : List ℕ) (window : ℕ)
    (breakpoints : List ℕ)
    → route_breakpoints grid pairs stations window ≡ some breakpoints
    → (times : List ℕ) × (pair_times stations pairs ≡ some times)
      × AreBreakpoints grid times window breakpoints
breakpoints_times grid pairs stations window breakpoints h =
    elim (route_breakpoints-AreBreakpoints grid pairs stations window) [
      | inl (_, e) ↦ absurd (cc)
      | inr (times, b, f, e, are) ↦
          (times, f, subst (AreBreakpoints grid times window) (some_injective (sym e ∙ h)) are)
    ]

-- Between the breakpoints a station's links hold: at an instant of the window, a link of one of
-- the stations of `route_breakpoints` is in contact exactly if it was at the latest breakpoint, and
-- with the same rate. Only its delay is that of the instant.
pub state_at-Steady :
    (delay_s : ℕ → ℕ → ℕ → ℕ) (grid : List ℕ) (pairs : List PairResult) (stations : List ℕ)
    (window : ℕ) (breakpoints : List ℕ) (tracks : List PairTrack) (station satellite c t : ℕ)
    → route_breakpoints grid pairs stations window ≡ some breakpoints
    → pair_tracks [] pairs ≡ some tracks
    → elem station stations ≡ true
    → IsLatest breakpoints t c
    → t ≤ window
    → state_at delay_s tracks station satellite t
      ≡ delayed (delay_s station satellite t) (state_at delay_s tracks station satellite c)
state_at-Steady delay_s grid pairs stations window breakpoints tracks station satellite c t h e one
      latest w =
    let (times, f, are) = breakpoints_times grid pairs stations window breakpoints h in
    let marked = pair_tracks-IsMarked stations times pairs [] times tracks tt f (λ x i. i) e in
    state_at-Quiet delay_s tracks station satellite c t times
      (IsLatest-Quiet grid times breakpoints window c t are latest w)
      (λ x found.
        let (own, i) = find_track-In station satellite tracks x found in
        All-In (IsMarked stations times) x tracks marked i
          (subst (λ n. elem n stations ≡ true) (sym own) one))
