-- ===== src/Routing/Metrics.antt =====
-- engine/routing.py: `route_metrics` over the intervals of all pairs and models.
use openleo.Prelude.{
  ℕ, ◌+◌, ◌≤◌, ◌≡◌, refl, subst, leb, ltb, ◌==◌, if◌then◌else◌, if_split, option_split, Bool, true,
  false, not, ◌&&◌, ◌||◌, Option, none, some, List, [], ◌∷◌, map, All, arith, count_below-le,
}
use openleo.Measure.{measure, integrate_piecewise}
use openleo.Measure.Union.{Below, covers}
use openleo.Statistics.{sorted_by, is_disjoint}
use openleo.Statistics.Metrics.{Ratio}
use openleo.Statistics.Fractions.{measure-value}
use openleo.Routing.{path_eq}
use openleo.Routing.Evaluate.{RouteModel, Route, same_model}

pub record RouteInterval : Type 0 where
  pub pair_index : ℕ
  pub model : RouteModel
  pub start_s : ℕ
  pub end_s : ℕ
  pub found : Option Route

abbrev pub interval_span : RouteInterval → ℕ × ℕ
interval_span i = (i.start_s, i.end_s)

-- An interval with a route, whose bottleneck is finite.
pub record Connected : Type 0 where
  pub start_s : ℕ
  pub end_s : ℕ
  pub delay_s : ℕ
  pub bottleneck_bps : ℕ

pub record RouteMetrics : Type 0 where
  pub pair_index : ℕ
  pub model : RouteModel
  pub connected_fraction : Ratio
  pub integrated_bottleneck_bits : ℕ
  pub route_changes : ℕ
  pub mean_delay_connected_s : Option Ratio

abbrev pub is_of : ℕ → RouteModel → RouteInterval → Bool
is_of pair model i = i.pair_index == pair && same_model i.model model

abbrev pub group_of : ℕ → RouteModel → List RouteInterval → List RouteInterval
group_of pair model [] = []
group_of pair model (i ∷ l) =
    if is_of pair model i then i ∷ group_of pair model l else group_of pair model l

abbrev pub all_within : ℕ → List RouteInterval → Bool
all_within window [] = true
all_within window (i ∷ l) = leb i.end_s window && all_within window l

-- The intervals with a route; a bottleneck that is infinite is a ValueError.
unfoldable pub connected_of : List RouteInterval → Option (List Connected)
connected_of [] = some []
connected_of (i ∷ l) = elim i.found [
  | none ↦ connected_of l
  | some r ↦ elim r.bottleneck_bps [
    | none ↦ none
    | some b ↦ elim (connected_of l) [
      | none ↦ none
      | some rest ↦ some (
          record { start_s = i.start_s; end_s = i.end_s; delay_s = r.delay_s; bottleneck_bps = b }
          ∷ rest)
    ]
  ]
]

abbrev pub is_change : RouteInterval → RouteInterval → Bool
is_change a b = elim a.found [
  | none ↦ false
  | some r ↦ elim b.found [
    | none ↦ false
    | some s ↦ a.end_s == b.start_s && not (path_eq r.nodes s.nodes)
  ]
]

abbrev pub changes : List RouteInterval → ℕ
changes [] = 0
changes (a ∷ []) = 0
changes (a ∷ b ∷ l) = (if is_change a b then 1 else 0) + changes (b ∷ l)

abbrev pub connected_span : Connected → ℕ × ℕ
connected_span c = (c.start_s, c.end_s)

abbrev pub integral_of : (Connected → ℕ) → List Connected → Option ℕ
integral_of value l =
    integrate_piecewise (map (λ (c : Connected). c.start_s) l) (map (λ (c : Connected). c.end_s) l)
      (map value l)

abbrev pub metrics_from : ℕ → ℕ → RouteModel → List RouteInterval → ℕ → ℕ → ℕ → RouteMetrics
metrics_from window pair model group total bits delay = record {
  pair_index = pair;
  model = model;
  connected_fraction = record { numerator = total; denominator = window };
  integrated_bottleneck_bits = bits;
  route_changes = changes group;
  mean_delay_connected_s =
      if ltb 0 total then some (record { numerator = delay; denominator = total }) else none;
}

-- The metrics of one pair and model, from its intervals in order.
unfoldable pub group_metrics : ℕ → ℕ → RouteModel → List RouteInterval → Option RouteMetrics
group_metrics window pair model group =
    if is_disjoint interval_span group && all_within window group
    then elim (connected_of group) [
      | none ↦ none
      | some l ↦ elim (measure (map connected_span l)) [
        | none ↦ none
        | some total ↦ elim (integral_of (λ (c : Connected). c.bottleneck_bps) l) [
          | none ↦ none
          | some bits ↦ elim (integral_of (λ (c : Connected). c.delay_s) l) [
            | none ↦ none
            | some delay ↦ some (metrics_from window pair model group total bits delay)
          ]
        ]
      ]
    ]
    else none

abbrev pub is_seen : ℕ → RouteModel → List (ℕ × RouteModel) → Bool
is_seen pair model [] = false
is_seen pair model ((p, m) ∷ l) = (p == pair && same_model m model) || is_seen pair model l

-- The groups in the order in which their keys first appear.
unfoldable pub all_metrics :
    ℕ → List RouteInterval → List (ℕ × RouteModel) → List RouteInterval → Option (List RouteMetrics)
all_metrics window intervals seen [] = some []
all_metrics window intervals seen (i ∷ l) =
    let rest = all_metrics window intervals ((i.pair_index, i.model) ∷ seen) l in
    let skipped = all_metrics window intervals seen l in
    if is_seen i.pair_index i.model seen
    then skipped
    else elim (group_metrics window i.pair_index i.model
        (sorted_by interval_span (group_of i.pair_index i.model intervals))) [
          | none ↦ none
          | some m ↦ elim rest [ none ↦ none | some others ↦ some (m ∷ others) ]
        ]

unfoldable pub route_metrics : List RouteInterval → ℕ → Option (List RouteMetrics)
route_metrics intervals window =
    if ltb 0 window then all_metrics window intervals [] intervals else none

-- The connected intervals end within the window.
abbrev Ends : ℕ → Option (List Connected) → Type 0
Ends window none = Unit
Ends window (some l) = Below window (map connected_span l)

connected_of-Ends :
    (window : ℕ) (group : List RouteInterval)
    → all_within window group ≡ true
    → Ends window (connected_of group)
unfolding connected_of
connected_of-Ends window [] h = tt
connected_of-Ends window (i ∷ l) h =
    option_split (Ends window) i.found (λ _. connected_of-Ends window l (ground arith))
      (λ r _.
        option_split (Ends window) r.bottleneck_bps (λ _. tt)
          (λ b _.
            option_split (Ends window) (connected_of l) (λ _. tt)
              (λ rest e.
                (ground arith, subst (Ends window) e (connected_of-Ends window l (ground arith))))))

-- A fraction of the window.
abbrev pub IsFraction : ℕ → RouteMetrics → Type 0
IsFraction window m =
    (m.connected_fraction.denominator ≡ window) × (m.connected_fraction.numerator ≤ window)

abbrev GroupFraction : ℕ → Option RouteMetrics → Type 0
GroupFraction window none = Unit
GroupFraction window (some m) = IsFraction window m

group_metrics-GroupFraction :
    (window pair : ℕ) (model : RouteModel) (group : List RouteInterval)
    → GroupFraction window (group_metrics window pair model group)
unfolding group_metrics
group_metrics-GroupFraction window pair model group =
    let P : Option RouteMetrics → Type 0 = GroupFraction window in
    if_split P (is_disjoint interval_span group && all_within window group)
      (λ ok.
        option_split P (connected_of group) (λ _. tt)
          (λ l c.
            option_split P (measure (map connected_span l)) (λ _. tt)
              (λ total e.
                option_split P (integral_of (λ (c : Connected). c.bottleneck_bps) l) (λ _. tt)
                  (λ bits _.
                    option_split P (integral_of (λ (c : Connected). c.delay_s) l) (λ _. tt)
                      (λ delay _.
                        let inside =
                          subst (Ends window) c (connected_of-Ends window group (ground arith)) in
                        let counted = measure-value window (map connected_span l) total inside e in
                        (
                          refl,
                          omega (
                            arith,
                            counted,
                            count_below-le window (covers (map connected_span l)),
                          ),
                        ))))))
      (λ _. tt)

-- Every entry of the metrics has a fraction of the window.
abbrev pub AllFractions : ℕ → Option (List RouteMetrics) → Type 0
AllFractions window none = Unit
AllFractions window (some l) = All (IsFraction window) l

all_metrics-AllFractions :
    (window : ℕ) (intervals : List RouteInterval) (seen : List (ℕ × RouteModel))
    (l : List RouteInterval)
    → AllFractions window (all_metrics window intervals seen l)
unfolding all_metrics
all_metrics-AllFractions window intervals seen [] = tt
all_metrics-AllFractions window intervals seen (i ∷ l) =
    let P : Option (List RouteMetrics) → Type 0 = AllFractions window in
    let group = sorted_by interval_span (group_of i.pair_index i.model intervals) in
    if_split P (is_seen i.pair_index i.model seen)
      (λ _. all_metrics-AllFractions window intervals seen l)
      (λ _.
        option_split P
          (group_metrics window i.pair_index i.model
            (sorted_by interval_span (group_of i.pair_index i.model intervals)))
          (λ _. tt)
          (λ m e.
            option_split P (all_metrics window intervals ((i.pair_index, i.model) ∷ seen) l)
              (λ _. tt)
              (λ others r. (
                subst (GroupFraction window) e (
                    group_metrics-GroupFraction window i.pair_index i.model
                      (sorted_by interval_span (group_of i.pair_index i.model intervals))),
                subst P r
                    (all_metrics-AllFractions window intervals ((i.pair_index, i.model) ∷ seen) l),
              ))))

-- When `route_metrics` returns, the connected time of each pair and model is over the window and at
-- most the window.
pub route_metrics-AllFractions :
    (intervals : List RouteInterval) (window : ℕ) (metrics : List RouteMetrics)
    → route_metrics intervals window ≡ some metrics
    → All (IsFraction window) metrics
unfolding route_metrics
route_metrics-AllFractions intervals window metrics e = subst (AllFractions window) e (
    if_split (AllFractions window) (ltb 0 window)
      (λ _. all_metrics-AllFractions window intervals [] intervals) (λ _. tt))
