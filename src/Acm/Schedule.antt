-- ===== src/Acm/Schedule.antt =====
-- engine/acm.py: the rate segments and events of one pass from its decisions (`_merged`,
-- `_schedule`), and the rule's view of the levels (`_Rule`).
use mathlib.Core.List.{reverse}
use openleo.Prelude.{
  ℕ, ◌+◌, ◌-◌, ◌*◌, min, ltb, leb, ◌==◌, if◌then◌else◌, Bool, true, false, not, ◌&&◌, ◌||◌, Option,
  none, some, List, [], ◌∷◌, String, str_eq, get_or,
}
use openleo.Prelude.Int.{ℤ, pos, leb_ℤ, ltb_ℤ, ◌-ℤ◌}
use openleo.Passes.{Pass}
use openleo.Acm.{Modcod, name, efficiency, required, select_available}

pub record RateSegment : Type 0 where
  pub start_s : ℕ
  pub end_s : ℕ
  pub modcod : Option String
  pub rate_bps : ℕ

pub record ModcodEvent : Type 0 where
  pub decision_s : ℕ
  pub effective_s : ℕ
  pub from_modcod : Option String
  pub to_modcod : Option String

-- A change of the decided state: (t, old, new).
pub record Decision : Type 0 where
  pub time : ℕ
  pub old : Option Modcod
  pub new : Option Modcod

pub record Rule : Type 0 where
  pub delay_s : ℕ
  pub hysteresis_db : ℕ
  pub levels : List ℤ
  pub symbol_rate_baud : ℕ

abbrev pub name_of : Option Modcod → Option String
name_of none = none
name_of (some m) = some (name m)

-- `select`: the highest level reached stands for every level with the same count.
unfoldable pub rule_select : Rule → ℕ → Option Modcod → Option Modcod
rule_select rule count previous =
    select_available rule.hysteresis_db
      (if count == 0
        then get_or rule.levels 0 (pos 0) -ℤ pos 1000000
        else get_or rule.levels (count - 1) (pos 0))
      previous

abbrev pub meets : Rule → Modcod → ℕ → Bool
meets rule m count = not (count == 0) && leb_ℤ (required m) (get_or rule.levels (count - 1) (pos 0))

abbrev pub rate_bps_of : Rule → Option Modcod → ℕ
rate_bps_of rule none = 0
rate_bps_of rule (some m) = rule.symbol_rate_baud * efficiency m

abbrev pub same_modcod : Option Modcod → Option Modcod → Bool
same_modcod none none = true
same_modcod (some a) (some b) = str_eq (name a) (name b)
same_modcod _ _ = false

-- The loop of `_merged`; its list grows at the end, and is kept here with the last entry first.
abbrev pub push_change : ℕ → Option Modcod → Option Modcod → List Decision → List Decision
push_change t old new l =
    if same_modcod new old then l else record { time = t; old = old; new = new } ∷ l

abbrev pub merge_one : Decision → List Decision → List Decision
merge_one d [] = push_change d.time d.old d.new []
merge_one d (e ∷ l) =
    if e.time == d.time
    then push_change d.time e.old d.new l
    else push_change d.time d.old d.new (e ∷ l)

unfoldable pub merge_from : List Decision → List Decision → List Decision
merge_from stack [] = stack
merge_from stack (d ∷ l) = merge_from (merge_one d stack) l

unfoldable pub merged : List Decision → List Decision
merged decisions = reverse (merge_from [] decisions)

abbrev pub events_of : ℕ → ℕ → List Decision → List ModcodEvent
events_of stop delay [] = []
events_of stop delay (d ∷ l) =
    record {
      decision_s = d.time;
      effective_s = min stop (d.time + delay);
      from_modcod = name_of d.old;
      to_modcod = name_of d.new;
    }
    ∷ events_of stop delay l

abbrev pub switches_of : ℕ → ℕ → List Decision → List (ℕ × Option Modcod)
switches_of stop delay [] = []
switches_of stop delay (d ∷ l) =
    if ltb (d.time + delay) stop
    then (d.time + delay, d.new) ∷ switches_of stop delay l
    else switches_of stop delay l

abbrev pub is_downgrade : Option Modcod → Option Modcod → Bool
is_downgrade none new = false
is_downgrade (some o) none = true
is_downgrade (some o) (some n) = ltb_ℤ (required n) (required o)

abbrev pub blackouts_of : ℕ → ℕ → List Decision → List (ℕ × ℕ)
blackouts_of stop delay [] = []
blackouts_of stop delay (d ∷ l) =
    if is_downgrade d.old d.new && ltb 0 delay
    then (d.time, min (d.time + delay) stop) ∷ blackouts_of stop delay l
    else blackouts_of stop delay l

-- `sorted` of a set: each time once, in order.
abbrev pub add_cut : ℕ → List ℕ → List ℕ
add_cut t [] = t ∷ []
add_cut t (c ∷ l) = if ltb t c then t ∷ c ∷ l else if t == c then c ∷ l else c ∷ add_cut t l

abbrev pub inside : ℕ → List (ℕ × ℕ) → Bool
inside t [] = false
inside t ((a, b) ∷ l) = (ltb a t && ltb t b) || inside t l

abbrev pub within : ℕ → List (ℕ × ℕ) → Bool
within t [] = false
within t ((a, b) ∷ l) = (leb a t && ltb t b) || within t l

abbrev pub add_switches : List (ℕ × Option Modcod) → List ℕ → List ℕ
add_switches [] cuts = cuts
add_switches ((t, _) ∷ l) cuts = add_cut t (add_switches l cuts)

abbrev pub add_blackouts : List (ℕ × ℕ) → List ℕ → List ℕ
add_blackouts [] cuts = cuts
add_blackouts ((a, b) ∷ l) cuts = add_cut a (add_cut b (add_blackouts l cuts))

abbrev pub add_reached : List (ℕ × ℕ) → List (ℕ × ℕ) → List ℕ → List ℕ
add_reached blackouts [] cuts = cuts
add_reached blackouts ((t, _) ∷ l) cuts =
    if inside t blackouts
    then add_cut t (add_reached blackouts l cuts)
    else add_reached blackouts l cuts

-- The last switch at or before the time.
abbrev pub in_effect : ℕ → Option Modcod → List (ℕ × Option Modcod) → Option Modcod
in_effect t now [] = now
in_effect t now ((s, new) ∷ l) = in_effect t (if leb s t then new else now) l

-- `levels_reached[bisect_right(reached_t, t) - 1][1]`: the times are in order, so this is the last
-- entry at or before `t`. (With none, Python's index -1 would take the last entry.)
abbrev pub reached_at : ℕ → ℕ → List (ℕ × ℕ) → ℕ
reached_at t now [] = now
reached_at t now ((s, count) ∷ l) = if leb s t then reached_at t count l else now

abbrev pub last_count : ℕ → List (ℕ × ℕ) → ℕ
last_count now [] = now
last_count now ((_, count) ∷ l) = last_count count l

abbrev pub mode_at :
    Rule → List (ℕ × Option Modcod) → List (ℕ × ℕ) → List (ℕ × ℕ) → ℕ → Option Modcod
mode_at rule switches blackouts levels t = elim (in_effect t none switches) [
  | none ↦ none
  | some m ↦
      if within t blackouts && not (meets rule m (reached_at t (last_count 0 levels) levels))
      then none
      else some m
]

abbrev pub same_name : Option String → Option String → Bool
same_name none none = true
same_name (some a) (some b) = str_eq a b
same_name _ _ = false

-- A segment at the end of the list, merged with the last one if they agree.
abbrev pub append_segment : List RateSegment → RateSegment → List RateSegment
append_segment [] s = s ∷ []
append_segment (x ∷ []) s =
    if same_name x.modcod s.modcod && x.rate_bps == s.rate_bps
    then record x { end_s = s.end_s } ∷ []
    else x ∷ s ∷ []
append_segment (x ∷ y ∷ l) s = x ∷ append_segment (y ∷ l) s

module _ (rule : Rule) (mode : ℕ → Option Modcod) where
  abbrev pub segment : ℕ → ℕ → RateSegment
  segment start stop = record {
    start_s = start;
    end_s = stop;
    modcod = name_of (mode start);
    rate_bps = rate_bps_of rule (mode start);
  }

  unfoldable pub segments_of : List RateSegment → List ℕ → List RateSegment
  segments_of acc (a ∷ b ∷ l) = segments_of (append_segment acc (segment a b)) (b ∷ l)
  segments_of acc _ = acc

unfoldable pub cuts_of : Pass → ℕ → List Decision → List (ℕ × ℕ) → List ℕ
cuts_of p delay decisions levels = add_reached (blackouts_of p.end_s delay decisions) levels (
    add_blackouts (blackouts_of p.end_s delay decisions)
      (add_switches (switches_of p.end_s delay decisions) (add_cut p.start_s (add_cut p.end_s []))))

unfoldable pub schedule :
    Pass → List Decision → List (ℕ × ℕ) → Rule → List RateSegment × List ModcodEvent
schedule p decisions levels rule = (
  segments_of rule
      (mode_at rule (switches_of p.end_s rule.delay_s decisions)
        (blackouts_of p.end_s rule.delay_s decisions) levels)
      [] (cuts_of p rule.delay_s decisions levels),
  events_of p.end_s rule.delay_s decisions,
)
