-- ===== src/Acm/Tests.antt =====
-- engine/acm.py: the rule and a pass with a downgrade.
use openleo.Prelude.{
  ◌≤◌, if◌then◌else◌, if_split, true, false, none, some, Option, List, [], ◌∷◌, ◌≡◌, refl, inl, inr,
  arith,
}
use openleo.Prelude.Int.{ℤ, pos, negsuc, ltb_ℤ, ◌+ℤ◌, ◌-ℤ◌, eq_of_parts}
use openleo.Passes.{Pass}
use openleo.Acm.{
  Modcod, AdaptationConfig, qpsk_1_4, qpsk_1_2, best_eligible, select_available, select_modcod,
}
use openleo.Acm.Select.{rank, select-highest}
use openleo.Acm.Schedule.{
  Decision, Rule, segments_of, cuts_of, schedule, rule_select, merged, merge_from,
}
use openleo.Acm.Tiling.{Tiles, Differ, AllRated, schedule-Tiles}
use openleo.Acm.Grid.{walk, pass_segments, members, grid_decisions, segments_on_grid, acm_on_grid}
use openleo.Acm.Sampled.{walk_on_grid, acm_on_grid-walk}
use openleo.Acm.Levels.{In, Increasing, IncreasingList, count_le, rule_of, rule_select-count}

program : Unit {0}
unfolding best_eligible select_available select_modcod segments_of cuts_of schedule rule_select
    merged merge_from ◌+ℤ◌ ◌-ℤ◌ walk pass_segments members grid_decisions segments_on_grid
    acm_on_grid
program = tt

-- At 1.2 dB with a hysteresis of 0.5 dB a new lock takes QPSK 1/2, and QPSK 1/4 is kept.
fresh_lock : select_available 500000 (pos 1200000) none ≡ some qpsk_1_2
unfolding program
fresh_lock = refl

select-highest_example :
    (b : Modcod) × (select_available 500000 (pos 1600000) (some qpsk_1_4) ≡ some b)
    × (rank qpsk_1_2 ≤ rank b)
unfolding program
select-highest_example =
    select-highest 500000 (pos 1600000) (some qpsk_1_4) qpsk_1_2 (inl (omega arith))

abbrev pass : Pass
pass = record {
  start_s = 10;
  end_s = 100;
  culmination_s = 50;
  max_elevation_deg = 40;
  truncated_start = false;
  truncated_end = false;
}

abbrev slow : Rule
slow = record {
  delay_s = 5;
  hysteresis_db = 0;
  levels = negsuc 2349999 ∷ pos 1000000 ∷ [];
  symbol_rate_baud = 2;
}

abbrev decisions : List Decision
decisions =
    record { time = 10; old = none; new = some qpsk_1_2 }
    ∷ record { time = 60; old = some qpsk_1_2; new = some qpsk_1_4 }
    ∷ []

-- The lock takes effect 5 ticks after it is decided, and no frame passes in the downgrade's delay.
blacked_out :
    (schedule pass decisions ((10, 2) ∷ (60, 1) ∷ []) slow).0
    ≡ record { start_s = 10; end_s = 15; modcod = none; rate_bps = 0 }
      ∷ record { start_s = 15; end_s = 60; modcod = some "QPSK 1/2"; rate_bps = 1977716 }
      ∷ record { start_s = 60; end_s = 65; modcod = none; rate_bps = 0 }
      ∷ record { start_s = 65; end_s = 100; modcod = some "QPSK 1/4"; rate_bps = 980486 }
      ∷ []
unfolding program
blacked_out = refl

schedule-Tiles_example :
    let l = (schedule pass decisions ((10, 2) ∷ (60, 1) ∷ []) slow).0 in
    Tiles 10 100 l × Differ l × AllRated slow l
schedule-Tiles_example =
    schedule-Tiles pass decisions ((10, 2) ∷ (60, 1) ∷ []) slow (omega arith) (omega arith)

-- A sorted array without repetitions, and its counts.
insert_level : ℤ → List ℤ → List ℤ
insert_level x [] = x ∷ []
insert_level x (y ∷ l) =
    if ltb_ℤ x y then x ∷ y ∷ l else if ltb_ℤ y x then y ∷ insert_level x l else y ∷ l

unique_levels : List ℤ → List ℤ
unique_levels [] = []
unique_levels (x ∷ l) = insert_level x (unique_levels l)

insert_level-Increasing :
    (b x : ℤ) (l : List ℤ) → ltb_ℤ b x ≡ true → Increasing b l → Increasing b (insert_level x l)
unfolding insert_level
insert_level-Increasing b x [] h s = (h, tt)
insert_level-Increasing b x (y ∷ l) h s =
    if_split (Increasing b) (ltb_ℤ x y) (λ lt. (h, (lt, s.1)))
      (λ _.
        if_split (Increasing b) (ltb_ℤ y x) (λ gt. (s.0, insert_level-Increasing y x l gt s.1))
          (λ _. s))

insert_level-IncreasingList :
    (x : ℤ) (l : List ℤ) → IncreasingList l → IncreasingList (insert_level x l)
unfolding insert_level
insert_level-IncreasingList x [] s = tt
insert_level-IncreasingList x (y ∷ l) s =
    if_split IncreasingList (ltb_ℤ x y) (λ lt. (lt, s))
      (λ _. if_split IncreasingList (ltb_ℤ y x) (λ gt. insert_level-Increasing y x l gt s) (λ _. s))

insert_level-In_self : (x : ℤ) (l : List ℤ) → In x (insert_level x l)
unfolding insert_level
insert_level-In_self x [] = inl refl
insert_level-In_self x (y ∷ l) =
    if_split (In x) (ltb_ℤ x y) (λ _. inl refl)
      (λ ge.
        if_split (In x) (ltb_ℤ y x) (λ _. inr (insert_level-In_self x l))
          (λ le. inl (eq_of_parts x y (ground arith))))

insert_level-In : (x y : ℤ) (l : List ℤ) → In x l → In x (insert_level y l)
unfolding insert_level
insert_level-In x y [] i = absurd i
insert_level-In x y (z ∷ l) (inl e) =
    if_split (In x) (ltb_ℤ y z) (λ _. inr (inl e))
      (λ _. if_split (In x) (ltb_ℤ z y) (λ _. inl e) (λ _. inl e))
insert_level-In x y (z ∷ l) (inr i) =
    if_split (In x) (ltb_ℤ y z) (λ _. inr (inr i))
      (λ _. if_split (In x) (ltb_ℤ z y) (λ _. inr (insert_level-In x y l i)) (λ _. inr i))

unique_levels-IncreasingList : (l : List ℤ) → IncreasingList (unique_levels l)
unfolding unique_levels
unique_levels-IncreasingList [] = tt
unique_levels-IncreasingList (x ∷ l) =
    insert_level-IncreasingList x (unique_levels l) (unique_levels-IncreasingList l)

unique_levels-In : (l : List ℤ) (x : ℤ) → In x l → In x (unique_levels l)
unfolding unique_levels
unique_levels-In [] x i = absurd i
unique_levels-In (y ∷ l) x (inl e) = rw e (insert_level-In_self y (unique_levels l))
unique_levels-In (y ∷ l) x (inr i) = insert_level-In x y (unique_levels l) (unique_levels-In l x i)

rule_select-count_example :
    let rule = rule_of unique_levels count_le 5 500000 2 in
    rule_select rule (count_le rule.levels (pos 1200000)) (some qpsk_1_4)
    ≡ select_available 500000 (pos 1200000) (some qpsk_1_4)
rule_select-count_example =
    rule_select-count unique_levels count_le 5 500000 2 (pos 1200000) (some qpsk_1_4)
      (λ l. (unique_levels-IncreasingList l, unique_levels-In l)) (λ l x s. refl)

abbrev config : AdaptationConfig
config = record { symbol_rate_baud = 2; implementation_margin_db = 0; hysteresis_db = 500000 }

-- A sample outside the pass need not be finite.
abbrev samples : List (Option ℤ)
samples = none ∷ some (pos 1200000) ∷ some (pos 0) ∷ some (pos 0) ∷ none ∷ []

-- The loss of QPSK 1/2 is decided at 20, and its frames are lost until QPSK 1/4 runs.
sampled :
    acm_on_grid unique_levels count_le samples (0 ∷ 10 ∷ 20 ∷ 50 ∷ 100 ∷ []) (pass ∷ []) 5 config
    ≡ some (
      record { start_s = 10; end_s = 15; modcod = none; rate_bps = 0 }
          ∷ record { start_s = 15; end_s = 20; modcod = some "QPSK 1/2"; rate_bps = 1977716 }
          ∷ record { start_s = 20; end_s = 25; modcod = none; rate_bps = 0 }
          ∷ record { start_s = 25; end_s = 100; modcod = some "QPSK 1/4"; rate_bps = 980486 }
          ∷ [],
      record { decision_s = 10; effective_s = 15; from_modcod = none; to_modcod = some "QPSK 1/2" }
          ∷ record {
            decision_s = 20;
            effective_s = 25;
            from_modcod = some "QPSK 1/2";
            to_modcod = some "QPSK 1/4";
          }
          ∷ [],
    )
unfolding program unique_levels insert_level
sampled = refl

acm_on_grid-walk_example :
    acm_on_grid unique_levels count_le samples (0 ∷ 10 ∷ 20 ∷ 50 ∷ 100 ∷ []) (pass ∷ []) 5 config
    ≡ walk_on_grid unique_levels count_le samples (0 ∷ 10 ∷ 20 ∷ 50 ∷ 100 ∷ []) (pass ∷ []) 5 config
acm_on_grid-walk_example =
    acm_on_grid-walk unique_levels count_le samples (0 ∷ 10 ∷ 20 ∷ 50 ∷ 100 ∷ []) (pass ∷ []) 5
      config (λ l. (unique_levels-IncreasingList l, unique_levels-In l)) (λ l x s. refl)
