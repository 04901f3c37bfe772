-- ===== src/Acm.antt =====
-- physics/adaptation.py and engine/acm.py: the DVB-S2 MODCOD rule, and the schedule of a pass.
-- A level is a whole number of micro-decibels and an efficiency of millionths of a bit per symbol,
-- which the table's constants are; a time is a number of ticks.
mod Tests
pub mod Schedule
pub mod Tiling
pub mod Levels
pub mod Select
pub mod Grid
pub mod Walk
pub mod Sampled
use openleo.Prelude.{
  ℕ, ◌+◌, ◌*◌, ◌≤◌, ltb, leb, if◌then◌else◌, Bool, true, false, not, ◌&&◌, ◌||◌, Option, none, some,
  List, [], ◌∷◌, ◌++◌, map, String,
}
use openleo.Prelude.Int.{ℤ, pos, negsuc, leb_ℤ, ltb_ℤ, ◌+ℤ◌, ◌-ℤ◌}

-- The rows of the table MODCODS.
pub data Modcod : Type 0 where
  qpsk_1_4 qpsk_1_2 qpsk_3_4 psk8_2_3 psk8_3_4 : Modcod

abbrev pub modcods : List Modcod
modcods = qpsk_1_4 ∷ qpsk_1_2 ∷ qpsk_3_4 ∷ psk8_2_3 ∷ psk8_3_4 ∷ []

abbrev pub name : Modcod → String
name qpsk_1_4 = "QPSK 1/4"
name qpsk_1_2 = "QPSK 1/2"
name qpsk_3_4 = "QPSK 3/4"
name psk8_2_3 = "8PSK 2/3"
name psk8_3_4 = "8PSK 3/4"

abbrev pub efficiency : Modcod → ℕ
efficiency qpsk_1_4 = 490243
efficiency qpsk_1_2 = 988858
efficiency qpsk_3_4 = 1487473
efficiency psk8_2_3 = 1980636
efficiency psk8_3_4 = 2228124

abbrev pub required : Modcod → ℤ
required qpsk_1_4 = negsuc 2349999
required qpsk_1_2 = pos 1000000
required qpsk_3_4 = pos 4030000
required psk8_2_3 = pos 6620000
required psk8_3_4 = pos 7910000

-- What `__post_init__` admits: the margin and the hysteresis are not negative.
pub record AdaptationConfig : Type 0 where
  pub symbol_rate_baud : ℕ
  pub implementation_margin_db : ℕ
  pub hysteresis_db : ℕ

-- `previous if previous and available_db >= previous.required_esn0_db else None`
abbrev pub retain : ℤ → Option Modcod → Option Modcod
retain available none = none
retain available (some m) = if leb_ℤ (required m) available then some m else none

-- The level that a MODCOD has to reach: hysteresis applies only to upgrades of a lock.
abbrev pub threshold : ℕ → Option Modcod → Modcod → ℤ
threshold hysteresis none m = required m
threshold hysteresis (some r) m =
    if ltb_ℤ (required r) (required m) then required m +ℤ pos hysteresis else required m

-- `max(eligible, key=required, default=None)` keeps the first of equal ones.
abbrev pub better : Option Modcod → Modcod → Option Modcod
better none m = some m
better (some b) m = if ltb_ℤ (required b) (required m) then some m else some b

unfoldable pub best_eligible : (Modcod → Bool) → Option Modcod → List Modcod → Option Modcod
best_eligible ok best [] = best
best_eligible ok best (m ∷ l) = best_eligible ok (if ok m then better best m else best) l

unfoldable pub select_available : ℕ → ℤ → Option Modcod → Option Modcod
unfolding best_eligible
select_available hysteresis available previous =
    best_eligible (λ m. leb_ℤ (threshold hysteresis (retain available previous) m) available) none
      modcods

unfoldable pub select_modcod : ℤ → AdaptationConfig → Option Modcod → Option Modcod
unfolding select_available
select_modcod esn0 config previous =
    select_available config.hysteresis_db (esn0 -ℤ pos config.implementation_margin_db) previous
