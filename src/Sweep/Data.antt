-- ===== src/Sweep/Data.antt =====
-- sweep.py: what a checked sweep document holds. A ValueError is `none`.
use openleo.Prelude.{ℕ, Bool, Option, none, some, List}
use openleo.Json.{Value, Items, Fields, object}
use openleo.Json.Texts.{Text}

pub data Mode : Type 0 where
  oat grid variants : Mode

abbrev pub max_runs : ℕ
max_runs = 512

pub record Parameter : Type 0 where
  pub path : Text
  pub place : List Text
  pub values : Items
  pub nominal : Option Value

pub record Variant : Type 0 where
  pub id : Text
  pub label : Text
  pub patch : Items
  pub baseline : Bool

pub record Window : Type 0 where
  pub start_offset_s : Value
  pub duration_s : Value

pub record PacketSettings : Type 0 where
  pub packet_size_bytes : ℕ
  pub queue_packets : ℕ
  pub seed : ℕ

pub record LinkReplay : Type 0 where
  pub station : Text
  pub norad_id : ℕ
  pub loads_bps : Items
  pub packet : PacketSettings

pub record NetworkReplay : Type 0 where
  pub routing_models : Option Items
  pub loads_bps : Items
  pub flows_per_direction : ℕ
  pub acquisition_delay_s : Value
  pub packet : PacketSettings

pub record Replay : Type 0 where
  pub link : Option LinkReplay
  pub network : Option NetworkReplay

pub record Spec : Type 0 where
  pub name : Text
  pub base_scenario : Text
  pub mode : Mode
  pub parameters : List Parameter
  pub variant_list : List Variant
  pub window : Option Window
  pub replay : Option Replay
  pub limit : ℕ

-- `_object`, with its members.
abbrev pub object_of : Value → Option Fields
object_of (object fs) = some fs
object_of _ = none
