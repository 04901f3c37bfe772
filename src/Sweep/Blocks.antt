-- ===== src/Sweep/Blocks.antt =====
-- sweep.py: `_window` and `_replay`, the optional blocks of a sweep document.
use openleo.Prelude.{
  check, ◌>>=◌, ◌>>◌, ℕ, ◌*◌, ◌^◌, Bool, true, false, ◌&&◌, ◌||◌, Option, none, some, List, [], ◌∷◌,
}
use openleo.Prelude.Int.{pos, leb_ℤ}
use openleo.Json.{Value, Items, Fields, int, float, string, nil, cons, member}
use openleo.Json.Texts.{Text, text}
use openleo.Sweep.Checks.{
  one_of, only, text_in, number_in, integer_in, array_in, unique_from, get_default, get_null,
}
use openleo.Sweep.Data.{Window, PacketSettings, LinkReplay, NetworkReplay, Replay, object_of}

abbrev pub max_window_s : ℕ
max_window_s = 2678400

unfoldable pub window_of : Value → Option Window
window_of raw = do
  fs ← object_of raw
  check (only (text "start_offset_s" ∷ text "duration_s" ∷ []) [] fs)
  start ← member (text "start_offset_s") fs >>= number_in false 0 max_window_s
  duration ← member (text "duration_s") fs >>= number_in true 0 max_window_s
  some (record { start_offset_s = start; duration_s = duration })

abbrev pub all_numbers : ℕ → ℕ → Items → Bool
all_numbers low high nil = true
all_numbers low high (cons v l) =
    elim (number_in false low high v) [ none ↦ false | some _ ↦ true ] && all_numbers low high l

unfoldable pub loads : Value → Option Items
loads raw = do
  l ← array_in 1 8 raw
  check (all_numbers 1 1000000000 l)
  check (unique_from nil l)
  some l

unfoldable pub packet_settings : Fields → Option PacketSettings
packet_settings fs = do
  size ← integer_in 64 1400 (get_default (text "packet_size_bytes") (int (pos 512)) fs)
  queue ← integer_in 1 10000 (get_default (text "queue_packets") (int (pos 32)) fs)
  seed ← integer_in 1 2147483647 (get_default (text "seed") (int (pos 1)) fs)
  some (record { packet_size_bytes = size; queue_packets = queue; seed = seed })

abbrev packet_keys : List Text
packet_keys = text "packet_size_bytes" ∷ text "queue_packets" ∷ text "seed" ∷ []

unfoldable pub link_replay : Value → Option LinkReplay
link_replay raw = do
  fs ← object_of raw
  check (only (text "station" ∷ text "norad_id" ∷ text "loads_bps" ∷ []) packet_keys fs)
  station ← member (text "station") fs >>= text_in none
  norad ← member (text "norad_id") fs >>= integer_in 1 9007199254740991
  l ← member (text "loads_bps") fs >>= loads
  packet ← packet_settings fs
  some (record { station = station; norad_id = norad; loads_bps = l; packet = packet })

abbrev pub route_models : List Text
route_models = text "minimum_delay" ∷ text "maximum_rate" ∷ text "fixed_capacity" ∷ []

abbrev pub all_models : Items → Bool
all_models nil = true
all_models (cons (string s) l) = one_of s route_models && all_models l
all_models (cons v l) = false

unfoldable pub models_of : Option Value → Option (Option Items)
models_of none = some none
models_of (some raw) = do
  l ← array_in 1 3 raw
  check (all_models l)
  check (unique_from nil l)
  some (some l)

unfoldable pub network_replay : Value → Option NetworkReplay
network_replay raw = do
  fs ← object_of raw
  check (
      only (text "loads_bps" ∷ [])
        (text "routing_models"
          ∷ text "flows_per_direction"
          ∷ text "acquisition_delay_s"
          ∷ packet_keys)
        fs)
  models ← models_of (get_null (text "routing_models") fs)
  l ← member (text "loads_bps") fs >>= loads
  flows ← integer_in 1 4 (get_default (text "flows_per_direction") (int (pos 1)) fs)
  delay ← number_in false 0 60 (get_default (text "acquisition_delay_s") (float (pos 0) 0) fs)
  packet ← packet_settings fs
  some (record {
    routing_models = models;
    loads_bps = l;
    flows_per_direction = flows;
    acquisition_delay_s = delay;
    packet = packet;
  })

-- A block that is there is parsed.
abbrev pub optional {ℓ} : {A : Type ℓ} → (Value → Option A) → Option Value → Option (Option A)
optional parse none = some none
optional parse (some v) = elim (parse v) [ none ↦ none | some a ↦ some (some a) ]

abbrev pub is_some {ℓ} : {A : Type ℓ} → Option A → Bool
is_some none = false
is_some (some a) = true

unfoldable pub replay_of : Value → Option Replay
replay_of raw = do
  fs ← object_of raw
  check (only [] (text "link" ∷ text "network" ∷ []) fs)
  check (is_some (get_null (text "link") fs) || is_some (get_null (text "network") fs))
  link ← optional link_replay (get_null (text "link") fs)
  network ← optional network_replay (get_null (text "network") fs)
  some (record { link = link; network = network })

abbrev pub max_replay_window_s : ℕ
max_replay_window_s = 3600

-- `window["duration_s"] > MAX_REPLAY_WINDOW_S`
abbrev pub is_short : Window → Bool
is_short w = elim w.duration_s [
  | int n ↦ leb_ℤ n (pos max_replay_window_s)
  | float m k ↦ leb_ℤ m (pos (max_replay_window_s * 2 ^ k))
  | _ ↦ false
]
