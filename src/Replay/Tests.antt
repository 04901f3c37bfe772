-- ===== src/Replay/Tests.antt =====
-- replay/packet_replay.py: a link of one microsecond with an outage in its second half.
use openleo.Prelude.{
  ◌-◌, In, ℕ, ◌<◌, ◌≡◌, refl, arith, inl, inr, true, none, some, Option, if◌then◌else◌, List, [],
  ◌∷◌, ◌==◌, here,
}
use openleo.Json.Texts.{Text, text}
use openleo.Replay.{
  TraceRow, Quantization, Prepared, are_rows, validate_prepared, trace_state, outage_intervals,
  nearest_serialization_ns,
}
use openleo.Replay.Prepare.{
  ReplayConfig, Source, SourceState, validate_config, link_breakpoints, ns, boundaries_from,
  boundaries, row_of, worse, rows_of, prepare_packet_replay,
}
use openleo.Replay.Packets.{
  Packet, received, outage_suppressed, status_of, csv_integer, csv_optional, minimum_rate,
  maximum_time, read_packet, packets_from,
}
use openleo.Replay.Causal.{
  has_times_of_status, overlap_of, check_packet, check_packets, parse_packets,
}
use openleo.Replay.Accounting.{
  Accounting, count_packets, delays_of, selected, accounting, parse_packet_results,
}
use openleo.Replay.Counts.{AllCounted, parse-AllCounted}
use openleo.Replay.Outages.{is_up, received-Clear}
use openleo.Replay.Rising.{Rises}
use openleo.Replay.Kept.{HasRow, boundaries-KeepsRows}
use openleo.Replay.Ready.{prepare-validated}
use openleo.Replay.Quantized.{IsSmall, prepare-IsSmall}
use openleo.Replay.Refused.{parse-Refuses}
use openleo.Replay.Causal.{is_near}

program : Unit {0}
unfolding are_rows validate_prepared trace_state outage_intervals nearest_serialization_ns
    validate_config link_breakpoints ns boundaries_from boundaries row_of worse rows_of
    prepare_packet_replay status_of csv_integer csv_optional minimum_rate maximum_time read_packet
    packets_from has_times_of_status overlap_of check_packet check_packets parse_packets
    count_packets delays_of selected accounting parse_packet_results
program = tt

abbrev fast : SourceState
fast = record { rate = 20000000000; delay = 0 }

abbrev link_at : ℕ → Option SourceState
link_at t = if t == 1 then none else some fast

abbrev source : Source
source = record {
  window_us = 10;
  station_names = text "oslo" ∷ text "rome" ∷ [];
  norad_ids = 25544 ∷ [];
  grid = 0 ∷ 2 ∷ 20 ∷ [];
  passes = λ _ _. [];
  segments = λ _ _. record { start_s = 0; end_s = 1; modcod = none; rate_bps = 10000000000 } ∷ [];
  link_state = λ _ _. link_at;
}

abbrev config : ReplayConfig
config = record {
  station_name = text "rome";
  norad_id = 25544;
  start_us = 0;
  duration_us = 1;
  offered_load_ubps = 1000000000000000;
  packet_size_bytes = 64;
  queue_packets = 32;
  seed = 1;
}

abbrev up_row : ℕ → TraceRow
up_row t = record { time_ns = t; rate_bps = 10000000000; delay_ns = 0; available = 1 }

abbrev down_row : ℕ → TraceRow
down_row t = record { time_ns = t; rate_bps = 0; delay_ns = 0; available = 0 }

abbrev prepared : Prepared
prepared = record {
  trace_rows = up_row 0 ∷ down_row 500 ∷ up_row 1000 ∷ [];
  duration_ns = 1000;
  interval_ns = 512;
  offered_packets_per_direction = 2;
  total_offered_packets = 4;
  packet_size_bytes = 64;
}

abbrev no_error : Quantization
no_error = record { max_rate_error = 0; max_delay_error = 0 }

prepare-validated_example : validate_prepared prepared ≡ some prepared
unfolding program
prepare-validated_example = prepare-validated 2 2 source config prepared no_error (omega arith) refl

prepare-IsSmall_example : IsSmall 2 2 no_error
unfolding program
prepare-IsSmall_example =
    prepare-IsSmall 2 2 source config prepared no_error (omega arith) (omega arith) refl

abbrev times : List ℕ
times = 0 ∷ 1 ∷ 2 ∷ 20 ∷ []

boundaries-KeepsRows_example :
    Rises 0 1000 (boundaries 2 times 0 2 1000)
    × ((t : ℕ)
        → In t times
        → 0 < t
        → t < 2
        → ns 2 (t - 0) < 1000
        → HasRow (ns 2 (t - 0)) t (boundaries 2 times 0 2 1000))
boundaries-KeepsRows_example = boundaries-KeepsRows 2 times 0 2 1000 (omega arith) (omega arith) (
  (omega arith, (omega arith, (omega arith, tt))),
  ((omega arith, (omega arith, tt)), ((omega arith, tt), (tt, tt))),
)

abbrev sent : Text → Text → List Text
sent direction arrival =
    direction
    ∷ text "0"
    ∷ text "0"
    ∷ text "0"
    ∷ text "0"
    ∷ arrival
    ∷ text "received"
    ∷ text "64"
    ∷ []

abbrev kept_back : Text → List Text
kept_back direction =
    direction ∷ text "1" ∷ text "512" ∷ [] ∷ [] ∷ [] ∷ text "outage_suppressed" ∷ text "64" ∷ []

abbrev reported : List (List Text)
reported =
    sent (text "0") (text "75")
    ∷ sent (text "1") (text "76")
    ∷ kept_back (text "0")
    ∷ kept_back (text "1")
    ∷ []

abbrev arrived : ℕ → ℕ → Packet
arrived direction rx = record {
  direction = direction;
  sequence = 0;
  offered_time_ns = 0;
  udp_tx_time_ns = some 0;
  phy_tx_time_ns = some 0;
  rx_time_ns = some rx;
  status = received;
  payload_bytes = 64;
}

abbrev suppressed : ℕ → Packet
suppressed direction = record {
  direction = direction;
  sequence = 1;
  offered_time_ns = 512;
  udp_tx_time_ns = none;
  phy_tx_time_ns = none;
  rx_time_ns = none;
  status = outage_suppressed;
  payload_bytes = 64;
}

abbrev packets : List Packet
packets = arrived 0 75 ∷ arrived 1 76 ∷ suppressed 0 ∷ suppressed 1 ∷ []

abbrev summary : ℕ → Accounting
summary direction = accounting packets (some direction) 64 1000

parse-AllCounted_example :
    AllCounted 2 (summary 0)
    × AllCounted 2 (summary 1)
    × AllCounted 4 (accounting packets none 64 1000)
unfolding program
parse-AllCounted_example = parse-AllCounted prepared reported packets (summary 0) (summary 1) refl

received-Clear_example :
    (is_up (trace_state prepared.trace_rows 10) ≡ true)
    × (is_near 75 (nearest_serialization_ns 752 10000000000) ≡ true)
unfolding program
received-Clear_example =
    received-Clear prepared reported packets (arrived 0 75) 0 75 10 (up_row 0) refl (here refl) refl
      refl refl refl (inl (omega arith, omega arith)) (omega arith)

parse-Refuses_example :
    parse_packet_results prepared (sent (text "0") (text "75") ∷ sent (text "0") (text "75") ∷ [])
    ≡ none
unfolding program
parse-Refuses_example =
    parse-Refuses prepared (sent (text "0") (text "75") ∷ sent (text "0") (text "75") ∷ [])
      (inr (1, sent (text "0") (text "75"), arrived 0 75, refl, refl, refl))

empty_report : parse_packet_results prepared [] ≡ none
unfolding program
empty_report = refl
