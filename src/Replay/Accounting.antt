-- ===== src/Replay/Accounting.antt =====
-- replay/packet_replay.py: `_accounting`, and `parse_packet_results` with its summaries.
use openleo.Prelude.{
  ℕ, ◌+◌, ◌-◌, ◌*◌, ◌==◌, max, Bool, true, not, ◌||◌, Option, none, some, List, [], ◌∷◌, length,
  if◌then◌else◌, ◌>>=◌,
}
use openleo.Json.Texts.{Text}
use openleo.Replay.{Prepared}
use openleo.Replay.Packets.{
  PacketStatus, received, received_after_window, outage_suppressed, queue_drop, outage_queue_drop,
  rx_outage_drop, end_of_window_drop, send_error, unresolved, Packet,
}
use openleo.Replay.Causal.{parse_packets}

-- A mean is a sum and a count of nanoseconds, and a goodput bits and nanoseconds.
pub record Accounting : Type 0 where
  pub offered_packets : ℕ
  pub admitted_packets : ℕ
  pub received_packets : ℕ
  pub received_in_window_packets : ℕ
  pub received_after_window_packets : ℕ
  pub outage_suppressed_packets : ℕ
  pub queue_drop_packets : ℕ
  pub outage_queue_drop_packets : ℕ
  pub rx_outage_drop_packets : ℕ
  pub end_of_window_drop_packets : ℕ
  pub send_error_packets : ℕ
  pub unresolved_packets : ℕ
  pub goodput_bps : ℕ × ℕ
  pub mean_delay_s : Option (ℕ × ℕ)
  pub max_delay_s : Option ℕ

abbrev pub code_of : PacketStatus → ℕ
code_of received = 0
code_of received_after_window = 1
code_of outage_suppressed = 2
code_of queue_drop = 3
code_of outage_queue_drop = 4
code_of rx_outage_drop = 5
code_of end_of_window_drop = 6
code_of send_error = 7
code_of unresolved = 8

abbrev pub has_status : PacketStatus → Packet → Bool
has_status s r = code_of r.status == code_of s

unfoldable pub count_packets : (Packet → Bool) → List Packet → ℕ
count_packets test [] = 0
count_packets test (r ∷ l) = (if test r then 1 else 0) + count_packets test l

abbrev pub is_admitted : Packet → Bool
is_admitted r = not (has_status outage_suppressed r || has_status send_error r)

abbrev pub is_received : Packet → Bool
is_received r = has_status received r || has_status received_after_window r

abbrev time_or : Option ℕ → ℕ
time_or none = 0
time_or (some t) = t

-- `rx_time_ns - udp_tx_time_ns` of those received in the window, which have both times.
unfoldable pub delays_of : List Packet → List ℕ
delays_of [] = []
delays_of (r ∷ l) =
    let rest = delays_of l in
    if has_status received r then (time_or r.rx_time_ns - time_or r.udp_tx_time_ns) ∷ rest else rest

abbrev total : List ℕ → ℕ
total [] = 0
total (x ∷ l) = x + total l

abbrev largest : ℕ → List ℕ → ℕ
largest m [] = m
largest m (x ∷ l) = largest (max m x) l

abbrev mean_of : List ℕ → Option (ℕ × ℕ)
mean_of [] = none
mean_of (x ∷ l) = some (total (x ∷ l), length (x ∷ l))

abbrev max_of : List ℕ → Option ℕ
max_of [] = none
max_of (x ∷ l) = some (largest x l)

-- `none` selects both directions.
abbrev pub is_selected : Option ℕ → Packet → Bool
is_selected none r = true
is_selected (some d) r = r.direction == d

unfoldable pub selected : Option ℕ → List Packet → List Packet
selected direction [] = []
selected direction (r ∷ l) =
    let rest = selected direction l in if is_selected direction r then r ∷ rest else rest

unfoldable pub accounting : List Packet → Option ℕ → ℕ → ℕ → Accounting
accounting records direction payload duration_ns =
    let chosen = selected direction records in
    let within = count_packets (has_status received) chosen in
    record {
      offered_packets = length chosen;
      admitted_packets = count_packets is_admitted chosen;
      received_packets = count_packets is_received chosen;
      received_in_window_packets = within;
      received_after_window_packets = count_packets (has_status received_after_window) chosen;
      outage_suppressed_packets = count_packets (has_status outage_suppressed) chosen;
      queue_drop_packets = count_packets (has_status queue_drop) chosen;
      outage_queue_drop_packets = count_packets (has_status outage_queue_drop) chosen;
      rx_outage_drop_packets = count_packets (has_status rx_outage_drop) chosen;
      end_of_window_drop_packets = count_packets (has_status end_of_window_drop) chosen;
      send_error_packets = count_packets (has_status send_error) chosen;
      unresolved_packets = count_packets (has_status unresolved) chosen;
      goodput_bps = (within * payload * 8000000000, duration_ns);
      mean_delay_s = mean_of (delays_of chosen);
      max_delay_s = max_of (delays_of chosen);
    }

-- The records, and the summary of each direction.
unfoldable pub parse_packet_results :
    Prepared → List (List Text) → Option (List Packet × (Accounting × Accounting))
parse_packet_results p raws = parse_packets p raws >>= λ records. some (
  records,
  (
    accounting records (some 0) p.packet_size_bytes p.duration_ns,
    accounting records (some 1) p.packet_size_bytes p.duration_ns,
  ),
)
