-- ===== src/Replay/Packets.antt =====
-- replay/packet_replay.py: `parse_packet_results`, on the records that csv.reader yields after the
-- header.
use openleo.Prelude.{
  ℕ, suc, ◌+◌, ◌-◌, ◌*◌, ◌/◌, ◌%◌, ◌==◌, max, min, leb, ltb, Bool, true, false, not, ◌&&◌, Option,
  none, some, List, [], ◌∷◌, length, if◌then◌else◌, ◌>>=◌, check, ◌>>◌,
}
use openleo.Json.Texts.{Text, text, text_eq}
use openleo.Patch.Pointer.{all_digits, number_from}
use openleo.Replay.{TraceRow, Prepared, ceil_div, wire_bits}

pub data PacketStatus : Type 0 where
  received received_after_window outage_suppressed queue_drop outage_queue_drop : PacketStatus
  rx_outage_drop end_of_window_drop send_error unresolved : PacketStatus

abbrev status_text : PacketStatus → Text
status_text received = text "received"
status_text received_after_window = text "received_after_window"
status_text outage_suppressed = text "outage_suppressed"
status_text queue_drop = text "queue_drop"
status_text outage_queue_drop = text "outage_queue_drop"
status_text rx_outage_drop = text "rx_outage_drop"
status_text end_of_window_drop = text "end_of_window_drop"
status_text send_error = text "send_error"
status_text unresolved = text "unresolved"

abbrev statuses : List PacketStatus
statuses =
    received ∷ received_after_window ∷ outage_suppressed ∷ queue_drop ∷ outage_queue_drop
    ∷ rx_outage_drop ∷ end_of_window_drop ∷ send_error ∷ unresolved ∷ []

abbrev find_status : Text → List PacketStatus → Option PacketStatus
find_status t [] = none
find_status t (s ∷ l) = if text_eq t (status_text s) then some s else find_status t l

unfoldable pub status_of : Text → Option PacketStatus
status_of t = find_status t statuses

pub record Packet : Type 0 where
  pub direction : ℕ
  pub sequence : ℕ
  pub offered_time_ns : ℕ
  pub udp_tx_time_ns : Option ℕ
  pub phy_tx_time_ns : Option ℕ
  pub rx_time_ns : Option ℕ
  pub status : PacketStatus
  pub payload_bytes : ℕ

abbrev is_blank_text : Text → Bool
is_blank_text [] = true
is_blank_text _ = false

-- `int` refuses more than 4300 digits.
unfoldable pub csv_integer : Text → ℕ → Option ℕ
csv_integer value maximum =
    check (not (is_blank_text value) && all_digits value)
    >> (check (leb (length value) 4300)
        >> (check (leb (number_from 0 value) maximum) >> some (number_from 0 value)))

-- `optional=True`: no text is no number.
unfoldable pub csv_optional : Text → ℕ → Option (Option ℕ)
csv_optional value maximum =
    if is_blank_text value then some none else csv_integer value maximum >>= λ n. some (some n)

-- The smallest rate that is not 0, of all rows but the last.
unfoldable pub minimum_rate : List TraceRow → Option ℕ
minimum_rate [] = none
minimum_rate (r ∷ []) = none
minimum_rate (r ∷ s ∷ rows) =
    let rest = minimum_rate (s ∷ rows) in
    if r.rate_bps == 0
    then rest
    else elim rest [ none ↦ some r.rate_bps | some m ↦ some (min r.rate_bps m) ]

abbrev max_delay : List TraceRow → ℕ
max_delay [] = 0
max_delay (r ∷ rows) = max r.delay_ns (max_delay rows)

unfoldable pub maximum_time : Prepared → ℕ
maximum_time p =
    p.duration_ns + 1000000000 + max_delay p.trace_rows + (elim (minimum_rate p.trace_rows) [
      | none ↦ 0
      | some rate ↦ ceil_div (wire_bits p.packet_size_bytes * 1000000000) rate
    ])

unfoldable pub read_packet : Prepared → List Text → Option Packet
read_packet p (d ∷ q ∷ o ∷ u ∷ y ∷ x ∷ s ∷ b ∷ []) = csv_integer d 1 >>= λ direction.
    csv_integer q (p.offered_packets_per_direction - 1) >>= λ sequence.
    csv_integer o (p.duration_ns - 1) >>= λ offered. csv_optional u (maximum_time p) >>= λ udp.
    csv_optional y (maximum_time p) >>= λ phy. csv_optional x (maximum_time p) >>= λ rx.
    csv_integer b 1400 >>= λ payload. status_of s >>= λ status. some (record {
      direction = direction;
      sequence = sequence;
      offered_time_ns = offered;
      udp_tx_time_ns = udp;
      phy_tx_time_ns = phy;
      rx_time_ns = rx;
      status = status;
      payload_bytes = payload;
    })
read_packet p _ = none

-- The packet with this index in the order of the offers.
abbrev pub is_expected : ℕ → ℕ → Packet → Bool
is_expected interval_ns index r =
    r.offered_time_ns == index / 2 * interval_ns
    && r.direction == index % 2
    && r.sequence == index / 2

unfoldable pub packets_from : Prepared → ℕ → List (List Text) → Option (List Packet)
packets_from p index [] = some []
packets_from p index (raw ∷ l) =
    check (ltb index (p.offered_packets_per_direction * 2))
    >> (read_packet p raw >>= λ r.
        check (is_expected p.interval_ns index r)
        >> (packets_from p (suc index) l >>= λ rest. some (r ∷ rest)))
