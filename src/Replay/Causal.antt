-- ===== src/Replay/Causal.antt =====
-- replay/packet_replay.py: the checks of one packet in `parse_packet_results`, and the whole of it.
use openleo.Prelude.{
  ℕ, ◌+◌, ◌-◌, ◌*◌, ◌==◌, leb, ltb, Bool, true, false, not, ◌&&◌, ◌||◌, Option, none, some, List,
  [], ◌∷◌, length, if◌then◌else◌, ◌>>=◌, check, ◌>>◌,
}
use openleo.Json.Texts.{Text}
use openleo.Replay.{
  TraceRow, Prepared, wire_bits, validate_prepared, trace_state, outage_intervals, overlaps,
  nearest_serialization_ns,
}
use openleo.Replay.Packets.{
  PacketStatus, received, received_after_window, outage_suppressed, outage_queue_drop,
  rx_outage_drop, unresolved, Packet, packets_from,
}

abbrev pub has_time : Option ℕ → Bool
has_time none = false
has_time (some t) = true

abbrev pub all_before : ℕ → Option ℕ → Bool
all_before t none = true
all_before t (some s) = ltb s t

abbrev pub all_from : ℕ → Option ℕ → Bool
all_from t none = true
all_from t (some s) = leb t s

abbrev pub has_full_times : PacketStatus → Bool
has_full_times received = true
has_full_times received_after_window = true
has_full_times rx_outage_drop = true
has_full_times _ = false

abbrev pub is_unresolved : PacketStatus → Bool
is_unresolved unresolved = true
is_unresolved _ = false

abbrev pub is_suppressed : PacketStatus → Bool
is_suppressed outage_suppressed = true
is_suppressed _ = false

abbrev present : List (Option ℕ) → List ℕ
present [] = []
present (none ∷ l) = present l
present (some t ∷ l) = t ∷ present l

-- `present != sorted(present)` is false.
abbrev is_sorted : List ℕ → Bool
is_sorted [] = true
is_sorted (x ∷ []) = true
is_sorted (x ∷ y ∷ l) = leb x y && is_sorted (y ∷ l)

-- An outage starts after the packet was admitted and before the end of the window.
abbrev has_onset : ℕ → ℕ → List (ℕ × ℕ) → Bool
has_onset udp duration_ns [] = false
has_onset udp duration_ns ((a, b) ∷ l) =
    (ltb udp a && ltb a duration_ns) || has_onset udp duration_ns l

abbrev onset_after : Option ℕ → ℕ → List (ℕ × ℕ) → Bool
onset_after none duration_ns l = false
onset_after (some udp) duration_ns l = has_onset udp duration_ns l

abbrev is_queue_outage : PacketStatus → Bool
is_queue_outage outage_queue_drop = true
is_queue_outage _ = false

-- Which times a packet of each status has, and their order.
unfoldable pub has_times_of_status : ℕ → List (ℕ × ℕ) → Packet → Bool
has_times_of_status duration_ns outages r =
    (if is_suppressed r.status
      then not (has_time r.udp_tx_time_ns || has_time r.phy_tx_time_ns || has_time r.rx_time_ns)
      else has_time r.udp_tx_time_ns)
    && not (has_full_times r.status && not (has_time r.phy_tx_time_ns && has_time r.rx_time_ns))
    && not (
        not (has_full_times r.status)
        && not (is_unresolved r.status)
        && (has_time r.phy_tx_time_ns || has_time r.rx_time_ns))
    && not (is_unresolved r.status && has_time r.rx_time_ns)
    && not (is_queue_outage r.status && not (onset_after r.udp_tx_time_ns duration_ns outages))
    && is_sorted
        (present (some r.offered_time_ns ∷ r.udp_tx_time_ns ∷ r.phy_tx_time_ns ∷ r.rx_time_ns ∷ []))
    && all_before duration_ns r.udp_tx_time_ns
    && all_before duration_ns r.phy_tx_time_ns

-- Apart by one at most.
abbrev pub is_near : ℕ → ℕ → Bool
is_near a b = leb a (1 + b) && leb b (1 + a)

-- Whether the transmission overlaps an outage; `none` where it cannot have been sent so.
unfoldable pub overlap_of : ℕ → List TraceRow → Option ℕ → Option ℕ → Option Bool
overlap_of payload trace none rx = some false
overlap_of payload trace (some phy) rx = trace_state trace phy >>= λ state.
    check (not (state.available == 0))
    >> (let expected = nearest_serialization_ns (wire_bits payload) state.rate_bps in
        let outages = outage_intervals trace in
        elim rx [
          | none ↦ some (overlaps phy (phy + expected) outages)
          | some x ↦
              (let serialization = x - phy - state.delay_ns in
                check (leb 1 serialization && is_near serialization expected)
                >> some (
                    overlaps phy (phy + serialization) outages
                    || overlaps (x - serialization) x outages))
        ])

-- What the status says of the overlap and of the time of arrival.
abbrev pub has_outcome : PacketStatus → ℕ → Bool → Option ℕ → Bool
has_outcome rx_outage_drop duration_ns overlap rx = overlap
has_outcome received duration_ns overlap rx = not overlap && all_before duration_ns rx
has_outcome received_after_window duration_ns overlap rx = not overlap && all_from duration_ns rx
has_outcome _ duration_ns overlap rx = true

unfoldable pub check_packet : Prepared → Packet → Option (Unit {0})
check_packet p r =
    check (r.payload_bytes == p.packet_size_bytes)
    >> (check (has_times_of_status p.duration_ns (outage_intervals p.trace_rows) r)
        >> (trace_state p.trace_rows r.offered_time_ns >>= λ state.
            check
              (if is_suppressed r.status then state.available == 0 else not (state.available == 0))
            >> (overlap_of p.packet_size_bytes p.trace_rows r.phy_tx_time_ns r.rx_time_ns
                >>= λ overlap. check (has_outcome r.status p.duration_ns overlap r.rx_time_ns))))

unfoldable pub check_packets : Prepared → List Packet → Option (Unit {0})
check_packets p [] = some tt
check_packets p (r ∷ l) = check_packet p r >> check_packets p l

-- The records of `parse_packet_results`; its summaries are in `Accounting`.
unfoldable pub parse_packets : Prepared → List (List Text) → Option (List Packet)
parse_packets prepared raws = validate_prepared prepared >>= λ p.
    packets_from p 0 raws >>= λ records.
    check (length records == p.offered_packets_per_direction * 2)
    >> (check_packets p records >> some records)
