-- ===== src/Replay/Outages.antt =====
-- replay/packet_replay.py: a packet that is accepted as received was sent and arrived while the
-- trace had the link.
use openleo.Prelude.{
  and_left, and_right, check-true, ℕ, ◌+◌, ◌-◌, ◌≤◌, ◌<◌, ◌==◌, leb, leb→le, Bool, Bool-cases, true,
  false, not, ◌&&◌, ◌||◌, Option, none, some, List, [], ◌∷◌, get_elem?, if◌then◌else◌, ◌≡◌, refl,
  sym, subst, ap, ◌∙◌, ◌⊎◌, inl, inr, arith, In, bind_some, check-some, some_injective, check, ◌>>◌,
}
use openleo.Json.Texts.{Text}
use openleo.Replay.{
  TraceRow, Prepared, starts_at, ends_at, bisect_right, row_before, trace_state, outage_intervals,
  overlaps, nearest_serialization_ns, wire_bits,
}
use openleo.Replay.Packets.{
  Packet, received, received_after_window, PacketStatus, outage_suppressed, queue_drop,
  outage_queue_drop, rx_outage_drop, end_of_window_drop, send_error, unresolved,
}
use openleo.Replay.Causal.{
  has_times_of_status, is_suppressed, is_near, overlap_of, has_outcome, check_packet, parse_packets,
}
use openleo.Replay.Accounting.{is_received, code_of}
use openleo.Replay.Accepted.{validate_prepared-parts, parse_packets-parts, check_packets-In}

abbrev pub is_up : Option TraceRow → Bool
is_up none = false
is_up (some r) = not (r.available == 0)

if_true : {b : Bool} {m : ℕ} (n : ℕ) → b ≡ true → (if b then m else n) ≡ m
if_true n h = rw h refl

if_false : {b : Bool} (m : ℕ) {n : ℕ} → b ≡ false → (if b then m else n) ≡ n
if_false m h = rw h refl

lt_all : (m t : ℕ) → m ≡ 0 → leb m t ≡ true
lt_all m t h = ground (arith, h)

overlaps_tail :
    (r q : TraceRow) (rows : List TraceRow) (a b : ℕ)
    → overlaps a b (outage_intervals (r ∷ q ∷ rows)) ≡ false
    → overlaps a b (outage_intervals (q ∷ rows)) ≡ false
unfolding outage_intervals
overlaps_tail r q rows a b o = go (r.available == 0) o
  where
    go :
        (z : Bool)
        → overlaps a b (
            if z
            then (r.time_ns, q.time_ns) ∷ outage_intervals (q ∷ rows)
            else outage_intervals (q ∷ rows))
          ≡ false
        → overlaps a b (outage_intervals (q ∷ rows)) ≡ false
    go true o = ground (arith, o)
    go false o = o

row_up :
    (r q : TraceRow) (rows : List TraceRow) (a b t : ℕ)
    → overlaps a b (outage_intervals (r ∷ q ∷ rows)) ≡ false
    → a ≤ t
    → t < b
    → r.time_ns ≤ t
    → leb q.time_ns t ≡ false
    → not (r.available == 0) ≡ true
unfolding outage_intervals
row_up r q rows a b t o ha hb hr l = go (r.available == 0) o
  where
    go :
        (z : Bool)
        → overlaps a b (
            if z
            then (r.time_ns, q.time_ns) ∷ outage_intervals (q ∷ rows)
            else outage_intervals (q ∷ rows))
          ≡ false
        → not z ≡ true
    go true o = ground (arith, o, ha, hb, hr, l)
    go false o = refl

-- No outage from `a` to `b`: each row in force between them is available.
rows_up :
    (r : TraceRow) (rows : List TraceRow) (a b t d : ℕ)
    → overlaps a b (outage_intervals (r ∷ rows)) ≡ false
    → a ≤ t
    → t < b
    → r.time_ns ≤ t
    → t < d
    → ends_at d (r ∷ rows) ≡ true
    → is_up (get_elem? (r ∷ rows) (bisect_right rows t)) ≡ true
unfolding outage_intervals
rows_up r [] a b t d o ha hb hr hd he = absurd (ground (arith, he, hr, hd))
rows_up r (q ∷ rows) a b t d o ha hb hr hd he = elim (Bool-cases (leb q.time_ns t)) [
  | inl l ↦
      subst (λ n. is_up (get_elem? (r ∷ q ∷ rows) n) ≡ true) (sym (if_true _ l))
        (rows_up q rows a b t d (overlaps_tail r q rows a b o) ha hb (ground (arith, l)) hd he)
  | inr l ↦
      subst (λ n. is_up (get_elem? (r ∷ q ∷ rows) n) ≡ true) (sym (if_false _ l))
        (row_up r q rows a b t o ha hb hr l)
]

-- The row in force at a time that no outage from `a` to `b` covers is available.
trace_state-up :
    (rows : List TraceRow) (a b t d : ℕ)
    → overlaps a b (outage_intervals rows) ≡ false
    → a ≤ t
    → t < b
    → t < d
    → (starts_at 0 rows && ends_at d rows) ≡ true
    → is_up (trace_state rows t) ≡ true
unfolding trace_state
trace_state-up [] a b t d o ha hb hd h = cc
trace_state-up (r ∷ rows) a b t d o ha hb hd h =
    let l = lt_all r.time_ns t (ground (arith, h)) in
    subst (λ n. is_up (row_before (r ∷ rows) n) ≡ true) (sym (if_true _ l))
      (rows_up r rows a b t d o ha hb (ground (arith, l)) hd (ground (arith, h)))

or_left : (a b : Bool) → (a || b) ≡ false → a ≡ false
or_left a b h = ground arith

or_right : (a b : Bool) → (a || b) ≡ false → b ≡ false
or_right a b h = ground arith

-- A status of arrival excludes an overlap.
received_outcome :
    (s : PacketStatus) (d : ℕ) (overlap : Bool) (rx : Option ℕ)
    → (code_of s == 0 || code_of s == 1) ≡ true
    → has_outcome s d overlap rx ≡ true
    → overlap ≡ false
received_outcome received d overlap rx h o = ground (arith, o)
received_outcome received_after_window d overlap rx h o = ground (arith, o)
received_outcome outage_suppressed d overlap rx h o = cc
received_outcome queue_drop d overlap rx h o = cc
received_outcome outage_queue_drop d overlap rx h o = cc
received_outcome rx_outage_drop d overlap rx h o = cc
received_outcome end_of_window_drop d overlap rx h o = cc
received_outcome send_error d overlap rx h o = cc
received_outcome unresolved d overlap rx h o = cc

check_packet-overlap :
    (p : Prepared) (r : Packet)
    → check_packet p r ≡ some tt
    → is_received r ≡ true
    → overlap_of p.packet_size_bytes p.trace_rows r.phy_tx_time_ns r.rx_time_ns ≡ some false
unfolding check_packet
check_packet-overlap p r h i =
    let a = check-some (r.payload_bytes == p.packet_size_bytes) h in
    let b = check-some (has_times_of_status p.duration_ns (outage_intervals p.trace_rows) r) a.1 in
    let s = bind_some (trace_state p.trace_rows r.offered_time_ns) _ b.1 in
    let c =
      check-some (if is_suppressed r.status then s.0.available == 0 else not (s.0.available == 0))
        s.2 in
    let o =
      bind_some (overlap_of p.packet_size_bytes p.trace_rows r.phy_tx_time_ns r.rx_time_ns) _ c.1 in
    o.1 ∙ ap some (received_outcome r.status p.duration_ns o.0 r.rx_time_ns i (check-true _ o.2))

overlap_of-parts :
    (payload : ℕ) (trace : List TraceRow) (phy rx : ℕ) (state : TraceRow)
    → trace_state trace phy ≡ some state
    → overlap_of payload trace (some phy) (some rx) ≡ some false
    → (overlaps phy (phy + (rx - phy - state.delay_ns)) (outage_intervals trace) ≡ false)
      × (overlaps (rx - (rx - phy - state.delay_ns)) rx (outage_intervals trace) ≡ false)
      × (is_near
            (rx - phy - state.delay_ns)
            (nearest_serialization_ns (wire_bits payload) state.rate_bps)
          ≡ true)
      × (1 ≤ rx - phy - state.delay_ns)
unfolding overlap_of
overlap_of-parts payload trace phy rx state e h =
    let long = rx - phy - state.delay_ns in
    let expected = nearest_serialization_ns (wire_bits payload) state.rate_bps in
    let outages = outage_intervals trace in
    let s = bind_some (trace_state trace phy) _ h in
    let same = some_injective (sym s.1 ∙ e) in
    let k =
      subst
        (λ (q : TraceRow).
          (check (not (q.available == 0))
            >> (check (
                  leb 1 (rx - phy - q.delay_ns)
                  && is_near (rx - phy - q.delay_ns)
                      (nearest_serialization_ns (wire_bits payload) q.rate_bps))
                >> some (
                    overlaps phy (phy + (rx - phy - q.delay_ns)) outages
                    || overlaps (rx - (rx - phy - q.delay_ns)) rx outages)))
          ≡ some false)
        same s.2 in
    let a = check-some (not (state.available == 0)) k in
    let b = check-some (leb 1 long && is_near long expected) a.1 in
    let o = some_injective b.1 in
    let ok = b.0 in
    (or_left _ _ o, or_right _ _ o, and_right _ _ ok, leb→le 1 long (and_left _ _ ok))

-- If a report is accepted with a packet received, in the window or after it, then at each time of the
-- window at which it is sent or arrives the trace has the link, and its time from sending to
-- arrival is the delay plus the time of serialization, to one nanosecond.
pub received-Clear :
    (p : Prepared) (raws : List (List Text)) (records : List Packet) (r : Packet) (phy rx t : ℕ)
    (state : TraceRow)
    → parse_packets p raws ≡ some records
    → In r records
    → is_received r ≡ true
    → r.phy_tx_time_ns ≡ some phy
    → r.rx_time_ns ≡ some rx
    → trace_state p.trace_rows phy ≡ some state
    → ((phy ≤ t) × (t < rx - state.delay_ns)) ⊎ ((phy + state.delay_ns ≤ t) × (t < rx))
    → t < p.duration_ns
    → (is_up (trace_state p.trace_rows t) ≡ true)
      × (is_near
            (rx - phy - state.delay_ns)
            (nearest_serialization_ns (wire_bits p.packet_size_bytes) state.rate_bps)
          ≡ true)
received-Clear p raws records r phy rx t state h m i ephy erx es c hd =
    let q = parse_packets-parts p raws records h in
    let v = validate_prepared-parts p p q.0 in
    let o =
      subst (λ y. overlap_of p.packet_size_bytes p.trace_rows y (some rx) ≡ some false) ephy
        (subst (λ x. overlap_of p.packet_size_bytes p.trace_rows r.phy_tx_time_ns x ≡ some false)
          erx (check_packet-overlap p r (check_packets-In p records r q.3 m) i)) in
    let parts = overlap_of-parts p.packet_size_bytes p.trace_rows phy rx state es o in
    let long = parts.3 in
    (
      elim c [
        | inl k ↦
            trace_state-up p.trace_rows phy _ t p.duration_ns parts.0 k.0 (omega (arith, k.1, long))
              hd v.3
        | inr k ↦
            trace_state-up p.trace_rows _ rx t p.duration_ns parts.1 (omega (arith, k.0, long)) k.1
              hd v.3
      ],
      parts.2,
    )
