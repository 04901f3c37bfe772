-- ===== src/Replay/Counts.antt =====
-- replay/packet_replay.py: every offered packet is accounted for once.
use openleo.Prelude.{
  ==_iff, ℕ, zero, suc, ◌+◌, ◌*◌, ◌%◌, ◌==◌, ltb, true, Option, none, some, List, [], ◌∷◌, length,
  if◌then◌else◌, ◌≡◌, refl, arith, ap, ◌∙◌, subst, bind_some, check-some, some_injective,
}
use openleo.Json.Texts.{Text}
use openleo.Replay.{Prepared}
use openleo.Replay.Packets.{
  PacketStatus, received, received_after_window, outage_suppressed, queue_drop, outage_queue_drop,
  rx_outage_drop, end_of_window_drop, send_error, unresolved, Packet, read_packet, is_expected,
  packets_from,
}
use openleo.Replay.Causal.{parse_packets}
use openleo.Replay.Accepted.{parse_packets-parts}
use openleo.Replay.Accounting.{
  Accounting, code_of, has_status, is_admitted, is_received, count_packets, selected, accounting,
  parse_packet_results,
}

-- `n` packets were offered, each of which has one of the nine statuses.
abbrev pub AllCounted : ℕ → Accounting → Type 0
AllCounted n a =
    (a.offered_packets ≡ n)
    × (a.received_in_window_packets + a.received_after_window_packets + a.outage_suppressed_packets
          + a.queue_drop_packets + a.outage_queue_drop_packets + a.rx_outage_drop_packets
          + a.end_of_window_drop_packets + a.send_error_packets + a.unresolved_packets
        ≡ n)
    × (a.admitted_packets + a.outage_suppressed_packets + a.send_error_packets ≡ n)
    × (a.received_packets ≡ a.received_in_window_packets + a.received_after_window_packets)

abbrev of_status : PacketStatus → List Packet → ℕ
of_status s l = count_packets (has_status s) l

abbrev is_status : PacketStatus → PacketStatus → ℕ
is_status s t = if code_of t == code_of s then 1 else 0

-- A packet has exactly one status.
one_status :
    (t : PacketStatus)
    → is_status received t
        + is_status received_after_window t
        + is_status outage_suppressed t
        + is_status queue_drop t
        + is_status outage_queue_drop t
        + is_status rx_outage_drop t
        + is_status end_of_window_drop t
        + is_status send_error t
        + is_status unresolved t
      ≡ 1
one_status received = refl
one_status received_after_window = refl
one_status outage_suppressed = refl
one_status queue_drop = refl
one_status outage_queue_drop = refl
one_status rx_outage_drop = refl
one_status end_of_window_drop = refl
one_status send_error = refl
one_status unresolved = refl

-- The nine counts of a list add up to its length.
statuses_sum :
    (l : List Packet)
    → of_status received l
        + of_status received_after_window l
        + of_status outage_suppressed l
        + of_status queue_drop l
        + of_status outage_queue_drop l
        + of_status rx_outage_drop l
        + of_status end_of_window_drop l
        + of_status send_error l
        + of_status unresolved l
      ≡ length l
unfolding count_packets
statuses_sum [] = refl
statuses_sum (r ∷ l) = omega (arith, one_status r.status, statuses_sum l)

admitted_sum :
    (l : List Packet)
    → count_packets is_admitted l + of_status outage_suppressed l + of_status send_error l
      ≡ length l
unfolding count_packets
admitted_sum [] = refl
admitted_sum (r ∷ l) = ground (arith, admitted_sum l)

received_sum :
    (l : List Packet)
    → count_packets is_received l ≡ of_status received l + of_status received_after_window l
unfolding count_packets
received_sum [] = refl
received_sum (r ∷ l) = ground (arith, received_sum l)

AreExpected : ℕ → ℕ → List Packet → Type 0
AreExpected interval_ns index [] = Unit
AreExpected interval_ns index (r ∷ l) =
    (is_expected interval_ns index r ≡ true) × AreExpected interval_ns (suc index) l

packets_from-AreExpected :
    (p : Prepared) (index : ℕ) (raws : List (List Text)) (records : List Packet)
    → packets_from p index raws ≡ some records
    → AreExpected p.interval_ns index records
unfolding packets_from AreExpected
packets_from-AreExpected p index [] records h =
    subst (AreExpected p.interval_ns index) (some_injective h) tt
packets_from-AreExpected p index (raw ∷ l) records h =
    let a = check-some (ltb index (p.offered_packets_per_direction * 2)) h in
    let r = bind_some (read_packet p raw) _ a.1 in
    let e = check-some (is_expected p.interval_ns index r.0) r.2 in
    let rest = bind_some (packets_from p (suc index) l) _ e.1 in
    subst (AreExpected p.interval_ns index) (some_injective rest.2)
      (e.0, packets_from-AreExpected p (suc index) l rest.0 rest.1)

direction_of :
    (interval_ns index : ℕ) (r : Packet)
    → is_expected interval_ns index r ≡ true
    → r.direction ≡ index % 2
direction_of interval_ns index r h = ground (arith, h)

even_mod : (k : ℕ) → k * 2 % 2 ≡ 0
even_mod k = omega arith

odd_mod : (k : ℕ) → suc (k * 2) % 2 ≡ 1
odd_mod k = omega arith

double_suc : (k : ℕ) → suc (suc (k * 2)) ≡ suc k * 2
double_suc k = omega arith

accounting-AllCounted :
    (n : ℕ) (records : List Packet) (direction : Option ℕ) (payload duration_ns : ℕ)
    → length (selected direction records) ≡ n
    → AllCounted n (accounting records direction payload duration_ns)
unfolding accounting
accounting-AllCounted n records direction payload duration_ns h =
    let l = selected direction records in
    (h, statuses_sum l ∙ h, admitted_sum l ∙ h, received_sum l)

selected-none : (l : List Packet) → selected none l ≡ l
unfolding selected
selected-none [] = refl
selected-none (r ∷ l) = ap (λ rest. r ∷ rest) (selected-none l)

-- The directions alternate.
directions :
    (interval_ns n k : ℕ) (l : List Packet)
    → length l ≡ n * 2
    → AreExpected interval_ns (k * 2) l
    → (length (selected (some 0) l) ≡ n) × (length (selected (some 1) l) ≡ n)
unfolding AreExpected selected
directions interval_ns zero k [] h e = (refl, refl)
directions interval_ns (suc n) k [] h e = absurd (omega arith)
directions interval_ns zero k (r ∷ l) h e = absurd (omega arith)
directions interval_ns n k (r ∷ []) h e = absurd (omega arith)
directions interval_ns (suc n) k (r ∷ s ∷ l) h e =
    let ih =
      directions interval_ns n (suc k) l (omega arith)
        (subst (λ i. AreExpected interval_ns i l) (double_suc k) e.1.1) in
    let first = direction_of interval_ns (k * 2) r e.0 in
    let second = direction_of interval_ns (suc (k * 2)) s e.1.0 in
    let even = even_mod k in
    let odd = odd_mod k in
    (ground (arith, first, second, even, odd, ih.0), ground (arith, first, second, even, odd, ih.1))

-- If a report is accepted, the summary of each direction has as many packets as were offered in it:
-- the nine counts of a status add up to them, and so do the admitted, the suppressed and those with a
-- send error; the received are those in the window and after it. The same holds of both
-- directions together.
pub parse-AllCounted :
    (p : Prepared) (raws : List (List Text)) (records : List Packet) (down up : Accounting)
    → parse_packet_results p raws ≡ some (records, (down, up))
    → AllCounted p.offered_packets_per_direction down
      × AllCounted p.offered_packets_per_direction up
      × AllCounted
          (p.offered_packets_per_direction * 2)
          (accounting records none p.packet_size_bytes p.duration_ns)
unfolding parse_packet_results
parse-AllCounted p raws records down up h =
    let n = p.offered_packets_per_direction in
    let r = bind_some (parse_packets p raws) _ h in
    let e = some_injective r.2 in
    let q = parse_packets-parts p raws r.0 r.1 in
    let long = (==_iff (length r.0) (n * 2)).0 q.2 in
    let d = directions p.interval_ns n 0 r.0 long (packets_from-AreExpected p 0 raws r.0 q.1) in
    let payload = p.packet_size_bytes in
    (
      subst (AllCounted n) (ap (λ s. s.1.0) e)
          (accounting-AllCounted n r.0 (some 0) payload p.duration_ns d.0),
      subst (AllCounted n) (ap (λ s. s.1.1) e)
          (accounting-AllCounted n r.0 (some 1) payload p.duration_ns d.1),
      subst (λ rs. AllCounted (n * 2) (accounting rs none payload p.duration_ns)) (ap (λ s. s.0) e)
          (accounting-AllCounted (n * 2) r.0 none payload p.duration_ns
            (ap length (selected-none r.0) ∙ long)),
    )
