-- ===== src/Replay/Refused.antt =====
-- replay/packet_replay.py: reports of the backend that `parse_packet_results` refuses.
use openleo.Prelude.{
  zero_plus, ℕ, zero, suc, ◌+◌, ◌*◌, ltb, true, false, none, some, List, [], ◌∷◌, length, get_elem?,
  Option-cases, inl, inr, ◌⊎◌, ◌≢◌, ==_iff, ◌≡◌, refl, sym, subst, ap, ◌∙◌, arith, bind_some,
  check-some, some_injective,
}
use openleo.Json.Texts.{Text}
use openleo.Replay.{Prepared}
use openleo.Replay.Packets.{Packet, read_packet, is_expected, packets_from}
use openleo.Replay.Causal.{parse_packets}
use openleo.Replay.Accounting.{parse_packet_results}
use openleo.Replay.Accepted.{parse_packets-parts}

plus_zero : (n : ℕ) → n ≡ n + 0
plus_zero n = omega arith

plus_suc : (n i : ℕ) → suc n + i ≡ n + suc i
plus_suc n i = omega arith

-- Records that were read are as many as the rows, and each is the next one expected.
packets_from-at :
    (p : Prepared) (index : ℕ) (raws : List (List Text)) (records : List Packet) (i : ℕ)
    (raw : List Text) (r : Packet)
    → packets_from p index raws ≡ some records
    → get_elem? raws i ≡ some raw
    → read_packet p raw ≡ some r
    → is_expected p.interval_ns (index + i) r ≡ true
unfolding packets_from
packets_from-at p index [] records i raw r h g k = cc
packets_from-at p index (x ∷ l) records zero raw r h g k =
    let a = check-some (ltb index (p.offered_packets_per_direction * 2)) h in
    let b = bind_some (read_packet p x) _ a.1 in
    let c = check-some (is_expected p.interval_ns index b.0) b.2 in
    let same = some_injective (sym b.1 ∙ ap (read_packet p) (some_injective g) ∙ k) in
    subst (λ n. is_expected p.interval_ns n r ≡ true) (plus_zero index)
      (subst (λ q. is_expected p.interval_ns index q ≡ true) same c.0)
packets_from-at p index (x ∷ l) records (suc i) raw r h g k =
    let a = check-some (ltb index (p.offered_packets_per_direction * 2)) h in
    let b = bind_some (read_packet p x) _ a.1 in
    let c = check-some (is_expected p.interval_ns index b.0) b.2 in
    let d = bind_some (packets_from p (suc index) l) _ c.1 in
    subst (λ n. is_expected p.interval_ns n r ≡ true) (plus_suc index i)
      (packets_from-at p (suc index) l d.0 i raw r d.1 g k)

packets_from-length :
    (p : Prepared) (index : ℕ) (raws : List (List Text)) (records : List Packet)
    → packets_from p index raws ≡ some records
    → length records ≡ length raws
unfolding packets_from
packets_from-length p index [] records h = ap length (sym (some_injective h))
packets_from-length p index (x ∷ l) records h =
    let a = check-some (ltb index (p.offered_packets_per_direction * 2)) h in
    let b = bind_some (read_packet p x) _ a.1 in
    let c = check-some (is_expected p.interval_ns index b.0) b.2 in
    let d = bind_some (packets_from p (suc index) l) _ c.1 in
    ap length (sym (some_injective d.2)) ∙ ap suc (packets_from-length p (suc index) l d.0 d.1)

false_eq : {B : Type 0} {m n : B} → false ≡ true → m ≡ n
false_eq h = cc

-- A record that can be read and is not of the packet offered at its place.
abbrev pub IsMisplaced : Prepared → List (List Text) → Type 0
IsMisplaced p raws =
    (i : ℕ) × (raw : List Text) × (r : Packet) × (get_elem? raws i ≡ some raw)
    × (read_packet p raw ≡ some r)
    × (is_expected p.interval_ns i r ≡ false)

refuted :
    (p : Prepared) (raws : List (List Text)) (records : List Packet)
    → (length raws ≢ p.offered_packets_per_direction * 2) ⊎ IsMisplaced p raws
    → packets_from p 0 raws ≡ some records
    → length records ≡ p.offered_packets_per_direction * 2
    → false ≡ true
refuted p raws records (inl h) f l = absurd (h (sym (packets_from-length p 0 raws records f) ∙ l))
refuted p raws records (inr (i, raw, r, g, k, h)) f l =
    sym h
    ∙ subst (λ n. is_expected p.interval_ns n r ≡ true) (zero_plus i)
        (packets_from-at p 0 raws records i raw r f g k)

-- A report, empty or not, is refused if it has not two records for each offer, whatever the records
-- are, or if one of its records can be read and is not of the packet offered at its place.
pub parse-Refuses :
    (p : Prepared) (raws : List (List Text))
    → (length raws ≢ p.offered_packets_per_direction * 2) ⊎ IsMisplaced p raws
    → parse_packet_results p raws ≡ none
unfolding parse_packet_results
parse-Refuses p raws h = elim (Option-cases (parse_packets p raws)) [
  | inl e ↦ rw e refl
  | inr (records, e) ↦
      (let q = parse_packets-parts p raws records e in
        false_eq (refuted p raws records h q.1 ((==_iff _ _).0 q.2)))
]
