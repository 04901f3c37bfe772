-- ===== src/Replay/Accepted.antt =====
-- replay/packet_replay.py: what the parts of `parse_packet_results` accept, if the whole accepts.
use openleo.Prelude.{
  ◌*◌, ◌==◌, leb, true, ◌&&◌, some, List, [], ◌∷◌, length, ◌≡◌, sym, subst, ap, ◌∙◌, In, here,
  there, bind_some, check-some, some_injective, check, ◌>>◌, ◌>>=◌, none,
}
use openleo.Json.Texts.{Text}
use openleo.Replay.{
  Prepared, ceil_div, in_window, max_offered_packets, are_rows, starts_at, ends_at,
  validate_prepared,
}
use openleo.Replay.Packets.{Packet, packets_from}
use openleo.Replay.Causal.{check_packet, check_packets, parse_packets}

pub validate_prepared-parts :
    (p q : Prepared)
    → validate_prepared p ≡ some q
    → (p ≡ q)
      × (leb 1 p.interval_ns ≡ true)
      × (are_rows p.packet_size_bytes none p.trace_rows ≡ true)
      × ((starts_at 0 p.trace_rows && ends_at p.duration_ns p.trace_rows) ≡ true)
unfolding validate_prepared
validate_prepared-parts p q h =
    let a = check-some (leb 1 p.duration_ns) h in
    let b = check-some (leb 1 p.interval_ns) a.1 in
    let c = check-some (in_window 64 1400 p.packet_size_bytes) b.1 in
    let d =
      check-some
        (p.offered_packets_per_direction == ceil_div p.duration_ns p.interval_ns
          && leb (p.offered_packets_per_direction * 2) max_offered_packets
          && p.total_offered_packets == p.offered_packets_per_direction * 2)
        c.1 in
    let e = check-some (in_window 2 4096 (length p.trace_rows)) d.1 in
    let f = check-some (are_rows p.packet_size_bytes none p.trace_rows) e.1 in
    let g = check-some (starts_at 0 p.trace_rows && ends_at p.duration_ns p.trace_rows) f.1 in
    (some_injective g.1, b.0, f.0, g.0)

pub parse_packets-parts :
    (p : Prepared) (raws : List (List Text)) (records : List Packet)
    → parse_packets p raws ≡ some records
    → (validate_prepared p ≡ some p)
      × (packets_from p 0 raws ≡ some records)
      × ((length records == p.offered_packets_per_direction * 2) ≡ true)
      × (check_packets p records ≡ some tt)
unfolding parse_packets
parse_packets-parts p raws records h =
    let v = bind_some (validate_prepared p) _ h in
    let same = sym (validate_prepared-parts p v.0 v.1).0 in
    let k =
      subst
        (λ q.
          (packets_from q 0 raws >>= λ rs.
          check (length rs == q.offered_packets_per_direction * 2)
          >> (check_packets q rs >> some rs))
          ≡ some records)
        same v.2 in
    let f = bind_some (packets_from p 0 raws) _ k in
    let n = check-some (length f.0 == p.offered_packets_per_direction * 2) f.2 in
    let c = bind_some (check_packets p f.0) _ n.1 in
    let e = some_injective c.2 in
    (
      v.1 ∙ ap some same,
      f.1 ∙ ap some e,
      subst (λ rs. (length rs == p.offered_packets_per_direction * 2) ≡ true) e n.0,
      subst (λ rs. check_packets p rs ≡ some tt) e c.1,
    )

pub check_packets-In :
    (p : Prepared) (records : List Packet) (r : Packet)
    → check_packets p records ≡ some tt
    → In r records
    → check_packet p r ≡ some tt
unfolding check_packets
check_packets-In p [] r h m = elim m [ ]
check_packets-In p (s ∷ l) r h (here e) =
    subst (λ x. check_packet p x ≡ some tt) (sym e) (bind_some (check_packet p s) _ h).1
check_packets-In p (s ∷ l) r h (there m) =
    check_packets-In p l r (bind_some (check_packet p s) _ h).2 m
