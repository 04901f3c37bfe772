-- ===== src/Replay/Ready.antt =====
-- replay/packet_replay.py: `prepare_packet_replay` as a whole: its result is accepted and its errors are
-- small.
use openleo.Prelude.{
  Sorted, both, check_pass, ℕ, ◌+◌, ◌-◌, ◌*◌, ◌≤◌, ◌<◌, leb, leb→le, ◌==◌, ==_iff, true, not, ◌&&◌,
  none, some, List, [], ◌∷◌, ◌++◌, length, if_split, All, ◌≡◌, refl, subst, ap, ◌∙◌, arith,
  bind_some, check-some, some_injective,
}
use openleo.Timegrid.{unique}
use openleo.Timegrid.Spacing.{unique-Sorted}
use openleo.Routing.Breakpoints.{pass_ends, segment_ends}
use openleo.Replay.{
  Quantization, Prepared, ceil_div, in_window, max_offered_packets, are_rows, starts_at, ends_at,
  validate_prepared,
}
use openleo.Replay.Prepare.{
  ReplayConfig, Source, rows_of, is_empty, validate_config, from_to, link_breakpoints, boundaries,
  index_of_name, index_of_number, prepare_packet_replay,
}
use openleo.Replay.Rising.{Rises, boundaries-Rises}
use openleo.Replay.Valid.{rows_of-IsTrace}

from_to-All :
    (P : ℕ → Type 0) (start stop : ℕ) (l : List ℕ) → All P l → All P (from_to start stop l)
from_to-All P start stop [] h = tt
from_to-All P start stop (x ∷ l) h =
    if_split (All P) (leb start x && leb x stop) (λ _. (h.0, from_to-All P start stop l h.1))
      (λ _. from_to-All P start stop l h.1)

from_to-Sorted : (start stop : ℕ) (l : List ℕ) → Sorted l → Sorted (from_to start stop l)
from_to-Sorted start stop [] h = tt
from_to-Sorted start stop (x ∷ l) h =
    if_split Sorted (leb start x && leb x stop)
      (λ _. (from_to-All (λ y. x < y) start stop l h.0, from_to-Sorted start stop l h.1))
      (λ _. from_to-Sorted start stop l h.1)

link_breakpoints-Sorted :
    (s : Source) (station satellite start stop : ℕ)
    → Sorted (link_breakpoints s station satellite start stop)
unfolding link_breakpoints
link_breakpoints-Sorted s station satellite start stop =
    let times =
      s.grid
      ++ (pass_ends (s.passes station satellite) ++ segment_ends (s.segments station satellite)) in
    from_to-Sorted start stop (unique times) (unique-Sorted times)

Rises-length : (d : ℕ) (l : List (ℕ × ℕ)) → 0 < d → Rises 0 d l → 2 ≤ length l
Rises-length d [] h r = absurd (omega (arith, r))
Rises-length d (b ∷ []) h r = absurd (omega (arith, r.1, h))
Rises-length d (b ∷ c ∷ l) h r = omega arith

validate_config-parts :
    (c : ReplayConfig) (interval : ℕ)
    → validate_config c ≡ some interval
    → (1 ≤ c.duration_us) × (in_window 64 1400 c.packet_size_bytes ≡ true) × (1 ≤ interval)
unfolding validate_config
validate_config-parts c interval h =
    let n = ceil_div (c.packet_size_bytes * 8000000000 * 1000000) c.offered_load_ubps in
    let a = check-some (not (is_empty c.station_name)) h in
    let b = check-some (in_window 1 9007199254740991 c.norad_id) a.1 in
    let d = check-some (in_window 1 3600000000 c.duration_us) b.1 in
    let e = check-some (in_window 1000000 1000000000000000 c.offered_load_ubps) d.1 in
    let f = check-some (in_window 64 1400 c.packet_size_bytes) e.1 in
    let g = check-some (in_window 1 10000 c.queue_packets) f.1 in
    let i = check-some (in_window 1 2147483647 c.seed) g.1 in
    let j = check-some (leb 1 n) i.1 in
    let long = d.0 in
    (ground (arith, long), f.0, subst (λ k. 1 ≤ k) (some_injective j.1) (leb→le 1 n j.0))

-- The tests of `validate_prepared`, put together again.
validated :
    (p : Prepared)
    → 1 ≤ p.duration_ns
    → 1 ≤ p.interval_ns
    → in_window 64 1400 p.packet_size_bytes ≡ true
    → p.offered_packets_per_direction ≡ ceil_div p.duration_ns p.interval_ns
    → leb (p.offered_packets_per_direction * 2) max_offered_packets ≡ true
    → p.total_offered_packets ≡ p.offered_packets_per_direction * 2
    → in_window 2 4096 (length p.trace_rows) ≡ true
    → are_rows p.packet_size_bytes none p.trace_rows ≡ true
    → (starts_at 0 p.trace_rows && ends_at p.duration_ns p.trace_rows) ≡ true
    → validate_prepared p ≡ some p
unfolding validate_prepared
validated p a b c d e f g h i =
    check_pass (leb 1 p.duration_ns) (ground (arith, a))
    ∙ check_pass (leb 1 p.interval_ns) (ground (arith, b))
    ∙ check_pass (in_window 64 1400 p.packet_size_bytes) c
    ∙ check_pass
        (p.offered_packets_per_direction == ceil_div p.duration_ns p.interval_ns
          && leb (p.offered_packets_per_direction * 2) max_offered_packets
          && p.total_offered_packets == p.offered_packets_per_direction * 2)
        (both (both ((==_iff _ _).1 d) e) ((==_iff _ _).1 f))
    ∙ check_pass (in_window 2 4096 (length p.trace_rows)) g
    ∙ check_pass (are_rows p.packet_size_bytes none p.trace_rows) h
    ∙ check_pass (starts_at 0 p.trace_rows && ends_at p.duration_ns p.trace_rows) i

module _ (per_us unit : ℕ) where
  -- If there is at least one tick to a microsecond, what `prepare_packet_replay` returns passes
  -- `_validate_prepared`, which leaves it as it is.
  pub prepare-validated :
      (s : Source) (c : ReplayConfig) (p : Prepared) (q : Quantization)
      → 0 < per_us
      → prepare_packet_replay per_us unit s c ≡ some (p, q)
      → validate_prepared p ≡ some p
  unfolding prepare_packet_replay
  prepare-validated s c p q h e =
      let v = bind_some (validate_config c) _ e in
      let w =
        check-some (leb c.start_us s.window_us && leb c.duration_us (s.window_us - c.start_us))
          v.2 in
      let i = bind_some (index_of_name c.station_name s.station_names) _ w.1 in
      let j = bind_some (index_of_number c.norad_id s.norad_ids) _ i.2 in
      let start = c.start_us * per_us in
      let stop = (c.start_us + c.duration_us) * per_us in
      let d = c.duration_us * 1000 in
      let times = link_breakpoints s i.0 j.0 start stop in
      let bounds = boundaries per_us times start stop d in
      let r =
        bind_some
          (rows_of per_us unit (s.link_state i.0 j.0) c.packet_size_bytes
            (record { max_rate_error = 0; max_delay_error = 0 }) bounds)
          _ j.2 in
      let k = check-some (leb (length r.0.0) 4096) r.2 in
      let o = check-some (leb (ceil_div d v.0 * 2) max_offered_packets) k.1 in
      let parts = validate_config-parts c v.0 v.1 in
      let long = parts.0 in
      let rises =
        boundaries-Rises per_us times start stop d h (omega (arith, long))
          (link_breakpoints-Sorted s i.0 j.0 start stop) in
      let t =
        rows_of-IsTrace per_us unit c.packet_size_bytes (s.link_state i.0 j.0) _ r.0.1 bounds 0 d
          none r.0.0 h refl rises r.1 in
      let many = Rises-length d bounds (omega (arith, long)) rises in
      let few = k.0 in
      let count = t.3 in
      subst (λ x. validate_prepared x ≡ some x) (ap (λ x. x.0) (some_injective o.1))
        (validated _ (omega (arith, long)) parts.2 parts.1 refl o.0 refl
          (ground (arith, few, many, count)) t.0 (both t.1 t.2))
