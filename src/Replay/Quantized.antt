-- ===== src/Replay/Quantized.antt =====
-- replay/packet_replay.py: the errors that `prepare_packet_replay` reports for whole rates and delays.
use openleo.Prelude.{
  ℕ, ◌+◌, ◌-◌, ◌*◌, ◌≤◌, ◌<◌, leb, ◌&&◌, Option, none, some, List, [], ◌∷◌, length, ◌≡◌, subst, ap,
  arith, bind_some, check-some, some_injective,
}
use native.Mathlib.Nat.{lt-div-mul-add}
use openleo.Replay.{TraceRow, Quantization, Prepared, ceil_div, max_offered_packets}
use openleo.Replay.Prepare.{
  ReplayConfig, Source, SourceState, row_of, rows_of, exact, worse, validate_config,
  link_breakpoints, boundaries, index_of_name, index_of_number, prepare_packet_replay,
}
use openleo.Replay.Rounding.{ns-Nearest}

module _ (per_us unit : ℕ) where
  -- Less than a bit/s, and at most half a nanosecond.
  abbrev pub IsSmall : Quantization → Type 0
  IsSmall q = (q.max_rate_error < unit) × (2 * q.max_delay_error ≤ per_us)

  worse-IsSmall :
      (s : Option SourceState) (q : Quantization)
      → 0 < per_us
      → 0 < unit
      → IsSmall q
      → IsSmall (worse per_us unit s q)
  unfolding worse
  worse-IsSmall none q h k small = small
  worse-IsSmall (some s) q h k small =
      let rate = lt-div-mul-add {a = s.rate} {b = unit} k in
      let near = ns-Nearest per_us s.delay h in
      (omega (arith, rate, k, small.0), omega (arith, near.0, near.1, small.1))

  rows_of-IsSmall :
      (state : ℕ → Option SourceState) (payload : ℕ) (q q2 : Quantization) (l : List (ℕ × ℕ))
      (rows : List TraceRow)
      → 0 < per_us
      → 0 < unit
      → IsSmall q
      → rows_of per_us unit state payload q l ≡ some (rows, q2)
      → IsSmall q2
  unfolding rows_of
  rows_of-IsSmall state payload q q2 [] rows h k small e =
      subst IsSmall (ap (λ s. s.1) (some_injective e)) small
  rows_of-IsSmall state payload q q2 ((m, t) ∷ l) rows h k small e =
      let x = bind_some (row_of per_us unit payload m (state t)) _ e in
      let y =
        bind_some (rows_of per_us unit state payload (worse per_us unit (state t) q) l) _ x.2 in
      subst IsSmall (ap (λ s. s.1) (some_injective y.2)) (
        rows_of-IsSmall state payload (worse per_us unit (state t) q) y.0.1 l y.0.0 h k
          (worse-IsSmall (state t) q h k small) y.1)

  -- The errors that `prepare_packet_replay` reports with a result are below one bit/s for the rates and
  -- at most half a nanosecond for the delays, if a microsecond has a tick and a bit/s a unit.
  pub prepare-IsSmall :
      (s : Source) (c : ReplayConfig) (p : Prepared) (q : Quantization)
      → 0 < per_us
      → 0 < unit
      → prepare_packet_replay per_us unit s c ≡ some (p, q)
      → IsSmall q
  unfolding prepare_packet_replay
  prepare-IsSmall s c p q h k e =
      let v = bind_some (validate_config c) _ e in
      let w =
        check-some (leb c.start_us s.window_us && leb c.duration_us (s.window_us - c.start_us))
          v.2 in
      let i = bind_some (index_of_name c.station_name s.station_names) _ w.1 in
      let j = bind_some (index_of_number c.norad_id s.norad_ids) _ i.2 in
      let start = c.start_us * per_us in
      let stop = (c.start_us + c.duration_us) * per_us in
      let d = c.duration_us * 1000 in
      let bounds = boundaries per_us (link_breakpoints s i.0 j.0 start stop) start stop d in
      let r =
        bind_some (rows_of per_us unit (s.link_state i.0 j.0) c.packet_size_bytes exact bounds) _
          j.2 in
      let n = check-some (leb (length r.0.0) 4096) r.2 in
      let o = check-some (leb (ceil_div d v.0 * 2) max_offered_packets) n.1 in
      subst IsSmall (ap (λ x. x.1) (some_injective o.1)) (
        rows_of-IsSmall (s.link_state i.0 j.0) c.packet_size_bytes exact r.0.1 bounds r.0.0 h k
          (k, omega (arith, h)) r.1)
