-- ===== src/Replay/Prepare.antt =====
-- replay/packet_replay.py: `_validate_config`, `_window`, `_boundaries` and `prepare_packet_replay`,
-- with `breakpoints` of replay/source.py for one link.
use openleo.Prelude.{
  ℕ, ◌+◌, ◌-◌, ◌*◌, ◌/◌, max, leb, ltb, ◌==◌, Bool, true, false, not, ◌&&◌, ◌||◌, Option, none,
  some, List, [], ◌∷◌, ◌++◌, length, if◌then◌else◌, ◌>>=◌, check, ◌>>◌,
}
use openleo.Timegrid.{unique}
use openleo.Passes.{Pass}
use openleo.Acm.Schedule.{RateSegment}
use openleo.Routing.Breakpoints.{pass_ends, segment_ends}
use openleo.Json.Texts.{Text, text_eq}
use openleo.Replay.{
  TraceRow, Quantization, Prepared, max_rate_bps, max_offered_packets, max_delay_ns, ceil_div,
  wire_bits, in_window,
}

-- A load is a number of microbits per second, and an offset a number of microseconds.
pub record ReplayConfig : Type 0 where
  pub station_name : Text
  pub norad_id : ℕ
  pub start_us : ℕ
  pub duration_us : ℕ
  pub offered_load_ubps : ℕ
  pub packet_size_bytes : ℕ
  pub queue_packets : ℕ
  pub seed : ℕ

abbrev pub is_empty : Text → Bool
is_empty [] = true
is_empty _ = false

-- `_validate_config`: the nanoseconds between two packets.
unfoldable pub validate_config : ReplayConfig → Option ℕ
validate_config c =
    let interval = ceil_div (c.packet_size_bytes * 8000000000 * 1000000) c.offered_load_ubps in
    check (not (is_empty c.station_name))
    >> (check (in_window 1 9007199254740991 c.norad_id)
        >> (check (in_window 1 3600000000 c.duration_us)
            >> (check (in_window 1000000 1000000000000000 c.offered_load_ubps)
                >> (check (in_window 64 1400 c.packet_size_bytes)
                    >> (check (in_window 1 10000 c.queue_packets)
                        >> (check (in_window 1 2147483647 c.seed)
                            >> (check (leb 1 interval) >> some interval)))))))

-- The link at an instant: a rate in units of `1 / unit` bit/s, and a delay in ticks.
pub record SourceState : Type 0 where
  pub rate : ℕ
  pub delay : ℕ

-- A `ReplaySource`, for one link: `link_state` is the evaluation of the link at a tick.
pub record Source : Type 0 where
  pub window_us : ℕ
  pub station_names : List Text
  pub norad_ids : List ℕ
  pub grid : List ℕ
  pub passes : ℕ → ℕ → List Pass
  pub segments : ℕ → ℕ → List RateSegment
  pub link_state : ℕ → ℕ → ℕ → Option SourceState

abbrev pub from_to : ℕ → ℕ → List ℕ → List ℕ
from_to start stop [] = []
from_to start stop (t ∷ l) =
    let rest = from_to start stop l in if leb start t && leb t stop then t ∷ rest else rest

-- `ReplaySource.breakpoints` of a link.
unfoldable pub link_breakpoints : Source → ℕ → ℕ → ℕ → ℕ → List ℕ
link_breakpoints s station satellite start stop = from_to start stop (
    unique (
      s.grid
      ++ (pass_ends (s.passes station satellite) ++ segment_ends (s.segments station satellite))))

-- `index`
abbrev pub index_of_name : Text → List Text → Option ℕ
index_of_name name [] = none
index_of_name name (n ∷ l) =
    let rest = index_of_name name l in
    if text_eq n name then some 0 else (rest >>= λ i. some (1 + i))

abbrev pub index_of_number : ℕ → List ℕ → Option ℕ
index_of_number number [] = none
index_of_number number (n ∷ l) =
    let rest = index_of_number number l in
    if n == number then some 0 else (rest >>= λ i. some (1 + i))

-- `per_us` ticks to a microsecond.
module _ (per_us : ℕ) where
  -- `_ns`: floor(ticks / per_us * 1000 + 1/2).
  unfoldable pub ns : ℕ → ℕ
  ns ticks = (2 * (ticks * 1000) + per_us) / (2 * per_us)

  -- The row that is the last so far is `row`; those before it are final.
  unfoldable pub boundaries_from : ℕ × ℕ → List ℕ → ℕ → ℕ → ℕ → List (ℕ × ℕ)
  boundaries_from row [] start stop duration_ns = row ∷ (duration_ns, stop) ∷ []
  boundaries_from row (t ∷ times) start stop duration_ns =
      let skipped = boundaries_from row times start stop duration_ns in
      let next = boundaries_from (ns (t - start), t) times start stop duration_ns in
      if not (ltb start t && ltb t stop)
      then skipped
      else if leb duration_ns (ns (t - start))
      then skipped
      else if ns (t - start) == row.0
      then next
      else row ∷ next

  unfoldable pub boundaries : List ℕ → ℕ → ℕ → ℕ → List (ℕ × ℕ)
  boundaries times start stop duration_ns = boundaries_from (0, start) times start stop duration_ns

abbrev pub exact : Quantization
exact = record { max_rate_error = 0; max_delay_error = 0 }

-- `per_us` ticks to a microsecond, and `unit` units to a bit/s.
module _ (per_us unit : ℕ) where
  -- One row of the trace.
  unfoldable pub row_of : ℕ → ℕ → Option SourceState → Option TraceRow
  row_of payload time_ns none =
      some (record { time_ns = time_ns; rate_bps = 0; delay_ns = 0; available = 0 })
  row_of payload time_ns (some s) =
      let rate = s.rate / unit in
      check (not ((ltb 0 s.rate && ltb s.rate unit) || ltb (max_rate_bps * unit) s.rate))
      >> (check (leb (s.delay * 1000) (max_delay_ns * per_us))
          >> (check (not (not (rate == 0) && ltb (wire_bits payload * 1000000000) rate))
              >> some (record {
                time_ns = time_ns;
                rate_bps = rate;
                delay_ns = ns per_us s.delay;
                available = if ltb 0 rate then 1 else 0;
              })))

  abbrev pub distance : ℕ → ℕ → ℕ
  distance a b = (a - b) + (b - a)

  unfoldable pub worse : Option SourceState → Quantization → Quantization
  worse none q = q
  worse (some s) q = record {
    max_rate_error = max q.max_rate_error (s.rate - (s.rate / unit) * unit);
    max_delay_error =
        max q.max_delay_error (distance (s.delay * 1000) (ns per_us s.delay * per_us));
  }

  unfoldable pub rows_of :
      (ℕ → Option SourceState)
      → ℕ
      → Quantization
      → List (ℕ × ℕ)
      → Option (List TraceRow × Quantization)
  rows_of state payload q [] = some ([], q)
  rows_of state payload q ((time_ns, t) ∷ l) = row_of payload time_ns (state t) >>= λ r.
      rows_of state payload (worse (state t) q) l >>= λ rest. some (r ∷ rest.0, rest.1)

  unfoldable pub prepare_packet_replay : Source → ReplayConfig → Option (Prepared × Quantization)
  prepare_packet_replay s c = validate_config c >>= λ interval_ns.
      check (leb c.start_us s.window_us && leb c.duration_us (s.window_us - c.start_us))
      >> (index_of_name c.station_name s.station_names >>= λ station.
          index_of_number c.norad_id s.norad_ids >>= λ satellite.
          (let start = c.start_us * per_us in
            let stop = (c.start_us + c.duration_us) * per_us in
            let duration_ns = c.duration_us * 1000 in
            let offered = ceil_div duration_ns interval_ns in
            rows_of (s.link_state station satellite) c.packet_size_bytes
              (record { max_rate_error = 0; max_delay_error = 0 })
              (boundaries per_us (link_breakpoints s station satellite start stop) start stop
                duration_ns)
            >>= λ rows.
                check (leb (length rows.0) 4096)
                >> (check (leb (offered * 2) max_offered_packets)
                    >> some (
                      record {
                        trace_rows = rows.0;
                        duration_ns = duration_ns;
                        interval_ns = interval_ns;
                        offered_packets_per_direction = offered;
                        total_offered_packets = offered * 2;
                        packet_size_bytes = c.packet_size_bytes;
                      },
                      rows.1,
                    ))))
