-- ===== src/Replay.antt =====
-- replay/packet_replay.py: the trace that the ns-3 backend reads, and the check that it passes before
-- the packets of the backend are parsed.
mod Prepare
mod Packets
mod Causal
mod Accounting
mod Accepted
mod Counts
mod Outages
mod Rounding
mod Rising
mod Valid
mod Ready
mod Quantized
mod Kept
mod Refused
mod Tests
use openleo.Prelude.{
  ℕ, suc, zero, ◌+◌, ◌-◌, ◌*◌, ◌/◌, ◌%◌, leb, ltb, ◌==◌, Bool, true, false, not, ◌&&◌, ◌||◌, Option,
  none, some, List, [], ◌∷◌, length, get_elem?, if◌then◌else◌, ◌>>=◌, check, ◌>>◌,
}

abbrev pub max_rate_bps : ℕ
max_rate_bps = 1000000000000

abbrev pub max_offered_packets : ℕ
max_offered_packets = 200000

abbrev pub max_delay_ns : ℕ
max_delay_ns = 1000000000

pub record TraceRow : Type 0 where
  pub time_ns : ℕ
  pub rate_bps : ℕ
  pub delay_ns : ℕ
  pub available : ℕ

-- The largest errors of the whole rate and delay, in units of the source.
pub record Quantization : Type 0 where
  pub max_rate_error : ℕ
  pub max_delay_error : ℕ

pub record Prepared : Type 0 where
  pub trace_rows : List TraceRow
  pub duration_ns : ℕ
  pub interval_ns : ℕ
  pub offered_packets_per_direction : ℕ
  pub total_offered_packets : ℕ
  pub packet_size_bytes : ℕ

-- `(a + b - 1) // b`
abbrev pub ceil_div : ℕ → ℕ → ℕ
ceil_div a b = (a + b - 1) / b

-- The PPP, IPv4 and UDP headers are 30 bytes.
abbrev pub wire_bits : ℕ → ℕ
wire_bits payload = (payload + 30) * 8

abbrev pub in_window : ℕ → ℕ → ℕ → Bool
in_window low high n = leb low n && leb n high

-- `previous` is -1 before the first row: `none`.
abbrev pub is_later : Option ℕ → ℕ → Bool
is_later none t = true
is_later (some previous) t = ltb previous t

abbrev pub is_row : ℕ → TraceRow → Bool
is_row payload r =
    leb r.rate_bps max_rate_bps
    && leb r.delay_ns max_delay_ns
    && (r.available == 0 || r.available == 1)
    && not (r.available == 0 && not (r.rate_bps == 0))
    && not (r.available == 1 && ltb r.rate_bps 1)
    && not (not (r.rate_bps == 0) && ltb (wire_bits payload * 1000000000) r.rate_bps)

unfoldable pub are_rows : ℕ → Option ℕ → List TraceRow → Bool
are_rows payload previous [] = true
are_rows payload previous (r ∷ rows) =
    is_later previous r.time_ns && is_row payload r && are_rows payload (some r.time_ns) rows

abbrev pub starts_at : ℕ → List TraceRow → Bool
starts_at t [] = false
starts_at t (r ∷ rows) = r.time_ns == t

-- `rows[-1]`
abbrev pub ends_at : ℕ → List TraceRow → Bool
ends_at t [] = false
ends_at t (r ∷ []) = r.time_ns == t
ends_at t (r ∷ s ∷ rows) = ends_at t (s ∷ rows)

-- `_validate_prepared`; the types of the members are those of `Prepared`.
unfoldable pub validate_prepared : Prepared → Option Prepared
validate_prepared p =
    check (leb 1 p.duration_ns)
    >> (check (leb 1 p.interval_ns)
        >> (check (in_window 64 1400 p.packet_size_bytes)
            >> (check (
                  p.offered_packets_per_direction == ceil_div p.duration_ns p.interval_ns
                  && leb (p.offered_packets_per_direction * 2) max_offered_packets
                  && p.total_offered_packets == p.offered_packets_per_direction * 2)
                >> (check (in_window 2 4096 (length p.trace_rows))
                    >> (check (are_rows p.packet_size_bytes none p.trace_rows)
                        >> (check (starts_at 0 p.trace_rows && ends_at p.duration_ns p.trace_rows)
                            >> some p))))))

-- `bisect_right` of rows in order of time: the rows that are not later than `t`.
abbrev pub bisect_right : List TraceRow → ℕ → ℕ
bisect_right [] t = 0
bisect_right (r ∷ rows) t = if leb r.time_ns t then suc (bisect_right rows t) else 0

abbrev pub last_row : List TraceRow → Option TraceRow
last_row [] = none
last_row (r ∷ []) = some r
last_row (r ∷ s ∷ rows) = last_row (s ∷ rows)

-- `rows[n - 1]`, where the index -1 is that of the last row.
abbrev pub row_before : List TraceRow → ℕ → Option TraceRow
row_before rows zero = last_row rows
row_before rows (suc n) = get_elem? rows n

unfoldable pub trace_state : List TraceRow → ℕ → Option TraceRow
trace_state rows t = row_before rows (bisect_right rows t)

-- The times from a row that is not available to the next one.
unfoldable pub outage_intervals : List TraceRow → List (ℕ × ℕ)
outage_intervals [] = []
outage_intervals (r ∷ []) = []
outage_intervals (r ∷ s ∷ rows) =
    let rest = outage_intervals (s ∷ rows) in
    if r.available == 0 then (r.time_ns, s.time_ns) ∷ rest else rest

abbrev pub overlaps : ℕ → ℕ → List (ℕ × ℕ) → Bool
overlaps start stop [] = false
overlaps start stop ((a, b) ∷ l) = (ltb start b && ltb a stop) || overlaps start stop l

-- `_nearest_serialization_ns`
unfoldable pub nearest_serialization_ns : ℕ → ℕ → ℕ
nearest_serialization_ns bits rate =
    bits * 1000000000 / rate + (if leb rate (2 * (bits * 1000000000 % rate)) then 1 else 0)
