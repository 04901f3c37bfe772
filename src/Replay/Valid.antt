-- ===== src/Replay/Valid.antt =====
-- replay/packet_replay.py: what `prepare_packet_replay` makes passes `_validate_prepared`.
use openleo.Prelude.{
  ℕ, suc, ◌*◌, ◌/◌, ◌≤◌, ◌<◌, leb, ltb, leb→le, ◌==◌, ==_iff, true, not, ◌&&◌, ◌||◌, Option, none,
  some, List, [], ◌∷◌, length, if◌then◌else◌, ◌≡◌, refl, sym, subst, ap, ◌∙◌, arith, bind_some,
  check-some, some_injective,
}
use native.Mathlib.Nat.{div-le_of_le-mul}
use openleo.Replay.{
  TraceRow, Quantization, is_row, is_later, are_rows, starts_at, ends_at, max_rate_bps,
  max_delay_ns, wire_bits,
}
use openleo.Replay.Prepare.{SourceState, ns, row_of, rows_of, worse}
use openleo.Replay.Rounding.{ns-bound}
use openleo.Replay.Rising.{Rises}

row_values :
    (payload time_ns rate delay : ℕ)
    → rate ≤ max_rate_bps
    → delay ≤ max_delay_ns
    → not (not (rate == 0) && ltb (wire_bits payload * 1000000000) rate) ≡ true
    → is_row payload (record {
      time_ns = time_ns;
      rate_bps = rate;
      delay_ns = delay;
      available = if ltb 0 rate then 1 else 0;
    })
      ≡ true
row_values payload time_ns rate delay h d w = ground (arith, h, d, w)

rate_bound :
    (rate unit : ℕ)
    → not ((ltb 0 rate && ltb rate unit) || ltb (max_rate_bps * unit) rate) ≡ true
    → rate ≤ unit * max_rate_bps
rate_bound rate unit h = ground (arith, h)

row_of-is_row :
    (per_us unit payload time_ns : ℕ) (state : Option SourceState) (r : TraceRow)
    → 0 < per_us
    → row_of per_us unit payload time_ns state ≡ some r
    → (r.time_ns ≡ time_ns) × (is_row payload r ≡ true)
unfolding row_of
row_of-is_row per_us unit payload time_ns none r h e = (
  ap (λ (q : TraceRow). q.time_ns) (sym (some_injective e)),
  subst (λ q. is_row payload q ≡ true) (some_injective e) refl,
)
row_of-is_row per_us unit payload time_ns (some s) r h e =
    let a =
      check-some (not ((ltb 0 s.rate && ltb s.rate unit) || ltb (max_rate_bps * unit) s.rate)) e in
    let b = check-some (leb (s.delay * 1000) (max_delay_ns * per_us)) a.1 in
    let c =
      check-some
        (not (not (s.rate / unit == 0) && ltb (wire_bits payload * 1000000000) (s.rate / unit)))
        b.1 in
    let e = some_injective c.1 in
    (
      ap (λ (q : TraceRow). q.time_ns) (sym e),
      subst (λ q. is_row payload q ≡ true) e
          (row_values payload time_ns (s.rate / unit) (ns per_us s.delay)
            (div-le_of_le-mul unit (rate_bound s.rate unit a.0))
            (ns-bound per_us s.delay h (leb→le (s.delay * 1000) (max_delay_ns * per_us) b.0)) c.0),
    )

-- What the check asks of rows that start at `n` and end at `d`.
abbrev pub IsTrace : ℕ → Option ℕ → ℕ → ℕ → ℕ → List TraceRow → Type 0
IsTrace payload previous n d count rows =
    (are_rows payload previous rows ≡ true)
    × (starts_at n rows ≡ true)
    × (ends_at d rows ≡ true)
    × (length rows ≡ count)

IsTrace-one :
    (payload : ℕ) (previous : Option ℕ) (n d : ℕ) (r : TraceRow)
    → is_later previous n ≡ true
    → r.time_ns ≡ n
    → n ≡ d
    → is_row payload r ≡ true
    → IsTrace payload previous n d 1 (r ∷ [])
unfolding are_rows
IsTrace-one payload previous n d r i e f g =
    let later = subst (λ k. is_later previous k ≡ true) (sym e) i in
    (ground (arith, later, g), (==_iff r.time_ns n).1 e, (==_iff r.time_ns d).1 (e ∙ f), refl)

ends_at-cons :
    (d k : ℕ) (r : TraceRow) (rows : List TraceRow)
    → length rows ≡ suc k
    → ends_at d rows ≡ true
    → ends_at d (r ∷ rows) ≡ true
ends_at-cons d k r [] e h = absurd (omega (arith, e))
ends_at-cons d k r (q ∷ rows) e h = h

IsTrace-cons :
    (payload : ℕ) (previous : Option ℕ) (n m d k : ℕ) (r : TraceRow) (rows : List TraceRow)
    → is_later previous n ≡ true
    → r.time_ns ≡ n
    → is_row payload r ≡ true
    → IsTrace payload (some r.time_ns) m d (suc k) rows
    → IsTrace payload previous n d (suc (suc k)) (r ∷ rows)
unfolding are_rows
IsTrace-cons payload previous n m d k r rows i e g t =
    let later = subst (λ k. is_later previous k ≡ true) (sym e) i in
    let rest = t.0 in
    (
      ground (arith, later, g, rest),
      (==_iff r.time_ns n).1 e,
      ends_at-cons d k r rows t.3 t.2,
      ap suc t.3,
    )

pub rows_of-IsTrace :
    (per_us unit payload : ℕ) (state : ℕ → Option SourceState) (q q2 : Quantization)
    (l : List (ℕ × ℕ)) (n d : ℕ) (previous : Option ℕ) (rows : List TraceRow)
    → 0 < per_us
    → is_later previous n ≡ true
    → Rises n d l
    → rows_of per_us unit state payload q l ≡ some (rows, q2)
    → IsTrace payload previous n d (length l) rows
unfolding rows_of
rows_of-IsTrace per_us unit payload state q q2 [] n d previous rows h i r e =
    absurd (omega (arith, r))
rows_of-IsTrace per_us unit payload state q q2 ((m, t) ∷ []) n d previous rows h i r e =
    let x = bind_some (row_of per_us unit payload m (state t)) _ e in
    let good = row_of-is_row per_us unit payload m (state t) x.0 h x.1 in
    subst (IsTrace payload previous n d 1) (ap (λ s. s.0) (some_injective x.2))
      (IsTrace-one payload previous n d x.0 i (good.0 ∙ r.0) r.1 good.1)
rows_of-IsTrace per_us unit payload state q q2 ((m, t) ∷ c ∷ l) n d previous rows h i r e =
    let x = bind_some (row_of per_us unit payload m (state t)) _ e in
    let y =
      bind_some (rows_of per_us unit state payload (worse per_us unit (state t) q) (c ∷ l)) _ x.2 in
    let good = row_of-is_row per_us unit payload m (state t) x.0 h x.1 in
    let time = good.0 ∙ r.0 in
    let below = r.1.0 in
    let ih =
      rows_of-IsTrace per_us unit payload state (worse per_us unit (state t) q) y.0.1 (c ∷ l) c.0 d
        (some x.0.time_ns) y.0.0 h (ground (arith, time, below)) (refl, r.1.1) y.1 in
    subst (IsTrace payload previous n d (suc (suc (length l)))) (ap (λ s. s.0) (some_injective y.2))
      (IsTrace-cons payload previous n c.0 d (length l) x.0 y.0.0 i time good.1 ih)
