-- ===== src/Replay/Rounding.antt =====
-- replay/packet_replay.py: the rounding of times, delays and serialization times.
use openleo.Prelude.{
  ℕ, ◌+◌, ◌*◌, ◌/◌, ◌%◌, ◌≤◌, ◌<◌, leb, leb→le, if◌then◌else◌, ◌≡◌, arith, Bool-cases, inl, inr,
}
use native.Mathlib.Nat.{
  le-div_iff_mul-le, div-lt_iff_lt-mul, div-add-mod', div-mul-le_self, lt-div-mul-add, mod-lt,
}
use openleo.Replay.{nearest_serialization_ns, max_delay_ns}
use openleo.Replay.Prepare.{ns}

pub div_mono : (a b k : ℕ) → 0 < k → a ≤ b → a / k ≤ b / k
div_mono a b k h l = let m = div-mul-le_self a k in (le-div_iff_mul-le h).1 (omega (arith, m, l))

pub ns_mono : (per_us a b : ℕ) → 0 < per_us → a ≤ b → ns per_us a ≤ ns per_us b
unfolding ns
ns_mono per_us a b h l =
    div_mono (2 * (a * 1000) + per_us) (2 * (b * 1000) + per_us) (2 * per_us) (omega (arith, h))
      (omega (arith, l))

pub ns-zero : (per_us : ℕ) → 0 < per_us → ns per_us 0 ≡ 0
unfolding ns
ns-zero per_us h =
    let l =
      (div-lt_iff_lt-mul {k = 2 * per_us} {x = 2 * (0 * 1000) + per_us} {y = 1}
          (omega (arith, h))).1
        (omega (arith, h)) in
    omega (arith, l)

pub ns-bound :
    (per_us ticks : ℕ)
    → 0 < per_us
    → ticks * 1000 ≤ max_delay_ns * per_us
    → ns per_us ticks ≤ max_delay_ns
unfolding ns
ns-bound per_us ticks h l =
    let k =
      (div-lt_iff_lt-mul {k = 2 * per_us} {x = 2 * (ticks * 1000) + per_us} {y = 1000000001}
          (omega (arith, h))).1
        (omega (arith, h, l)) in
    omega (arith, k)

double_mul : (q k : ℕ) → q * (2 * k) ≡ 2 * (q * k)
double_mul q k = omega arith

suc_mul : (q k : ℕ) → (q + 1) * k ≡ q * k + k
suc_mul q k = omega arith

rounded :
    (q m rate n : ℕ)
    → q * rate + m ≡ n
    → m < rate
    → (2 * ((q + (if leb rate (2 * m) then 1 else 0)) * rate) ≤ 2 * n + rate)
      × (2 * n < 2 * ((q + (if leb rate (2 * m) then 1 else 0)) * rate) + rate)
rounded q m rate n e l = elim (Bool-cases (leb rate (2 * m))) [
  | inl c ↦ rw c (
    omega (arith, e, l, leb→le rate (2 * m) c, suc_mul q rate),
    omega (arith, e, l, suc_mul q rate),
  )
  | inr c ↦ rw c (omega (arith, e, l), ground (arith, e, l, c))
]

-- A time rounds to the nearest nanosecond.
pub ns-Nearest :
    (per_us ticks : ℕ)
    → 0 < per_us
    → (2 * (ns per_us ticks * per_us) ≤ 2 * (ticks * 1000) + per_us)
      × (2 * (ticks * 1000) < 2 * (ns per_us ticks * per_us) + per_us)
unfolding ns
ns-Nearest per_us ticks h =
    let n = 2 * (ticks * 1000) + per_us in
    let l = div-mul-le_self n (2 * per_us) in
    let g = lt-div-mul-add {a = n} {b = 2 * per_us} (omega (arith, h)) in
    let e = double_mul (n / (2 * per_us)) per_us in (omega (arith, l, e), omega (arith, g, e))

-- For a rate above 0 the serialization time is the nearest nanosecond, and a half is rounded up.
pub nearest_serialization_ns-Nearest :
    (bits rate : ℕ)
    → 0 < rate
    → (2 * (nearest_serialization_ns bits rate * rate) ≤ 2 * (bits * 1000000000) + rate)
      × (2 * (bits * 1000000000) < 2 * (nearest_serialization_ns bits rate * rate) + rate)
unfolding nearest_serialization_ns
nearest_serialization_ns-Nearest bits rate h =
    rounded (bits * 1000000000 / rate) (bits * 1000000000 % rate) rate (bits * 1000000000)
      (div-add-mod' (bits * 1000000000) rate) (mod-lt (bits * 1000000000) h)
