-- ===== src/Replay/Kept.antt =====
-- replay/packet_replay.py: `_boundaries` keeps every breakpoint, up to the rounding of times.
use openleo.Prelude.{
  Sorted, All-map, ℕ, ◌-◌, ◌≤◌, ◌<◌, max, leb, ltb, ◌==◌, ==_iff, not, ◌&&◌, List, [], ◌∷◌,
  if_split, refl, sym, subst, arith, All, In, here, there,
}
use openleo.Replay.Prepare.{ns, boundaries_from, boundaries}
use openleo.Replay.Rising.{Rises, boundaries-Rises}

-- A row at the time `n`, whose state is that of `t` or of a later tick.
abbrev pub HasRow : ℕ → ℕ → List (ℕ × ℕ) → Type 0
HasRow n t l = (kept : ℕ) × In (n, kept) l × (t ≤ kept)

HasRow-cons : (n t : ℕ) (row : ℕ × ℕ) (l : List (ℕ × ℕ)) → HasRow n t l → HasRow n t (row ∷ l)
HasRow-cons n t row l h = (h.0, there h.1, h.2)

boundaries_from-last :
    (per_us : ℕ) (row : ℕ × ℕ) (times : List ℕ) (start stop d : ℕ)
    → All (λ t. row.1 ≤ max start t) times
    → Sorted times
    → HasRow row.0 row.1 (boundaries_from per_us row times start stop d)
unfolding boundaries_from
boundaries_from-last per_us row [] start stop d a s = (row.1, here refl, omega arith)
boundaries_from-last per_us row (t ∷ times) start stop d a s =
    let skipped = boundaries_from-last per_us row times start stop d a.1 s.1 in
    if_split (HasRow row.0 row.1) (not (ltb start t && ltb t stop)) (λ _. skipped)
      (λ inside.
        if_split (HasRow row.0 row.1) (leb d (ns per_us (t - start))) (λ _. skipped)
          (λ _.
            let after = All-map times (λ y l. omega (arith, l)) s.0 in
            let next =
              boundaries_from-last per_us (ns per_us (t - start), t) times start stop d after s.1 in
            let first = a.0 in
            if_split (HasRow row.0 row.1) (ns per_us (t - start) == row.0)
              (λ same.
                subst
                  (λ n.
                    HasRow n row.1
                      (boundaries_from per_us (ns per_us (t - start), t) times start stop d))
                  ((==_iff _ _).0 same) (next.0, next.1, ground (arith, inside, first, next.2)))
              (λ _. (row.1, here refl, omega arith))))

boundaries_from-HasRow :
    (per_us : ℕ) (row : ℕ × ℕ) (times : List ℕ) (start stop d t : ℕ)
    → Sorted times
    → In t times
    → start < t
    → t < stop
    → ns per_us (t - start) < d
    → HasRow (ns per_us (t - start)) t (boundaries_from per_us row times start stop d)
unfolding boundaries_from
boundaries_from-HasRow per_us row [] start stop d t s m a b c = elim m [ ]
boundaries_from-HasRow per_us row (x ∷ times) start stop d t s (there m) a b c =
    let skipped = boundaries_from-HasRow per_us row times start stop d t s.1 m a b c in
    let next =
      boundaries_from-HasRow per_us (ns per_us (x - start), x) times start stop d t s.1 m a b c in
    let P = HasRow (ns per_us (t - start)) t in
    if_split P (not (ltb start x && ltb x stop)) (λ _. skipped)
      (λ _.
        if_split P (leb d (ns per_us (x - start))) (λ _. skipped)
          (λ _.
            if_split P (ns per_us (x - start) == row.0) (λ _. next)
              (λ _. HasRow-cons _ _ _ _ next)))
boundaries_from-HasRow per_us row (x ∷ times) start stop d t s (here e) a b c =
    let after : All (λ y. x ≤ max start y) times = All-map times (λ y l. omega (arith, l)) s.0 in
    let own = boundaries_from-last per_us (ns per_us (x - start), x) times start stop d after s.1 in
    let next =
      subst
        (λ y.
          HasRow (ns per_us (y - start)) y
            (boundaries_from per_us (ns per_us (x - start), x) times start stop d))
        (sym e) own in
    let P = HasRow (ns per_us (t - start)) t in
    let low = subst (λ y. start < y) e a in
    let high = subst (λ y. y < stop) e b in
    let short = subst (λ y. ns per_us (y - start) < d) e c in
    if_split P (not (ltb start x && ltb x stop))
      (λ outside. absurd (ground (arith, outside, low, high)))
      (λ _.
        if_split P (leb d (ns per_us (x - start))) (λ late. absurd (ground (arith, late, short)))
          (λ _.
            if_split P (ns per_us (x - start) == row.0) (λ _. next)
              (λ _. HasRow-cons _ _ _ _ next)))

-- Of sorted times and a window longer than 0, with at least one tick to a microsecond: the rows start
-- at 0, increase strictly and end at the length of the window, and each breakpoint inside the window
-- that rounds to a time before its end has a row at that time, with the state of that breakpoint or
-- of a later one.
pub boundaries-KeepsRows :
    (per_us : ℕ) (times : List ℕ) (start stop d : ℕ)
    → 0 < per_us
    → 0 < d
    → Sorted times
    → Rises 0 d (boundaries per_us times start stop d)
      × ((t : ℕ)
          → In t times
          → start < t
          → t < stop
          → ns per_us (t - start) < d
          → HasRow (ns per_us (t - start)) t (boundaries per_us times start stop d))
boundaries-KeepsRows per_us times start stop d h hd s = (
  boundaries-Rises per_us times start stop d h hd s,
  unfold boundaries in
      λ t m a b c. boundaries_from-HasRow per_us (0, start) times start stop d t s m a b c,
)
