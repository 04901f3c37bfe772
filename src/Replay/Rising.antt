-- ===== src/Replay/Rising.antt =====
-- replay/packet_replay.py: `_boundaries` gives times that increase from 0 to the end of the window.
use openleo.Prelude.{
  Sorted, All-map, ℕ, ◌-◌, ◌≤◌, ◌<◌, max, leb, ltb, ◌==◌, ==_iff, not, ◌&&◌, List, [], ◌∷◌,
  if_split, ◌≡◌, refl, sym, subst, arith, All,
}
use openleo.Replay.Prepare.{ns, boundaries_from, boundaries}
use openleo.Replay.Rounding.{ns_mono, ns-zero}

-- The times increase strictly from the one after `n` to `d`.
abbrev pub Follows : ℕ → ℕ → List (ℕ × ℕ) → Type 0
Follows n d [] = n ≡ d
Follows n d (b ∷ l) = (n < b.0) × Follows b.0 d l

-- The times increase strictly from `n` to `d`.
abbrev pub Rises : ℕ → ℕ → List (ℕ × ℕ) → Type 0
Rises n d [] = n < n
Rises n d (b ∷ l) = (b.0 ≡ n) × Follows n d l

Rises-Follows : (m n d : ℕ) (l : List (ℕ × ℕ)) → m < n → Rises n d l → Follows m d l
Rises-Follows m n d [] h r = absurd (omega (arith, r))
Rises-Follows m n d (b ∷ l) h r = (omega (arith, h, r.0), subst (λ k. Follows k d l) (sym r.0) r.1)

boundaries_from-Rises :
    (per_us : ℕ) (row : ℕ × ℕ) (times : List ℕ) (start stop d : ℕ)
    → 0 < per_us
    → row.0 < d
    → row.0 ≡ ns per_us (row.1 - start)
    → All (λ t. row.1 ≤ max start t) times
    → Sorted times
    → Rises row.0 d (boundaries_from per_us row times start stop d)
unfolding boundaries_from
boundaries_from-Rises per_us row [] start stop d h hd e a s = (refl, (hd, refl))
boundaries_from-Rises per_us row (t ∷ times) start stop d h hd e a s =
    let skipped = boundaries_from-Rises per_us row times start stop d h hd e a.1 s.1 in
    if_split (Rises row.0 d) (not (ltb start t && ltb t stop)) (λ _. skipped)
      (λ inside.
        if_split (Rises row.0 d) (leb d (ns per_us (t - start))) (λ _. skipped)
          (λ below.
            let after = All-map times (λ y l. omega (arith, l)) s.0 in
            let next =
              boundaries_from-Rises per_us (ns per_us (t - start), t) times start stop d h
                (ground (arith, below)) refl after s.1 in
            let mono = ns_mono per_us (row.1 - start) (t - start) h (ground (arith, inside, a.0)) in
            if_split (Rises row.0 d) (ns per_us (t - start) == row.0)
              (λ same.
                subst
                  (λ n.
                    Rises n d
                      (boundaries_from per_us (ns per_us (t - start), t) times start stop d))
                  ((==_iff _ _).0 same) next)
              (λ other. (refl, Rises-Follows row.0 _ d _ (ground (arith, other, mono, e)) next))))

minus_self : (n : ℕ) → 0 ≡ n - n
minus_self n = omega arith

pub All-max : (a : ℕ) (l : List ℕ) → All (λ t. a ≤ max a t) l
All-max a [] = tt
All-max a (t ∷ l) = (omega arith, All-max a l)

-- For sorted times and a window longer than 0, the boundaries start at 0, increase strictly and end at
-- the length of the window, if there is at least one tick to a microsecond.
pub boundaries-Rises :
    (per_us : ℕ) (times : List ℕ) (start stop d : ℕ)
    → 0 < per_us
    → 0 < d
    → Sorted times
    → Rises 0 d (boundaries per_us times start stop d)
unfolding boundaries
boundaries-Rises per_us times start stop d h hd s =
    boundaries_from-Rises per_us (0, start) times start stop d h hd
      (sym (subst (λ k. ns per_us k ≡ 0) (minus_self start) (ns-zero per_us h)))
      (All-max start times) s
