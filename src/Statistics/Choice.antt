-- ===== src/Statistics/Choice.antt =====
-- `best_link_segments` (engine/statistics.py): which link the envelope takes, and the whole function.
use openleo.Prelude.{
  ℕ, ◌≤◌, ◌<◌, ◌≡◌, refl, ap, ◌⊎◌, Option, none, some, List, [], ◌∷◌, ◌++◌, All, last,
}
use openleo.Hold.{Held, value_at, Tiles, Differ}
use openleo.Statistics.{Track, rate_at, same_key, ends_of}

-- The best link of the tracks at an instant: none where every rate is 0, else a satellite with a
-- positive rate that is above the rate of each track before it and at least that of each after it.
abbrev pub IsBest : List Track → ℕ → Option ℕ × ℕ → Type 0
IsBest tracks t (none, r) = (r ≡ 0) × All (λ (x : Track). rate_at x.segments t ≡ 0) tracks
IsBest tracks t (some s, r) =
    (earlier : List Track) × (x : Track) × (later : List Track) × (tracks ≡ earlier ++ x ∷ later)
    × (x.satellite ≡ s)
    × (rate_at x.segments t ≡ r)
    × (0 < r)
    × All (λ (y : Track). rate_at y.segments t < r) earlier
    × All (λ (y : Track). rate_at y.segments t ≤ r) later

pub All-append : {A : Type 0} (P : A → Type 0) (l r : List A) → All P l → All P r → All P (l ++ r)
All-append P [] r h k = k
All-append P (x ∷ l) r h k = (h.0, All-append P l r h.1 k)

-- The rates seen so far are at most the best one.
abbrev AtMost : List Track → ℕ → ℕ → Type 0
AtMost tracks t r = All (λ (y : Track). rate_at y.segments t ≤ r) tracks

pub append_nil : {A : Type 0} (a : List A) → a ++ [] ≡ a
append_nil [] = refl
append_nil (x ∷ a) = ap (◌∷◌ x) (append_nil a)

-- What the envelope of the tracks is: without tracks nothing, else pieces from the first to the last
-- end of their segments.
abbrev pub EnvelopeOf : List Track → List (Held (Option ℕ × ℕ)) → Type 0
EnvelopeOf tracks pieces =
    ((ends_of tracks ≡ []) × (pieces ≡ []))
    ⊎ ((first : ℕ) × (others : List ℕ) × (ends_of tracks ≡ first ∷ others)
        × Tiles first (last 0 (first ∷ others)) pieces
        × Differ same_key pieces
        × ((t : ℕ)
            → first ≤ t
            → t < last 0 (first ∷ others)
            → (v : Option ℕ × ℕ) × (value_at pieces t ≡ some v) × IsBest tracks t v))
