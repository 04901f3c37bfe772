-- ===== src/Sweep/Portable.antt =====
-- sweep.py: the ids of the runs of a sweep, which become names of directories.
use openleo.Prelude.{
  bind_some, check-some, some_injective, ℕ, ◌+◌, ◌≤◌, ◌≢◌, ◌⊎◌, inl, inr, Bool, refl, All-map, ◌==◌,
  true, false, Option, some, List, [], ◌∷◌, All, last, ◌≡◌, arith, subst,
}
use openleo.Json.{Value}
use openleo.Json.Texts.{Text, text_eq}
use openleo.Sweep.Data.{Spec}
use openleo.Sweep.Checks.{one_of}
use openleo.Sweep.Blocks.{is_some}
use openleo.Sweep.Ids.{lower, casefold, are_portable}
use openleo.Sweep.Runs.{SweepRun, Clock, clip, time_at, start_utc, stop_utc}
use openleo.Sweep.Expand.{runs_of, ids_of, all_can_replay, expand_sweep}

-- The same character, or the capital and the small form of one ASCII letter.
abbrev pub SameLetter : ℕ → ℕ → Type 0
SameLetter c d =
    (c ≡ d) ⊎ ((65 ≤ c) × (c ≤ 90) × (d ≡ c + 32)) ⊎ ((65 ≤ d) × (d ≤ 90) × (c ≡ d + 32))

abbrev pub SameUpToCase : Text → Text → Type 0
SameUpToCase [] [] = Unit
SameUpToCase (c ∷ s) (d ∷ t) = SameLetter c d × SameUpToCase s t
SameUpToCase _ _ = ⊥

SameLetter-lower : (c d : ℕ) → SameLetter c d → (lower c == lower d) ≡ true
SameLetter-lower c d (inl e) = ground arith
SameLetter-lower c d (inr (inl (a, b, e))) = ground arith
SameLetter-lower c d (inr (inr (a, b, e))) = ground arith

SameUpToCase-casefold : (s t : Text) → SameUpToCase s t → text_eq (casefold s) (casefold t) ≡ true
SameUpToCase-casefold [] [] h = refl
SameUpToCase-casefold [] (d ∷ t) h = absurd h
SameUpToCase-casefold (c ∷ s) [] h = absurd h
SameUpToCase-casefold (c ∷ s) (d ∷ t) h =
    let now = SameLetter-lower c d h.0 in let rest = SameUpToCase-casefold s t h.1 in ground arith

-- None ends with '.', and no two are the same but for the case of ASCII letters.
abbrev pub ArePortable : List Text → Type 0
ArePortable [] = Unit
ArePortable (id ∷ l) = (last 0 id ≢ 46) × All (λ other. SameUpToCase other id → ⊥) l × ArePortable l

-- No id is equal up to case to one of those seen.
abbrev Fresh : List Text → List Text → Type 0
Fresh seen l = All (λ other. one_of (casefold other) seen ≡ false) l

Fresh-head :
    (key : Text) (seen l : List Text)
    → Fresh (key ∷ seen) l
    → All (λ other. text_eq (casefold other) key ≡ false) l
Fresh-head key seen [] f = tt
Fresh-head key seen (id ∷ l) f = let here_too = f.0 in (ground arith, Fresh-head key seen l f.1)

differ : {b : Bool} → b ≡ true → b ≡ false → ⊥
differ m n = cc

-- What has another folded text is not the same up to case.
Fresh-differ :
    (id : Text) (seen l : List Text)
    → Fresh (casefold id ∷ seen) l
    → All (λ other. SameUpToCase other id → ⊥) l
Fresh-differ id seen l f =
    All-map l (λ other e same. differ (SameUpToCase-casefold other id same) e)
      (Fresh-head (casefold id) seen l f)

Fresh-tail : (key : Text) (seen l : List Text) → Fresh (key ∷ seen) l → Fresh seen l
Fresh-tail key seen [] f = tt
Fresh-tail key seen (id ∷ l) f = let here_too = f.0 in (ground arith, Fresh-tail key seen l f.1)

are_portable-ArePortable :
    (seen l : List Text) → are_portable seen l ≡ true → ArePortable l × Fresh seen l
unfolding are_portable
are_portable-ArePortable seen [] h = (tt, tt)
are_portable-ArePortable seen (id ∷ l) h =
    let ih = are_portable-ArePortable (casefold id ∷ seen) l (ground (arith, h)) in
    (
      (ground (arith, h), Fresh-differ id seen l ih.1, ih.0),
      (ground (arith, h), Fresh-tail (casefold id) seen l ih.1),
    )

-- When a sweep is expanded, the id of none of its runs ends with '.', and no two of the ids are the
-- same but for the case of ASCII letters.
pub expand_sweep-ArePortable :
    (clock : Clock) (normalise : Value → Option Value) (value_text : Value → Text) (spec : Spec)
    (base : Value) (runs : List SweepRun)
    → expand_sweep clock normalise value_text spec base ≡ some runs
    → ArePortable (ids_of clock normalise value_text runs)
unfolding expand_sweep
expand_sweep-ArePortable clock normalise value_text spec base runs h =
    let c =
      bind_some (clip clock normalise value_text base spec.window (is_some spec.replay)) _ h in
    let s = bind_some (time_at clock normalise value_text start_utc base) _ c.2 in
    let t = bind_some (time_at clock normalise value_text stop_utc base) _ s.2 in
    let r =
      bind_some
        (runs_of clock normalise value_text spec
          (record {
            windowed = is_some spec.window;
            replay = is_some spec.replay;
            start = s.0;
            stop = t.0;
          })
          base c.0)
        _ t.2 in
    let p = check-some (are_portable [] (ids_of clock normalise value_text r.0)) r.2 in
    let q = check-some (all_can_replay clock normalise value_text spec.replay r.0) p.1 in
    subst (λ rs. ArePortable (ids_of clock normalise value_text rs)) (some_injective q.1)
      (are_portable-ArePortable [] (ids_of clock normalise value_text r.0) p.0).0
