-- ===== src/Acm/Walk.antt =====
-- engine/acm.py: the samples of a pass and the decisions that they lead to, one by one.
use openleo.Prelude.{
  some_injective, ◌⊎◌, str_eq, eq_iff, String, ℕ, ◌<◌, ◌≡◌, ◌∙◌, refl, sym, subst, ap, ◌==◌,
  if◌then◌else◌, Bool, inl, inr, true, false, Option, none, some, List, [], ◌∷◌, All, Sorted, ◌>>=◌,
  bind_some, arith,
}
use openleo.Prelude.Int.{ℤ}
use openleo.Passes.{Pass}
use openleo.Acm.{Modcod, modcods, name, qpsk_1_4, qpsk_1_2, qpsk_3_4, psk8_2_3, psk8_3_4}
use openleo.Acm.Schedule.{Decision, same_modcod, push_change, merge_one}
use openleo.Acm.Grid.{is_member, members}

-- The names of the table tell its rows apart.
abbrev named : List Modcod → String → Option Modcod
named [] s = none
named (m ∷ l) s = if str_eq (name m) s then some m else named l s

named-name : (m : Modcod) → named modcods (name m) ≡ some m
named-name qpsk_1_4 = refl
named-name qpsk_1_2 = refl
named-name qpsk_3_4 = refl
named-name psk8_2_3 = refl
named-name psk8_3_4 = refl

pub same_modcod-≡ : (a b : Option Modcod) → same_modcod a b ≡ true → a ≡ b
same_modcod-≡ none none h = refl
same_modcod-≡ none (some b) h = cc
same_modcod-≡ (some a) none h = cc
same_modcod-≡ (some a) (some b) h =
    sym (named-name a) ∙ ap (named modcods) ((eq_iff (name a) (name b)).0 h) ∙ named-name b

-- The times of the samples increase.
abbrev pub Ascending : List (ℕ × ℤ) → Type 0
Ascending [] = Unit
Ascending ((t, a) ∷ l) = All (λ (x : ℕ × ℤ). t < x.0) l × Ascending l

-- The samples come after the last decision.
abbrev pub Later : List Decision → List (ℕ × ℤ) → Type 0
Later [] l = Unit
Later (d ∷ stack) l = All (λ (x : ℕ × ℤ). d.time < x.0) l

-- `if is_member p t then (v >>= …) else rest`, taken apart.
member-cases :
    (b : Bool) (v : Option ℤ) (t : ℕ) (rest : Option (List (ℕ × ℤ))) (l : List (ℕ × ℤ))
    → (if b then (v >>= λ a. rest >>= λ k. some ((t, a) ∷ k)) else rest) ≡ some l
    → (rest ≡ some l) ⊎ ((a : ℤ) × (k : List (ℕ × ℤ)) × (rest ≡ some k) × ((t, a) ∷ k ≡ l))
member-cases false v t rest l h = inl h
member-cases true v t rest l h =
    let (a, p, q) = bind_some v (λ a. rest >>= λ k. some ((t, a) ∷ k)) h in
    let (k, r, s) = bind_some rest (λ k. some ((t, a) ∷ k)) q in inr (a, k, r, some_injective s)

members-All :
    (P : ℕ → Type 0) (p : Pass) (grid : List ℕ) (values : List (Option ℤ)) (l : List (ℕ × ℤ))
    → All P grid
    → members p grid values ≡ some l
    → All (λ (x : ℕ × ℤ). P x.0) l
unfolding members
members-All P p [] values l q h = subst (All (λ (x : ℕ × ℤ). P x.0)) (some_injective h) tt
members-All P p (t ∷ grid) [] l q h = subst (All (λ (x : ℕ × ℤ). P x.0)) (some_injective h) tt
members-All P p (t ∷ grid) (v ∷ values) l q h =
    elim (member-cases (is_member p t) v t (members p grid values) l h) [
      | inl e ↦ members-All P p grid values l q.1 e
      | inr (a, k, e, r) ↦
          subst (All (λ (x : ℕ × ℤ). P x.0)) r (q.0, members-All P p grid values k q.1 e)
    ]

pub members-Ascending :
    (p : Pass) (grid : List ℕ) (values : List (Option ℤ)) (l : List (ℕ × ℤ))
    → Sorted grid
    → members p grid values ≡ some l
    → Ascending l
unfolding members
members-Ascending p [] values l s h = subst Ascending (some_injective h) tt
members-Ascending p (t ∷ grid) [] l s h = subst Ascending (some_injective h) tt
members-Ascending p (t ∷ grid) (v ∷ values) l s h =
    elim (member-cases (is_member p t) v t (members p grid values) l h) [
      | inl e ↦ members-Ascending p grid values l s.1 e
      | inr (a, k, e, r) ↦
          subst Ascending r (
            members-All (λ u. t < u) p grid values k s.0 e,
            members-Ascending p grid values k s.1 e,
          )
    ]

-- A later decision is not merged with the last one.
merge_one-Later :
    (t : ℕ) (a : ℤ) (old new : Option Modcod) (stack : List Decision) (l : List (ℕ × ℤ))
    → Later stack ((t, a) ∷ l)
    → merge_one (record { time = t; old = old; new = new }) stack ≡ push_change t old new stack
merge_one-Later t a old new [] l h = refl
merge_one-Later t a old new (e ∷ stack) l h = rw (other e.time t h.0) refl
  where
    other : (a b : ℕ) → a < b → (a == b) ≡ false
    other a b h = ground (arith, h)

-- A later decision that changes nothing is dropped, and one that does is kept.
pub merge_one-dropped :
    (t : ℕ) (a : ℤ) (old new : Option Modcod) (stack : List Decision) (l : List (ℕ × ℤ))
    → Later stack ((t, a) ∷ l)
    → same_modcod new old ≡ true
    → merge_one (record { time = t; old = old; new = new }) stack ≡ stack
merge_one-dropped t a old new stack l late e =
    merge_one-Later t a old new stack l late
    ∙ ap (λ b. if b then stack else record { time = t; old = old; new = new } ∷ stack) e

pub merge_one-kept :
    (t : ℕ) (a : ℤ) (old new : Option Modcod) (stack : List Decision) (l : List (ℕ × ℤ))
    → Later stack ((t, a) ∷ l)
    → same_modcod new old ≡ false
    → let d : Decision = record { time = t; old = old; new = new } in merge_one d stack ≡ d ∷ stack
merge_one-kept t a old new stack l late e =
    merge_one-Later t a old new stack l late
    ∙ ap (λ b. if b then stack else record { time = t; old = old; new = new } ∷ stack) e

pub Later-tail :
    (t : ℕ) (a : ℤ) (stack : List Decision) (l : List (ℕ × ℤ))
    → Later stack ((t, a) ∷ l)
    → Later stack l
Later-tail t a [] l h = tt
Later-tail t a (e ∷ stack) l h = h.1
