-- ===== src/Patch/Index.antt =====
-- The array indices of `_INDEX` (sweep.py) are written in one way only.
use openleo.Prelude.{
  if_some, ℕ, ◌+◌, ◌-◌, ◌*◌, ◌<◌, ◌≤◌, true, some, [], ◌∷◌, ◌++◌, ◌⊎◌, inl, inr, ◌≡◌, refl, arith,
  sym, ap, ◌∙◌,
}
use openleo.Json.Texts.{Text}
use native.Mathlib.Decide.{dec_lt}
use openleo.Statistics.Choice.{append_nil}
use openleo.Patch.Pointer.{all_digits, is_index, number_from, index_of_token}

-- The number of a text that is read from its last digit on.
abbrev backwards : Text → ℕ
backwards [] = 0
backwards (c ∷ r) = 10 * backwards r + (c - 48)

abbrev turn : Text → Text → Text
turn [] r = r
turn (c ∷ s) r = turn s (c ∷ r)

number_from-turn : (s r : Text) → number_from (backwards r) s ≡ backwards (turn s r)
number_from-turn [] r = refl
number_from-turn (c ∷ s) r = number_from-turn s (c ∷ r)

-- Digits whose first is not 0, read backwards.
abbrev IsCanonical : Text → Type 0
IsCanonical [] = Unit
IsCanonical (c ∷ []) = (49 ≤ c) × (c ≤ 57)
IsCanonical (c ∷ d ∷ r) = (48 ≤ c) × (c ≤ 57) × IsCanonical (d ∷ r)

IsCanonical-positive : (c : ℕ) (r : Text) → IsCanonical (c ∷ r) → 0 < backwards (c ∷ r)
IsCanonical-positive c [] h = omega arith
IsCanonical-positive c (d ∷ r) h = omega (arith, IsCanonical-positive d r h.2)

IsCanonical-tail : (c : ℕ) (r : Text) → IsCanonical (c ∷ r) → IsCanonical r
IsCanonical-tail c [] h = tt
IsCanonical-tail c (d ∷ r) h = h.2

IsCanonical-digit : (c : ℕ) (r : Text) → IsCanonical (c ∷ r) → (48 ≤ c) × (c ≤ 57)
IsCanonical-digit c [] h = (omega arith, h.1)
IsCanonical-digit c (d ∷ r) h = (h.0, h.1)

backwards-injective :
    (r q : Text) → IsCanonical r → IsCanonical q → backwards r ≡ backwards q → r ≡ q
backwards-injective [] [] h k e = refl
backwards-injective [] (d ∷ q) h k e = absurd (omega (arith, e, IsCanonical-positive d q k))
backwards-injective (c ∷ r) [] h k e = absurd (omega (arith, e, IsCanonical-positive c r h))
backwards-injective (c ∷ r) (d ∷ q) h k e =
    let a = IsCanonical-digit c r h in
    let b = IsCanonical-digit d q k in
    let same : c ≡ d = omega (arith, a, b) in
    let rest =
      backwards-injective r q (IsCanonical-tail c r h) (IsCanonical-tail d q k)
        (omega (arith, a, b)) in
    λ i. same i ∷ rest i

turn-turn : (s r q : Text) → turn (turn s r) q ≡ turn r (s ++ q)
turn-turn [] r q = refl
turn-turn (c ∷ s) r q = turn-turn s (c ∷ r) q

turn-injective : (s t : Text) → turn s [] ≡ turn t [] → s ≡ t
turn-injective s t e =
    sym (append_nil s)
    ∙ sym (turn-turn s [] [])
    ∙ ap (λ r. turn r []) e
    ∙ turn-turn t [] []
    ∙ append_nil t

turn-IsCanonical :
    (s r : Text)
    → all_digits s ≡ true
    → IsCanonical r
    → 0 < backwards r
    → IsCanonical (turn s r) × (0 < backwards (turn s r))
turn-IsCanonical [] r d h p = (h, p)
turn-IsCanonical (c ∷ s) [] d h p = absurd (omega arith)
turn-IsCanonical (c ∷ s) (b ∷ r) d h p =
    turn-IsCanonical s (c ∷ b ∷ r) (ground (arith, d)) (ground arith, ground arith, h) (omega arith)

-- An index is "0" or canonical digits.
index_form :
    (s : Text)
    → is_index s ≡ true
    → (s ≡ 48 ∷ []) ⊎ (IsCanonical (turn s []) × (0 < backwards (turn s [])))
index_form [] h = cc
index_form (c ∷ []) h = elim (dec_lt 48 c) [
  | yes lt ↦ inr ((ground arith, ground arith), ground arith)
  | no ge ↦ let zero_digit : c ≡ 48 = ground arith in inl (ap (λ x. x ∷ []) zero_digit)
]
index_form (c ∷ d ∷ s) h =
    inr
      (turn-IsCanonical (d ∷ s) (c ∷ []) (ground arith) (ground arith, ground arith) (ground arith))

-- One index, one token.
pub index_of_token-injective :
    (s t : Text) (i : ℕ) → index_of_token s ≡ some i → index_of_token t ≡ some i → s ≡ t
unfolding index_of_token
index_of_token-injective s t i h k =
    let a = if_some (is_index s) h in
    let b = if_some (is_index t) k in
    let p = number_from-turn s [] in
    let q = number_from-turn t [] in
    elim (index_form s a.0) [
      | inl e ↦ elim (index_form t b.0) [
        | inl f ↦ e ∙ sym f
        | inr f ↦ let n = ap (number_from 0) e in absurd (omega (arith, a.1, b.1, f.1, n))
      ]
      | inr e ↦ elim (index_form t b.0) [
        | inl f ↦ let n = ap (number_from 0) f in absurd (omega (arith, a.1, b.1, e.1, n))
        | inr f ↦ turn-injective s t (backwards-injective _ _ e.0 f.0 (sym p ∙ a.1 ∙ sym b.1 ∙ q))
      ]
    ]
