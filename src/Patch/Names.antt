-- ===== src/Patch/Names.antt =====
-- `_field` (_validation.py) names a child of a pointer, and `_tokens` (sweep.py) reads the name back.
use openleo.Prelude.{
  map-append, if_some, ℕ, ◌==◌, true, false, not, ◌&&◌, ◌||◌, Bool-cases, inl, inr, some, List, [],
  ◌∷◌, ◌++◌, ◌≡◌, refl, arith, sym, ap, ◌∙◌,
}
use openleo.Json.Texts.{Text}
use openleo.Patch.Pointer.{
  slash, tilde, push_first, split, has_bad_escape, any_bad_escape, unescape, token, tokens, escape,
  field_of,
}

unescape-cons :
    (digit to c : ℕ) (s : Text)
    → (c == tilde) ≡ false
    → unescape digit to (c ∷ s) ≡ c ∷ unescape digit to s
unfolding unescape
unescape-cons digit to c [] h = refl
unescape-cons digit to c (d ∷ s) h = ground (arith, h)

-- Each pass of `_tokens` undoes one pass of `_field`.
unescape-slash :
    (n : Text) → unescape 49 slash (escape slash 49 (escape tilde 48 n)) ≡ escape tilde 48 n
unfolding unescape escape
unescape-slash [] = refl
unescape-slash (c ∷ n) = elim (Bool-cases (c == tilde)) [
  | inl e ↦
      rw e (ap (◌∷◌ tilde) (unescape-cons 49 slash 48 _ refl ∙ ap (◌∷◌ 48) (unescape-slash n)))
  | inr e ↦ elim (Bool-cases (c == slash)) [
    | inl f ↦ let same : slash ≡ c = ground arith in rw (e, f) (λ i. same i ∷ unescape-slash n i)
    | inr f ↦ rw (e, f) (unescape-cons 49 slash c _ e ∙ ap (◌∷◌ c) (unescape-slash n))
  ]
]

unescape-tilde : (n : Text) → unescape 48 tilde (escape tilde 48 n) ≡ n
unfolding unescape escape
unescape-tilde [] = refl
unescape-tilde (c ∷ n) = elim (Bool-cases (c == tilde)) [
  | inl e ↦ let same : tilde ≡ c = ground arith in rw e (λ i. same i ∷ unescape-tilde n i)
  | inr e ↦ rw e (unescape-cons 48 tilde c _ e ∙ ap (◌∷◌ c) (unescape-tilde n))
]

-- The name of a child as `_field` writes it.
abbrev escaped : Text → Text
escaped n = escape slash 49 (escape tilde 48 n)

token-escaped : (n : Text) → token (escaped n) ≡ n
unfolding token
token-escaped n = ap (unescape 48 tilde) (unescape-slash n) ∙ unescape-tilde n

split-cons : (c : ℕ) (s : Text) → (c == slash) ≡ false → split (c ∷ s) ≡ push_first c (split s)
unfolding split
split-cons c s h = rw (h, split) refl

split-slash : (c : ℕ) (s : Text) → (c == slash) ≡ true → split (c ∷ s) ≡ [] ∷ split s
unfolding split
split-slash c s h = rw (h, split) refl

split-escaped : (n : Text) → split (escaped n) ≡ escaped n ∷ []
unfolding split escape
split-escaped [] = refl
split-escaped (c ∷ n) = elim (Bool-cases (c == tilde)) [
  | inl e ↦ rw e (ap (λ r. push_first tilde (push_first 48 r)) (split-escaped n))
  | inr e ↦ elim (Bool-cases (c == slash)) [
    | inl f ↦ rw (e, f) (ap (λ r. push_first tilde (push_first 49 r)) (split-escaped n))
    | inr f ↦ rw (e, f) (split-cons c (escaped n) f ∙ ap (push_first c) (split-escaped n))
  ]
]

bad-escaped : (n : Text) → has_bad_escape (escaped n) ≡ false
unfolding escape
bad-escaped [] = refl
bad-escaped (c ∷ n) = elim (Bool-cases (c == tilde)) [
  | inl e ↦ rw e (bad-escaped n)
  | inr e ↦ elim (Bool-cases (c == slash)) [
    | inl f ↦ rw (e, f) (bad-escaped n)
    | inr f ↦ rw (e, f) (rw e (bad-escaped n))
  ]
]

split_nil : split [] ≡ [] ∷ []
unfolding split
split_nil = refl

split_some : (p : Text) → (t : Text) × (ts : List Text) × (split p ≡ t ∷ ts)
split_some [] = ([], [], split_nil)
split_some (c ∷ p) = elim (Bool-cases (c == slash)) [
  | inl e ↦ ([], split p, split-slash c p e)
  | inr e ↦ let r = split_some p in (c ∷ r.0, r.1, split-cons c p e ∙ ap (push_first c) r.2)
]

push_first-append :
    (c : ℕ) (p : Text) (r : List Text) → push_first c (split p ++ r) ≡ push_first c (split p) ++ r
push_first-append c p r =
    let q = split_some p in
    ap (λ l. push_first c (l ++ r)) q.2 ∙ sym (ap (λ l. push_first c l ++ r) q.2)

split-append : (p s : Text) → split (p ++ slash ∷ s) ≡ split p ++ split s
split-append [] s = split-slash slash s refl ∙ ap (λ l. l ++ split s) (sym split_nil)
split-append (c ∷ p) s = elim (Bool-cases (c == slash)) [
  | inl e ↦
      split-slash c _ e
      ∙ ap (◌∷◌ []) (split-append p s)
      ∙ sym (ap (λ l. l ++ split s) (split-slash c p e))
  | inr e ↦
      split-cons c _ e
      ∙ ap (push_first c) (split-append p s)
      ∙ push_first-append c p (split s)
      ∙ sym (ap (λ l. l ++ split s) (split-cons c p e))
]

any_bad_escape-append :
    (l r : List Text) → any_bad_escape (l ++ r) ≡ (any_bad_escape l || any_bad_escape r)
any_bad_escape-append [] r = refl
any_bad_escape-append (t ∷ l) r = ground (arith, any_bad_escape-append l r)

-- A pointer and the tokens that it has, for the document root too.
abbrev pub HasTokens : Text → List Text → Type 0
HasTokens [] ts = ts ≡ []
HasTokens (c ∷ p) ts = tokens (c ∷ p) ≡ some ts

-- The child that `_field` names has the tokens of its parent and then its own name, whatever
-- characters the name has.
pub tokens-field_of :
    (path : Text) (ts : List Text) (name : Text)
    → HasTokens path ts
    → tokens (field_of path name) ≡ some (ts ++ name ∷ [])
unfolding tokens field_of
tokens-field_of [] ts name h = rw (split-escaped name, bad-escaped name, token-escaped name, h) refl
tokens-field_of (c ∷ p) ts name h =
    let q = if_some (c == slash && not (any_bad_escape (split p))) h in
    rw
      (
        split-append p (escaped name),
        split-escaped name,
        any_bad_escape-append (split p) (escaped name ∷ []),
        map-append token (split p) (escaped name ∷ []),
        token-escaped name,
      )
      (ground (arith, q.0, q.1, bad-escaped name))
