-- ===== src/Patch/Frame.antt =====
-- `replace` (sweep.py): it writes where `_value_at` reads, and nowhere else.
use openleo.Prelude.{
  if_some, ℕ, zero, suc, ◌<◌, ◌==◌, ltb, if◌then◌else◌, true, false, Bool-cases, Option-cases, inl,
  inr, Option, none, some, List, [], ◌∷◌, ◌≡◌, refl, arith, sym, ap, subst, ◌∙◌,
}
use openleo.Json.{
  Value, Items, Fields, null, bool, int, float, string, array, object, member, has, count_items,
  nth, set_nth,
}
use openleo.Json.Texts.{Text, text_eq, text_eq_refl, text_eq_iff, text_eq-≡}
use openleo.Json.Members.{member-put}
use openleo.Json.Elements.{nth-set_self, nth-set_other, count-set_nth}
use openleo.Patch.{replace, step_index, child, with_child, last_step, apply_at, value_at, overlap}
use openleo.Patch.Pointer.{index_of_token}
use openleo.Patch.Index.{index_of_token-injective}

-- A checked index is in the list, and no other token names it.
pub step_index-lt :
    (len i : ℕ) (t : Text)
    → step_index false len t ≡ some i
    → (index_of_token t ≡ some i) × (i < len)
step_index-lt len i t h = go (index_of_token t) refl h
  where
    go :
        (o : Option ℕ)
        → index_of_token t ≡ o
        → (elim o [ none ↦ none | some i ↦ if ltb i len then some i else none ]) ≡ some i
        → (index_of_token t ≡ some i) × (i < len)
    go none e k = cc
    go (some j) e k =
        let q = if_some (ltb j len) k in
        (e ∙ ap some q.1, let same = q.1 in let below = q.0 in ground arith)

nth-some : (i : ℕ) (l : Items) → i < count_items l → (v : Value) × (nth i l ≡ some v)
nth-some i Items.nil h = absurd (omega arith)
nth-some zero (Items.cons v l) h = (v, refl)
nth-some (suc i) (Items.cons v l) h = nth-some i l (omega arith)

has-member : (t : Text) (fs : Fields) → has t fs ≡ true → (v : Value) × (member t fs ≡ some v)
has-member t Fields.end h = cc
has-member t (Fields.field k v fs) h = elim (Bool-cases (text_eq t k)) [
  | inl e ↦ (v, rw e refl)
  | inr e ↦ rw e (has-member t fs (ground (arith, h, e)))
]

member-has : (t : Text) (fs : Fields) (v : Value) → member t fs ≡ some v → has t fs ≡ true
member-has t Fields.end v h = cc
member-has t (Fields.field k w fs) v h = elim (Bool-cases (text_eq t k)) [
  | inl e ↦ rw e refl
  | inr e ↦ rw e (member-has t fs v (ground (arith, h, e)))
]

pub child-with_self :
    (node : Value) (t : Text) (c d : Value)
    → child node t ≡ some c
    → child (with_child node t d) t ≡ some d
unfolding child with_child
child-with_self (object fs) t c d h = member-put t t d fs ∙ rw (text_eq_refl t) refl
child-with_self (array l) t c d h = go (step_index false (count_items l) t) refl h
  where
    go :
        (o : Option ℕ)
        → step_index false (count_items l) t ≡ o
        → (elim o [ none ↦ none | some i ↦ nth i l ]) ≡ some c
        → child (elim o [ none ↦ array l | some i ↦ array (set_nth i d l) ]) t ≡ some d
    go none e k = cc
    go (some i) e k =
        let below = (step_index-lt (count_items l) i t e).1 in
        subst
          (λ n.
            (elim (step_index false n t) [ none ↦ none | some j ↦ nth j (set_nth i d l) ]) ≡ some d)
          (sym (count-set_nth i d l))
          (subst (λ o. (elim o [ none ↦ none | some j ↦ nth j (set_nth i d l) ]) ≡ some d) (sym e)
            (nth-set_self i d l below))
child-with_self null t c d h = cc
child-with_self (bool b) t c d h = cc
child-with_self (int n) t c d h = cc
child-with_self (float m k) t c d h = cc
child-with_self (string s) t c d h = cc

pub child-with_other :
    (node : Value) (t u : Text) (d : Value)
    → text_eq t u ≡ false
    → child (with_child node t d) u ≡ child node u
unfolding child with_child
child-with_other (object fs) t u d h =
    member-put u t d fs ∙ ground (arith, h, text_eq_iff t u, text_eq_iff u t)
child-with_other (array l) t u d h =
    go (step_index false (count_items l) t) (step_index false (count_items l) u) refl refl
  where
    go :
        (o p : Option ℕ)
        → step_index false (count_items l) t ≡ o
        → step_index false (count_items l) u ≡ p
        → child (elim o [ none ↦ array l | some i ↦ array (set_nth i d l) ]) u
          ≡ (elim p [ none ↦ none | some j ↦ nth j l ])
    go none p e f = λ i. elim (f i) [ none ↦ none | some j ↦ nth j l ]
    go (some i) none e f =
        subst
          (λ n.
            (elim (step_index false n u) [ none ↦ none | some j ↦ nth j (set_nth i d l) ]) ≡ none)
          (sym (count-set_nth i d l))
          (λ k. elim (f k) [ none ↦ none | some j ↦ nth j (set_nth i d l) ])
    go (some i) (some j) e f =
        let a = (step_index-lt (count_items l) i t e).0 in
        let b = (step_index-lt (count_items l) j u f).0 in
        subst
          (λ n.
            (elim (step_index false n u) [ none ↦ none | some j ↦ nth j (set_nth i d l) ])
            ≡ nth j l)
          (sym (count-set_nth i d l))
          (subst (λ o. (elim o [ none ↦ none | some j ↦ nth j (set_nth i d l) ]) ≡ nth j l) (sym f)
            (elim (Bool-cases (i == j)) [
              | inr ne ↦ nth-set_other i j d l ne
              | inl eq ↦
                  let same : i ≡ j = ground arith in
                  let one = index_of_token-injective t u i a (b ∙ ap some (sym same)) in
                  absurd (ground (arith, one, h, text_eq_iff t u))
            ]))
child-with_other null t u d h = refl
child-with_other (bool b) t u d h = refl
child-with_other (int n) t u d h = refl
child-with_other (float m k) t u d h = refl
child-with_other (string s) t u d h = refl

-- The last step of `replace`.
last_step-replace :
    (node : Value) (t : Text) (v : Value)
    → last_step replace (some v) node t
      ≡ (elim (child node t) [ none ↦ none | some _ ↦ some (with_child node t v) ])
unfolding last_step child with_child
last_step-replace (object fs) t v = elim (Option-cases (member t fs)) [
  | inl e ↦ elim (Bool-cases (has t fs)) [
    | inl p ↦ let w = has-member t fs p in absurd (ground (arith, w.1, e))
    | inr p ↦ rw (e, p) refl
  ]
  | inr (w, e) ↦ rw (e, member-has t fs w e) refl
]
last_step-replace (array l) t v = go (step_index false (count_items l) t) refl
  where
    go :
        (o : Option ℕ)
        → step_index false (count_items l) t ≡ o
        → (elim o [ none ↦ none | some i ↦ some (array (set_nth i v l)) ])
          ≡ (elim (elim o as (λ _. Option Value) [ none ↦ none | some i ↦ nth i l ]) [
            | none ↦ none
            | some _ ↦
                some (elim o as (λ _. Value) [ none ↦ array l | some i ↦ array (set_nth i v l) ])
          ])
    go none e = refl
    go (some i) e =
        let w = nth-some i l (step_index-lt (count_items l) i t e).1 in
        λ k. elim (sym w.1 k) [ none ↦ none | some _ ↦ some (array (set_nth i v l)) ]
last_step-replace null t v = refl
last_step-replace (bool b) t v = refl
last_step-replace (int n) t v = refl
last_step-replace (float m k) t v = refl
last_step-replace (string s) t v = refl

-- What `replace` makes of a document: no result without a value at the pointer, else the new value
-- there, and the old one at every pointer that does not overlap it.
abbrev pub Replaced : Value → List Text → Value → Option Value → Type 0
Replaced doc ts v none = value_at ts doc ≡ none
Replaced doc ts v (some d) =
    (value_at ts d ≡ some v)
    × ((us : List Text) → overlap ts us ≡ false → value_at us d ≡ value_at us doc)

-- The step into a child that the pointers share.
Replaced-step :
    (node c d : Value) (t : Text) (ts : List Text) (v : Value)
    → child node t ≡ some c
    → (value_at ts d ≡ some v)
      × ((us : List Text) → overlap ts us ≡ false → value_at us d ≡ value_at us c)
    → Replaced node (t ∷ ts) v (some (with_child node t d))
unfolding value_at
Replaced-step node c d t ts v e h = (
  (λ i. elim (child-with_self node t c d e i) [ none ↦ none | some c ↦ value_at ts c ]) ∙ h.0,
  λ us o. frame us o,
)
  where
    frame :
        (us : List Text)
        → overlap (t ∷ ts) us ≡ false
        → value_at us (with_child node t d) ≡ value_at us node
    frame [] o = cc
    frame (u ∷ us) o = elim (Bool-cases (text_eq t u)) [
      | inr ne ↦
          λ i. elim (child-with_other node t u d ne i) [ none ↦ none | some c ↦ value_at us c ]
      | inl eq ↦
          let same = text_eq-≡ t u eq in
          subst
            (λ w.
              (elim (child (with_child node t d) w) as (λ _. Option Value) [
                | none ↦ none
                | some c ↦ value_at us c
              ])
              ≡ (elim (child node w) as (λ _. Option Value) [
                | none ↦ none
                | some c ↦ value_at us c
              ]))
            same
            ((λ i. elim (child-with_self node t c d e i) [ none ↦ none | some c ↦ value_at us c ])
              ∙ h.1 us (ground (arith, o, eq))
              ∙ (λ i. elim (sym e i) [ none ↦ none | some c ↦ value_at us c ]))
    ]

pub replace-Replaced :
    (t : Text) (ts : List Text) (v doc : Value)
    → Replaced doc (t ∷ ts) v (apply_at replace (some v) (t ∷ ts) doc)
unfolding apply_at value_at
replace-Replaced t [] v doc =
    subst (Replaced doc (t ∷ []) v) (sym (last_step-replace doc t v)) (go (child doc t) refl)
  where
    go :
        (o : Option Value)
        → child doc t ≡ o
        → Replaced doc (t ∷ []) v (elim o [ none ↦ none | some _ ↦ some (with_child doc t v) ])
    go none e = λ i. elim (e i) [ none ↦ none | some c ↦ value_at [] c ]
    go (some c) e = Replaced-step doc c v t [] v e (refl, λ us o. cc)
replace-Replaced t (u ∷ ts) v doc = go (λ c. replace-Replaced u ts v c) (child doc t) refl
  where
    go :
        ((c : Value) → Replaced c (u ∷ ts) v (apply_at replace (some v) (u ∷ ts) c))
        → (o : Option Value) → child doc t ≡ o
        → Replaced doc (t ∷ u ∷ ts) v (elim o [
          | none ↦ none
          | some c ↦ elim (apply_at replace (some v) (u ∷ ts) c) [
            | none ↦ none
            | some d ↦ some (with_child doc t d)
          ]
        ])
    go below none e = λ i. elim (e i) [ none ↦ none | some c ↦ value_at (u ∷ ts) c ]
    go below (some c) e = inner (apply_at replace (some v) (u ∷ ts) c) (below c)
      where
        inner :
            (o : Option Value)
            → Replaced c (u ∷ ts) v o
            → Replaced doc
                (t ∷ u ∷ ts)
                v
                (elim o [ none ↦ none | some d ↦ some (with_child doc t d) ])
        inner none h = (λ i. elim (e i) [ none ↦ none | some c ↦ value_at (u ∷ ts) c ]) ∙ h
        inner (some d) h = Replaced-step doc c d t (u ∷ ts) v e h

-- After a `replace` the pointer has the new value, and every pointer that does not overlap it has the
-- value, or no value, that it had.
pub replace-value_at :
    (doc : Value) (t : Text) (ts : List Text) (v d : Value) (us : List Text)
    → apply_at replace (some v) (t ∷ ts) doc ≡ some d
    → overlap (t ∷ ts) us ≡ false
    → (value_at (t ∷ ts) d ≡ some v) × (value_at us d ≡ value_at us doc)
replace-value_at doc t ts v d us e o =
    let r = subst (Replaced doc (t ∷ ts) v) e (replace-Replaced t ts v doc) in (r.0, r.1 us o)
