-- ===== src/Hold/Laws.antt =====
-- The held pieces tile the cuts, neighbours differ, and each instant keeps its value.
use openleo.Prelude.{
  ℕ, ◌≤◌, ◌<◌, ◌≡◌, refl, sym, subst, ap, ◌∙◌, ltb, leb, if◌then◌else◌, if_split, Bool, true, false,
  ◌&&◌, Bool-cases, inl, inr, Option, none, some, List, [], ◌∷◌, ◌++◌, arith,
}
use openleo.Hold.Defs.{Held, append_held, hold_from}

module _ {V : Type 0} where
  -- Pieces from `a` to `b`, none of them empty, with no gap and no overlap.
  abbrev pub Tiles : ℕ → ℕ → List (Held V) → Type 0
  Tiles a b [] = a ≡ b
  Tiles a b (h ∷ l) = (h.start_s ≡ a) × (a < h.end_s) × Tiles h.end_s b l

  -- The value of the piece that holds the instant.
  abbrev pub value_at : List (Held V) → ℕ → Option V
  value_at [] t = none
  value_at (h ∷ l) t = if leb h.start_s t && ltb t h.end_s then some h.value else value_at l t

  -- The value of the last cut at or before the instant, of those before the last one.
  abbrev pub step_value : List ℕ → List V → ℕ → Option V
  step_value (a ∷ b ∷ cuts) (v ∷ values) t =
      if leb a t && ltb t b then some v else step_value (b ∷ cuts) values t
  step_value _ _ t = none

-- Cuts that increase from `a` to `b`, one more than the values.
abbrev pub Cuts : {V : Type 0} → ℕ → ℕ → List ℕ → List V → Type 0
Cuts a b [] values = ⊥
Cuts a b (x ∷ []) [] = (x ≡ a) × (x ≡ b)
Cuts a b (x ∷ []) (v ∷ values) = ⊥
Cuts a b (x ∷ y ∷ cuts) [] = ⊥
Cuts a b (x ∷ y ∷ cuts) (v ∷ values) = (x ≡ a) × (x < y) × Cuts y b (y ∷ cuts) values

pub Tiles-le : {V : Type 0} (a b : ℕ) (l : List (Held V)) → Tiles a b l → a ≤ b
Tiles-le a b [] o = omega arith
Tiles-le a b (x ∷ l) o = let r = Tiles-le x.end_s b l o.2 in omega arith

combine :
    {V : Type 0} (a m x y t : ℕ) (v : V) (u w z s : Option V)
    → x ≡ m
    → a ≤ m
    → x < y
    → z ≡ (if leb a t && ltb t y then w else s)
    → w ≡ (if leb a t && ltb t m then u else if leb x t && ltb t y then some v else none)
    → z ≡ (if leb a t && ltb t m then u else if leb x t && ltb t y then some v else s)
combine a m x y t v u w z s e k l p q = ground arith

module _ {V : Type 0} (same : V → V → Bool) where
  -- No piece has the value of the one before it.
  abbrev pub Differ : List (Held V) → Type 0
  Differ [] = Unit
  Differ (x ∷ []) = Unit
  Differ (x ∷ y ∷ l) = (same x.value y.value ≡ false) × Differ (y ∷ l)

  Tiles-append :
      (a m b : ℕ) (l : List (Held V)) (h : Held V)
      → Tiles a m l
      → h.start_s ≡ m
      → h.end_s ≡ b
      → m < b
      → Tiles a b (append_held same l h)
  Tiles-append a m b [] h t p q k = (p ∙ sym t, omega arith, q)
  Tiles-append a m b (x ∷ []) h t p q k =
      if_split (Tiles a b) (same x.value h.value) (λ _. (t.0, omega arith, q))
        (λ _. (t.0, t.1, (omega arith, omega arith, q)))
  Tiles-append a m b (x ∷ y ∷ l) h t p q k =
      (t.0, t.1, Tiles-append x.end_s m b (y ∷ l) h t.2 p q k)

  Differ-append : (l : List (Held V)) (h : Held V) → Differ l → Differ (append_held same l h)
  Differ-append [] h d = tt
  Differ-append (x ∷ []) h d = elim (Bool-cases (same x.value h.value)) [
    | inl e ↦ rw e tt
    | inr e ↦ rw e (e, tt)
  ]
  Differ-append (x ∷ y ∷ []) h d = elim (Bool-cases (same y.value h.value)) [
    | inl e ↦ rw e (d.0, tt)
    | inr e ↦ rw e (d.0, (e, tt))
  ]
  Differ-append (x ∷ y ∷ z ∷ l) h d = (d.0, Differ-append (y ∷ z ∷ l) h d.1)

  module _ (sound : (v w : V) → same v w ≡ true → v ≡ w) where
    value_at-append :
        (a m : ℕ) (l : List (Held V)) (h : Held V) (t : ℕ)
        → Tiles a m l
        → h.start_s ≡ m
        → m < h.end_s
        → value_at (append_held same l h) t ≡ value_at (l ++ h ∷ []) t
    value_at-append a m [] h t o p k = refl
    value_at-append a m (x ∷ []) h t o p k =
        if_split (λ r. value_at r t ≡ value_at (x ∷ h ∷ []) t) (same x.value h.value)
          (λ e. let eq = sound x.value h.value e in ground arith) (λ _. refl)
    value_at-append a m (x ∷ y ∷ l) h t o p k =
        ap (λ r. if leb x.start_s t && ltb t x.end_s then some x.value else r)
          (value_at-append x.end_s m (y ∷ l) h t o.2 p k)

    -- The pieces before an instant do not hold it.
    value_at-before :
        (a m : ℕ) (l r : List (Held V)) (t : ℕ)
        → Tiles a m l
        → value_at (l ++ r) t ≡ (if leb a t && ltb t m then value_at l t else value_at r t)
    value_at-before a m [] r t o = ground arith
    value_at-before a m (x ∷ l) r t o =
        ground (arith, value_at-before x.end_s m l r t o.2, Tiles-le x.end_s m l o.2)

    -- Outside the pieces there is no value.
    value_at-outside :
        (a m : ℕ) (l : List (Held V)) (t : ℕ)
        → Tiles a m l
        → value_at l t ≡ (if leb a t && ltb t m then value_at l t else none)
    value_at-outside a m [] t o = ground arith
    value_at-outside a m (x ∷ l) t o =
        ground (arith, value_at-outside x.end_s m l t o.2, Tiles-le x.end_s m l o.2)

    pub hold_from-value :
        (a m b : ℕ) (acc : List (Held V)) (cuts : List ℕ) (values : List V) (t : ℕ)
        → Tiles a m acc
        → Cuts m b cuts values
        → value_at (hold_from same acc cuts values) t
          ≡ (if leb a t && ltb t m then value_at acc t else step_value cuts values t)
    unfolding hold_from
    hold_from-value a m b acc [] values t o c = elim c [ ]
    hold_from-value a m b acc (x ∷ []) [] t o c = value_at-outside a m acc t o
    hold_from-value a m b acc (x ∷ []) (v ∷ values) t o c = elim c [ ]
    hold_from-value a m b acc (x ∷ y ∷ cuts) [] t o c = elim c [ ]
    hold_from-value a m b acc (x ∷ y ∷ cuts) (v ∷ values) t o c =
        combine a m x y t v (value_at acc t) _ _ (step_value (y ∷ cuts) values t) c.0
          (Tiles-le a m acc o) c.1
          (hold_from-value a y b (append_held same acc _) (y ∷ cuts) values t
            (Tiles-append a m y acc _ o c.0 refl (omega arith)) c.2)
          (value_at-append a m acc _ t o c.0 (omega arith) ∙ value_at-before a m acc _ t o)

  pub hold_from-Tiles :
      (a m b : ℕ) (acc : List (Held V)) (cuts : List ℕ) (values : List V)
      → Tiles a m acc
      → Cuts m b cuts values
      → Tiles a b (hold_from same acc cuts values)
  unfolding hold_from
  hold_from-Tiles a m b acc [] values t c = elim c [ ]
  hold_from-Tiles a m b acc (x ∷ []) [] t c = subst (λ k. Tiles a k acc) (sym c.0 ∙ c.1) t
  hold_from-Tiles a m b acc (x ∷ []) (v ∷ values) t c = elim c [ ]
  hold_from-Tiles a m b acc (x ∷ y ∷ cuts) [] t c = elim c [ ]
  hold_from-Tiles a m b acc (x ∷ y ∷ cuts) (v ∷ values) t c =
      hold_from-Tiles a y b (append_held same acc _) (y ∷ cuts) values
        (Tiles-append a m y acc _ t c.0 refl (omega arith)) c.2

  pub hold_from-Differ :
      (acc : List (Held V)) (cuts : List ℕ) (values : List V)
      → Differ acc
      → Differ (hold_from same acc cuts values)
  unfolding hold_from
  hold_from-Differ acc [] values d = d
  hold_from-Differ acc (x ∷ []) values d = d
  hold_from-Differ acc (x ∷ y ∷ cuts) [] d = d
  hold_from-Differ acc (x ∷ y ∷ cuts) (v ∷ values) d =
      hold_from-Differ (append_held same acc _) (y ∷ cuts) values (Differ-append acc _ d)
