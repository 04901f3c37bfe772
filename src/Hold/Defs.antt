-- ===== src/Hold/Defs.antt =====
-- The loop over the cuts of a piecewise constant function (engine/statistics.py, engine/routing.py).
use openleo.Prelude.{ℕ, if◌then◌else◌, Bool, List, [], ◌∷◌}

pub record Held (V : Type 0) : Type 0 where
  pub start_s : ℕ
  pub end_s : ℕ
  pub value : V

module _ {V : Type 0} (same : V → V → Bool) where
  -- Add a piece at the end of the list, or lengthen the last one.
  abbrev pub append_held : List (Held V) → Held V → List (Held V)
  append_held [] h = h ∷ []
  append_held (x ∷ []) h =
      if same x.value h.value then record x { end_s = h.end_s } ∷ [] else x ∷ h ∷ []
  append_held (x ∷ y ∷ l) h = x ∷ append_held (y ∷ l) h

  -- The loop over `zip(cuts, cuts[1:], values)`.
  unfoldable pub hold_from : List (Held V) → List ℕ → List V → List (Held V)
  hold_from acc (a ∷ b ∷ cuts) (v ∷ values) =
      hold_from (append_held acc (record { start_s = a; end_s = b; value = v })) (b ∷ cuts) values
  hold_from acc _ _ = acc
