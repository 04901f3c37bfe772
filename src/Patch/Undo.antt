-- ===== src/Patch/Undo.antt =====
-- `add` and `remove` (sweep.py): a `remove` takes back an `add` that made a new member or element.
use openleo.Prelude.{Bool, false, not, none, some, List, [], ◌∷◌}
use openleo.Json.{Value, array, object, has}
use openleo.Json.Texts.{Text, text_eq}
use openleo.Patch.{dash, child}

-- Whether the last token makes a new member or element, and says which.
unfoldable pub is_new : List Text → Value → Bool
is_new [] node = false
is_new (t ∷ []) (object fs) = not (has t fs)
is_new (t ∷ []) (array l) = not (text_eq t dash)
is_new (t ∷ []) node = false
is_new (t ∷ u ∷ ts) node = elim (child node t) [ none ↦ false | some c ↦ is_new (u ∷ ts) c ]
