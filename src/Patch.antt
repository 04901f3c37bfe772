-- ===== src/Patch.antt =====
-- sweep.py: RFC 6901 pointers and the RFC 6902 subset of `apply_patch`. A ValueError is `none`. The
-- source mutates a deep copy along the pointer; here each step rebuilds the node that it goes through.
pub mod Pointer
pub mod Frame
pub mod Undo
pub mod Names
pub mod Index
mod Tests
use openleo.Prelude.{
  ℕ, zero, suc, ◌+◌, ◌-◌, ◌*◌, ltb, leb, ◌==◌, if◌then◌else◌, Bool, true, false, not, ◌&&◌, ◌||◌,
  Option, none, some, List, [], ◌∷◌, ◌≡◌, refl,
}
use openleo.Json.{
  Value, Items, Fields, null, bool, int, float, string, array, object, member, put, del, has,
  count_items, nth, set_nth, insert_nth, del_nth,
}
use openleo.Json.Texts.{Text, text, text_eq}
use openleo.Patch.Pointer.{tokens, index_of_token}

pub data Op : Type 0 where
  replace add remove : Op

pub record Operation : Type 0 where
  pub op : Op
  pub path : List Text
  pub value : Option Value

-- `_step` on a list: "-" is the end where an element is created.
abbrev pub dash : Text
dash = 45 ∷ []

abbrev pub step_index : Bool → ℕ → Text → Option ℕ
step_index creating len t =
    if creating && text_eq t dash then some len else elim (index_of_token t) [
      | none ↦ none
      | some i ↦ if ltb i (if creating then suc len else len) then some i else none
    ]

-- `_child`
unfoldable pub child : Value → Text → Option Value
child (object fs) t = member t fs
child (array l) t = elim (step_index false (count_items l) t) [ none ↦ none | some i ↦ nth i l ]
child _ t = none

-- The node with its child replaced.
unfoldable pub with_child : Value → Text → Value → Value
with_child (object fs) t v = object (put t v fs)
with_child (array l) t v = elim (step_index false (count_items l) t) [
  | none ↦ array l
  | some i ↦ array (set_nth i v l)
]
with_child n t v = n

-- The last step of each operation.
unfoldable pub last_step : Op → Option Value → Value → Text → Option Value
last_step add (some v) (object fs) t = some (object (put t v fs))
last_step add (some v) (array l) t = elim (step_index true (count_items l) t) [
  | none ↦ none
  | some i ↦ some (array (insert_nth i v l))
]
last_step replace (some v) (object fs) t = if has t fs then some (object (put t v fs)) else none
last_step replace (some v) (array l) t = elim (step_index false (count_items l) t) [
  | none ↦ none
  | some i ↦ some (array (set_nth i v l))
]
last_step remove none (object fs) t = if has t fs then some (object (del t fs)) else none
last_step remove none (array l) t = elim (step_index false (count_items l) t) [
  | none ↦ none
  | some i ↦ some (array (del_nth i l))
]
last_step _ _ _ _ = none

-- `_apply_one` after the checks of the operation's shape.
unfoldable pub apply_at : Op → Option Value → List Text → Value → Option Value
apply_at op v [] node = none
apply_at op v (t ∷ []) node = last_step op v node t
apply_at op v (t ∷ u ∷ ts) node = elim (child node t) [
  | none ↦ none
  | some c ↦ elim (apply_at op v (u ∷ ts) c) [ none ↦ none | some d ↦ some (with_child node t d) ]
]

abbrev pub op_of : Value → Option Op
op_of (string s) =
    if text_eq s (text "replace")
    then some replace
    else if text_eq s (text "add")
    then some add
    else if text_eq s (text "remove")
    then some remove
    else none
op_of _ = none

abbrev pub only_patch_keys : Fields → Bool
only_patch_keys Fields.end = true
only_patch_keys (Fields.field k v fs) =
    (text_eq k (text "op") || text_eq k (text "path") || text_eq k (text "value"))
    && only_patch_keys fs

-- A value is required, or not allowed for `remove`.
abbrev pub is_complete : Op → Option Value → Bool
is_complete remove none = true
is_complete remove (some v) = false
is_complete _ none = false
is_complete _ (some v) = true

-- `_check_operation`
unfoldable pub check_operation : Value → Option Operation
check_operation (object fs) =
    if only_patch_keys fs
    then elim (member (text "op") fs) [
      | none ↦ none
      | some o ↦ elim (op_of o) [
        | none ↦ none
        | some op ↦ elim (member (text "path") fs) [
          | some (string p) ↦ elim (tokens p) [
            | none ↦ none
            | some ts ↦
                if is_complete op (member (text "value") fs)
                then some (record { op = op; path = ts; value = member (text "value") fs })
                else none
          ]
          | _ ↦ none
        ]
      ]
    ]
    else none
check_operation _ = none

unfoldable pub apply_one : Value → Value → Option Value
apply_one document operation = elim (check_operation operation) [
  | none ↦ none
  | some o ↦ apply_at o.op o.value o.path document
]

-- `apply_patch` over the operations of an array.
unfoldable pub apply_patch : Value → Items → Option Value
apply_patch document Items.nil = some document
apply_patch document (Items.cons o l) = elim (apply_one document o) [
  | none ↦ none
  | some d ↦ apply_patch d l
]

-- `_value_at`
unfoldable pub value_at : List Text → Value → Option Value
value_at [] node = some node
value_at (t ∷ ts) node = elim (child node t) [ none ↦ none | some c ↦ value_at ts c ]

-- `_overlap`: one is a prefix of the other.
abbrev pub overlap : List Text → List Text → Bool
overlap [] b = true
overlap (x ∷ a) [] = true
overlap (x ∷ a) (y ∷ b) = text_eq x y && overlap a b
