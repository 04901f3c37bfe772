-- ===== src/Json.antt =====
-- The JSON values that the documents of OpenLEO are made of, as Python's json module reads them, and
-- what the program does with their parts. A text is the list of its code points.
pub mod Texts
pub mod Equal
pub mod Members
pub mod Elements
use openleo.Prelude.{
  ℕ, zero, suc, ◌+◌, ◌*◌, ◌^◌, ltb, leb, ◌==◌, if◌then◌else◌, Bool, true, false, not, ◌&&◌, ◌||◌,
  Option, none, some, List, [], ◌∷◌,
}
use openleo.Prelude.Int.{ℤ, pos, negsuc}
use openleo.Json.Texts.{Text, text_eq}

-- `float m k` is the number m / 2^k: a finite float is one.
mutual
  pub data Value : Type 0 where
    null : Value
    bool : Bool → Value
    int : ℤ → Value
    float : ℤ → ℕ → Value
    string : Text → Value
    array : Items → Value
    object : Fields → Value

  pub data Items : Type 0 where
    nil : Items
    cons : Value → Items → Items

  pub data Fields : Type 0 where
    end : Fields
    field : Text → Value → Fields → Fields

-- A dict keeps the order in which its keys came; `d[k] = v` replaces in place or adds at the end.
abbrev pub member : Text → Fields → Option Value
member k end = none
member k (field j v fs) = if text_eq k j then some v else member k fs

abbrev pub put : Text → Value → Fields → Fields
put k v end = field k v end
put k v (field j w fs) = if text_eq k j then field j v fs else field j w (put k v fs)

abbrev pub del : Text → Fields → Fields
del k end = end
del k (field j w fs) = if text_eq k j then fs else field j w (del k fs)

abbrev pub has : Text → Fields → Bool
has k end = false
has k (field j v fs) = text_eq k j || has k fs

abbrev pub count_items : Items → ℕ
count_items nil = 0
count_items (cons v l) = suc (count_items l)

abbrev pub nth : ℕ → Items → Option Value
nth i nil = none
nth zero (cons v l) = some v
nth (suc i) (cons v l) = nth i l

-- `l[i] = v`, `l.insert(i, v)` and `del l[i]` with an index that the caller has checked.
abbrev pub set_nth : ℕ → Value → Items → Items
set_nth i v nil = nil
set_nth zero v (cons w l) = cons v l
set_nth (suc i) v (cons w l) = cons w (set_nth i v l)

abbrev pub insert_nth : ℕ → Value → Items → Items
insert_nth zero v l = cons v l
insert_nth (suc i) v nil = cons v nil
insert_nth (suc i) v (cons w l) = cons w (insert_nth i v l)

abbrev pub del_nth : ℕ → Items → Items
del_nth i nil = nil
del_nth zero (cons w l) = l
del_nth (suc i) (cons w l) = cons w (del_nth i l)

abbrev pub to_list : Items → List Value
to_list nil = []
to_list (cons v l) = v ∷ to_list l
