-- ===== src/Json/Equal.antt =====
-- sweep.py `_numbers_equal`: JSON equality in which 15 and 15.0 are the same number.
use openleo.Prelude.{ℕ, ◌*◌, ◌^◌, ◌==◌, Bool, true, false, ◌&&◌, none, some}
use openleo.Prelude.Int.{ℤ, pos_part, neg_part}
use openleo.Json.{
  Value, Items, Fields, null, bool, int, float, string, array, object, nil, cons, end, field,
  member, has,
}
use openleo.Json.Texts.{text_eq}

-- m / 2^k and n / 2^j.
abbrev pub same_number : ℤ → ℕ → ℤ → ℕ → Bool
same_number m k n j =
    (pos_part m * 2 ^ j == pos_part n * 2 ^ k) && (neg_part m * 2 ^ j == neg_part n * 2 ^ k)

abbrev pub same_bool : Bool → Bool → Bool
same_bool true b = b
same_bool false true = false
same_bool false false = true

-- Every key of the second is one of the first.
abbrev pub all_keys : Fields → Fields → Bool
all_keys fs end = true
all_keys fs (field k v gs) = has k fs && all_keys fs gs

unfoldable mutual
  pub equal : Value → Value → Bool
  equal null null = true
  equal (bool a) (bool b) = same_bool a b
  equal (int m) (int n) = same_number m 0 n 0
  equal (int m) (float n j) = same_number m 0 n j
  equal (float m k) (int n) = same_number m k n 0
  equal (float m k) (float n j) = same_number m k n j
  equal (string s) (string t) = text_eq s t
  equal (array l) (array r) = equal_items l r
  equal (object fs) (object gs) = all_keys fs gs && equal_fields fs gs
  equal _ _ = false

  pub equal_items : Items → Items → Bool
  equal_items nil nil = true
  equal_items (cons v l) (cons w r) = equal v w && equal_items l r
  equal_items _ _ = false

  -- Every member of the first is in the second, with an equal value.
  pub equal_fields : Fields → Fields → Bool
  equal_fields end gs = true
  equal_fields (field k v fs) gs =
      elim (member k gs) [ none ↦ false | some w ↦ equal v w ] && equal_fields fs gs
