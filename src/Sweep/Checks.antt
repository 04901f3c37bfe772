-- ===== src/Sweep/Checks.antt =====
-- sweep.py: the checks of a sweep document's values. A ValueError is `none`.
use openleo.Prelude.{
  ℕ, ◌*◌, ◌^◌, ◌==◌, ltb, leb, if◌then◌else◌, Bool, true, false, not, ◌&&◌, ◌||◌, Option, none,
  some, List, [], ◌∷◌, length,
}
use openleo.Prelude.Int.{ℤ, pos, leb_ℤ, ltb_ℤ}
use openleo.Json.{
  Value, Items, Fields, null, int, float, string, array, nil, cons, end, field, member, has,
  count_items,
}
use openleo.Json.Equal.{equal}
use openleo.Json.Texts.{Text, text_eq}

abbrev pub one_of : Text → List Text → Bool
one_of t [] = false
one_of t (k ∷ l) = text_eq t k || one_of t l

abbrev pub has_all : List Text → Fields → Bool
has_all [] fs = true
has_all (k ∷ l) fs = has k fs && has_all l fs

-- `_only`: the keys are there, and none that are not named.
unfoldable pub only : List Text → List Text → Fields → Bool
only required optional fs = has_all required fs && all_named fs
  where
    all_named : Fields → Bool
    all_named end = true
    all_named (field k v fs) = (one_of k required || one_of k optional) && all_named fs

-- `str.isspace` of one character.
abbrev pub is_space : ℕ → Bool
is_space c =
    (leb 9 c && leb c 13)
    || (leb 28 c && leb c 32)
    || c == 133
    || c == 160
    || c == 5760
    || (leb 8192 c && leb c 8202)
    || c == 8232
    || c == 8233
    || c == 8239
    || c == 8287
    || c == 12288

abbrev pub is_blank : Text → Bool
is_blank [] = true
is_blank (c ∷ s) = is_space c && is_blank s

-- `_text`, with no limit as `none`.
unfoldable pub text_in : Option ℕ → Value → Option Text
text_in none (string s) = if is_blank s then none else some s
text_in (some limit) (string s) = if is_blank s || ltb limit (length s) then none else some s
text_in limit _ = none

-- low <= m / 2^k <= high, or low < m / 2^k.
abbrev pub in_range : Bool → ℕ → ℕ → ℤ → ℕ → Bool
in_range strict low high m k =
    (if strict then ltb_ℤ (pos (low * 2 ^ k)) m else leb_ℤ (pos (low * 2 ^ k)) m)
    && leb_ℤ m (pos (high * 2 ^ k))

-- `_number`
unfoldable pub number_in : Bool → ℕ → ℕ → Value → Option Value
number_in strict low high (int n) = if in_range strict low high n 0 then some (int n) else none
number_in strict low high (float m k) =
    if in_range strict low high m k then some (float m k) else none
number_in strict low high _ = none

-- `_integer`, whose bounds are not negative.
unfoldable pub integer_in : ℕ → ℕ → Value → Option ℕ
integer_in low high (int (pos n)) = if leb low n && leb n high then some n else none
integer_in low high _ = none

-- `_array`
unfoldable pub array_in : ℕ → ℕ → Value → Option Items
array_in low high (array l) =
    if leb low (count_items l) && leb (count_items l) high then some l else none
array_in low high _ = none

-- `_unique`
abbrev pub is_among : Value → Items → Bool
is_among v nil = false
is_among v (cons w l) = equal v w || is_among v l

unfoldable pub unique_from : Items → Items → Bool
unique_from seen nil = true
unique_from seen (cons v l) = not (is_among v seen) && unique_from (cons v seen) l

-- `entry.get(key, default)`
abbrev pub get_default : Text → Value → Fields → Value
get_default k d fs = elim (member k fs) [ none ↦ d | some v ↦ v ]

-- `entry.get(key)`, which does not tell a missing key from null.
abbrev pub get_null : Text → Fields → Option Value
get_null k fs = elim (member k fs) [ none ↦ none | some null ↦ none | some v ↦ some v ]
