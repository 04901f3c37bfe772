-- ===== src/Patch/Pointer.antt =====
-- sweep.py `_tokens`, and `_field` of _validation.py, which names a child of a pointer.
use openleo.Prelude.{
  ℕ, ◌+◌, ◌-◌, ◌*◌, leb, ◌==◌, if◌then◌else◌, Bool, true, false, not, ◌&&◌, ◌||◌, Option, none,
  some, List, [], ◌∷◌, ◌++◌, map,
}
use openleo.Json.Texts.{Text}

-- '/', '~', '0' and '1'
abbrev pub slash : ℕ
slash = 47

abbrev pub tilde : ℕ
tilde = 126

abbrev pub push_first : ℕ → List Text → List Text
push_first c [] = (c ∷ []) ∷ []
push_first c (t ∷ ts) = (c ∷ t) ∷ ts

-- `split("/")`
unfoldable pub split : Text → List Text
split [] = [] ∷ []
split (c ∷ s) = elim (c == slash) [ true ↦ [] ∷ split s | false ↦ push_first c (split s) ]

abbrev pub is_escape : Text → Bool
is_escape [] = false
is_escape (d ∷ s) = d == 48 || d == 49

-- `~(?![01])` somewhere in the text.
abbrev pub has_bad_escape : Text → Bool
has_bad_escape [] = false
has_bad_escape (c ∷ s) = (c == tilde && not (is_escape s)) || has_bad_escape s

abbrev pub any_bad_escape : List Text → Bool
any_bad_escape [] = false
any_bad_escape (t ∷ ts) = has_bad_escape t || any_bad_escape ts

-- `replace` of '~' and a digit by one character.
unfoldable pub unescape : ℕ → ℕ → Text → Text
unescape digit to [] = []
unescape digit to (c ∷ []) = c ∷ []
unescape digit to (c ∷ d ∷ s) = elim (c == tilde && d == digit) [
  | true ↦ to ∷ unescape digit to s
  | false ↦ c ∷ unescape digit to (d ∷ s)
]

-- `part.replace("~1", "/").replace("~0", "~")`
unfoldable pub token : Text → Text
token part = unescape 48 tilde (unescape 49 slash part)

unfoldable pub tokens : Text → Option (List Text)
tokens [] = none
tokens (c ∷ s) =
    if c == slash && not (any_bad_escape (split s)) then some (map token (split s)) else none

abbrev pub is_digit : ℕ → Bool
is_digit c = leb 48 c && leb c 57

abbrev pub all_digits : Text → Bool
all_digits [] = true
all_digits (c ∷ s) = is_digit c && all_digits s

-- `(?:0|[1-9][0-9]*)\\Z`
abbrev pub is_index : Text → Bool
is_index [] = false
is_index (c ∷ []) = is_digit c
is_index (c ∷ d ∷ s) = leb 49 c && is_digit c && all_digits (d ∷ s)

-- `int(token)`
abbrev pub number_from : ℕ → Text → ℕ
number_from n [] = n
number_from n (c ∷ s) = number_from (10 * n + (c - 48)) s

unfoldable pub index_of_token : Text → Option ℕ
index_of_token t = if is_index t then some (number_from 0 t) else none

-- `name.replace("~", "~0").replace("/", "~1")`
unfoldable pub escape : ℕ → ℕ → Text → Text
escape from digit [] = []
escape from digit (c ∷ s) =
    if c == from then tilde ∷ digit ∷ escape from digit s else c ∷ escape from digit s

-- `_field` of a pointer.
unfoldable pub field_of : Text → Text → Text
field_of path name = path ++ slash ∷ escape slash 49 (escape tilde 48 name)
