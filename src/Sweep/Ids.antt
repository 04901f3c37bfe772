-- ===== src/Sweep/Ids.antt =====
-- sweep.py: run ids. `quote` percent-encodes the UTF-8 bytes of a text; the ids are then ASCII, so
-- `casefold` maps the capital letters to small ones.
use openleo.Prelude.{
  ℕ, zero, suc, ◌+◌, ◌/◌, ◌%◌, ◌==◌, ltb, leb, if◌then◌else◌, Bool, true, not, ◌&&◌, ◌||◌, Option,
  none, some, List, [], ◌∷◌, ◌++◌, length, last,
}
use openleo.Json.Texts.{Text}
use openleo.Sweep.Checks.{one_of}

-- The UTF-8 bytes of a code point.
abbrev pub bytes_of : ℕ → List ℕ
bytes_of c =
    if ltb c 128
    then c ∷ []
    else if ltb c 2048
    then (192 + c / 64) ∷ (128 + c % 64) ∷ []
    else if ltb c 65536
    then (224 + c / 4096) ∷ (128 + c / 64 % 64) ∷ (128 + c % 64) ∷ []
    else (240 + c / 262144) ∷ (128 + c / 4096 % 64) ∷ (128 + c / 64 % 64) ∷ (128 + c % 64) ∷ []

abbrev pub is_unreserved : ℕ → Bool
is_unreserved c =
    (leb 65 c && leb c 90)
    || (leb 97 c && leb c 122)
    || (leb 48 c && leb c 57)
    || c == 95
    || c == 46
    || c == 45
    || c == 126

abbrev pub hex_digit : ℕ → ℕ
hex_digit d = if ltb d 10 then 48 + d else 55 + d

abbrev pub quote_bytes : List ℕ → Text
quote_bytes [] = []
quote_bytes (b ∷ l) =
    if is_unreserved b
    then b ∷ quote_bytes l
    else 37 ∷ hex_digit (b / 16) ∷ hex_digit (b % 16) ∷ quote_bytes l

-- `urllib.parse.quote(text, safe="")`
unfoldable pub quote : Text → Text
quote [] = []
quote (c ∷ s) = quote_bytes (bytes_of c) ++ quote s

abbrev pub max_run_id_chars : ℕ
max_run_id_chars = 200

-- `_run_id`
unfoldable pub run_id : Text → Option Text
run_id s = if ltb max_run_id_chars (length (quote s)) then none else some (quote s)

-- The decimal digits of a number that has at most as many as the fuel.
unfoldable pub decimal_from : ℕ → ℕ → Text
decimal_from zero n = []
decimal_from (suc fuel) n =
    let front = decimal_from fuel (n / 10) in
    if ltb n 10 then (48 + n) ∷ [] else front ++ (48 + n % 10) ∷ []

-- `str(n)`
abbrev pub decimal : ℕ → Text
decimal n = decimal_from (suc n) n

abbrev pub lower : ℕ → ℕ
lower c = if leb 65 c && leb c 90 then c + 32 else c

abbrev pub casefold : Text → Text
casefold [] = []
casefold (c ∷ s) = lower c ∷ casefold s

-- `_check_portable_ids`, with the folded ids before.
unfoldable pub are_portable : List Text → List Text → Bool
are_portable seen [] = true
are_portable seen (id ∷ l) =
    not (last 0 id == 46) && not (one_of (casefold id) seen) && are_portable (casefold id ∷ seen) l
