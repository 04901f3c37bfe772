-- ===== src/Olc.antt =====
-- results/olc.py and results/model.py: a table of columns, and its payloads as bytes.
pub mod Codec
pub mod Words
pub mod Cuts
pub mod Entries
pub mod Roundtrip
pub mod Restored
pub mod Layout
mod Tests
use openleo.Prelude.{
  ℕ, zero, suc, ◌+◌, ◌-◌, ◌*◌, ◌/◌, ◌%◌, leb, ltb, ◌==◌, Bool, true, false, not, ◌&&◌, ◌||◌, Option,
  none, some, List, [], ◌∷◌, ◌++◌, length, take, drop, replicate, if◌then◌else◌, ◌>>=◌, check, ◌>>◌,
}
use openleo.Json.Texts.{Text, text, text_eq}

abbrev pub Bytes : Type 0
Bytes = List ℕ

pub data Dtype : Type 0 where
  f64 f32 i64 i32 u8 str : Dtype

abbrev pub dtype_text : Dtype → Text
dtype_text f64 = text "f64"
dtype_text f32 = text "f32"
dtype_text i64 = text "i64"
dtype_text i32 = text "i32"
dtype_text u8 = text "u8"
dtype_text str = text "str"

abbrev pub find_dtype : Text → List Dtype → Option Dtype
find_dtype t [] = none
find_dtype t (d ∷ l) = if text_eq t (dtype_text d) then some d else find_dtype t l

-- `DTYPES`
abbrev pub dtypes : List Dtype
dtypes = f64 ∷ f32 ∷ i64 ∷ i32 ∷ u8 ∷ str ∷ []

-- The bytes of a number.
abbrev pub itemsize : Dtype → ℕ
itemsize f64 = 8
itemsize f32 = 4
itemsize i64 = 8
itemsize i32 = 4
itemsize u8 = 1
itemsize str = 0

pub record Column : Type 0 where
  pub name : Text
  pub dtype : Dtype
  pub unit : Text
  pub description : Text

-- A number is its bits.
pub data Values : Type 0 where
  numbers : List ℕ → Values
  texts : List Text → Values

abbrev pub count_values : Values → ℕ
count_values (numbers l) = length l
count_values (texts l) = length l

abbrev pub is_text_column : Dtype → Bool
is_text_column str = true
is_text_column _ = false

-- A number of `k` bytes.
abbrev pub fits : ℕ → ℕ → Bool
fits zero n = n == 0
fits (suc k) n = fits k (n / 256)

abbrev pub all_fit : ℕ → List ℕ → Bool
all_fit k [] = true
all_fit k (n ∷ l) = fits k n && all_fit k l

-- `_normalise`: values of the type of the column.
abbrev pub is_normal : Column → Values → Bool
is_normal c (numbers l) = not (is_text_column c.dtype) && all_fit (itemsize c.dtype) l
is_normal c (texts l) = is_text_column c.dtype

abbrev pub are_normal : ℕ → List (Column × Values) → Bool
are_normal rows [] = true
are_normal rows ((c, v) ∷ l) = is_normal c v && count_values v == rows && are_normal rows l

abbrev pub is_name_taken : Text → List (Column × Values) → Bool
is_name_taken n [] = false
is_name_taken n ((c, v) ∷ l) = text_eq n c.name || is_name_taken n l

abbrev pub are_names_unique : List (Column × Values) → Bool
are_names_unique [] = true
are_names_unique ((c, v) ∷ l) = not (is_name_taken c.name l) && are_names_unique l

abbrev pub is_lower : ℕ → Bool
is_lower c = leb 97 c && leb c 122

abbrev pub are_name_chars : Text → Bool
are_name_chars [] = true
are_name_chars (c ∷ s) = (is_lower c || (leb 48 c && leb c 57) || c == 95) && are_name_chars s

-- `[a-z][a-z0-9_]*\\Z`
abbrev pub is_table_name : Text → Bool
is_table_name [] = false
is_table_name (c ∷ s) = is_lower c && are_name_chars s

-- The columns with their values: `columns` and `data`.
pub record Table : Type 0 where
  pub name : Text
  pub columns : List (Column × Values)

abbrev pub rows_of_columns : List (Column × Values) → ℕ
rows_of_columns [] = 0
rows_of_columns ((c, v) ∷ l) = count_values v

abbrev pub is_nonempty : List (Column × Values) → Bool
is_nonempty [] = false
is_nonempty _ = true

-- `Table(name, columns, values)`
unfoldable pub make_table : Text → List (Column × Values) → Option Table
make_table name columns =
    check (is_table_name name)
    >> (check (is_nonempty columns)
        >> (check (are_names_unique columns)
            >> (check (are_normal (rows_of_columns columns) columns)
                >> some (record { name = name; columns = columns }))))

-- The lowest byte comes first.
abbrev pub to_bytes : ℕ → ℕ → Bytes
to_bytes zero n = []
to_bytes (suc k) n = n % 256 ∷ to_bytes k (n / 256)

abbrev pub from_bytes : Bytes → ℕ
from_bytes [] = 0
from_bytes (b ∷ l) = b + 256 * from_bytes l

abbrev pub words_to_bytes : ℕ → List ℕ → Bytes
words_to_bytes k [] = []
words_to_bytes k (n ∷ l) = to_bytes k n ++ words_to_bytes k l

-- `np.frombuffer` with a count.
abbrev pub words : ℕ → ℕ → Bytes → List ℕ
words k zero b = []
words k (suc n) b = from_bytes (take k b) ∷ words k n (drop k b)

-- `np.cumsum`, after a first 0.
abbrev pub sums : ℕ → List Bytes → List ℕ
sums s [] = s ∷ []
sums s (e ∷ l) = s ∷ sums (s + length e) l

abbrev pub join : List Bytes → Bytes
join [] = []
join (e ∷ l) = e ++ join l

abbrev pub slice : ℕ → ℕ → Bytes → Bytes
slice a b data_bytes = take (b - a) (drop a data_bytes)

-- The parts between neighbouring offsets.
abbrev pub cuts : List ℕ → Bytes → List Bytes
cuts [] b = []
cuts (o ∷ []) b = []
cuts (o ∷ p ∷ l) b = slice o p b ∷ cuts (p ∷ l) b

abbrev pub is_ascending : List ℕ → Bool
is_ascending [] = true
is_ascending (o ∷ []) = true
is_ascending (o ∷ p ∷ l) = leb o p && is_ascending (p ∷ l)

abbrev pub all_zero : Bytes → Bool
all_zero [] = true
all_zero (b ∷ l) = b == 0 && all_zero l

-- `-(-value // 8) * 8`
abbrev pub align : ℕ → ℕ
align value = (value + 7) / 8 * 8
