-- ===== src/Olc/Codec.antt =====
-- results/olc.py: `encode_table` and `decode_table`. UTF-8, SHA-256 and the JSON text of the header are
-- Python's: arguments.
use openleo.Prelude.{
  ℕ, zero, suc, ◌+◌, ◌-◌, ◌*◌, ◌%◌, leb, ◌==◌, Bool, true, false, not, ◌&&◌, Option, none, some,
  List, [], ◌∷◌, ◌++◌, length, take, drop, replicate, if◌then◌else◌, ◌>>=◌, check, ◌>>◌,
}
use openleo.Prelude.Int.{pos}
use openleo.Json.{Value, Items, Fields, int, string, array, object, nil, cons, end, field, member}
use openleo.Json.Texts.{Text, text, text_eq}
use openleo.Olc.{
  Bytes, Dtype, dtype_text, find_dtype, dtypes, itemsize, Column, Values, numbers, texts,
  is_text_column, Table, rows_of_columns, make_table, to_bytes, from_bytes, words_to_bytes, words,
  sums, join, slice, cuts, is_ascending, all_zero, align,
}

-- "OLC1"
abbrev pub magic : Bytes
magic = 79 ∷ 76 ∷ 67 ∷ 49 ∷ []

abbrev pub max_u32 : ℕ
max_u32 = 4294967295

abbrev pub last_of : List ℕ → ℕ
last_of [] = 0
last_of (o ∷ []) = o
last_of (o ∷ p ∷ l) = last_of (p ∷ l)

abbrev pub first_of : List ℕ → ℕ
first_of [] = 0
first_of (o ∷ l) = o

abbrev pub is_empty_text : Text → Bool
is_empty_text [] = true
is_empty_text _ = false

-- What Python's libraries do.
pub record Library : Type 0 where
  pub utf8 : Text → Option Bytes
  pub from_utf8 : Bytes → Option Text
  pub sha256 : Bytes → Text
  pub dumps : Value → Bytes
  pub loads : Bytes → Option Value

module _ (lib : Library) where
  unfoldable pub encode_texts : List Text → Option (List Bytes)
  encode_texts [] = some []
  encode_texts (t ∷ l) = lib.utf8 t >>= λ b. encode_texts l >>= λ rest. some (b ∷ rest)

  -- `_payload`
  unfoldable pub payload_of : Column → Values → Option Bytes
  payload_of c (numbers l) = some (words_to_bytes (itemsize c.dtype) l)
  payload_of c (texts l) = encode_texts l >>= λ encoded.
      check (leb (last_of (sums 0 encoded)) max_u32)
      >> some (words_to_bytes 4 (sums 0 encoded) ++ join encoded)

  unfoldable pub payloads_of : List (Column × Values) → Option (List Bytes)
  payloads_of [] = some []
  payloads_of ((c, v) ∷ l) = payload_of c v >>= λ p. payloads_of l >>= λ rest. some (p ∷ rest)

  abbrev pub offsets_from : ℕ → List Bytes → List ℕ
  offsets_from cursor [] = []
  offsets_from cursor (p ∷ l) = align cursor ∷ offsets_from (align cursor + length p) l

  -- The members in the order of `sort_keys`.
  abbrev pub entry_of : Column → ℕ → Bytes → Value
  entry_of c offset payload = object (
      field (text "description") (string c.description) (
        field (text "dtype") (string (dtype_text c.dtype)) (
          field (text "length") (int (pos (length payload))) (
            field (text "name") (string c.name) (
              field (text "offset") (int (pos offset)) (
                field (text "sha256") (string (lib.sha256 payload))
                  (field (text "unit") (string c.unit) end)))))))

  abbrev pub entries_of : List (Column × Values) → List ℕ → List Bytes → Items
  entries_of ((c, v) ∷ l) (o ∷ os) (p ∷ ps) = cons (entry_of c o p) (entries_of l os ps)
  entries_of _ _ _ = nil

  abbrev pub header_of : Table → List ℕ → List Bytes → Value
  header_of t offsets payloads = object (
      field (text "columns") (array (entries_of t.columns offsets payloads)) (
        field (text "rows") (int (pos (rows_of_columns t.columns)))
          (field (text "table") (string t.name) end)))

  -- The header if it is assumed to be this long.
  abbrev pub offsets_at : ℕ → List Bytes → List ℕ
  offsets_at header_length payloads = offsets_from (align (8 + header_length)) payloads

  abbrev pub header_at : Table → List Bytes → ℕ → Bytes
  header_at t payloads header_length =
      lib.dumps (header_of t (offsets_at header_length payloads) payloads)

  -- `_layout`: each round on one unit of fuel.
  unfoldable pub layout_from : Table → List Bytes → ℕ → ℕ → Option (Bytes × List ℕ)
  layout_from t payloads zero header_length = none
  layout_from t payloads (suc fuel) header_length =
      let encoded = header_at t payloads header_length in
      let again = layout_from t payloads fuel (length encoded) in
      if length encoded == header_length
      then some (encoded, offsets_at header_length payloads)
      else again

  abbrev pub body_from : ℕ → List ℕ → List Bytes → Bytes
  body_from size (o ∷ os) (p ∷ ps) =
      replicate (o - size) 0 ++ (p ++ body_from (size + (o - size) + length p) os ps)
  body_from size _ _ = []

  unfoldable pub encode_table : ℕ → Table → Option Bytes
  encode_table fuel t = payloads_of t.columns >>= λ payloads.
      layout_from t payloads fuel 0 >>= λ layout.
      check (leb (length layout.0) max_u32)
      >> some (
          magic
          ++ (to_bytes 4 (length layout.0)
              ++ (layout.0 ++ body_from (8 + length layout.0) layout.1 payloads)))

  abbrev pub string_of : Option Value → Option Text
  string_of (some (string s)) = some s
  string_of _ = none

  abbrev pub natural_of : Option Value → Option ℕ
  natural_of (some (int (pos n))) = some n
  natural_of _ = none

  -- `entry.get("description", "")`
  abbrev pub string_or : Option Value → Option Text
  string_or none = some []
  string_or (some (string s)) = some s
  string_or _ = none

  pub record ColumnEntry : Type 0 where
    pub column : Column
    pub start : ℕ
    pub stop : ℕ
    pub digest : Text

  -- `_column_entry`
  unfoldable pub column_entry : Value → ℕ → ℕ → Option ColumnEntry
  column_entry (object fs) size cursor = string_of (member (text "name") fs) >>= λ name.
      check (not (is_empty_text name))
      >> (string_of (member (text "dtype") fs) >>= λ dtype_name.
          find_dtype dtype_name dtypes >>= λ dtype. string_of (member (text "unit") fs) >>= λ unit.
          string_or (member (text "description") fs) >>= λ description.
          natural_of (member (text "offset") fs) >>= λ offset.
          natural_of (member (text "length") fs) >>= λ count.
          string_of (member (text "sha256") fs) >>= λ digest.
          check (offset % 8 == 0)
          >> (check (leb cursor offset)
              >> (check (leb (offset + count) size)
                  >> some (record {
                    column = record {
                      name = name;
                      dtype = dtype;
                      unit = unit;
                      description = description;
                    };
                    start = offset;
                    stop = offset + count;
                    digest = digest;
                  }))))
  column_entry _ size cursor = none

  unfoldable pub decode_texts : List Bytes → Option (List Text)
  decode_texts [] = some []
  decode_texts (b ∷ l) = lib.from_utf8 b >>= λ t. decode_texts l >>= λ rest. some (t ∷ rest)

  abbrev pub texts_at : List ℕ → Bytes → Option Values
  texts_at offsets body =
      check (first_of offsets == 0 && last_of offsets == length body && is_ascending offsets)
      >> (decode_texts (cuts offsets body) >>= λ l. some (texts l))

  abbrev pub read_texts : Bytes → ℕ → Option Values
  read_texts payload rows =
      check (leb (4 * (rows + 1)) (length payload))
      >> texts_at (words 4 (rows + 1) payload) (drop (4 * (rows + 1)) payload)

  abbrev pub read_numbers : ℕ → Bytes → ℕ → Option Values
  read_numbers size payload rows =
      check (length payload == rows * size) >> some (numbers (words size rows payload))

  -- `_read_values`
  unfoldable pub read_values : Dtype → Bytes → ℕ → Option Values
  read_values dtype payload rows =
      if is_text_column dtype
      then read_texts payload rows
      else read_numbers (itemsize dtype) payload rows

  unfoldable pub columns_from : Bytes → ℕ → ℕ → Items → Option (List (Column × Values) × ℕ)
  columns_from data_bytes rows cursor nil = some ([], cursor)
  columns_from data_bytes rows cursor (cons entry l) =
      column_entry entry (length data_bytes) cursor >>= λ e.
      check (all_zero (slice cursor e.start data_bytes))
      >> (check (text_eq (lib.sha256 (slice e.start e.stop data_bytes)) e.digest)
          >> (read_values e.column.dtype (slice e.start e.stop data_bytes) rows >>= λ values.
              columns_from data_bytes rows e.stop l >>= λ rest.
              some ((e.column, values) ∷ rest.0, rest.1)))

  abbrev pub items_of : Option Value → Option Items
  items_of (some (array l)) = some l
  items_of _ = none

  abbrev pub members_of : Value → Option Fields
  members_of (object fs) = some fs
  members_of _ = none

  -- What follows the preamble of a file whose header ends here.
  unfoldable pub decode_at : Bytes → ℕ → Option Table
  decode_at data_bytes header_end =
      check (leb header_end (length data_bytes))
      >> (lib.loads (slice 8 header_end data_bytes) >>= λ header. members_of header >>= λ fs.
          items_of (member (text "columns") fs) >>= λ entries.
          string_of (member (text "table") fs) >>= λ name.
          natural_of (member (text "rows") fs) >>= λ rows.
          check (leb (align header_end) (length data_bytes))
          >> (check (all_zero (slice header_end (align header_end) data_bytes))
              >> (columns_from data_bytes rows (align header_end) entries >>= λ columns.
                  check (columns.1 == length data_bytes) >> make_table name columns.0)))

  unfoldable pub decode_table : Bytes → Option Table
  decode_table data_bytes =
      check (leb 8 (length data_bytes))
      >> (check (text_eq (take 4 data_bytes) magic)
          >> decode_at data_bytes (8 + from_bytes (slice 4 8 data_bytes)))
