-- ===== src/Olc/Tests.antt =====
-- results/olc.py: a table with a column of numbers and one of texts.
use openleo.Prelude.{
  ℕ, ◌+◌, ◌≡◌, refl, sym, ◌∙◌, arith, Option, some, List, [], ◌∷◌, length, length-replicate,
  replicate,
}
use openleo.Prelude.Int.{pos}
use openleo.Json.{Value, null, int, array, object, cons, field, member}
use openleo.Json.Texts.{text}
use openleo.Olc.{Bytes, f32, str, Column, numbers, texts, Table, make_table, align}
use openleo.Olc.Codec.{
  Library, encode_texts, payload_of, payloads_of, header_of, header_at, offsets_at, layout_from,
  encode_table, column_entry, decode_texts, read_values, columns_from, decode_at, decode_table,
}
use openleo.Olc.Layout.{digits_from, layout-Ends}
use openleo.Olc.Restored.{decode-encode_table}

program : Unit {0}
unfolding make_table encode_texts payload_of payloads_of layout_from encode_table column_entry
    decode_texts read_values columns_from decode_at decode_table
program = tt

abbrev rates : Column
rates = record { name = text "rate"; dtype = f32; unit = text "bit/s"; description = [] }

abbrev names : Column
names = record { name = text "name"; dtype = str; unit = []; description = text "of a station" }

abbrev table : Table
table = record {
  name = text "links";
  columns = (rates, numbers (1000 ∷ 4294967295 ∷ [])) ∷ (names, texts (text "oslo" ∷ [] ∷ [])) ∷ [];
}

abbrev table_payloads : List Bytes
table_payloads =
    (232 ∷ 3 ∷ 0 ∷ 0 ∷ 255 ∷ 255 ∷ 255 ∷ 255 ∷ [])
    ∷ (0 ∷ 0 ∷ 0 ∷ 0 ∷ 4 ∷ 0 ∷ 0 ∷ 0 ∷ 4 ∷ 0 ∷ 0 ∷ 0 ∷ 111 ∷ 115 ∷ 108 ∷ 111 ∷ [])
    ∷ []

-- A library with one header: its JSON text is "{}", and that text reads as this header.
abbrev plain : Value → Library
plain header = record {
  utf8 = λ s. some s;
  from_utf8 = λ b. some b;
  sha256 = λ b. text "digest";
  dumps = λ v. 123 ∷ 125 ∷ [];
  loads = λ b. some header;
}

abbrev table_header : Value
table_header = header_of (plain null) table (16 ∷ 24 ∷ []) table_payloads

abbrev encoded : Bytes
encoded =
    79 ∷ 76 ∷ 67 ∷ 49 ∷ 2 ∷ 0 ∷ 0 ∷ 0 ∷ 123 ∷ 125 ∷ 0 ∷ 0 ∷ 0 ∷ 0 ∷ 0 ∷ 0 ∷ 232 ∷ 3 ∷ 0 ∷ 0 ∷ 255
    ∷ 255 ∷ 255 ∷ 255 ∷ 0 ∷ 0 ∷ 0 ∷ 0 ∷ 4 ∷ 0 ∷ 0 ∷ 0 ∷ 4 ∷ 0 ∷ 0 ∷ 0 ∷ 111 ∷ 115 ∷ 108 ∷ 111 ∷ []

decode-encode_table_example : decode_table (plain table_header) encoded ≡ some table
unfolding program
decode-encode_table_example =
    decode-encode_table (plain table_header) 5 table table_payloads (123 ∷ 125 ∷ []) (16 ∷ 24 ∷ [])
      encoded (λ s b h. sym h) refl refl refl refl refl refl

abbrev natural_or : Option Value → ℕ
natural_or (some (int (pos n))) = n
natural_or _ = 0

-- The offset of the first column of a header.
abbrev first_offset : Value → ℕ
first_offset (object (field k (array (cons (object fs) l)) gs)) =
    natural_or (member (text "offset") fs)
first_offset _ = 0

-- The JSON text of a header has here only as many characters as that offset has digits.
abbrev counting : Library
counting = record {
  utf8 = λ s. some s;
  from_utf8 = λ b. some b;
  sha256 = λ b. text "digest";
  dumps = λ v. replicate (digits_from 20 (first_offset v)) 48;
  loads = λ b. some null;
}

abbrev small : Table
small = record { name = text "small"; columns = (rates, numbers []) ∷ [] }

counted : (d : ℕ) → length (replicate {A = ℕ} d 48) ≡ 0 + (d + 0)
counted d = length-replicate {A = ℕ} d 48 ∙ omega arith

layout-Ends_example :
    (layout : Bytes × List ℕ) × (layout_from counting small ([] ∷ []) 22 0 ≡ some layout)
    × (header_at counting small ([] ∷ []) (length layout.0) ≡ layout.0)
    × (offsets_at counting (length layout.0) ([] ∷ []) ≡ layout.1)
unfolding program
layout-Ends_example =
    layout-Ends counting small ([] ∷ []) 0 (λ n h. counted (digits_from 20 (align (align (8 + n)))))
