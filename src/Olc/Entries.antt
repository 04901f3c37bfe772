-- ===== src/Olc/Entries.antt =====
-- results/olc.py: the payload of a column is read back, and so is its entry of the header.
use openleo.Prelude.{
  bind-some, zero_plus, ℕ, suc, ◌+◌, ◌*◌, ◌%◌, ◌≤◌, leb, leb→le, ◌==◌, ==_iff, if◌then◌else◌, Bool,
  true, false, not, ◌&&◌, some, List, [], ◌∷◌, ◌++◌, length, length-append, drop, ◌≡◌, refl, sym,
  ap, ◌∙◌, arith, check_pass, both, bind_some, check-some, some_injective,
}
use openleo.Json.Texts.{Text}
use openleo.Olc.{
  Bytes, Dtype, f64, f32, i64, i32, u8, str, dtype_text, find_dtype, dtypes, itemsize, Column,
  Values, numbers, texts, count_values, is_text_column, is_normal, all_fit, words_to_bytes, words,
  sums, join, is_ascending,
}
use openleo.Olc.Codec.{
  read_numbers, read_texts, texts_at, Library, max_u32, last_of, first_of, is_empty_text,
  encode_texts, payload_of, entry_of, column_entry, decode_texts, read_values,
}
use openleo.Olc.Words.{append-nil, drop-append, length-words_to_bytes, words-words_to_bytes}
use openleo.Olc.Cuts.{length-sums, last_of-sums, sums-ascending, sums-fit, cuts-sums}

length-encode_texts :
    (lib : Library) (l : List Text) (bs : List Bytes)
    → encode_texts lib l ≡ some bs
    → length bs ≡ length l
unfolding encode_texts
length-encode_texts lib [] bs h = ap length (sym (some_injective h))
length-encode_texts lib (t ∷ l) bs h =
    let b = bind_some (lib.utf8 t) _ h in
    let r = bind_some (encode_texts lib l) _ b.2 in
    ap length (sym (some_injective r.2)) ∙ ap suc (length-encode_texts lib l r.0 r.1)

decode-encode_texts :
    (lib : Library) (l : List Text) (bs : List Bytes)
    → ((t : Text) (b : Bytes) → lib.utf8 t ≡ some b → lib.from_utf8 b ≡ some t)
    → encode_texts lib l ≡ some bs
    → decode_texts lib bs ≡ some l
unfolding encode_texts decode_texts
decode-encode_texts lib [] bs u h = ap (decode_texts lib) (sym (some_injective h))
decode-encode_texts lib (t ∷ l) bs u h =
    let b = bind_some (lib.utf8 t) _ h in
    let r = bind_some (encode_texts lib l) _ b.2 in
    ap (decode_texts lib) (sym (some_injective r.2))
    ∙ bind-some _ (u t b.0 b.1)
    ∙ bind-some _ (decode-encode_texts lib l r.0 u r.1)

first_of-sums : (s : ℕ) (l : List Bytes) → first_of (sums s l) ≡ s
first_of-sums s [] = refl
first_of-sums s (e ∷ l) = refl

rows_and_one : (n m : ℕ) → m ≡ suc n → n + 1 ≡ m
rows_and_one n m h = omega (arith, h)

no_text : (b c : Bool) → (not b && c) ≡ true → (b ≡ false) × (c ≡ true)
no_text b c h = (ground arith, ground arith)

read_numbers-words :
    (lib : Library) (k : ℕ) (l : List ℕ)
    → all_fit k l ≡ true
    → read_numbers lib k (words_to_bytes k l) (length l) ≡ some (numbers l)
read_numbers-words lib k l h =
    check_pass (length (words_to_bytes k l) == length l * k)
      ((==_iff _ _).1 (length-words_to_bytes k l))
    ∙ ap (λ b. some (numbers (words k (length l) b))) (sym (append-nil (words_to_bytes k l)))
    ∙ ap (λ w. some (numbers w)) (words-words_to_bytes k l [] h)

texts_at-sums :
    (lib : Library) (l : List Text) (bs : List Bytes)
    → ((t : Text) (b : Bytes) → lib.utf8 t ≡ some b → lib.from_utf8 b ≡ some t)
    → encode_texts lib l ≡ some bs
    → texts_at lib (sums 0 bs) (join bs) ≡ some (texts l)
texts_at-sums lib l bs u h =
    check_pass
      (first_of (sums 0 bs) == 0
        && last_of (sums 0 bs) == length (join bs)
        && is_ascending (sums 0 bs))
      (both
        (both ((==_iff _ _).1 (first_of-sums 0 bs))
          ((==_iff _ _).1 (last_of-sums 0 bs ∙ zero_plus (length (join bs)))))
        (sums-ascending 0 bs))
    ∙ bind-some _
        (ap (decode_texts lib) (cuts-sums 0 [] bs refl) ∙ decode-encode_texts lib l bs u h)

read_texts-payload :
    (lib : Library) (l : List Text) (bs : List Bytes)
    → ((t : Text) (b : Bytes) → lib.utf8 t ≡ some b → lib.from_utf8 b ≡ some t)
    → encode_texts lib l ≡ some bs
    → last_of (sums 0 bs) ≤ max_u32
    → read_texts lib (words_to_bytes 4 (sums 0 bs) ++ join bs) (length l) ≡ some (texts l)
read_texts-payload lib l bs u h m =
    let head = words_to_bytes 4 (sums 0 bs) in
    let count = length-sums 0 bs in
    let same = length-encode_texts lib l bs h in
    let long = length-words_to_bytes 4 (sums 0 bs) in
    let all = length-append head (join bs) in
    let total = last_of-sums 0 bs in
    check_pass (leb (4 * (length l + 1)) (length (head ++ join bs)))
      (ground (arith, count, same, long, all))
    ∙ ap
        (λ n.
          texts_at lib (words 4 n (head ++ join bs)) (drop (4 * (length l + 1)) (head ++ join bs)))
        (rows_and_one (length l) (length (sums 0 bs)) (count ∙ ap suc same))
    ∙ ap (λ w. texts_at lib w (drop (4 * (length l + 1)) (head ++ join bs)))
        (words-words_to_bytes 4 (sums 0 bs) (join bs) (sums-fit 0 bs (omega (arith, m, total))))
    ∙ ap (texts_at lib (sums 0 bs))
        (drop-append (4 * (length l + 1)) head (join bs) (omega (arith, count, same, long)))
    ∙ texts_at-sums lib l bs u h

-- A payload is read back as the values that were written.
pub read-payload_of :
    (lib : Library) (c : Column) (v : Values) (payload : Bytes) (rows : ℕ)
    → ((t : Text) (b : Bytes) → lib.utf8 t ≡ some b → lib.from_utf8 b ≡ some t)
    → payload_of lib c v ≡ some payload
    → is_normal c v ≡ true
    → count_values v ≡ rows
    → read_values lib c.dtype payload rows ≡ some v
unfolding payload_of read_values
read-payload_of lib c (numbers l) payload rows u h n k =
    let parts = no_text (is_text_column c.dtype) (all_fit (itemsize c.dtype) l) n in
    ap
      (λ b.
        if b then read_texts lib payload rows else read_numbers lib (itemsize c.dtype) payload rows)
      parts.0
    ∙ ap (λ p. read_numbers lib (itemsize c.dtype) p rows) (sym (some_injective h))
    ∙ ap (read_numbers lib (itemsize c.dtype) (words_to_bytes (itemsize c.dtype) l)) (sym k)
    ∙ read_numbers-words lib (itemsize c.dtype) l parts.1
read-payload_of lib c (texts l) payload rows u h n k =
    let e = bind_some (encode_texts lib l) _ h in
    let w = check-some (leb (last_of (sums 0 e.0)) max_u32) e.2 in
    ap
      (λ b.
        if b then read_texts lib payload rows else read_numbers lib (itemsize c.dtype) payload rows)
      n
    ∙ ap (λ p. read_texts lib p rows) (sym (some_injective w.1))
    ∙ ap (read_texts lib (words_to_bytes 4 (sums 0 e.0) ++ join e.0)) (sym k)
    ∙ read_texts-payload lib l e.0 u e.1 (leb→le _ _ w.0)

find_dtype-dtype_text : (d : Dtype) → find_dtype (dtype_text d) dtypes ≡ some d
find_dtype-dtype_text f64 = refl
find_dtype-dtype_text f32 = refl
find_dtype-dtype_text i64 = refl
find_dtype-dtype_text i32 = refl
find_dtype-dtype_text u8 = refl
find_dtype-dtype_text str = refl

-- An entry is read back, if its payload lies at an aligned offset after the cursor, in the file.
pub column_entry-entry_of :
    (lib : Library) (c : Column) (offset size cursor : ℕ) (payload : Bytes)
    → is_empty_text c.name ≡ false
    → offset % 8 ≡ 0
    → cursor ≤ offset
    → offset + length payload ≤ size
    → column_entry lib (entry_of lib c offset payload) size cursor
      ≡ some (record {
        column = c;
        start = offset;
        stop = offset + length payload;
        digest = lib.sha256 payload;
      })
unfolding column_entry
column_entry-entry_of lib c offset size cursor payload h a b d =
    check_pass (not (is_empty_text c.name)) (ap not h)
    ∙ bind-some _ (find_dtype-dtype_text c.dtype)
    ∙ check_pass (offset % 8 == 0) ((==_iff _ _).1 a)
    ∙ check_pass (leb cursor offset) (ground (arith, b))
    ∙ check_pass (leb (offset + length payload) size) (ground (arith, d))
