-- ===== src/Olc/Restored.antt =====
-- results/olc.py: `decode_table` of what `encode_table` wrote is the table.
use openleo.Prelude.{
  append_assoc, bind-some, ℕ, ◌+◌, ◌-◌, ◌≤◌, leb, leb→le, ◌==◌, ==_iff, true, some, List, [], ◌∷◌,
  ◌++◌, length, length-append, length-replicate, replicate, take, ◌≡◌, refl, sym, subst, ap, ◌∙◌,
  arith, ◌>>=◌, check, ◌>>◌, check_pass, bind_some, check-some, some_injective,
}
use openleo.Json.Texts.{Text, text_eq, text_eq_refl}
use openleo.Olc.{
  Bytes, Column, Values, are_names_unique, are_normal, is_nonempty, is_table_name, rows_of_columns,
  Table, make_table, slice, all_zero, align, to_bytes, from_bytes,
}
use openleo.Olc.Codec.{
  Library, max_u32, magic, payload_of, payloads_of, offsets_from, offsets_at, header_of,
  layout_from, body_from, encode_table, decode_at, decode_table,
}
use openleo.Olc.Words.{length-to_bytes, from_bytes-to_bytes, fits_four}
use openleo.Olc.Cuts.{slice-append}
use openleo.Olc.Layout.{layout_from-at}
use openleo.Olc.Roundtrip.{are_named, align_le, all_zero-replicate, columns_from-body}

-- A table is what its constructor makes of its columns.
make_table-parts :
    (t u : Table)
    → make_table t.name t.columns ≡ some u
    → (is_nonempty t.columns ≡ true) × (are_normal (rows_of_columns t.columns) t.columns ≡ true)
unfolding make_table
make_table-parts t u h =
    let a = check-some (is_table_name t.name) h in
    let b = check-some (is_nonempty t.columns) a.1 in
    let c = check-some (are_names_unique t.columns) b.1 in
    let d = check-some (are_normal (rows_of_columns t.columns) t.columns) c.1 in (b.0, d.0)

align_idem : (n : ℕ) → align (align n) ≡ align n
align_idem n = omega arith

leb_of : {m n : ℕ} → m ≤ n → leb m n ≡ true
leb_of h = ground (arith, h)

-- Padding in two steps.
pads :
    (n o other k : ℕ) (p : Bytes) (f : ℕ → Bytes)
    → n ≤ o
    → other ≡ o
    → replicate (other - n) 0 ++ (p ++ f (n + (other - n) + k))
      ≡ replicate (o - n) 0 ++ (replicate (other - o) 0 ++ (p ++ f (o + (other - o) + k)))
pads n o other k p f h e =
    let none_left : other - o ≡ 0 = omega (arith, e) in
    let more : other - n ≡ o - n = omega (arith, e) in
    let size : n + (o - n) + k ≡ o + 0 + k = omega (arith, h) in
    ap (λ j. replicate j 0 ++ (p ++ f (n + j + k))) more
    ∙ ap (λ j. replicate (o - n) 0 ++ (p ++ f j)) size
    ∙ ap (λ j. replicate (o - n) 0 ++ (replicate j 0 ++ (p ++ f (o + j + k)))) (sym none_left)

-- The padding after the header, before the first payload.
pad_first :
    (lib : Library) (n : ℕ) (l : List (Column × Values)) (payloads : List Bytes)
    → payloads_of lib l ≡ some payloads
    → is_nonempty l ≡ true
    → body_from lib n (offsets_from lib (align n) payloads) payloads
      ≡ replicate (align n - n) 0
        ++ body_from lib (align n) (offsets_from lib (align n) payloads) payloads
unfolding payloads_of
pad_first lib n [] payloads h k = cc
pad_first lib n ((c, v) ∷ l) payloads h k =
    let x = bind_some (payload_of lib c v) _ h in
    let y = bind_some (payloads_of lib l) _ x.2 in
    subst
      (λ ps.
        body_from lib n (offsets_from lib (align n) ps) ps
        ≡ replicate (align n - n) 0 ++ body_from lib (align n) (offsets_from lib (align n) ps) ps)
      (some_injective y.2)
      (pads n (align n) (align (align n)) (length x.0) x.0
        (λ k. body_from lib k (offsets_from lib (align (align n) + length x.0) y.0) y.0)
        (align_le n) (align_idem n))

-- The parts of a file from its header on.
decode_at-parts :
    (lib : Library) (t : Table) (payloads : List Bytes) (header pre zeros bytes : Bytes) (n : ℕ)
    → ((s : Text) (b : Bytes) → lib.utf8 s ≡ some b → lib.from_utf8 b ≡ some s)
    → lib.loads header ≡ some (header_of lib t (offsets_from lib (align n) payloads) payloads)
    → make_table t.name t.columns ≡ some t
    → are_named t.columns ≡ true
    → payloads_of lib t.columns ≡ some payloads
    → length pre ≡ 8
    → 8 + length header ≡ n
    → zeros ≡ replicate (align n - n) 0
    → bytes
      ≡ pre
        ++ (header
            ++ (zeros ++ body_from lib (align n) (offsets_from lib (align n) payloads) payloads))
    → decode_at lib bytes n ≡ some t
unfolding decode_at
decode_at-parts lib t payloads header pre zeros bytes n u j m named h a b z d =
    let tail = body_from lib (align n) (offsets_from lib (align n) payloads) payloads in
    let one = length-append pre header in
    let two = d ∙ sym (append_assoc pre header (zeros ++ tail)) in
    let three = two ∙ sym (append_assoc (pre ++ header) zeros tail) in
    let wide = length-append (pre ++ header) zeros in
    let many = ap length z ∙ length-replicate {A = ℕ} (align n - n) 0 in
    let le = align_le n in
    let whole = ap length three ∙ length-append ((pre ++ header) ++ zeros) tail in
    let parts = make_table-parts t t m in
    let rows = rows_of_columns t.columns in
    let blank =
      slice-append n (align n) (pre ++ header) zeros tail (omega (arith, one, a, b))
        (omega (arith, many, le)) in
    check_pass (leb n (length bytes)) (leb_of (omega (arith, whole, wide, one, a, b)))
    ∙ bind-some _
        (ap lib.loads (ap (slice 8 n) d ∙ slice-append 8 n pre header (zeros ++ tail) a b) ∙ j)
    ∙ check_pass (leb (align n) (length bytes))
        (leb_of (omega (arith, whole, wide, one, a, b, many, le)))
    ∙ check_pass (all_zero (slice n (align n) bytes))
        (ap all_zero (ap (slice n (align n)) two ∙ blank ∙ z) ∙ all_zero-replicate (align n - n))
    ∙ bind-some _ (
        columns_from-body lib t.columns payloads rows (align n) ((pre ++ header) ++ zeros) bytes u h
          parts.1 named (omega (arith, wide, one, a, b, many, le)) three)
    ∙ check_pass (length bytes == length bytes) ((==_iff (length bytes) (length bytes)).1 refl)
    ∙ m

-- A table that is encoded is what decoding gives, if UTF-8 reads back what it wrote and JSON the
-- header that was laid out, and if the table is one that its constructor accepts and all its columns
-- have names.
pub decode-encode_table :
    (lib : Library) (fuel : ℕ) (t : Table) (payloads : List Bytes) (header : Bytes)
    (offsets : List ℕ) (bytes : Bytes)
    → ((s : Text) (b : Bytes) → lib.utf8 s ≡ some b → lib.from_utf8 b ≡ some s)
    → make_table t.name t.columns ≡ some t
    → are_named t.columns ≡ true
    → payloads_of lib t.columns ≡ some payloads
    → layout_from lib t payloads fuel 0 ≡ some (header, offsets)
    → lib.loads header ≡ some (header_of lib t offsets payloads)
    → encode_table lib fuel t ≡ some bytes
    → decode_table lib bytes ≡ some t
unfolding encode_table decode_table
decode-encode_table lib fuel t ps head offsets bytes u m named x1 y1 j h =
    let x = bind_some (payloads_of lib t.columns) _ h in
    let same_payloads = some_injective (sym x.1 ∙ x1) in
    let h2 =
      subst
        (λ qs.
          (layout_from lib t qs fuel 0 >>= λ layout.
          check (leb (length layout.0) max_u32)
          >> some (
              magic
              ++ (to_bytes 4 (length layout.0)
                  ++ (layout.0 ++ body_from lib (8 + length layout.0) layout.1 qs))))
          ≡ some bytes)
        same_payloads x.2 in
    let y = bind_some (layout_from lib t ps fuel 0) _ h2 in
    let same_layout = some_injective (sym y.1 ∙ y1) in
    let w0 = check-some (leb (length y.0.0) max_u32) y.2 in
    let w =
      subst
        (λ (q : Bytes × List ℕ).
          (leb (length q.0) max_u32 ≡ true)
          × (some (
                magic
                ++ (to_bytes 4 (length q.0) ++ (q.0 ++ body_from lib (8 + length q.0) q.1 ps)))
              ≡ some bytes))
        same_layout w0 in
    let at = layout_from-at lib t ps fuel 0 head offsets y1 in
    let n = 8 + length head in
    let four = to_bytes 4 (length head) in
    let body = body_from lib n (offsets_at lib (length head) ps) ps in
    let zeros : Bytes = replicate (align n - n) 0 in
    let tail = body_from lib (align n) (offsets_from lib (align n) ps) ps in
    let d : magic ++ (four ++ (head ++ body)) ≡ bytes =
      ap (λ os. magic ++ (four ++ (head ++ body_from lib n os ps))) at.1 ∙ some_injective w.1 in
    let parts = make_table-parts t t m in
    let first = length-to_bytes 4 (length head) in
    let front = length-append magic four in
    let whole =
      sym d
      ∙ ap (λ b. magic ++ (four ++ (head ++ b))) (pad_first lib n t.columns ps x1 parts.0)
      ∙ sym (append_assoc magic four (head ++ (zeros ++ tail))) in
    let size = ap length whole ∙ length-append (magic ++ four) (head ++ (zeros ++ tail)) in
    let read =
      ap from_bytes (
        ap (slice 4 8) (sym d)
        ∙ slice-append 4 8 magic four (head ++ body) refl (omega (arith, first)))
      ∙ from_bytes-to_bytes 4 (length head)
          (fits_four (length head) (leb→le (length head) max_u32 w.0)) in
    check_pass (leb 8 (length bytes)) (leb_of (omega (arith, size, front, first)))
    ∙ check_pass (text_eq (take 4 bytes) magic)
        (subst (λ b. text_eq (take 4 b) magic ≡ true) d (text_eq_refl magic))
    ∙ ap (λ k. decode_at lib bytes (8 + k)) read
    ∙ decode_at-parts lib t ps head (magic ++ four) zeros bytes n u
        (j ∙ ap (λ os. some (header_of lib t os ps)) (sym at.1)) m named x1
        (omega (arith, front, first)) refl refl whole
