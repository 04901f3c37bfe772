-- ===== src/Olc/Roundtrip.antt =====
-- results/olc.py: `decode_table` reads back what `encode_table` wrote.
use openleo.Prelude.{
  and_left, and_right, append_assoc, bind-some, not-true, ℕ, zero, suc, ◌+◌, ◌-◌, ◌%◌, ◌≤◌, ==_iff,
  Bool, true, false, not, ◌&&◌, some, List, [], ◌∷◌, ◌++◌, length, length-append, length-replicate,
  replicate, ◌≡◌, refl, sym, subst, ap, ◌∙◌, arith, check_pass, bind_some, some_injective,
}
use openleo.Json.{Items, cons}
use openleo.Json.Texts.{Text, text_eq, text_eq_refl}
use openleo.Olc.{Bytes, Column, Values, are_normal, slice, all_zero, align}
use openleo.Olc.Codec.{
  Library, is_empty_text, payload_of, payloads_of, offsets_from, entry_of, entries_of, body_from,
  read_values, columns_from,
}
use openleo.Olc.Words.{append-nil}
use openleo.Olc.Cuts.{slice-append}
use openleo.Olc.Entries.{read-payload_of, column_entry-entry_of}

abbrev pub are_named : List (Column × Values) → Bool
are_named [] = true
are_named ((c, v) ∷ l) = not (is_empty_text c.name) && are_named l

pub align_le : (n : ℕ) → n ≤ align n
align_le n = omega arith

pub align_mod : (n : ℕ) → align n % 8 ≡ 0
align_mod n = omega arith

pub all_zero-replicate : (n : ℕ) → all_zero (replicate n 0) ≡ true
all_zero-replicate zero = refl
all_zero-replicate (suc n) = all_zero-replicate n

regain : (n o k : ℕ) → n ≤ o → n + (o - n) + k ≡ o + k
regain n o k h = omega (arith, h)

-- One column read, and then the others.
columns_from-cons :
    (lib : Library) (bytes : Bytes) (rows cursor offset : ℕ) (c : Column) (v : Values)
    (payload : Bytes) (entries : Items) (rest : List (Column × Values)) (stop : ℕ)
    → is_empty_text c.name ≡ false
    → offset % 8 ≡ 0
    → cursor ≤ offset
    → offset + length payload ≤ length bytes
    → all_zero (slice cursor offset bytes) ≡ true
    → slice offset (offset + length payload) bytes ≡ payload
    → read_values lib c.dtype payload rows ≡ some v
    → columns_from lib bytes rows (offset + length payload) entries ≡ some (rest, stop)
    → columns_from lib bytes rows cursor (cons (entry_of lib c offset payload) entries)
      ≡ some ((c, v) ∷ rest, stop)
unfolding columns_from
columns_from-cons lib bytes rows cursor offset c v payload entries rest stop h a b d z s r n =
    bind-some _ (column_entry-entry_of lib c offset (length bytes) cursor payload h a b d)
    ∙ check_pass (all_zero (slice cursor offset bytes)) z
    ∙ check_pass
        (text_eq (lib.sha256 (slice offset (offset + length payload) bytes)) (lib.sha256 payload))
        (subst (λ p. text_eq (lib.sha256 p) (lib.sha256 payload) ≡ true) (sym s)
          (text_eq_refl (lib.sha256 payload)))
    ∙ bind-some _ (subst (λ p. read_values lib c.dtype p rows ≡ some v) (sym s) r)
    ∙ bind-some _ n

-- The padding, the payload and what follows, at their places.
abbrev AreParts : ℕ → ℕ → Bytes → Bytes → Bytes → Bytes → Type 0
AreParts n o pre p tail bytes =
    (all_zero (slice n o bytes) ≡ true)
    × (slice o (o + length p) bytes ≡ p)
    × (o + length p ≤ length bytes)
    × (length ((pre ++ replicate (o - n) 0) ++ p) ≡ o + length p)
    × (bytes ≡ ((pre ++ replicate (o - n) 0) ++ p) ++ tail)

parts_of :
    (n o : ℕ) (pre p tail bytes : Bytes)
    → length pre ≡ n
    → n ≤ o
    → bytes ≡ pre ++ (replicate (o - n) 0 ++ (p ++ tail))
    → AreParts n o pre p tail bytes
parts_of n o pre p tail bytes e h d =
    let zeros : Bytes = replicate (o - n) 0 in
    let many = length-replicate {A = ℕ} (o - n) 0 in
    let front = length-append pre zeros in
    let all = length-append (pre ++ zeros) p in
    let second = d ∙ sym (append_assoc pre zeros (p ++ tail)) in
    let third = second ∙ sym (append_assoc (pre ++ zeros) p tail) in
    let whole = ap length third ∙ length-append ((pre ++ zeros) ++ p) tail in
    (
      subst (λ b. all_zero (slice n o b) ≡ true) (sym d)
          (subst (λ z. all_zero z ≡ true)
            (sym (slice-append n o pre zeros (p ++ tail) e (omega (arith, many, h))))
            (all_zero-replicate (o - n))),
      ap (slice o (o + length p)) second
          ∙ slice-append o (o + length p) (pre ++ zeros) p tail (omega (arith, many, front, h, e))
              refl,
      omega (arith, many, front, all, whole, h, e),
      omega (arith, many, front, all, h, e),
      third,
    )

-- All columns, from a place where the bytes so far end.
pub columns_from-body :
    (lib : Library) (l : List (Column × Values)) (payloads : List Bytes) (rows n : ℕ)
    (pre bytes : Bytes)
    → ((t : Text) (b : Bytes) → lib.utf8 t ≡ some b → lib.from_utf8 b ≡ some t)
    → payloads_of lib l ≡ some payloads
    → are_normal rows l ≡ true
    → are_named l ≡ true
    → length pre ≡ n
    → bytes ≡ pre ++ body_from lib n (offsets_from lib n payloads) payloads
    → columns_from lib bytes rows n (entries_of lib l (offsets_from lib n payloads) payloads)
      ≡ some (l, length bytes)
unfolding payloads_of columns_from
columns_from-body lib [] payloads rows n pre bytes u h a b e d =
    let whole =
      d
      ∙ ap (λ ps. pre ++ body_from lib n (offsets_from lib n ps) ps) (sym (some_injective h))
      ∙ append-nil pre in
    ap (λ k. some ([], k)) (sym e ∙ ap length (sym whole))
columns_from-body lib ((c, v) ∷ l) payloads rows n pre bytes u h a b e d =
    let x = bind_some (payload_of lib c v) _ h in
    let y = bind_some (payloads_of lib l) _ x.2 in
    let p = x.0 in
    let o = align n in
    let m = o + length p in
    let same = some_injective y.2 in
    let tail = body_from lib m (offsets_from lib m y.0) y.0 in
    let whole =
      d
      ∙ ap (λ ps. pre ++ body_from lib n (offsets_from lib n ps) ps) (sym same)
      ∙ ap
          (λ k. pre ++ (replicate (o - n) 0 ++ (p ++ body_from lib k (offsets_from lib m y.0) y.0)))
          (regain n o (length p) (align_le n)) in
    let parts = parts_of n o pre p tail bytes e (align_le n) whole in
    let named = and_left _ _ b in
    let fine = and_left _ _ (and_left _ _ a) in
    let even = and_right _ _ (and_left _ _ a) in
    let read = read-payload_of lib c v p rows u x.1 fine ((==_iff _ _).0 even) in
    let ih =
      columns_from-body lib l y.0 rows m ((pre ++ replicate (o - n) 0) ++ p) bytes u y.1
        (and_right _ _ a) (and_right _ _ b) parts.3 parts.4 in
    subst
      (λ ps.
        columns_from lib bytes rows n (entries_of lib ((c, v) ∷ l) (offsets_from lib n ps) ps)
        ≡ some ((c, v) ∷ l, length bytes))
      same
      (columns_from-cons lib bytes rows n o c v p (entries_of lib l (offsets_from lib m y.0) y.0) l
        (length bytes) (not-true _ named) (align_mod n) (align_le n) parts.2 parts.0 parts.1 read
        ih)
