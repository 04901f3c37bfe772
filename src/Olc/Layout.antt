-- ===== src/Olc/Layout.antt =====
-- results/olc.py: `_layout`, whose rounds end.
use openleo.Prelude.{
  ℕ, zero, suc, ◌+◌, ◌*◌, ◌/◌, ◌≤◌, ◌<◌, ltb, ◌==◌, ==_iff, Bool-cases, inl, inr, some, List, [],
  ◌∷◌, length, if◌then◌else◌, ◌≡◌, refl, sym, subst, ap, ◌∙◌, arith, some_injective,
}
use openleo.Olc.{Bytes, Table, align}
use openleo.Olc.Codec.{Library, offsets_from, offsets_at, header_at, layout_from}

align_mono : (m n : ℕ) → m ≤ n → align m ≤ align n
align_mono m n h = omega (arith, h)

-- What is found is the header at its own length.
pub layout_from-at :
    (lib : Library) (t : Table) (payloads : List Bytes) (fuel h : ℕ) (encoded : Bytes)
    (offsets : List ℕ)
    → layout_from lib t payloads fuel h ≡ some (encoded, offsets)
    → (header_at lib t payloads (length encoded) ≡ encoded)
      × (offsets_at lib (length encoded) payloads ≡ offsets)
unfolding layout_from
layout_from-at lib t payloads zero h encoded offsets e = cc
layout_from-at lib t payloads (suc fuel) h encoded offsets e =
    elim (Bool-cases (length (header_at lib t payloads h) == h)) [
      | inl c ↦
          (let k = some_injective (
              sym (
                ap
                  (λ b.
                    if b
                    then some (header_at lib t payloads h, offsets_at lib h payloads)
                    else layout_from lib t payloads fuel (length (header_at lib t payloads h)))
                  c)
              ∙ e) in
            let long = sym ((==_iff _ _).0 c) in
            let same = long ∙ ap (λ s. length s.0) k in
            (
              ap (header_at lib t payloads) (sym same) ∙ ap (λ s. s.0) k,
              ap (λ n. offsets_at lib n payloads) (sym same) ∙ ap (λ s. s.1) k,
            ))
      | inr c ↦
          layout_from-at lib t payloads fuel (length (header_at lib t payloads h)) encoded offsets (
            sym (
              ap
                (λ b.
                  if b
                  then some (header_at lib t payloads h, offsets_at lib h payloads)
                  else layout_from lib t payloads fuel (length (header_at lib t payloads h)))
                c)
            ∙ e)
    ]

-- The digits of a number below 10 ^ fuel.
abbrev pub digits_from : ℕ → ℕ → ℕ
digits_from zero n = 0
digits_from (suc fuel) n = 1 + (if ltb n 10 then 0 else digits_from fuel (n / 10))

abbrev pub total_digits : ℕ → List ℕ → ℕ
total_digits fuel [] = 0
total_digits fuel (o ∷ l) = digits_from fuel o + total_digits fuel l

digits_mono : (fuel m n : ℕ) → m ≤ n → digits_from fuel m ≤ digits_from fuel n
digits_mono zero m n h = omega arith
digits_mono (suc fuel) m n h =
    let ih = digits_mono fuel (m / 10) (n / 10) (omega (arith, h)) in ground (arith, ih, h)

digits_le : (fuel n : ℕ) → digits_from fuel n ≤ fuel
digits_le zero n = omega arith
digits_le (suc fuel) n = let ih = digits_le fuel (n / 10) in ground (arith, ih)

offsets_mono :
    (lib : Library) (fuel m n : ℕ) (payloads : List Bytes)
    → m ≤ n
    → total_digits fuel (offsets_from lib m payloads)
      ≤ total_digits fuel (offsets_from lib n payloads)
offsets_mono lib fuel m n [] h = omega arith
offsets_mono lib fuel m n (p ∷ l) h =
    let a = align_mono m n h in
    let ih = offsets_mono lib fuel (align m + length p) (align n + length p) l (omega (arith, a)) in
    let d = digits_mono fuel (align m) (align n) a in omega (arith, ih, d)

total_digits_le : (fuel : ℕ) (l : List ℕ) → total_digits fuel l ≤ fuel * length l
total_digits_le fuel [] = omega arith
total_digits_le fuel (o ∷ l) =
    let ih = total_digits_le fuel l in let d = digits_le fuel o in omega (arith, ih, d)

length-offsets_from :
    (lib : Library) (n : ℕ) (payloads : List Bytes)
    → length (offsets_from lib n payloads) ≡ length payloads
length-offsets_from lib n [] = refl
length-offsets_from lib n (p ∷ l) = ap suc (length-offsets_from lib (align n + length p) l)

header_le :
    (lib : Library) (t : Table) (payloads : List Bytes) (base n : ℕ)
    → length (header_at lib t payloads n) ≡ base + total_digits 20 (offsets_at lib n payloads)
    → length (header_at lib t payloads n) ≤ base + 20 * length payloads
header_le lib t payloads base n h =
    let d = total_digits_le 20 (offsets_at lib n payloads) in
    let c = length-offsets_from lib (align (8 + n)) payloads in omega (arith, h, d, c)

-- The length only grows from round to round, up to a bound.
layout_from-Ends :
    (lib : Library) (t : Table) (payloads : List Bytes) (base fuel h : ℕ)
    → ((n : ℕ)
        → n ≤ base + 20 * length payloads
        → length (header_at lib t payloads n) ≡ base + total_digits 20 (offsets_at lib n payloads))
    → h ≤ base + 20 * length payloads
    → h ≤ length (header_at lib t payloads h)
    → base + 20 * length payloads < h + fuel
    → (layout : Bytes × List ℕ) × (layout_from lib t payloads fuel h ≡ some layout)
unfolding layout_from
layout_from-Ends lib t payloads base zero h d b g f = absurd (omega (arith, b, f))
layout_from-Ends lib t payloads base (suc fuel) h d b g f =
    let n = length (header_at lib t payloads h) in
    let small = header_le lib t payloads base h (d h b) in
    let grows =
      offsets_mono lib 20 (align (8 + h)) (align (8 + n)) payloads
        (align_mono _ _ (omega (arith, g))) in
    let here_is = d h b in
    let there_is = d n small in
    elim (Bool-cases (n == h)) [
      | inl c ↦ ((header_at lib t payloads h, offsets_at lib h payloads), rw c refl)
      | inr c ↦
          (let r =
              layout_from-Ends lib t payloads base fuel n d small
                (omega (arith, grows, here_is, there_is)) (ground (arith, c, g, f)) in
            (r.0, rw (c, r.1) refl))
    ]

first_round :
    (lib : Library) (t : Table) (payloads : List Bytes) (base fuel : ℕ)
    → ((n : ℕ)
        → n ≤ base + 20 * length payloads
        → length (header_at lib t payloads n) ≡ base + total_digits 20 (offsets_at lib n payloads))
    → 20 * length payloads < fuel
    → (layout : Bytes × List ℕ) × (layout_from lib t payloads (suc fuel) 0 ≡ some layout)
unfolding layout_from
first_round lib t payloads base fuel d f =
    let n = length (header_at lib t payloads 0) in
    let e = d 0 (omega arith) in
    let small = header_le lib t payloads base 0 e in
    let grows =
      offsets_mono lib 20 (align (8 + 0)) (align (8 + n)) payloads
        (align_mono (8 + 0) (8 + n) (omega arith)) in
    let there_is = d n small in
    elim (Bool-cases (n == 0)) [
      | inl c ↦ ((header_at lib t payloads 0, offsets_at lib 0 payloads), rw c refl)
      | inr c ↦
          (let r =
              layout_from-Ends lib t payloads base fuel n d small
                (omega (arith, grows, e, there_is)) (omega (arith, e, f)) in
            (r.0, rw (c, r.1) refl))
    ]

one_more : (n : ℕ) → suc (n + 1) ≡ n + 2
one_more n = omega arith

-- If the header has `base` characters beside the offsets, which are numbers of at most 20 digits, then
-- `_layout` ends within 20 rounds for each column and two more, and its header and offsets are those of
-- the length that the header has.
pub layout-Ends :
    (lib : Library) (t : Table) (payloads : List Bytes) (base : ℕ)
    → ((n : ℕ)
        → n ≤ base + 20 * length payloads
        → length (header_at lib t payloads n) ≡ base + total_digits 20 (offsets_at lib n payloads))
    → (layout : Bytes × List ℕ) × (layout_from lib t payloads (20 * length payloads + 2) 0
        ≡ some layout)
      × (header_at lib t payloads (length layout.0) ≡ layout.0)
      × (offsets_at lib (length layout.0) payloads ≡ layout.1)
layout-Ends lib t payloads base d =
    let r = first_round lib t payloads base (20 * length payloads + 1) d (omega arith) in
    let e =
      subst (λ fuel. layout_from lib t payloads fuel 0 ≡ some r.0) (one_more (20 * length payloads))
        r.1 in
    let at = layout_from-at lib t payloads (20 * length payloads + 2) 0 r.0.0 r.0.1 e in
    (r.0, e, at.0, at.1)
