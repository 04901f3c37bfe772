-- ===== src/Olc/Cuts.antt =====
-- results/olc.py: the texts of a column are cut out at their offsets.
use openleo.Prelude.{
  append_assoc, ℕ, suc, ◌+◌, ◌-◌, ◌≤◌, true, ◌&&◌, List, [], ◌∷◌, ◌++◌, length, length-append, take,
  ◌≡◌, refl, sym, ap, ◌∙◌, arith,
}
use openleo.Olc.{Bytes, all_fit, sums, join, slice, cuts, is_ascending}
use openleo.Olc.Codec.{last_of, max_u32}
use openleo.Olc.Words.{take-append, drop-append, fits_four}

-- The part between two others.
pub slice-append :
    (a b : ℕ) (pre mid post : Bytes)
    → length pre ≡ a
    → a + length mid ≡ b
    → slice a b (pre ++ (mid ++ post)) ≡ mid
slice-append a b pre mid post h k =
    ap (take (b - a)) (drop-append a pre (mid ++ post) h)
    ∙ take-append (b - a) mid post (omega (arith, k))

pub length-sums : (s : ℕ) (l : List Bytes) → length (sums s l) ≡ suc (length l)
length-sums s [] = refl
length-sums s (e ∷ l) = ap suc (length-sums (s + length e) l)

pub last_of-sums : (s : ℕ) (l : List Bytes) → last_of (sums s l) ≡ s + length (join l)
last_of-sums s [] = omega arith
last_of-sums s (e ∷ []) = omega (arith, length-append e [])
last_of-sums s (e ∷ f ∷ l) =
    let ih = last_of-sums (s + length e) (f ∷ l) in
    ih ∙ omega (arith, length-append e (join (f ∷ l)))

pub sums-ascending : (s : ℕ) (l : List Bytes) → is_ascending (sums s l) ≡ true
sums-ascending s [] = refl
sums-ascending s (e ∷ []) = ground arith
sums-ascending s (e ∷ f ∷ l) = let ih = sums-ascending (s + length e) (f ∷ l) in ground (arith, ih)

pub sums-fit :
    (s : ℕ) (l : List Bytes) → s + length (join l) ≤ max_u32 → all_fit 4 (sums s l) ≡ true
sums-fit s [] h = ap (λ b. b && true) (fits_four s (omega (arith, h)))
sums-fit s (e ∷ l) h =
    let n = length-append e (join l) in
    let first = fits_four s (omega (arith, h)) in
    let ih = sums-fit (s + length e) l (omega (arith, h, n)) in (λ i. first i && ih i)

pub cuts-sums :
    (s : ℕ) (pre : Bytes) (l : List Bytes) → length pre ≡ s → cuts (sums s l) (pre ++ join l) ≡ l
cuts-sums s pre [] h = refl
cuts-sums s pre (e ∷ []) h = ap (λ x. x ∷ []) (slice-append s (s + length e) pre e [] h refl)
cuts-sums s pre (e ∷ f ∷ l) h =
    let first = slice-append s (s + length e) pre e (join (f ∷ l)) h refl in
    let n = length-append pre e in
    let ih = cuts-sums (s + length e) (pre ++ e) (f ∷ l) (omega (arith, n, h)) in
    let others =
      ap (cuts (sums (s + length e) (f ∷ l))) (sym (append_assoc pre e (join (f ∷ l)))) ∙ ih in
    (λ i. first i ∷ others i)
