-- ===== src/Olc/Words.antt =====
-- results/olc.py: numbers written as bytes are read back.
use openleo.Prelude.{
  append_assoc, ℕ, zero, suc, ◌*◌, ◌/◌, ◌≤◌, ==_iff, true, List, [], ◌∷◌, ◌++◌, length,
  length-append, take, drop, ◌≡◌, refl, sym, ap, ◌∙◌, arith,
}
use openleo.Olc.{Bytes, fits, all_fit, to_bytes, from_bytes, words_to_bytes, words}

pub append-nil : {A : Type 0} (a : List A) → a ++ [] ≡ a
append-nil [] = refl
append-nil (x ∷ a) = ap (λ l. x ∷ l) (append-nil a)

pub take-append : {A : Type 0} (n : ℕ) (a b : List A) → length a ≡ n → take n (a ++ b) ≡ a
take-append zero [] b h = refl
take-append (suc n) [] b h = absurd (omega (arith, h))
take-append zero (x ∷ a) b h = absurd (omega (arith, h))
take-append (suc n) (x ∷ a) b h = ap (λ l. x ∷ l) (take-append n a b (omega (arith, h)))

pub drop-append : {A : Type 0} (n : ℕ) (a b : List A) → length a ≡ n → drop n (a ++ b) ≡ b
drop-append zero [] b h = refl
drop-append (suc n) [] b h = absurd (omega (arith, h))
drop-append zero (x ∷ a) b h = absurd (omega (arith, h))
drop-append (suc n) (x ∷ a) b h = drop-append n a b (omega (arith, h))

pub length-to_bytes : (k n : ℕ) → length (to_bytes k n) ≡ k
length-to_bytes zero n = refl
length-to_bytes (suc k) n = ap suc (length-to_bytes k (n / 256))

pub from_bytes-to_bytes : (k n : ℕ) → fits k n ≡ true → from_bytes (to_bytes k n) ≡ n
from_bytes-to_bytes zero n h = sym ((==_iff n 0).0 h)
from_bytes-to_bytes (suc k) n h = let ih = from_bytes-to_bytes k (n / 256) h in omega (arith, ih)

pub length-words_to_bytes : (k : ℕ) (l : List ℕ) → length (words_to_bytes k l) ≡ length l * k
length-words_to_bytes k [] = omega arith
length-words_to_bytes k (n ∷ l) =
    let ih = length-words_to_bytes k l in
    let one = length-to_bytes k n in
    length-append (to_bytes k n) (words_to_bytes k l) ∙ omega (arith, ih, one)

pub words-words_to_bytes :
    (k : ℕ) (l : List ℕ) (rest : Bytes)
    → all_fit k l ≡ true
    → words k (length l) (words_to_bytes k l ++ rest) ≡ l
words-words_to_bytes k [] rest h = refl
words-words_to_bytes k (n ∷ l) rest h =
    let more = words_to_bytes k l ++ rest in
    let e = append_assoc (to_bytes k n) (words_to_bytes k l) rest in
    let first =
      ap from_bytes (ap (take k) e ∙ take-append k (to_bytes k n) more (length-to_bytes k n))
      ∙ from_bytes-to_bytes k n (ground (arith, h)) in
    let others =
      ap (words k (length l))
        (ap (drop k) e ∙ drop-append k (to_bytes k n) more (length-to_bytes k n))
      ∙ words-words_to_bytes k l rest (ground (arith, h)) in
    (λ i. first i ∷ others i)

pub fits_four : (n : ℕ) → n ≤ 4294967295 → fits 4 n ≡ true
fits_four n h = ground (arith, h)
