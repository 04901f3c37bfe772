-- ===== src/Prelude/Lists.antt =====
-- Lists measured and indexed by native numbers, under the library's names.
use Prim.Native.Nat.{ℕ, zero, suc, ◌+◌, ◌-◌, ◌<◌, ◌≤◌, min}
use mathlib.Core.Bool.{Bool, true, false, ◌&&◌, ◌||◌}
use openleo.Prelude.Tests.{leb, ltb, ◌==◌, if◌then◌else◌, Bool-cases}
use mathlib.Core.Path.{◌≡◌, refl, sym, subst, ap, ◌∙◌}
use mathlib.Core.Logic.{inl, inr}
use mathlib.Core.List.{List, [], ◌∷◌, ◌++◌, map}
use mathlib.Core.Option.{Option, none, some}
use native.Mathlib.Omega.{arith}

module _ {ℓ} {A : Type ℓ} where
  abbrev pub length : List A → ℕ
  length [] = 0
  length (x ∷ xs) = suc (length xs)

  abbrev pub get_elem? : List A → ℕ → Option A
  get_elem? [] i = none
  get_elem? (x ∷ xs) zero = some x
  get_elem? (x ∷ xs) (suc i) = get_elem? xs i

  pub length-append : (xs ys : List A) → length (xs ++ ys) ≡ length xs + length ys
  length-append [] ys = omega arith
  length-append (x ∷ xs) ys = omega (arith, length-append xs ys)

module _ {ℓ} {A : Type ℓ} where
  abbrev pub get_or : List A → ℕ → A → A
  get_or [] i d = d
  get_or (x ∷ xs) zero d = x
  get_or (x ∷ xs) (suc i) d = get_or xs i d

  abbrev pub take : ℕ → List A → List A
  take zero xs = []
  take (suc n) [] = []
  take (suc n) (x ∷ xs) = x ∷ take n xs

  abbrev pub drop : ℕ → List A → List A
  drop zero xs = xs
  drop (suc n) [] = []
  drop (suc n) (x ∷ xs) = drop n xs

  abbrev pub replicate : ℕ → A → List A
  replicate zero a = []
  replicate (suc n) a = a ∷ replicate n a

  pub length-replicate : (n : ℕ) (a : A) → length (replicate n a) ≡ n
  length-replicate zero a = refl
  length-replicate (suc n) a = ap suc (length-replicate n a)

  pub length-map {κ} : {B : Type κ} (xs : List A) (f : A → B) → length (map f xs) ≡ length xs
  length-map [] f = refl
  length-map (x ∷ xs) f = ap suc (length-map xs f)

abbrev pub All {ℓ κ} : {A : Type ℓ} → (A → Type κ) → List A → Type κ
All P [] = Unit
All P (x ∷ xs) = P x × All P xs

-- Strictly increasing.
abbrev pub Sorted : List ℕ → Type 0
Sorted [] = Unit
Sorted (x ∷ l) = All (λ y. x < y) l × Sorted l

pub All-map :
    {A : Type 0} {P Q : A → Type 0} (l : List A) → ((a : A) → P a → Q a) → All P l → All Q l
All-map [] f h = tt
All-map (x ∷ l) f h = (f x h.0, All-map l f h.1)

-- Three arrays of one shape, and `none` for any others.
unfoldable pub zip3 {ℓ} : {A : Type ℓ} → List A → List A → List A → Option (List ((A × A) × A))
zip3 [] [] [] = some []
zip3 (a ∷ xs) (b ∷ ys) (c ∷ zs) = elim (zip3 xs ys zs) [
  | none ↦ none
  | some l ↦ some (((a, b), c) ∷ l)
]
zip3 _ _ _ = none

-- How many numbers below `n` pass the test.
unfoldable pub count_below : ℕ → (ℕ → Bool) → ℕ
count_below zero p = 0
count_below (suc n) p = (if p n then 1 else 0) + count_below n p

pub count_below-ext :
    (n : ℕ) (p q : ℕ → Bool) → ((t : ℕ) → p t ≡ q t) → count_below n p ≡ count_below n q
unfolding count_below
count_below-ext zero p q h = refl
count_below-ext (suc n) p q h = ground (arith, h n, count_below-ext n p q h)

-- Tests that never pass together are counted apart.
pub count_below-or :
    (n : ℕ) (p q : ℕ → Bool)
    → ((t : ℕ) → (p t && q t) ≡ false)
    → count_below n (λ t. p t || q t) ≡ count_below n p + count_below n q
unfolding count_below
count_below-or zero p q h = omega arith
count_below-or (suc n) p q h = ground (arith, h n, count_below-or n p q h)

pub count_below-between : (n a b : ℕ) → count_below n (λ t. leb a t && ltb t b) ≡ min n b - a
unfolding count_below
count_below-between zero a b = omega arith
count_below-between (suc n) a b = ground (arith, count_below-between n a b)

pub count_below-never : (n : ℕ) → count_below n (λ _. false) ≡ 0
unfolding count_below
count_below-never zero = refl
count_below-never (suc n) = omega (arith, count_below-never n)

abbrev pub elem : ℕ → List ℕ → Bool
elem a [] = false
elem a (x ∷ xs) = x == a || elem a xs

pub elem-append : (a : ℕ) (xs ys : List ℕ) → elem a (xs ++ ys) ≡ (elem a xs || elem a ys)
elem-append a [] ys = refl
elem-append a (x ∷ xs) ys = ground (arith, elem-append a xs ys)

pub data In {ℓ} {A : Type ℓ} (x : A) : List A → Type ℓ where
  here : {y : A} {l : List A} → x ≡ y → In x (y ∷ l)
  there : {y : A} {l : List A} → In x l → In x (y ∷ l)

-- A predicate of the first element and of the others.
pub In-cons {ℓ κ} :
    {A : Type ℓ} (P : A → Type κ) {x : A} {l : List A}
    → P x
    → ((y : A) → In y l → P y)
    → (y : A) → In y (x ∷ l)
    → P y
In-cons P p f y (here e) = subst P (sym e) p
In-cons P p f y (there i) = f y i

pub In-append_left {ℓ} : {A : Type ℓ} (x : A) (l r : List A) → In x l → In x (l ++ r)
In-append_left x [] r i = elim i [ ]
In-append_left x (y ∷ l) r (here p) = here p
In-append_left x (y ∷ l) r (there i) = there (In-append_left x l r i)

pub In-append_right {ℓ} : {A : Type ℓ} (x : A) (l r : List A) → In x r → In x (l ++ r)
In-append_right x [] r i = i
In-append_right x (y ∷ l) r i = there (In-append_right x l r i)

-- `p[-1]` of a list that is not empty.
abbrev pub last : ℕ → List ℕ → ℕ
last d [] = d
last d (x ∷ l) = last x l

pub last-append_one : (d n : ℕ) (l : List ℕ) → last d (l ++ n ∷ []) ≡ n
last-append_one d n [] = refl
last-append_one d n (x ∷ l) = last-append_one x n l

pub count_below-le : (n : ℕ) (p : ℕ → Bool) → count_below n p ≤ n
unfolding count_below
count_below-le zero p = omega arith
count_below-le (suc n) p = ground (arith, count_below-le n p)

pub count_below-imp :
    (n : ℕ) (p q : ℕ → Bool)
    → ((t : ℕ) → p t ≡ true → q t ≡ true)
    → count_below n p ≤ count_below n q
unfolding count_below
count_below-imp zero p q h = omega arith
count_below-imp (suc n) p q h = elim (Bool-cases (p n)) [
  | inl e ↦ let k = h n e in ground (arith, count_below-imp n p q h)
  | inr e ↦ ground (arith, count_below-imp n p q h)
]

-- Taking one number out of a test lowers the count by one.
pub count_below-without :
    (n w : ℕ) (p q : ℕ → Bool)
    → p w ≡ true
    → ((i : ℕ) → q i ≡ (if i == w then false else p i))
    → count_below n q + (if ltb w n then 1 else 0) ≡ count_below n p
unfolding count_below
count_below-without zero w p q h e = ground arith
count_below-without (suc n) w p q h e = elim (Bool-cases (n == w)) [
  | inl same ↦
      let eq : n ≡ w = ground arith in
      let now : p n ≡ true = ap p eq ∙ h in ground (arith, e n, count_below-without n w p q h e)
  | inr other ↦ ground (arith, e n, count_below-without n w p q h e)
]

pub append_assoc {ℓ} : {A : Type ℓ} (a b c : List A) → (a ++ b) ++ c ≡ a ++ (b ++ c)
append_assoc [] b c = refl
append_assoc (x ∷ a) b c = ap (λ l. x ∷ l) (append_assoc a b c)

pub zero_plus : (n : ℕ) → 0 + n ≡ n
zero_plus n = omega arith

pub map-append : {A B : Type 0} (f : A → B) (l r : List A) → map f (l ++ r) ≡ map f l ++ map f r
map-append f [] r = refl
map-append f (x ∷ l) r = ap (λ t. f x ∷ t) (map-append f l r)
