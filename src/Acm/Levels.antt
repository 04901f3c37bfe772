-- ===== src/Acm/Levels.antt =====
-- engine/acm.py: a level count stands for every available level with that count (`_Rule`). The
-- arrays of levels are numpy's: `unique` is np.unique and `searchsorted` np.searchsorted with
-- side="right".
use openleo.Prelude.{
  ℕ, zero, suc, ◌+◌, ◌-◌, ◌≤◌, ◌<◌, ◌≡◌, ◌∙◌, refl, subst, sym, ap, ◌==◌, if◌then◌else◌, if_split,
  true, false, Option, none, some, List, [], ◌∷◌, ◌++◌, map, get_or, length, arith, ◌⊎◌, inl, inr,
  Bool-cases,
}
use mathlib.Core.Path.{fun_ext}
use openleo.Prelude.Int.{ℤ, pos, leb_ℤ, ltb_ℤ, ◌≤ℤ◌, ◌+ℤ◌, ◌-ℤ◌, int_laws}
use openleo.Acm.{
  Modcod, qpsk_1_4, qpsk_1_2, qpsk_3_4, psk8_2_3, psk8_3_4, modcods, required, retain, threshold,
  best_eligible, select_available,
}
use openleo.Acm.Select.{ok}
use openleo.Acm.Schedule.{Rule, rule_select}

abbrev pub In : ℤ → List ℤ → Type 0
In x [] = ⊥
In x (y ∷ l) = (x ≡ y) ⊎ In x l

-- Each level above `b`, in strictly increasing order.
abbrev pub Increasing : ℤ → List ℤ → Type 0
Increasing b [] = Unit
Increasing b (x ∷ l) = (ltb_ℤ b x ≡ true) × Increasing x l

abbrev pub IncreasingList : List ℤ → Type 0
IncreasingList [] = Unit
IncreasingList (x ∷ l) = Increasing x l

-- How many levels are at or below the value.
abbrev pub count_le : List ℤ → ℤ → ℕ
count_le [] a = 0
count_le (x ∷ l) a = (if leb_ℤ x a then 1 else 0) + count_le l a

-- The values that `_Rule.__init__` hands to np.unique.
abbrev pub level_values : ℕ → List ℤ
level_values hysteresis = map required modcods ++ map (λ m. required m +ℤ pos hysteresis) modcods

count_le-zero : (b : ℤ) (l : List ℤ) (a : ℤ) → Increasing b l → leb_ℤ b a ≡ false → count_le l a ≡ 0
count_le-zero b [] a s h = refl
count_le-zero b (x ∷ l) a s h =
    let far : leb_ℤ x a ≡ false = ground arith in ground (arith, count_le-zero x l a s.1 far)

-- The n-th level, and `b` for none.
value_at : ℤ → List ℤ → ℕ → ℤ
value_at b [] n = b
value_at b (x ∷ l) zero = b
value_at b (x ∷ l) (suc n) = value_at x l n

le-value_at : (b : ℤ) (l : List ℤ) (n : ℕ) → Increasing b l → b ≤ℤ value_at b l n
unfolding value_at
le-value_at b [] n s = omega arith
le-value_at b (x ∷ l) zero s = omega arith
le-value_at b (x ∷ l) (suc n) s = ground (arith, le-value_at x l n s.1)

In-above : (b : ℤ) (l : List ℤ) (x : ℤ) → Increasing b l → In x l → ltb_ℤ b x ≡ true
In-above b [] x s i = absurd i
In-above b (y ∷ l) x s (inl e) = rw e s.0
In-above b (y ∷ l) x s (inr i) = let up = In-above y l x s.1 i in let low = s.0 in ground arith

value_at-suc : (b y : ℤ) (l : List ℤ) (n m : ℕ) → n ≡ suc m → value_at b (y ∷ l) n ≡ value_at y l m
unfolding value_at
value_at-suc b y l n m e = rw e

value_at-zero : (b : ℤ) (l : List ℤ) (n : ℕ) → n ≡ 0 → value_at b l n ≡ b
unfolding value_at
value_at-zero b [] n e = refl
value_at-zero b (y ∷ l) n e = rw e

-- The highest level at or below a value passes the same tests as the value.
level-agrees :
    (b : ℤ) (l : List ℤ) (a x : ℤ)
    → Increasing b l
    → In x l
    → leb_ℤ x (value_at b l (count_le l a)) ≡ leb_ℤ x a
level-agrees b [] a x s i = absurd i
level-agrees b (y ∷ l) a x s i = elim (Bool-cases (leb_ℤ y a)) [
  | inr far ↦
      let none_left =
        value_at-zero b (y ∷ l) (count_le (y ∷ l) a)
          (ground (arith, count_le-zero y l a s.1 far)) in
      ap (leb_ℤ x) none_left ∙ both_above far i
  | inl near ↦
      let one_more = value_at-suc b y l (count_le (y ∷ l) a) (count_le l a) (ground arith) in
      ap (leb_ℤ x) one_more ∙ at_or_above near i (level-agrees y l a x s.1)
]
  where
    both_above : leb_ℤ y a ≡ false → In x (y ∷ l) → leb_ℤ x b ≡ leb_ℤ x a
    both_above far (inl e) = let low = s.0 in ground arith
    both_above far (inr j) = let low = s.0 in let up = In-above y l x s.1 j in ground arith

    at_or_above :
        leb_ℤ y a ≡ true
        → In x (y ∷ l)
        → (In x l → leb_ℤ x (value_at y l (count_le l a)) ≡ leb_ℤ x a)
        → leb_ℤ x (value_at y l (count_le l a)) ≡ leb_ℤ x a
    at_or_above near (inl e) ih = let low = le-value_at y l (count_le l a) s.1 in ground arith
    at_or_above near (inr j) ih = ih j

required-In : (h : ℕ) (m : Modcod) → In (required m) (level_values h)
required-In h qpsk_1_4 = inl refl
required-In h qpsk_1_2 = inr (inl refl)
required-In h qpsk_3_4 = inr (inr (inl refl))
required-In h psk8_2_3 = inr (inr (inr (inl refl)))
required-In h psk8_3_4 = inr (inr (inr (inr (inl refl))))

raised-In : (h : ℕ) (m : Modcod) → In (required m +ℤ pos h) (level_values h)
raised-In h qpsk_1_4 = inr (inr (inr (inr (inr (inl refl)))))
raised-In h qpsk_1_2 = inr (inr (inr (inr (inr (inr (inl refl))))))
raised-In h qpsk_3_4 = inr (inr (inr (inr (inr (inr (inr (inl refl)))))))
raised-In h psk8_2_3 = inr (inr (inr (inr (inr (inr (inr (inr (inl refl))))))))
raised-In h psk8_3_4 = inr (inr (inr (inr (inr (inr (inr (inr (inr (inl refl)))))))))

threshold-In : (h : ℕ) (r : Option Modcod) (m : Modcod) → In (threshold h r m) (level_values h)
threshold-In h none m = required-In h m
threshold-In h (some r) m =
    if_split (λ x. In x (level_values h)) (ltb_ℤ (required r) (required m)) (λ _. raised-In h m)
      (λ _. required-In h m)

retain-agrees :
    (h : ℕ) (a c : ℤ) (p : Option Modcod)
    → ((x : ℤ) → In x (level_values h) → leb_ℤ x c ≡ leb_ℤ x a)
    → retain c p ≡ retain a p
retain-agrees h a c none same = refl
retain-agrees h a c (some r) same =
    ap (λ b. if b then some r else none) (same (required r) (required-In h r))

ok-agrees :
    (h : ℕ) (a c : ℤ) (p : Option Modcod) (m : Modcod)
    → ((x : ℤ) → In x (level_values h) → leb_ℤ x c ≡ leb_ℤ x a)
    → ok h c p m ≡ ok h a p m
ok-agrees h a c p m same =
    ap (λ r. leb_ℤ (threshold h r m) c) (retain-agrees h a c p same)
    ∙ same (threshold h (retain a p) m) (threshold-In h (retain a p) m)

-- Levels that pass the same tests give the same choice.
select-agrees :
    (h : ℕ) (a c : ℤ) (p : Option Modcod)
    → ((x : ℤ) → In x (level_values h) → leb_ℤ x c ≡ leb_ℤ x a)
    → select_available h c p ≡ select_available h a p
unfolding select_available
select-agrees h a c p same =
    ap (λ f. best_eligible f none modcods) (fun_ext (λ m. ok-agrees h a c p m same))

-- The value that `_Rule.select` takes for a count.
abbrev code_value : List ℤ → ℕ → ℤ
code_value l n = if n == 0 then get_or l 0 (pos 0) -ℤ pos 1000000 else get_or l (n - 1) (pos 0)

value_at-get_or :
    (b d : ℤ) (l : List ℤ) (n : ℕ) → n < length l → value_at b l (suc n) ≡ get_or l n d
unfolding value_at
value_at-get_or b d [] n h = absurd (omega arith)
value_at-get_or b d (x ∷ []) zero h = refl
value_at-get_or b d (x ∷ y ∷ l) zero h = refl
value_at-get_or b d (x ∷ l) (suc n) h = value_at-get_or x d l n (omega arith)

count_le-length : (l : List ℤ) (a : ℤ) → count_le l a ≤ length l
count_le-length [] a = omega arith
count_le-length (x ∷ l) a = ground (arith, count_le-length l a)

code_value-value_at :
    (y : ℤ) (l : List ℤ) (n : ℕ)
    → n ≤ length (y ∷ l)
    → code_value (y ∷ l) n ≡ value_at (y -ℤ pos 1000000) (y ∷ l) n
code_value-value_at y l zero h = sym (value_at-zero (y -ℤ pos 1000000) (y ∷ l) 0 refl)
code_value-value_at y l (suc n) h =
    let e : suc n - 1 ≡ n = omega arith in
    let positive : (suc n == 0) ≡ false = ground arith in
    ap
      (λ t.
        if t then get_or (y ∷ l) 0 (pos 0) -ℤ pos 1000000 else get_or (y ∷ l) (suc n - 1) (pos 0))
      positive
    ∙ ap (λ k. get_or (y ∷ l) k (pos 0)) e
    ∙ sym (value_at-get_or (y -ℤ pos 1000000) (pos 0) (y ∷ l) n (omega arith))

code_value-agrees :
    (l : List ℤ) (a x : ℤ)
    → IncreasingList l
    → In x l
    → leb_ℤ x (code_value l (count_le l a)) ≡ leb_ℤ x a
code_value-agrees [] a x s i = absurd i
code_value-agrees (y ∷ l) a x s i =
    let b = y -ℤ pos 1000000 in
    let below : ltb_ℤ b y ≡ true = grind int_laws in
    ap (leb_ℤ x) (code_value-value_at y l (count_le (y ∷ l) a) (count_le-length (y ∷ l) a))
    ∙ level-agrees b (y ∷ l) a x (below, s) i

-- What the source uses of the level array.
module _ (unique : List ℤ → List ℤ) (searchsorted : List ℤ → ℤ → ℕ) where
  abbrev pub rule_of : ℕ → ℕ → ℕ → Rule
  rule_of delay hysteresis symbol_rate = record {
    delay_s = delay;
    hysteresis_db = hysteresis;
    levels = unique (level_values hysteresis);
    symbol_rate_baud = symbol_rate;
  }

  -- For every level, `_Rule.select` on the count of a level chooses what `select_modcod` chooses on
  -- the level itself; np.unique returns the same values in strictly increasing order, and
  -- np.searchsorted counts, in such an array, the values at or below its argument.
  pub rule_select-count :
      (delay h symbol_rate : ℕ) (a : ℤ) (p : Option Modcod)
      → ((l : List ℤ) → IncreasingList (unique l) × ((x : ℤ) → In x l → In x (unique l)))
      → ((l : List ℤ) (x : ℤ) → IncreasingList l → searchsorted l x ≡ count_le l x)
      → let rule = rule_of delay h symbol_rate in
        rule_select rule (searchsorted rule.levels a) p ≡ select_available h a p
  unfolding rule_select
  rule_select-count delay h symbol_rate a p u s =
      let values = level_values h in
      let (inc, sub) = u values in
      subst (λ n. rule_select (rule_of delay h symbol_rate) n p ≡ select_available h a p)
        (sym (s (unique values) a inc))
        (select-agrees h a (code_value (unique values) (count_le (unique values) a)) p
          (λ x i. code_value-agrees (unique values) a x inc (sub x i)))
