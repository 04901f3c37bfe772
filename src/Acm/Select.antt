-- ===== src/Acm/Select.antt =====
-- physics/adaptation.py: what `select_modcod` chooses.
use openleo.Prelude.{
  ℕ, ◌≤◌, ◌<◌, ◌≡◌, ◌≢◌, ltb, Bool, true, Option, none, some, arith, ◌⊎◌, inl, inr, Option-cases,
  subst, sym,
}
use openleo.Prelude.Int.{ℤ, pos, leb_ℤ, ltb_ℤ, ◌≤ℤ◌, ◌+ℤ◌, int_laws}
use native.Mathlib.Decide.{dec_lt}
use openleo.Acm.{
  Modcod, qpsk_1_4, qpsk_1_2, qpsk_3_4, psk8_2_3, psk8_3_4, modcods, required, retain, threshold,
  best_eligible, select_available,
}

abbrev pub rank : Modcod → ℕ
rank qpsk_1_4 = 0
rank qpsk_1_2 = 1
rank qpsk_3_4 = 2
rank psk8_2_3 = 3
rank psk8_3_4 = 4

rank-injective : (a b : Modcod) → rank a ≡ rank b → a ≡ b
rank-injective a b h = ground arith

-- The table is in the order of its requirements.
required-rank : (a b : Modcod) → ltb_ℤ (required a) (required b) ≡ ltb (rank a) (rank b)
required-rank a b = ground arith

abbrev best : (Modcod → Bool) → Option Modcod
best ok = best_eligible ok none modcods

best-eligible : (ok : Modcod → Bool) (b : Modcod) → best ok ≡ some b → ok b ≡ true
unfolding best_eligible
best-eligible ok qpsk_1_4 h = ground arith
best-eligible ok _ h = ground arith

best-ne-none : (ok : Modcod → Bool) (m : Modcod) → ok m ≡ true → best ok ≢ none
unfolding best_eligible
best-ne-none ok qpsk_1_4 h = ground arith
best-ne-none ok _ h = ground arith

best-rank : (ok : Modcod → Bool) (m b : Modcod) → ok m ≡ true → best ok ≡ some b → rank m ≤ rank b
unfolding best_eligible
best-rank ok qpsk_1_4 b h e = ground arith
best-rank ok _ b h e = ground arith

-- Whether the rule lets a state go to the MODCOD at an available level.
abbrev pub ok : ℕ → ℤ → Option Modcod → Modcod → Bool
ok h a p m = leb_ℤ (threshold h (retain a p) m) a

module _ (h : ℕ) (a : ℤ) where
  ok-required : (p : Option Modcod) (m : Modcod) → ok h a p m ≡ true → required m ≤ℤ a
  ok-required none m e = ground arith
  ok-required (some r) m e = grind int_laws

  ok-hysteresis : (p : Option Modcod) (m : Modcod) → (required m +ℤ pos h) ≤ℤ a → ok h a p m ≡ true
  ok-hysteresis none m e = grind int_laws
  ok-hysteresis (some r) m e = grind int_laws

  ok-up :
      (b m : Modcod)
      → required b ≤ℤ a
      → ok h a (some b) m ≡ true
      → rank b < rank m
      → (required m +ℤ pos h) ≤ℤ a
  ok-up b m k e lt = ground (arith, required-rank b m)

  ok-nominal :
      (p : Option Modcod) (m : Modcod) → retain a p ≡ none → required m ≤ℤ a → ok h a p m ≡ true
  ok-nominal p m e k = rw e (ground arith)

  ok-same : (b : Modcod) → required b ≤ℤ a → ok h a (some b) b ≡ true
  ok-same b k = ground (arith, required-rank b b)

  ok-retained : (p : Option Modcod) (b : Modcod) → retain a p ≡ some b → ok h a p b ≡ true
  ok-retained none b e = cc
  ok-retained (some r) b e = ground (arith, required-rank b b)

  -- The state chosen is the highest that the level allows: every MODCOD whose requirement plus
  -- hysteresis is met lies at or below it, and without a lock to keep so does every MODCOD whose
  -- requirement is met; no lock means that there is none.
  pub select-highest :
      (p : Option Modcod) (m : Modcod)
      → ((required m +ℤ pos h) ≤ℤ a) ⊎ ((retain a p ≡ none) × (required m ≤ℤ a))
      → (b : Modcod) × (select_available h a p ≡ some b) × (rank m ≤ rank b)
  unfolding select_available
  select-highest p m reach =
      from_ok (elim reach [ inl k ↦ ok-hysteresis p m k | inr (e, k) ↦ ok-nominal p m e k ])
    where
      from_ok : ok h a p m ≡ true → (b : Modcod) × (best (ok h a p) ≡ some b) × (rank m ≤ rank b)
      from_ok fits = elim (Option-cases (best (ok h a p))) [
        | inl e ↦ absurd (best-ne-none (ok h a p) m fits e)
        | inr (b, e) ↦ (b, e, best-rank (ok h a p) m b fits e)
      ]

  idempotent_some :
      (p : Option Modcod) (b : Modcod)
      → select_available h a p ≡ some b
      → select_available h a (some b) ≡ some b
  unfolding select_available
  idempotent_some p b e =
      let k = ok-required p b (best-eligible (ok h a p) b e) in
      elim (Option-cases (best (ok h a (some b)))) [
        | inl n ↦ absurd (best-ne-none (ok h a (some b)) b (ok-same b k) n)
        | inr (c, f) ↦
            let up = best-rank (ok h a (some b)) b c (ok-same b k) f in
            let fits = best-eligible (ok h a (some b)) c f in
            let down : rank c ≤ rank b = elim (dec_lt (rank b) (rank c)) [
              | yes lt ↦ best-rank (ok h a p) c b (ok-hysteresis p c (ok-up b c k fits lt)) e
              | no ge ↦ omega arith
            ] in
            subst (λ c. best (ok h a (some b)) ≡ some c) (rank-injective c b (omega arith)) f
      ]

  idempotent_none :
      (p : Option Modcod) → select_available h a p ≡ none → select_available h a none ≡ none
  unfolding select_available
  idempotent_none p e = elim (Option-cases (best (ok h a none))) [
    | inl n ↦ n
    | inr (c, f) ↦ elim (Option-cases (retain a p)) [
      | inr (b, q) ↦ absurd (best-ne-none (ok h a p) b (ok-retained p b q) e)
      | inl q ↦ absurd (
          best-ne-none (ok h a p) c
            (ok-nominal p c q (ok-required none c (best-eligible (ok h a none) c f))) e)
    ]
  ]

  -- The rule is idempotent: applied again to the same level it keeps the state.
  select-idempotent :
      (p : Option Modcod) → select_available h a (select_available h a p) ≡ select_available h a p
  select-idempotent p = elim (Option-cases (select_available h a p)) [
    | inl e ↦ subst (λ s. select_available h a s ≡ s) (sym e) (idempotent_none p e)
    | inr (b, e) ↦ subst (λ s. select_available h a s ≡ s) (sym e) (idempotent_some p b e)
  ]
