-- ===== src/Measure/Steps.antt =====
-- engine/integrate.py: `integrate_piecewise` sums the values that hold at each instant.
use openleo.Prelude.{
  ℕ, zero, suc, ◌+◌, ◌-◌, ◌*◌, ◌≡◌, refl, sym, ap, ◌∙◌, min, leb, ltb, if◌then◌else◌, ◌&&◌, none,
  some, List, [], ◌∷◌, arith, zip3, count_below, count_below-between, count_below,
  count_below-between,
}
use mathlib.Core.Path.{ap₂}
use openleo.Measure.{all_ordered, areas, spans, integrate_piecewise}
use openleo.Measure.Union.{Below}

-- The sum of f(0), ..., f(n - 1).
pub sum_below : ℕ → (ℕ → ℕ) → ℕ
sum_below zero f = 0
sum_below (suc n) f = f n + sum_below n f

-- The values of the intervals that hold the instant, added up.
abbrev pub height : List ((ℕ × ℕ) × ℕ) → ℕ → ℕ
height [] t = 0
height (((s, e), v) ∷ l) t = (if leb s t && ltb t e then v else 0) + height l t

sum_below-zero : (n : ℕ) → sum_below n (λ _. 0) ≡ 0
unfolding sum_below
sum_below-zero zero = refl
sum_below-zero (suc n) = omega (arith, sum_below-zero n)

sum_below-add : (n : ℕ) (f g : ℕ → ℕ) → sum_below n (λ t. f t + g t) ≡ sum_below n f + sum_below n g
unfolding sum_below
sum_below-add zero f g = refl
sum_below-add (suc n) f g = omega (arith, sum_below-add n f g)

sum_below-between :
    (n s e v : ℕ)
    → sum_below n (λ t. if leb s t && ltb t e then v else 0)
      ≡ v * count_below n (λ t. leb s t && ltb t e)
unfolding sum_below count_below
sum_below-between zero s e v = grind arith
sum_below-between (suc n) s e v = grind (arith, sum_below-between n s e v)

areas-height :
    (n : ℕ) (l : List ((ℕ × ℕ) × ℕ)) → Below n (spans l) → areas l ≡ sum_below n (height l)
areas-height n [] b = sym (sum_below-zero n)
areas-height n (((s, e), v) ∷ l) b =
    let same : min n e - s ≡ e - s = omega arith in
    sym (
      sum_below-add n (λ t. if leb s t && ltb t e then v else 0) (height l)
      ∙ ap₂ ◌+◌ (sum_below-between n s e v ∙ ap (◌*◌ v) (count_below-between n s e ∙ same))
          (sym (areas-height n l b.1)))

-- For three arrays of one length, `integrate_piecewise` returns exactly if every interval has
-- start <= end; it then returns the sum, over all instants below any bound of the ends, of the values
-- of the intervals that hold the instant, where an instant in two intervals counts both.
pub integrate-height :
    (n : ℕ) (starts ends values : List ℕ) (l : List ((ℕ × ℕ) × ℕ))
    → zip3 starts ends values ≡ some l
    → Below n (spans l)
    → integrate_piecewise starts ends values
      ≡ (if all_ordered (spans l) then some (sum_below n (height l)) else none)
unfolding integrate_piecewise
integrate-height n starts ends values l z b = rw (z, integrate_piecewise) (rw (areas-height n l b))
