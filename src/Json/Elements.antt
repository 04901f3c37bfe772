-- ===== src/Json/Elements.antt =====
-- The laws of a list's elements.
use openleo.Prelude.{ℕ, zero, suc, ◌<◌, ◌≡◌, refl, ◌==◌, false, some, arith, ap}
use openleo.Json.{Value, Items, nil, cons, count_items, nth, set_nth}

pub nth-set_self :
    (i : ℕ) (v : Value) (l : Items) → i < count_items l → nth i (set_nth i v l) ≡ some v
nth-set_self i v nil h = absurd (omega arith)
nth-set_self zero v (cons w l) h = refl
nth-set_self (suc i) v (cons w l) h = nth-set_self i v l (omega arith)

pub nth-set_other :
    (i j : ℕ) (v : Value) (l : Items) → (i == j) ≡ false → nth j (set_nth i v l) ≡ nth j l
nth-set_other i j v nil h = refl
nth-set_other zero zero v (cons w l) h = absurd (ground (arith, h))
nth-set_other zero (suc j) v (cons w l) h = refl
nth-set_other (suc i) zero v (cons w l) h = refl
nth-set_other (suc i) (suc j) v (cons w l) h = nth-set_other i j v l (ground arith)

pub count-set_nth : (i : ℕ) (v : Value) (l : Items) → count_items (set_nth i v l) ≡ count_items l
count-set_nth i v nil = refl
count-set_nth zero v (cons w l) = refl
count-set_nth (suc i) v (cons w l) = ap suc (count-set_nth i v l)
