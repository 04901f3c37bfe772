-- ===== src/Json/Texts.antt =====
-- Texts as lists of code points.
use Prim.Native.Char.{code}
use openleo.Prelude.{
  ℕ, ◌==◌, ◌≡◌, refl, subst, ◌↔◌, Bool, true, false, ◌&&◌, List, [], ◌∷◌, String, arith,
}

abbrev pub Text : Type 0
Text = List ℕ

abbrev pub text : String → Text
text String.[] = []
text (String.◌∷◌ c s) = code c ∷ text s

abbrev pub text_eq : Text → Text → Bool
text_eq [] [] = true
text_eq (x ∷ xs) (y ∷ ys) = x == y && text_eq xs ys
text_eq _ _ = false

pub text_eq_refl : (s : Text) → text_eq s s ≡ true
text_eq_refl [] = refl
text_eq_refl (x ∷ s) = ground (arith, text_eq_refl s)

pub text_eq-≡ : (s t : Text) → text_eq s t ≡ true → s ≡ t
text_eq-≡ [] [] h = refl
text_eq-≡ [] (y ∷ t) h = cc
text_eq-≡ (x ∷ s) [] h = cc
text_eq-≡ (x ∷ s) (y ∷ t) h = ground (arith, text_eq-≡ s t)

pub text_eq_iff : (s t : Text) → (text_eq s t ≡ true) ↔ (s ≡ t)
text_eq_iff s t = (text_eq-≡ s t, λ e. subst (λ r. text_eq s r ≡ true) e (text_eq_refl s))
