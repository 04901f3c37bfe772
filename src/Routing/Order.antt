-- ===== src/Routing/Order.antt =====
-- engine/routing.py: the order of the tuples (delay, hops, path) that `shortest_path` compares.
use openleo.Prelude.{
  ℕ, suc, ◌<◌, ◌≡◌, ◌⊎◌, inl, inr, refl, ltb, Bool-cases, true, false, List, [], ◌∷◌, ◌++◌, length,
  arith,
}
use openleo.Routing.{Edge, Label, path_lt, label_lt, extend_label}

-- The label of a path.
abbrev pub label_of : List ℕ → ℕ → ℕ → Label
label_of p d h = record { delay = d; hops = h; path = p }

-- The label does not come after the other.
abbrev pub LabelLe : Label → Label → Type 0
LabelLe a b = label_lt b a ≡ false

path_lt_irrefl : (p : List ℕ) → path_lt p p ≡ false
path_lt_irrefl [] = refl
path_lt_irrefl (x ∷ p) = ground (arith, path_lt_irrefl p)

path_lt-asymm : (p q : List ℕ) → path_lt p q ≡ true → path_lt q p ≡ false
path_lt-asymm [] [] h = cc
path_lt-asymm [] (y ∷ q) h = refl
path_lt-asymm (x ∷ p) [] h = cc
path_lt-asymm (x ∷ p) (y ∷ q) h = ground (arith, path_lt-asymm p q)

path_lt_trans : (p q r : List ℕ) → path_lt q p ≡ false → path_lt r q ≡ false → path_lt r p ≡ false
path_lt_trans [] q [] h k = refl
path_lt_trans [] q (z ∷ r) h k = refl
path_lt_trans (x ∷ p) [] r h k = cc
path_lt_trans (x ∷ p) (y ∷ q) [] h k = cc
path_lt_trans (x ∷ p) (y ∷ q) (z ∷ r) h k = ground (arith, path_lt_trans p q r, h, k)

path_lt-append :
    (p q : List ℕ) (w : ℕ) → length p ≡ length q → path_lt (p ++ w ∷ []) (q ++ w ∷ []) ≡ path_lt p q
path_lt-append [] [] w h = ground arith
path_lt-append [] (y ∷ q) w h = absurd (omega (arith, h))
path_lt-append (x ∷ p) [] w h = absurd (omega (arith, h))
path_lt-append (x ∷ p) (y ∷ q) w h = rw (path_lt-append p q w (omega (arith, h))) refl

pub LabelLe-refl : (a : Label) → LabelLe a a
unfolding label_lt
LabelLe-refl a = ground (arith, path_lt_irrefl a.path)

pub label_lt-LabelLe : (a b : Label) → label_lt a b ≡ true → LabelLe a b
unfolding label_lt
label_lt-LabelLe a b h = ground (arith, path_lt-asymm a.path b.path)

pub LabelLe-trans : (a b c : Label) → LabelLe a b → LabelLe b c → LabelLe a c
unfolding label_lt
LabelLe-trans a b c h k = ground (arith, path_lt_trans a.path b.path c.path)

-- One hop more comes after.
pub LabelLe-extend_label : (a : Label) (e : Edge) → LabelLe a (extend_label a e)
unfolding label_lt
LabelLe-extend_label a e = ground arith

-- As many nodes as hops, and the first one.
abbrev pub IsSized : Label → Type 0
IsSized a = length a.path ≡ suc a.hops

pub extend_label_mono :
    (a b : Label) (e : Edge)
    → IsSized a
    → IsSized b
    → LabelLe a b
    → LabelLe (extend_label a e) (extend_label b e)
unfolding label_lt
extend_label_mono a b e h k le = ground (arith, path_lt-append b.path a.path e.neighbor)

-- The order as it is documented: the smaller delay, then the fewer hops, then the path that comes
-- first in the order of the nodes.
abbrev pub PathLe : List ℕ → List ℕ → Type 0
PathLe [] q = Unit
PathLe (x ∷ p) [] = ⊥
PathLe (x ∷ p) (y ∷ q) = (x < y) ⊎ ((x ≡ y) × PathLe p q)

abbrev pub Precedes : Label → Label → Type 0
Precedes a b =
    (a.delay < b.delay)
    ⊎ ((a.delay ≡ b.delay) × ((a.hops < b.hops) ⊎ ((a.hops ≡ b.hops) × PathLe a.path b.path)))

path_lt-PathLe : (p q : List ℕ) → path_lt q p ≡ false → PathLe p q
path_lt-PathLe [] q h = tt
path_lt-PathLe (x ∷ p) [] h = cc
path_lt-PathLe (x ∷ p) (y ∷ q) h = elim (Bool-cases (ltb x y)) [
  | inl lt ↦ inl (ground (arith, lt))
  | inr ge ↦ inr (ground (arith, h, ge), path_lt-PathLe p q (ground (arith, h, ge)))
]

pub LabelLe-Precedes : (a b : Label) → LabelLe a b → Precedes a b
unfolding label_lt
LabelLe-Precedes a b h = elim (Bool-cases (ltb a.delay b.delay)) [
  | inl lt ↦ inl (ground (arith, lt))
  | inr ge ↦ inr (
    ground (arith, h, ge),
    elim (Bool-cases (ltb a.hops b.hops)) [
      | inl lt ↦ inl (ground (arith, lt))
      | inr more ↦
          inr (
            ground (arith, h, ge, more),
            path_lt-PathLe a.path b.path (ground (arith, h, ge, more)),
          )
    ],
  )
]
