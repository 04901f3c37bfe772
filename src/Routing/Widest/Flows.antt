-- ===== src/Routing/Widest/Flows.antt =====
-- engine/routing.py: what `widest_path` is about, and what holds between two of its rounds.
use openleo.Prelude.{
  ◌&&◌, ◌||◌, ℕ, ◌≡◌, ◌≢◌, ◌⊎◌, inl, inr, refl, ltb, Bool, if_split, true, false, Option, none,
  some, List, [], ◌∷◌, get_or, In, here, there, arith,
}
use openleo.Routing.{Graph, Edge, narrower}
use openleo.Routing.Widest.{Wide, cap_lt, cap_eq, wide_lt, push_wide, BestWide}

-- At most as wide.
abbrev pub CapLe : Option ℕ → Option ℕ → Type 0
CapLe a b = cap_lt b a ≡ false

pub CapLe-refl : (a : Option ℕ) → CapLe a a
CapLe-refl none = refl
CapLe-refl (some a) = ground arith

pub CapLe-trans : (a b c : Option ℕ) → CapLe a b → CapLe b c → CapLe a c
CapLe-trans none none none h k = refl
CapLe-trans none none (some c) h k = cc
CapLe-trans none (some b) c h k = cc
CapLe-trans (some a) none none h k = refl
CapLe-trans (some a) none (some c) h k = cc
CapLe-trans (some a) (some b) none h k = refl
CapLe-trans (some a) (some b) (some c) h k = ground (arith, h, k)

pub cap_lt-CapLe : (a b : Option ℕ) → cap_lt a b ≡ true → CapLe a b
cap_lt-CapLe none b h = cc
cap_lt-CapLe (some a) none h = refl
cap_lt-CapLe (some a) (some b) h = ground (arith, h)

pub narrower-CapLe : (a : Option ℕ) (c : ℕ) → CapLe (some (narrower a c)) a
narrower-CapLe none c = refl
narrower-CapLe (some a) c = ground arith

pub narrower_mono :
    (a b : Option ℕ) (c : ℕ) → CapLe a b → CapLe (some (narrower a c)) (some (narrower b c))
narrower_mono none none c h = ground arith
narrower_mono none (some b) c h = cc
narrower_mono (some a) none c h = ground arith
narrower_mono (some a) (some b) c h = ground (arith, h)

-- A flow of this capacity goes from the source to the node, over edges that let some of it pass. It
-- may visit a node twice.
pub data Flow (graph : Graph) (source : ℕ) : Option ℕ → ℕ → Type 0 where
  origin : {a : Option ℕ} {v : ℕ} → a ≡ none → v ≡ source → Flow graph source a v
  through :
      {a b : Option ℕ} {v w : ℕ}
      → Flow graph source a v
      → (e : Edge) → In e (get_or graph v [])
      → ltb 0 (narrower a e.capacity) ≡ true
      → b ≡ some (narrower a e.capacity)
      → w ≡ e.neighbor
      → Flow graph source b w

-- The node has a capacity of at least this one.
abbrev pub WideReached : BestWide → ℕ → Option ℕ → Type 0
WideReached best v a = (b : Option ℕ) × (best v ≡ some b) × CapLe a b

abbrev pub WideWaits : ℕ → Option ℕ → List Wide → Type 0
WideWaits v b heap = (x : Wide) × In x heap × (x.node ≡ v) × (x.capacity ≡ b)

abbrev pub WideSettled : Graph → BestWide → ℕ → Option ℕ → Type 0
WideSettled graph best v b =
    (e : Edge)
    → In e (get_or graph v [])
    → ltb 0 (narrower b e.capacity) ≡ true
    → WideReached best e.neighbor (some (narrower b e.capacity))

abbrev pub WideOrdered : List Wide → Type 0
WideOrdered [] = Unit
WideOrdered (x ∷ heap) = ((y : Wide) → In y heap → CapLe y.capacity x.capacity) × WideOrdered heap

module _ (graph : Graph) (source target : ℕ) where
  pub record IsWide (Pending : ℕ → Option ℕ → Type 0) (heap : List Wide) (best : BestWide)
      : Type 0 where
    pub flows : (x : Wide) → In x heap → Flow graph source x.capacity x.node
    pub ordered : WideOrdered heap
    pub begun : WideReached best source none
    pub tried :
        (v : ℕ) (b : Option ℕ)
        → best v ≡ some b
        → WideWaits v b heap ⊎ ((v ≢ target) × WideSettled graph best v b) ⊎ Pending v b

pub In-push_wide :
    (e : Wide) (heap : List Wide) (x : Wide) → In x (push_wide e heap) → (x ≡ e) ⊎ In x heap
unfolding push_wide
In-push_wide e [] x (here p) = inl p
In-push_wide e [] x (there i) = inr i
In-push_wide e (y ∷ l) x i =
    if_split (λ r. In x r → (x ≡ e) ⊎ In x (y ∷ l)) (wide_lt y e) (λ _. deeper (In-push_wide e l x))
      (λ _. at_head) i
  where
    at_head : In x (e ∷ y ∷ l) → (x ≡ e) ⊎ In x (y ∷ l)
    at_head (here p) = inl p
    at_head (there j) = inr j

    behind : (x ≡ e) ⊎ In x l → (x ≡ e) ⊎ In x (y ∷ l)
    behind (inl p) = inl p
    behind (inr j) = inr (there j)

    deeper :
        (In x (push_wide e l) → (x ≡ e) ⊎ In x l)
        → In x (y ∷ push_wide e l)
        → (x ≡ e) ⊎ In x (y ∷ l)
    deeper ih (here p) = inr (here p)
    deeper ih (there j) = behind (ih j)

pub push_wide-In_self : (e : Wide) (heap : List Wide) → In e (push_wide e heap)
unfolding push_wide
push_wide-In_self e [] = here refl
push_wide-In_self e (y ∷ l) =
    if_split (In e) (wide_lt y e) (λ _. there (push_wide-In_self e l)) (λ _. here refl)

pub push_wide-In : (e : Wide) (heap : List Wide) (x : Wide) → In x heap → In x (push_wide e heap)
unfolding push_wide
push_wide-In e [] x i = elim i [ ]
push_wide-In e (y ∷ l) x (here p) =
    if_split (In x) (wide_lt y e) (λ _. here p) (λ _. there (here p))
push_wide-In e (y ∷ l) x (there i) =
    if_split (In x) (wide_lt y e) (λ _. there (push_wide-In e l x i)) (λ _. there (there i))

first_wider : (a b : Option ℕ) (n : Bool) → (cap_lt b a || (cap_eq a b && n)) ≡ true → CapLe b a
first_wider none none n h = refl
first_wider none (some b) n h = refl
first_wider (some a) none n h = cc
first_wider (some a) (some b) n h = ground (arith, h)

first_not_wider : (b c : Bool) → (b || c) ≡ false → b ≡ false
first_not_wider b c h = ground arith

wide_lt-CapLe : (a b : Wide) → wide_lt a b ≡ true → CapLe b.capacity a.capacity
wide_lt-CapLe a b h = first_wider a.capacity b.capacity (ltb a.node b.node) h

not_wide_lt-CapLe : (a b : Wide) → wide_lt a b ≡ false → CapLe a.capacity b.capacity
not_wide_lt-CapLe a b h = first_not_wider (cap_lt b.capacity a.capacity) _ h

pub push_wide-WideOrdered :
    (e : Wide) (heap : List Wide) → WideOrdered heap → WideOrdered (push_wide e heap)
unfolding push_wide
push_wide-WideOrdered e [] o = (λ y i. elim i [ ], tt)
push_wide-WideOrdered e (y ∷ l) o =
    if_split WideOrdered (wide_lt y e)
      (λ lt. (
        λ x i. y_first (wide_lt-CapLe y e lt) x (In-push_wide e l x i),
        push_wide-WideOrdered e l o.1,
      ))
      (λ ge. (λ x i. e_first (not_wide_lt-CapLe y e ge) x i, o))
  where
    y_first :
        CapLe e.capacity y.capacity → (x : Wide) → (x ≡ e) ⊎ In x l → CapLe x.capacity y.capacity
    y_first k x (inl p) = rw p k
    y_first k x (inr i) = o.0 x i

    e_first : CapLe y.capacity e.capacity → (x : Wide) → In x (y ∷ l) → CapLe x.capacity e.capacity
    e_first k x (here p) = rw p k
    e_first k x (there i) = CapLe-trans x.capacity y.capacity e.capacity (o.0 x i) k
