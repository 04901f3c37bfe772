-- ===== src/Manifest/Exact.antt =====
-- results/manifest.py: what `verify_manifest` accepts.
use openleo.Prelude.{
  check-true, Bool, Bool-cases, inl, inr, true, false, Option, none, some, List, [], ◌∷◌, ◌++◌,
  if◌then◌else◌, ◌≡◌, refl, sym, ap, ◌∙◌, subst, ◌⊎◌, arith, bind_some, some_injective,
}
use openleo.Json.{Value}
use openleo.Json.Texts.{Text, text_eq, text_eq-≡}
use openleo.Olc.{Bytes}
use openleo.Manifest.{
  Directory, node_at, files, read_manifest, has_name, difference, is_mismatch, mismatches, are_none,
  verify_manifest,
}

absurd_option : {A B : Type 0} {x : A} {m n : Option B} → none ≡ some x → m ≡ n
absurd_option h = cc

nil-left : (a b : List Text) → are_none (a ++ b) ≡ true → are_none a ≡ true
nil-left [] b h = refl
nil-left (x ∷ a) b h = cc

nil-right : (a b : List Text) → are_none (a ++ b) ≡ true → are_none b ≡ true
nil-right [] b h = h
nil-right (x ∷ a) b h = cc

has_lookup :
    {A : Type 0} (name : Text) (l : List (Text × A))
    → has_name name l ≡ true
    → (a : A) × (node_at name l ≡ some a)
has_lookup name [] h = cc
has_lookup name ((k, a) ∷ l) h = elim (Bool-cases (text_eq name k)) [
  | inl e ↦ (a, rw e refl)
  | inr e ↦ (let r = has_lookup name l (ground (arith, h, e)) in (r.0, rw (e, r.1) refl))
]

kept :
    (b : Bool) (x : Text) (rest : List Text)
    → are_none (if b then rest else x ∷ rest) ≡ true
    → (b ≡ true) × (are_none rest ≡ true)
kept true x rest h = (refl, h)
kept false x rest h = cc

left_out :
    (b : Bool) (x : Text) (rest : List Text)
    → are_none (if b then x ∷ rest else rest) ≡ true
    → (b ≡ false) × (are_none rest ≡ true)
left_out true x rest h = cc
left_out false x rest h = (refl, h)

-- The key that was found, or a later one.
found :
    {A : Type 0} (b : Bool) (x a : A) (rest : Option A)
    → (if b then some x else rest) ≡ some a
    → ((b ≡ true) × (x ≡ a)) ⊎ ((b ≡ false) × (rest ≡ some a))
found true x a rest h = inl (refl, some_injective h)
found false x a rest h = inr (refl, h)

not_mismatch : (digest d : Text) → is_mismatch digest (some d) ≡ false → digest ≡ d
not_mismatch digest d h = text_eq-≡ digest d (ground (arith, h))

-- A key of the first is one of the second.
difference-node_at :
    {A B : Type 0} (name : Text) (l : List (Text × A)) (other : List (Text × B)) (a : A)
    → are_none (difference l other) ≡ true
    → node_at name l ≡ some a
    → has_name name other ≡ true
unfolding difference
difference-node_at name [] other a h e = cc
difference-node_at name ((k, x) ∷ l) other a h e =
    let p = kept (has_name k other) k (difference l other) h in
    elim (found (text_eq name k) x a (node_at name l) e) [
      | inl q ↦ subst (λ n. has_name n other ≡ true) (sym (text_eq-≡ name k q.0)) p.0
      | inr q ↦ difference-node_at name l other a p.1 q.1
    ]

mismatches-node_at :
    (sha256 : Bytes → Text) (expected : List (Text × Text)) (name : Text) (l : List (Text × Bytes))
    (b : Bytes) (d : Text)
    → are_none (mismatches sha256 expected l) ≡ true
    → node_at name l ≡ some b
    → node_at name expected ≡ some d
    → sha256 b ≡ d
unfolding mismatches
mismatches-node_at sha256 expected name [] b d h e f = cc
mismatches-node_at sha256 expected name ((k, x) ∷ l) b d h e f =
    let p =
      left_out (is_mismatch (sha256 x) (node_at k expected)) k (mismatches sha256 expected l) h in
    elim (found (text_eq name k) x b (node_at name l) e) [
      | inl q ↦
          (let same = ap (λ n. node_at n expected) (sym (text_eq-≡ name k q.0)) ∙ f in
            ap sha256 (sym q.1)
            ∙ not_mismatch (sha256 x) d (ap (is_mismatch (sha256 x)) (sym same) ∙ p.0))
      | inr q ↦ mismatches-node_at sha256 expected name l b d p.1 q.1 f
    ]

abbrev pub digest_of : (Bytes → Text) → Option Bytes → Option Text
digest_of sha256 none = none
digest_of sha256 (some b) = some (sha256 b)

-- The three lists together.
same_digest :
    (sha256 : Bytes → Text) (expected : List (Text × Text)) (actual : List (Text × Bytes))
    (name : Text)
    → are_none (difference expected actual) ≡ true
    → are_none (difference actual expected) ≡ true
    → are_none (mismatches sha256 expected actual) ≡ true
    → (a : Option Bytes) (e : Option Text) → node_at name actual ≡ a
    → node_at name expected ≡ e
    → node_at name expected ≡ digest_of sha256 (node_at name actual)
same_digest sha256 expected actual name h i j none none p q = q ∙ ap (digest_of sha256) (sym p)
same_digest sha256 expected actual name h i j none (some d) p q =
    let r = has_lookup name actual (difference-node_at name expected actual d h q) in
    absurd_option (sym p ∙ r.1)
same_digest sha256 expected actual name h i j (some b) none p q =
    let r = has_lookup name expected (difference-node_at name actual expected b i p) in
    absurd_option (sym q ∙ r.1)
same_digest sha256 expected actual name h i j (some b) (some d) p q =
    q
    ∙ ap (λ x. some x) (sym (mismatches-node_at sha256 expected name actual b d j p q))
    ∙ ap (digest_of sha256) (sym p)

-- If `verify_manifest` passes, the manifest and the directory can be read, and under each name the
-- manifest has the digest of the file, or neither has the name.
pub verify_manifest-Exact :
    (sha256 : Bytes → Text) (loads : Bytes → Option Value) (d : Directory) (name : Text)
    → verify_manifest sha256 loads d ≡ some tt
    → (expected : List (Text × Text)) × (actual : List (Text × Bytes)) × (read_manifest loads d
        ≡ some expected)
      × (files d ≡ some actual)
      × (node_at name expected ≡ digest_of sha256 (node_at name actual))
unfolding verify_manifest
verify_manifest-Exact sha256 loads d name h =
    let e = bind_some (read_manifest loads d) _ h in
    let a = bind_some (files d) _ e.2 in
    let ok =
      check-true
        (are_none (difference e.0 a.0 ++ (difference a.0 e.0 ++ mismatches sha256 e.0 a.0))) a.2 in
    let first = nil-left (difference e.0 a.0) _ ok in
    let others = nil-right (difference e.0 a.0) _ ok in
    (
      e.0,
      a.0,
      e.1,
      a.1,
      same_digest sha256 e.0 a.0 name first (nil-left (difference a.0 e.0) _ others)
          (nil-right (difference a.0 e.0) _ others) (node_at name a.0) (node_at name e.0) refl refl,
    )
