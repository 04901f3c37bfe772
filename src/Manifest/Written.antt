-- ===== src/Manifest/Written.antt =====
-- results/manifest.py: `verify_manifest` after `write_manifest`.
use openleo.Prelude.{
  and_left, and_right, bind-some, not-true, Bool, Bool-cases, inl, inr, true, false, not, ◌&&◌,
  ◌||◌, Option, some, List, [], ◌∷◌, ◌++◌, if◌then◌else◌, All, ◌≡◌, refl, sym, ap, ◌∙◌, subst,
  ◌>>=◌, check, bind_some, check-some, some_injective,
}
use openleo.Json.{Value}
use openleo.Json.Texts.{Text, text_eq, text_eq-≡, text_eq_refl}
use openleo.Olc.{Bytes}
use openleo.Manifest.{
  symlink, folder, file, Directory, manifest_name, node_at, files, digests, fields_of, strings_of,
  document_of, build_manifest, put_file, is_folder, write_manifest, read_manifest, has_name,
  difference, is_mismatch, mismatches, are_none, verify_manifest, bytes_in,
}

-- A directory has one entry under each path.
abbrev pub are_distinct : {A : Type 0} → List (Text × A) → Bool
are_distinct [] = true
are_distinct ((k, a) ∷ l) = not (has_name k l) && are_distinct l

either : (a b : Bool) → b ≡ true → (a || b) ≡ true
either true b h = refl
either false b h = h

contra : {B : Type 0} {x y : B} → true ≡ false → x ≡ y
contra h = cc

text_eq_swap : (s t : Text) → text_eq s t ≡ false → text_eq t s ≡ false
text_eq_swap s t h = elim (Bool-cases (text_eq t s)) [
  | inl e ↦ contra (sym (text_eq_refl s) ∙ ap (text_eq s) (sym (text_eq-≡ t s e)) ∙ h)
  | inr e ↦ e
]

-- The manifest is not among the files that it lists.
files-put_file :
    (d : Directory) (b : Bytes) (l : List (Text × Bytes))
    → files d ≡ some l
    → files (put_file manifest_name b d) ≡ some l
unfolding files
files-put_file [] b l h = h
files-put_file ((k, symlink) ∷ d) b l h = cc
files-put_file ((k, folder) ∷ d) b l h = elim (Bool-cases (text_eq k manifest_name)) [
  | inl e ↦
      ap files (ap (λ t. if t then (k, file b) ∷ d else (k, folder) ∷ put_file manifest_name b d) e)
      ∙ bind-some _ h
      ∙ ap (λ t. some (if t then l else (k, b) ∷ l)) e
  | inr e ↦ rw e (files-put_file d b l h)
]
files-put_file ((k, file c) ∷ d) b l h =
    let r = bind_some (files d) _ h in
    let step =
      λ (t : Bool). if t then (k, file b) ∷ d else (k, file c) ∷ put_file manifest_name b d in
    elim (Bool-cases (text_eq k manifest_name)) [
      | inl e ↦
          ap files (ap step e)
          ∙ bind-some _ r.1
          ∙ ap (λ t. some (if t then r.0 else (k, b) ∷ r.0)) e
          ∙ sym (ap (λ t. some (if t then r.0 else (k, c) ∷ r.0)) e)
          ∙ r.2
      | inr e ↦ ap files (ap step e) ∙ bind-some _ (files-put_file d b r.0 r.1) ∙ r.2
    ]

node_at-put_file :
    (d : Directory) (b : Bytes) → node_at manifest_name (put_file manifest_name b d) ≡ some (file b)
node_at-put_file [] b = refl
node_at-put_file ((k, n) ∷ d) b = elim (Bool-cases (text_eq k manifest_name)) [
  | inl e ↦
      ap (node_at manifest_name)
        (ap (λ t. if t then (k, file b) ∷ d else (k, n) ∷ put_file manifest_name b d) e)
      ∙ ap (λ t. if t then some (file b) else node_at manifest_name d)
          (ap (text_eq manifest_name) (text_eq-≡ k manifest_name e))
  | inr e ↦ rw (e, text_eq_swap k manifest_name e) (node_at-put_file d b)
]

strings_of-fields_of : (l : List (Text × Text)) → strings_of (fields_of l) ≡ some l
unfolding strings_of
strings_of-fields_of [] = refl
strings_of-fields_of ((k, d) ∷ l) = bind-some _ (strings_of-fields_of l)

has_name-digests :
    (sha256 : Bytes → Text) (k : Text) (l : List (Text × Bytes))
    → has_name k (digests sha256 l) ≡ has_name k l
has_name-digests sha256 k [] = refl
has_name-digests sha256 k ((j, b) ∷ l) = ap (λ r. text_eq k j || r) (has_name-digests sha256 k l)

difference-none :
    {A B : Type 0} (l : List (Text × A)) (other : List (Text × B))
    → ((k : Text) → has_name k l ≡ true → has_name k other ≡ true)
    → difference l other ≡ []
unfolding difference
difference-none [] other h = refl
difference-none ((k, a) ∷ l) other h =
    rw (h k (ap (λ t. t || has_name k l) (text_eq_refl k)))
      (difference-none l other (λ j i. h j (either (text_eq j k) (has_name j l) i)))

mismatches-none :
    (sha256 : Bytes → Text) (expected : List (Text × Text)) (l : List (Text × Bytes))
    → All (λ f. node_at f.0 expected ≡ some (sha256 f.1)) l
    → mismatches sha256 expected l ≡ []
unfolding mismatches
mismatches-none sha256 expected [] a = refl
mismatches-none sha256 expected ((k, b) ∷ l) a =
    let rest = mismatches sha256 expected l in
    ap (λ o. if is_mismatch (sha256 b) o then k ∷ rest else rest) a.0
    ∙ ap (λ t. if not t then k ∷ rest else rest) (text_eq_refl (sha256 b))
    ∙ mismatches-none sha256 expected l a.1

no_name_ne :
    {A : Type 0} (k j : Text) (l : List (Text × A))
    → has_name k l ≡ false
    → has_name j l ≡ true
    → text_eq j k ≡ false
no_name_ne k j l h i = elim (Bool-cases (text_eq j k)) [
  | inl e ↦ contra (sym i ∙ ap (λ n. has_name n l) (text_eq-≡ j k e) ∙ h)
  | inr e ↦ e
]

-- Each file has its own digest in the list, as paths are distinct.
digests-All :
    (sha256 : Bytes → Text) (l : List (Text × Bytes)) (expected : List (Text × Text))
    → are_distinct l ≡ true
    → ((k : Text) → has_name k l ≡ true → node_at k expected ≡ node_at k (digests sha256 l))
    → All (λ f. node_at f.0 expected ≡ some (sha256 f.1)) l
digests-All sha256 [] expected d h = tt
digests-All sha256 ((k, b) ∷ l) expected d h = (
  h k (ap (λ t. t || has_name k l) (text_eq_refl k))
      ∙ ap (λ t. if t then some (sha256 b) else node_at k (digests sha256 l)) (text_eq_refl k),
  digests-All sha256 l expected (and_right _ _ d) (λ j i.
      h j (either (text_eq j k) (has_name j l) i)
      ∙ ap (λ t. if t then some (sha256 b) else node_at j (digests sha256 l))
          (no_name_ne k j l (not-true _ (and_left _ _ d)) i)),
)

-- The manifest that is written passes, if json reads back what it wrote and each path is there once.
pub write-verify_manifest :
    (sha256 : Bytes → Text) (dumps : Value → Bytes) (loads : Bytes → Option Value)
    (d written : Directory) (l : List (Text × Bytes))
    → files d ≡ some l
    → are_distinct l ≡ true
    → loads (dumps (document_of (digests sha256 l)) ++ 10 ∷ [])
      ≡ some (document_of (digests sha256 l))
    → write_manifest sha256 dumps d ≡ some written
    → verify_manifest sha256 loads written ≡ some tt
unfolding write_manifest build_manifest verify_manifest read_manifest
write-verify_manifest sha256 dumps loads d written l f u j h =
    let listed = digests sha256 l in
    let text = dumps (document_of listed) ++ 10 ∷ [] in
    let v = bind_some (files d >>= λ x. some (document_of (digests sha256 x))) _ h in
    let same =
      some_injective (sym (bind-some (λ x. some (document_of (digests sha256 x))) f) ∙ v.1) in
    let c = check-some (not (is_folder (node_at manifest_name d))) v.2 in
    let all = ap (λ x. put_file manifest_name (dumps x ++ 10 ∷ []) d) same ∙ some_injective c.1 in
    let read =
      bind-some _ (ap bytes_in (node_at-put_file d text))
      ∙ bind-some _ j
      ∙ strings_of-fields_of listed in
    let listed_only = difference-none listed l (λ k i. sym (has_name-digests sha256 k l) ∙ i) in
    let actual_only = difference-none l listed (λ k i. has_name-digests sha256 k l ∙ i) in
    let equal = mismatches-none sha256 listed l (digests-All sha256 l listed u (λ k i. refl)) in
    subst (λ w. verify_manifest sha256 loads w ≡ some tt) all
      (bind-some _ read
        ∙ bind-some _ (files-put_file d text l f)
        ∙ (λ i. check (are_none (listed_only i ++ (actual_only i ++ equal i)))))
