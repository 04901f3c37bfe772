-- ===== src/Manifest.antt =====
-- results/manifest.py: the digests of the files of a results directory. SHA-256 and json are arguments.
mod Exact
mod Written
mod Tests
use openleo.Prelude.{
  ◌==◌, Bool, true, false, not, ◌&&◌, ◌||◌, Option, none, some, List, [], ◌∷◌, ◌++◌, length,
  if◌then◌else◌, ◌>>=◌, check, ◌>>◌,
}
use openleo.Json.{Value, Fields, string, object, end, field, member}
use openleo.Json.Texts.{Text, text, text_eq}
use openleo.Olc.{Bytes}

pub data Node : Type 0 where
  symlink : Node
  folder : Node
  file : Bytes → Node

-- What lies below a directory, by relative path.
abbrev pub Directory : Type 0
Directory = List (Text × Node)

abbrev pub manifest_name : Text
manifest_name = text "manifest.json"

abbrev pub node_at {ℓ} : {A : Type ℓ} → Text → List (Text × A) → Option A
node_at name [] = none
node_at name ((k, a) ∷ l) = if text_eq name k then some a else node_at name l

-- `_files`: all files but the manifest; a link is refused.
unfoldable pub files : Directory → Option (List (Text × Bytes))
files [] = some []
files ((name, symlink) ∷ l) = none
files ((name, folder) ∷ l) = files l
files ((name, file b) ∷ l) =
    files l >>= λ rest. some (if text_eq name manifest_name then rest else (name, b) ∷ rest)

module _ (sha256 : Bytes → Text) where
  abbrev pub digests : List (Text × Bytes) → List (Text × Text)
  digests [] = []
  digests ((name, b) ∷ l) = (name, sha256 b) ∷ digests l

abbrev pub fields_of : List (Text × Text) → Fields
fields_of [] = end
fields_of ((name, d) ∷ l) = field name (string d) (fields_of l)

-- `files`, if all its values are strings.
unfoldable pub strings_of : Fields → Option (List (Text × Text))
strings_of end = some []
strings_of (field name (string d) fs) = strings_of fs >>= λ rest. some ((name, d) ∷ rest)
strings_of _ = none

abbrev pub text_is : Text → Option Value → Bool
text_is t (some (string s)) = text_eq s t
text_is t _ = false

abbrev pub object_in : Option Value → Option Fields
object_in (some (object fs)) = some fs
object_in _ = none

-- The document, in the order of `sort_keys`.
abbrev pub document_of : List (Text × Text) → Value
document_of l = object (
    field (text "algorithm") (string (text "sha256")) (
      field (text "files") (object (fields_of l)) (
        field (text "kind") (string (text "openleo.manifest"))
          (field (text "schema_version") (string (text "1")) end))))

unfoldable pub build_manifest : (Bytes → Text) → Directory → Option Value
build_manifest sha256 d = files d >>= λ l. some (document_of (digests sha256 l))

abbrev pub put_file : Text → Bytes → Directory → Directory
put_file name b [] = (name, file b) ∷ []
put_file name b ((k, n) ∷ l) =
    if text_eq k name then (k, file b) ∷ l else (k, n) ∷ put_file name b l

abbrev pub is_folder : Option Node → Bool
is_folder (some folder) = true
is_folder _ = false

-- A folder cannot be written to.
unfoldable pub write_manifest : (Bytes → Text) → (Value → Bytes) → Directory → Option Directory
write_manifest sha256 dumps d = build_manifest sha256 d >>= λ v.
    check (not (is_folder (node_at manifest_name d)))
    >> some (put_file manifest_name (dumps v ++ 10 ∷ []) d)

abbrev pub bytes_in : Option Node → Option Bytes
bytes_in (some (file b)) = some b
bytes_in _ = none

unfoldable pub read_manifest : (Bytes → Option Value) → Directory → Option (List (Text × Text))
read_manifest loads d = bytes_in (node_at manifest_name d) >>= λ b. loads b >>= λ v.
    object_in (some v) >>= λ fs.
    check (text_is (text "openleo.manifest") (member (text "kind") fs))
    >> (check (text_is (text "1") (member (text "schema_version") fs))
        >> (object_in (member (text "files") fs) >>= λ l. strings_of l))

abbrev pub has_name {ℓ} : {A : Type ℓ} → Text → List (Text × A) → Bool
has_name name [] = false
has_name name ((k, a) ∷ l) = text_eq name k || has_name name l

-- The keys of the first that the second has not.
unfoldable pub difference {ℓ κ} :
    {A : Type ℓ} {B : Type κ} → List (Text × A) → List (Text × B) → List Text
difference [] other = []
difference ((k, a) ∷ l) other =
    let rest = difference l other in if has_name k other then rest else k ∷ rest

abbrev pub is_mismatch : Text → Option Text → Bool
is_mismatch digest none = false
is_mismatch digest (some d) = not (text_eq digest d)

unfoldable pub mismatches : (Bytes → Text) → List (Text × Text) → List (Text × Bytes) → List Text
mismatches sha256 expected [] = []
mismatches sha256 expected ((k, b) ∷ l) =
    let rest = mismatches sha256 expected l in
    if is_mismatch (sha256 b) (node_at k expected) then k ∷ rest else rest

abbrev pub are_none : List Text → Bool
are_none [] = true
are_none _ = false

unfoldable pub verify_manifest :
    (Bytes → Text) → (Bytes → Option Value) → Directory → Option (Unit {0})
verify_manifest sha256 loads d = read_manifest loads d >>= λ expected. files d >>= λ actual. check (
    are_none (
      difference expected actual
      ++ (difference actual expected ++ mismatches sha256 expected actual)))
