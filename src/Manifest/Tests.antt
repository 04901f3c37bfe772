-- ===== src/Manifest/Tests.antt =====
-- results/manifest.py: a directory of two files.
use openleo.Prelude.{◌≡◌, refl, some, List, [], ◌∷◌}
use openleo.Json.{Value}
use openleo.Json.Texts.{Text, text}
use openleo.Olc.{Bytes}
use openleo.Manifest.{
  folder, file, Directory, manifest_name, node_at, files, digests, strings_of, document_of,
  build_manifest, write_manifest, read_manifest, difference, mismatches, verify_manifest,
}
use openleo.Manifest.Exact.{digest_of, verify_manifest-Exact}
use openleo.Manifest.Written.{write-verify_manifest}

program : Unit {0}
unfolding files strings_of build_manifest write_manifest read_manifest difference mismatches
    verify_manifest
program = tt

-- Here the digest is the content.
abbrev digest : Bytes → Text
digest b = b

abbrev contents : List (Text × Bytes)
contents = (text "results.json", 1 ∷ []) ∷ (text "tables/links.olc", 2 ∷ 3 ∷ []) ∷ []

abbrev directory : Directory
directory =
    (text "results.json", file (1 ∷ []))
    ∷ (text "tables", folder)
    ∷ (text "tables/links.olc", file (2 ∷ 3 ∷ []))
    ∷ []

abbrev document : Value
document = document_of (digests digest contents)

abbrev with_manifest : Directory
with_manifest =
    (text "results.json", file (1 ∷ []))
    ∷ (text "tables", folder)
    ∷ (text "tables/links.olc", file (2 ∷ 3 ∷ []))
    ∷ (manifest_name, file (123 ∷ 10 ∷ []))
    ∷ []

write-verify_manifest_example : verify_manifest digest (λ b. some document) with_manifest ≡ some tt
unfolding program
write-verify_manifest_example =
    write-verify_manifest digest (λ v. 123 ∷ []) (λ b. some document) directory with_manifest
      contents refl refl refl refl

verify_manifest-Exact_example :
    (expected : List (Text × Text)) × (actual : List (Text × Bytes)) × (read_manifest
        (λ b. some document)
        with_manifest
      ≡ some expected)
    × (files with_manifest ≡ some actual)
    × (node_at (text "results.json") expected
        ≡ digest_of digest (node_at (text "results.json") actual))
unfolding program
verify_manifest-Exact_example =
    verify_manifest-Exact digest (λ b. some document) with_manifest (text "results.json") refl
