-- ===== src/Patch/Tests.antt =====
-- sweep.py: pointers and patches on small documents.
use openleo.Prelude.{◌≡◌, refl, none, some, List, [], ◌∷◌, ◌++◌}
use openleo.Prelude.Int.{pos}
use openleo.Json.{Value, Items, null, int, string, array, object, nil, cons, end, field}
use openleo.Json.Texts.{Text, text}
use openleo.Patch.{
  child, with_child, last_step, apply_at, check_operation, apply_one, apply_patch, value_at,
}
use openleo.Patch.Pointer.{split, unescape, token, tokens, index_of_token, escape, field_of}
use openleo.Patch.Names.{tokens-field_of}
use openleo.Patch.Frame.{replace-value_at}
use openleo.Patch.Undo.{is_new}

program : Unit {0}
unfolding split unescape token tokens index_of_token escape field_of child with_child last_step
    apply_at check_operation apply_one apply_patch value_at is_new
program = tt

-- {"a": [1, 2], "b/c": null}
abbrev document : Value
document = object (
    field (text "a") (array (cons (int (pos 1)) (cons (int (pos 2)) nil)))
      (field (text "b/c") null end))

abbrev second : List Text
second = text "a" ∷ text "1" ∷ []

read : value_at second document ≡ some (int (pos 2))
unfolding program
read = refl

leading_zero : value_at (text "a" ∷ text "01" ∷ []) document ≡ none
unfolding program
leading_zero = refl

escaped : tokens (text "/b~1c/~01") ≡ some (text "b/c" ∷ text "~1" ∷ [])
unfolding program
escaped = refl

bad_escape : tokens (text "/a~2") ≡ none
unfolding program
bad_escape = refl

-- [{"op": "add", "path": "/a/-", "value": null}, {"op": "remove", "path": "/b~1c"}]
abbrev patch : Items
patch =
    cons
      (object (
        field (text "op") (string (text "add"))
          (field (text "path") (string (text "/a/-")) (field (text "value") null end))))
      (cons
        (object (
          field (text "op") (string (text "remove"))
            (field (text "path") (string (text "/b~1c")) end)))
        nil)

patched :
    apply_patch document patch
    ≡ some (
        object
          (field (text "a") (array (cons (int (pos 1)) (cons (int (pos 2)) (cons null nil)))) end))
unfolding program
patched = refl

tokens-field_of_example :
    tokens (field_of (text "/a") (text "x/~y")) ≡ some ((text "a" ∷ []) ++ text "x/~y" ∷ [])
unfolding program
tokens-field_of_example = tokens-field_of (text "/a") (text "a" ∷ []) (text "x/~y") refl

abbrev replaced : Value
replaced =
    object
      (field (text "a") (array (cons (int (pos 1)) (cons null nil))) (field (text "b/c") null end))

replace-value_at_example :
    (value_at second replaced ≡ some null)
    × (value_at (text "a" ∷ text "0" ∷ []) replaced ≡ value_at (text "a" ∷ text "0" ∷ []) document)
unfolding program
replace-value_at_example =
    replace-value_at document (text "a") (text "1" ∷ []) null replaced (text "a" ∷ text "0" ∷ [])
      refl refl

abbrev added : Value
added = object (
    field (text "a") (array (cons (int (pos 1)) (cons null (cons (int (pos 2)) nil))))
      (field (text "b/c") null end))
