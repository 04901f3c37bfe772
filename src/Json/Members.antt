-- ===== src/Json/Members.antt =====
-- The laws of a dict's members.
use openleo.Prelude.{◌≡◌, refl, some, arith, if◌then◌else◌}
use openleo.Json.{Value, Fields, end, field, member, put}
use openleo.Json.Texts.{Text, text_eq, text_eq_iff}

pub member-put :
    (j k : Text) (v : Value) (fs : Fields)
    → member j (put k v fs) ≡ (if text_eq j k then some v else member j fs)
member-put j k v end = refl
member-put j k v (field i w fs) =
    ground (arith, text_eq_iff j k, text_eq_iff k i, text_eq_iff j i, member-put j k v fs)
