-- ===== src/Json/Tests.antt =====
-- Texts of values.
use text.Mathlib.TextEquality.{eq_iff}
use ailens.Base.{String, ◌≡◌, ◌≢◌, refl, true, arith, string_has_eq}
use ailens.Json.Order.{Reordered, stable_stringify-Reordered}
use ailens.Json.{stable_stringify}
use ailens.Value.{undefined, null, str, num, bool, arr, obj, nil, cons, Fields, field, end}

keys_sorted :
    stable_stringify (
      obj (
        field "b"
          (num 12)
          (field "x" undefined (field "a" (arr (cons (str "say \"hi\"\n") (cons null nil))) end))))
    ≡ "{\"a\":[\"say \\\"hi\\\"\\n\",null],\"b\":12}"
unfolding stable_stringify
keys_sorted = refl

abbrev forwards : Fields
forwards = field "a" (num 1) (field "b" (bool true) end)

abbrev backwards : Fields
backwards = field "b" (bool true) (field "a" (num 1) end)

a_is_not_b : ◌≢◌ {A = String} "a" "b"
a_is_not_b = ground (arith, eq_iff "a" "b")

stable_stringify-Reordered_example :
    stable_stringify (obj forwards) ≡ stable_stringify (obj backwards)
stable_stringify-Reordered_example =
    stable_stringify-Reordered forwards backwards (Reordered.swap a_is_not_b)
