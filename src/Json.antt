-- ===== src/Json.antt =====
-- `stableStringify` (frontend/src/lib/chatTokenEstimator.ts), with what it uses of
-- `JSON.stringify`: a value as a text in which the keys of objects are sorted.
pub mod Order
mod Tests
use Prim.Native.Char.{Char, code}
use Prim.Native.String.{String, [] as empty_text, ◌∷◌ as cons_text, ◌++◌ as cat}
use ailens.Base.Decimal.{char_at, decimal}
use ailens.Base.Text.{join}
use ailens.Base.{
  ℕ, ◌+◌, ◌/◌, ◌%◌, Bool, true, false, not, ◌&&◌, ◌||◌, List, [], ◌∷◌, ◌++◌, ◌==◌, ℕ_has_eq,
  string_has_eq, ltb, leb, map, if◌then◌else◌,
}
use ailens.Value.{
  Value, undefined, null, str, num, bool, obj, arr, Fields, field, end, Items, cons, nil,
}

-- A character of one UTF-16 code unit that comes behind the units of the characters with two.
abbrev pub is_high : ℕ → Bool
is_high c = leb 0xe000 c && ltb c 0x10000

-- The order of the first code units of two characters that differ.
abbrev pub unit_before : ℕ → ℕ → Bool
unit_before c d = elim (is_high c) [
  | true ↦ elim (is_high d) [ true ↦ ltb c d | false ↦ false ]
  | false ↦ elim (is_high d) [ true ↦ true | false ↦ ltb c d ]
]

-- The order of `Array.prototype.sort` on texts.
unfoldable pub before : String → String → Bool
before empty_text t = true
before (cons_text c s) empty_text = false
before (cons_text c s) (cons_text d t) =
    let rest = before s t in if code c == code d then rest else unit_before (code c) (code d)

-- `JSON.stringify` at a text.
abbrev hex_digit : ℕ → String
hex_digit n = char_at n "0123456789abcdef"

abbrev escape : Char → String
escape c =
    if code c == 0x22
    then "\\\""
    else if code c == 0x5c
    then "\\\\"
    else if code c == 8
    then "\\b"
    else if code c == 9
    then "\\t"
    else if code c == 10
    then "\\n"
    else if code c == 12
    then "\\f"
    else if code c == 13
    then "\\r"
    else if ltb (code c) 0x20
    then cat "\\u00" (cat (hex_digit (code c / 16)) (hex_digit (code c % 16)))
    else cons_text c empty_text

unfoldable pub escaped : String → String
escaped empty_text = ""
escaped (cons_text c s) = cat (escape c) (escaped s)

unfoldable pub quoted : String → String
unfolding escaped
quoted s = cat "\"" (cat (escaped s) "\"")

-- A key with its value's text.
pub record Member : Type 0 where
  pub key : String
  pub text : String

unfoldable pub insert : Member → List Member → List Member
unfolding before
insert m [] = m ∷ []
insert m (n ∷ ns) = let rest = insert m ns in if before m.key n.key then m ∷ n ∷ ns else n ∷ rest

-- `Object.keys(obj).sort()`, with the texts of the values at hand.
unfoldable pub sort : List Member → List Member
unfolding insert
sort [] = []
sort (m ∷ ms) = insert m (sort ms)

abbrev pub member_text : Member → String
unfolding quoted
member_text m = cat (quoted m.key) (cat ":" m.text)

unfoldable pub braces : List Member → String
unfolding sort join
braces ms = cat "{" (cat (join "," (map member_text (sort ms))) "}")

unfoldable mutual
  unfolding quoted decimal braces join

  pub stable_stringify : Value → String
  stable_stringify undefined = ""
  stable_stringify null = "null"
  stable_stringify (str s) = quoted s
  stable_stringify (num n) = decimal n
  stable_stringify (bool true) = "true"
  stable_stringify (bool false) = "false"
  stable_stringify (arr vs) = cat "[" (cat (join "," (elements vs)) "]")
  stable_stringify (obj fs) = braces (members fs)

  pub elements : Items → List String
  elements nil = []
  elements (cons v vs) = stable_stringify v ∷ elements vs

  -- The fields whose value is not `undefined`.
  pub members : Fields → List Member
  members end = []
  members (field k undefined fs) = members fs
  members (field k v fs) = record { key = k; text = stable_stringify v } ∷ members fs
