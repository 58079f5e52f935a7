-- ===== src/Value.antt =====
-- JavaScript values as the client reads them: what `JSON.parse` returns and the object literals of
-- the code. Numbers are the naturals, which are what the client reads from a body (indices and
-- token counts). An object's fields stand in the order in which `Object.keys` lists them.
use ailens.Base.{
  ℕ, String, Bool, true, false, not, List, [], ◌∷◌, Option, none, some, ◌==◌, if◌then◌else◌,
  ℕ_has_eq, string_has_eq, ◌≡◌, refl, ap,
}

mutual
  pub data Value : Type 0 where
    undefined null : Value
    str : String → Value
    num : ℕ → Value
    bool : Bool → Value
    obj : Fields → Value
    arr : Items → Value

  pub data Fields : Type 0 where
    field : String → Value → Fields → Fields
    end : Fields

  pub data Items : Type 0 where
    cons : Value → Items → Items
    nil : Items

abbrev pub items : Items → List Value
items nil = []
items (cons v vs) = v ∷ items vs

abbrev pub of_list : List Value → Items
of_list [] = nil
of_list (v ∷ vs) = cons v (of_list vs)

pub items-of_list : (vs : List Value) → items (of_list vs) ≡ vs
items-of_list [] = refl
items-of_list (v ∷ vs) = ap (λ l. v ∷ l) (items-of_list vs)

abbrev pub entries : Fields → List (String × Value)
entries end = []
entries (field k v fs) = (k, v) ∷ entries fs

-- `undefined` where the object has no such field.
abbrev pub find : String → Fields → Value
find k end = undefined
find k (field j v fs) = if j == k then v else find k fs

-- `v.k`; `none` is the TypeError of a property of `null` or `undefined`.
abbrev pub prop : String → Value → Option Value
prop k undefined = none
prop k null = none
prop k (obj fs) = some (find k fs)
prop k _ = some undefined

-- `v?.k`
abbrev pub opt_prop : String → Value → Value
opt_prop k (obj fs) = find k fs
opt_prop k _ = undefined

-- `!!v`
abbrev pub truthy : Value → Bool
truthy undefined = false
truthy null = false
truthy (bool b) = b
truthy (num n) = not (n == 0)
truthy (str s) = not (s == "")
truthy (arr _) = true
truthy (obj _) = true

-- `v ?? d`
abbrev pub nullish : Value → Value → Value
nullish undefined d = d
nullish null d = d
nullish v d = v

-- `v || d`
abbrev pub or_else : Value → Value → Value
or_else v d = if truthy v then v else d

-- `typeof v === 'string'`, with the text at hand.
abbrev pub string? : Value → Option String
string? (str s) = some s
string? _ = none

-- `Array.isArray(v)`, with the elements at hand.
abbrev pub array? : Value → Option (List Value)
array? (arr vs) = some (items vs)
array? _ = none

abbrev pub is_array : Value → Bool
is_array (arr vs) = true
is_array _ = false

-- `v && typeof v === 'object'`: an object or an array.
abbrev pub is_object : Value → Bool
is_object (arr _) = true
is_object (obj _) = true
is_object _ = false

-- `typeof v === 'string' && v === s`, which is `v === s` at a text `s`.
abbrev pub is_str : Value → String → Bool
is_str (str t) s = t == s
is_str _ s = false

-- `typeof v === 'number'`, with the number at hand.
abbrev pub number? : Value → Option ℕ
number? (num n) = some n
number? _ = none

-- The text of a value, empty where it is no text.
abbrev pub text_of : Value → String
text_of v = elim (string? v) [ none ↦ "" | some t ↦ t ]

-- `typeof v === 'string'`
abbrev pub is_text : Value → Bool
is_text v = elim (string? v) [ none ↦ false | some t ↦ true ]

-- `o.k = v`: a field that is there keeps its place.
abbrev pub set_field : String → Value → Fields → Fields
set_field k v end = field k v end
set_field k v (field j w fs) = if j == k then field j v fs else field j w (set_field k v fs)

abbrev pub objects : List Fields → List Value
objects [] = []
objects (fs ∷ rest) = obj fs ∷ objects rest
