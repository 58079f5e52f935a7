-- ===== src/Tools/Named.antt =====
-- The names and the types of the tools that are shown.
use ailens.Base.Text.{trim}
use ailens.Base.{
  ℕ, ◌+◌, String, Bool, true, false, not, List, [], ◌∷◌, ◌++◌, Option, some, ◌==◌, string_has_eq,
  length, All, if◌then◌else◌, ◌≡◌, refl, arith, inl, inr, Bool-cases, Option-cases,
}
use ailens.Cache.{ToolDefinition}
use ailens.Messages.{is_full_text}
use ailens.Tools.{
  first_string, raw_type, definition_of, declared, declarations_of, function_of,
  normalize_single_tool_definition, normalize_tool_definitions, collect_tools,
  extract_tool_definitions, string_or, legacy, list_at,
}
use ailens.Value.{Value, str, opt_prop, is_object, text_of, truthy}

-- A text that is not blank.
abbrev pub is_full : String → Bool
is_full s = not (trim s == "")

pub record IsNamed (d : ToolDefinition) : Type 0 where
  pub name : is_full d.name ≡ true
  pub type : is_full d.type ≡ true

full-text_of : (v : Value) → is_full_text v ≡ true → is_full (text_of v) ≡ true
unfolding is_full_text
full-text_of (str s) h = h
full-text_of _ h = cc

if-full :
    (b : Bool) (s t : String)
    → (b ≡ true → is_full s ≡ true)
    → is_full t ≡ true
    → is_full (if b then s else t) ≡ true
if-full true s t h k = h refl
if-full false s t h k = k

function-full : is_full "function" ≡ true
unfolding trim
function-full = refl

raw_type-full : (raw v : Value) → is_full (raw_type raw v) ≡ true
unfolding raw_type
raw_type-full raw v =
    if-full (is_full_text (opt_prop "type" raw)) _ _ (full-text_of (opt_prop "type" raw)) (
      if-full (is_full_text (opt_prop "type" v)) _ _ (full-text_of (opt_prop "type" v))
        function-full)

if-some-full :
    (b : Bool) (s : String) (r : Option String) (d : String)
    → (b ≡ true → is_full s ≡ true)
    → is_full (string_or r d) ≡ true
    → is_full (string_or (if b then some s else r) d) ≡ true
if-some-full true s r d h k = h refl
if-some-full false s r d h k = k

first_string-last :
    (type d : String)
    → is_full type ≡ true
    → is_full (string_or (first_string (str type ∷ [])) d) ≡ true
unfolding first_string
first_string-last type d h = ground arith

string_or-full :
    (vs : List Value) (type d : String)
    → is_full type ≡ true
    → is_full (string_or (first_string (vs ++ str type ∷ [])) d) ≡ true
unfolding first_string
string_or-full [] type d h = first_string-last type d h
string_or-full (v ∷ vs) type d h =
    if-some-full (is_full_text v) (text_of v) (first_string (vs ++ str type ∷ [])) d
      (full-text_of v) (string_or-full vs type d h)

definition_of-IsNamed : (v : Value) (index : ℕ) (raw : Value) → IsNamed (definition_of v index raw)
unfolding definition_of
definition_of-IsNamed v index raw =
    let raw_object = if is_object raw then raw else v in
    let type = raw_type-full raw_object v in
    record {
      name =
          string_or-full (opt_prop "name" v ∷ opt_prop "name" raw_object ∷ [])
            (raw_type raw_object v) _ type;
      type = type;
    }

All-append :
    (xs ys : List ToolDefinition) → All IsNamed xs → All IsNamed ys → All IsNamed (xs ++ ys)
All-append [] ys h k = k
All-append (x ∷ xs) ys (p, h) k = (p, All-append xs ys h k)

single-IsNamed :
    (item : Value) (index : ℕ) (raw : Value)
    → All IsNamed (normalize_single_tool_definition item index raw)
unfolding normalize_single_tool_definition
single-IsNamed item index raw = elim (Bool-cases (is_object item)) [
  | inl object ↦ rw object (definition_of-IsNamed item index raw, tt)
  | inr other ↦ rw other tt
]

declared-IsNamed :
    (ds : List Value) (index : ℕ) (tool : Value) → All IsNamed (declared ds index tool)
unfolding declared
declared-IsNamed [] index tool = tt
declared-IsNamed (d ∷ ds) index tool =
    All-append (normalize_single_tool_definition d index tool) (declared ds (index + 1) tool)
      (single-IsNamed d index tool) (declared-IsNamed ds (index + 1) tool)

normalize-IsNamed : (tool : Value) (base : ℕ) → All IsNamed (normalize_tool_definitions tool base)
unfolding normalize_tool_definitions
normalize-IsNamed tool base = elim (Bool-cases (is_object tool)) [
  | inl object ↦ elim (Option-cases (declarations_of tool)) [
    | inl alone ↦
        rw (normalize_tool_definitions, object, alone) (single-IsNamed (function_of tool) base tool)
    | inr (ds, group) ↦
        rw (normalize_tool_definitions, object, group) (declared-IsNamed ds base tool)
  ]
  | inr other ↦ rw (normalize_tool_definitions, other) tt
]

collect_tools-IsNamed :
    (out : List ToolDefinition) (tools : List Value)
    → All IsNamed out
    → All IsNamed (collect_tools out tools)
unfolding collect_tools
collect_tools-IsNamed out [] h = h
collect_tools-IsNamed out (tool ∷ tools) h =
    collect_tools-IsNamed (out ++ normalize_tool_definitions tool (length out)) tools
      (All-append out _ h (normalize-IsNamed tool (length out)))

-- Whatever a request declares, each tool that is shown has a name and a type that are not blank.
pub extract_tool_definitions-IsNamed : (p : Value) → All IsNamed (extract_tool_definitions p)
unfolding extract_tool_definitions
extract_tool_definitions-IsNamed p = elim (Bool-cases (truthy p)) [
  | inl object ↦ rw object (
      collect_tools-IsNamed (collect_tools [] (list_at "tools" p)) (legacy (list_at "functions" p))
        (collect_tools-IsNamed [] (list_at "tools" p) tt))
  | inr nothing ↦ rw nothing tt
]
