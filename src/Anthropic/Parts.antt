-- ===== src/Anthropic/Parts.antt =====
-- What the deltas of a message make of its parts.
use text.Mathlib.TextEquality.{eq_iff}
use text.Mathlib.TextLemmas
use ailens.Base.Keyed.{Keyed, store, value_at, value_at-store}
use ailens.Base.Text.{concat}
use ailens.Base.{
  ℕ, String, Bool, true, false, not, ◌&&◌, List, [], ◌∷◌, Option, none, some, ◌==◌, string_has_eq,
  ℕ_has_eq, all, map, if◌then◌else◌, ◌≡◌, refl, sym, ap, ◌∙◌, arith, inl, inr, Bool-cases,
  eq_of_same,
}
use ailens.Anthropic.{
  Event, Assembly, fresh_part, add_text, add_json, delta_change, delta_index, block_delta,
  block_start, start_index, event_step, event_loop, cat, change_part,
}
use ailens.Value.{
  Value, str, Fields, field, end, find, set_field, opt_prop, is_str, is_text, text_of,
}

find-set_field :
    (k j : String) (v : Value) (fs : Fields)
    → find j (set_field k v fs) ≡ (if k == j then v else find j fs)
find-set_field k j v end = refl
find-set_field k j v (field i w fs) =
    ground (arith, eq_iff i k, eq_iff i j, eq_iff k j, find-set_field k j v fs)

-- The text that a delta adds, and the fragment of a tool call's input: empty where it adds none.
abbrev pub delta_text : Value → String
delta_text delta =
    if is_str (opt_prop "type" delta) "text_delta" then text_of (opt_prop "text" delta) else ""

abbrev pub delta_json : Value → String
delta_json delta =
    if is_str (opt_prop "type" delta) "input_json_delta"
    then text_of (opt_prop "partial_json" delta)
    else ""

-- What an event's object adds to the part of an index.
abbrev pub text_for : ℕ → Value → String
text_for k object = if delta_index object == k then delta_text (opt_prop "delta" object) else ""

abbrev pub json_for : ℕ → Value → String
json_for k object = if delta_index object == k then delta_json (opt_prop "delta" object) else ""

abbrev pub part_text : Fields → String
part_text part = text_of (find "text" part)

abbrev pub part_input : Fields → String
part_input part = text_of (find "input" part)

add_text-texts :
    (t : String) (part : Fields)
    → (part_text (add_text t part) ≡ cat (part_text part) t)
      × (part_input (add_text t part) ≡ part_input part)
unfolding add_text
add_text-texts t part =
    let typed = set_field "type" (str "text") part in
    (
      ap text_of (find-set_field "text" "text" _ typed)
          ∙ ap (λ v. cat (text_of v) t) (find-set_field "type" "text" _ part),
      ap text_of (find-set_field "text" "input" _ typed ∙ find-set_field "type" "input" _ part),
    )

add_json-texts :
    (t : String) (part : Fields)
    → (part_text (add_json t part) ≡ part_text part)
      × (part_input (add_json t part) ≡ cat (part_input part) t)
unfolding add_json
add_json-texts t part =
    let typed = set_field "type" (str "tool_use") part in
    (
      ap text_of (find-set_field "input" "text" _ typed ∙ find-set_field "type" "text" _ part),
      ap text_of (find-set_field "input" "input" _ typed)
          ∙ ap (λ v. cat (text_of v) t) (find-set_field "type" "input" _ part),
    )

text_of_no_text : (v : Value) → is_text v ≡ false → text_of v ≡ ""
text_of_no_text (str t) h = cc
text_of_no_text _ h = refl

one_type : (v : Value) → is_str v "text_delta" ≡ true → is_str v "input_json_delta" ≡ false
one_type (str t) h = rw ((eq_iff t "text_delta").0 h) refl
one_type _ h = refl

-- A part, before and after it gains a text and a fragment of its input.
pub record Gains (text input : String) (before later : Fields) : Type 0 where
  pub text_now : part_text later ≡ cat (part_text before) text
  pub input_now : part_input later ≡ cat (part_input before) input

-- What a delta does to a part.
changed : Option (Fields → Fields) → Fields → Fields
changed none part = part
changed (some change) part = change part

Gains-of_nothing : (part : Fields) → Gains "" "" part part
Gains-of_nothing part = record {
  text_now = sym (TextLemmas.append-nil _);
  input_now = sym (TextLemmas.append-nil _);
}

Gains-add_text : (t : String) (part : Fields) → Gains t "" part (add_text t part)
Gains-add_text t part = record {
  text_now = (add_text-texts t part).0;
  input_now = (add_text-texts t part).1 ∙ sym (TextLemmas.append-nil _);
}

Gains-add_json : (t : String) (part : Fields) → Gains "" t part (add_json t part)
Gains-add_json t part = record {
  text_now = (add_json-texts t part).0 ∙ sym (TextLemmas.append-nil _);
  input_now = (add_json-texts t part).1;
}

delta_change-Gains :
    (delta : Value) (part : Fields)
    → Gains (delta_text delta) (delta_json delta) part (changed (delta_change delta) part)
unfolding delta_change changed
delta_change-Gains delta part =
    let kind = opt_prop "type" delta in
    let text = opt_prop "text" delta in
    let json = opt_prop "partial_json" delta in
    elim (Bool-cases (is_str kind "text_delta")) [
      | inl texts ↦ elim (Bool-cases (is_text text)) [
        | inl some_text ↦
            rw (texts, one_type kind texts, some_text) (Gains-add_text (text_of text) part)
        | inr no_text ↦
            rw (texts, one_type kind texts, no_text, text_of_no_text text no_text)
              (Gains-of_nothing part)
      ]
      | inr other ↦ elim (Bool-cases (is_str kind "input_json_delta")) [
        | inl jsons ↦ elim (Bool-cases (is_text json)) [
          | inl some_json ↦ rw (other, jsons, some_json) (Gains-add_json (text_of json) part)
          | inr no_json ↦
              rw (other, jsons, no_json, text_of_no_text json no_json) (Gains-of_nothing part)
        ]
        | inr neither ↦ rw (other, neither) (Gains-of_nothing part)
      ]
    ]

value_at-store_changed :
    (k j : ℕ) (change : Fields → Fields) (parts : Keyed ℕ Fields)
    → value_at fresh_part k (store j (change (value_at fresh_part j parts)) parts)
      ≡ (if j == k then change (value_at fresh_part k parts) else value_at fresh_part k parts)
value_at-store_changed k j change parts = ground (
  arith,
  value_at-store fresh_part j k (change (value_at fresh_part j parts)) parts,
  eq_of_same j k,
)

value_at-change_part :
    (k j : ℕ) (change : Option (Fields → Fields)) (parts : Keyed ℕ Fields)
    → value_at fresh_part k (change_part change j parts) ≡ (
        if j == k
        then changed change (value_at fresh_part k parts)
        else value_at fresh_part k parts)
unfolding changed
value_at-change_part k j none parts = ground arith
value_at-change_part k j (some change) parts = value_at-store_changed k j change parts

block_delta-Gains :
    (k : ℕ) (parts : Keyed ℕ Fields) (object : Value)
    → Gains
        (text_for k object)
        (json_for k object)
        (value_at fresh_part k parts)
        (value_at fresh_part k (block_delta parts object))
unfolding block_delta
block_delta-Gains k parts object = elim (Bool-cases (delta_index object == k)) [
  | inl here ↦
      rw
        (
          value_at-change_part k (delta_index object) (delta_change (opt_prop "delta" object))
              parts,
          here,
        )
        (delta_change-Gains (opt_prop "delta" object) (value_at fresh_part k parts))
  | inr other ↦
      rw
        (
          value_at-change_part k (delta_index object) (delta_change (opt_prop "delta" object))
              parts,
          other,
        )
        (Gains-of_nothing (value_at fresh_part k parts))
]

-- An event that does not start a tool call.
abbrev pub only_adds : Event → Bool
only_adds e = not (
    e.event == "content_block_start"
    && is_str (opt_prop "type" (opt_prop "content_block" e.object)) "tool_use")

abbrev pub event_text : ℕ → Event → String
event_text k e = if e.event == "content_block_delta" then text_for k e.object else ""

abbrev pub event_json : ℕ → Event → String
event_json k e = if e.event == "content_block_delta" then json_for k e.object else ""

abbrev pub part_at : ℕ → Assembly → Fields
part_at k a = value_at fresh_part k a.parts

named : (e : Event) (s t : String) → (e.event == s) ≡ true → (e.event == t) ≡ (s == t)
named e s t h = ap (λ u. u == t) ((eq_iff e.event s).0 h)

pub parts-event_step :
    (a : Assembly) (e : Event)
    → (event_step a e).parts ≡ (
        if e.event == "content_block_delta"
        then block_delta a.parts e.object
        else if e.event == "content_block_start"
        then block_start a.parts
            (start_index a.fallback_index e.object).0
            (opt_prop "content_block" e.object)
        else a.parts)
unfolding event_step
parts-event_step a e = elim (Bool-cases (e.event == "message_start")) [
  | inl opens ↦
      rw
        (
          opens,
          named e "message_start" "content_block_delta" opens,
          named e "message_start" "content_block_start" opens,
        )
        (ground arith)
  | inr more ↦ elim (Bool-cases (e.event == "content_block_start")) [
    | inl starts ↦
        rw (more, starts, named e "content_block_start" "content_block_delta" starts) refl
    | inr later ↦ rw (more, later) (ground arith)
  ]
]

value_at-block_start :
    (k j : ℕ) (parts : Keyed ℕ Fields) (block : Value)
    → is_str (opt_prop "type" block) "tool_use" ≡ false
    → value_at fresh_part k (block_start parts j block) ≡ value_at fresh_part k parts
unfolding block_start
value_at-block_start k j parts block h = rw h (
    ground
      (arith, value_at-store fresh_part j k (value_at fresh_part j parts) parts, eq_of_same j k))

event_step-Gains :
    (k : ℕ) (a : Assembly) (e : Event)
    → only_adds e ≡ true
    → Gains (event_text k e) (event_json k e) (part_at k a) (part_at k (event_step a e))
event_step-Gains k a e h = elim (Bool-cases (e.event == "content_block_delta")) [
  | inl adds ↦ rw (parts-event_step a e, adds) (block_delta-Gains k a.parts e.object)
  | inr other ↦ elim (Bool-cases (e.event == "content_block_start")) [
    | inl starts ↦
        rw
          (
            parts-event_step a e,
            other,
            starts,
            value_at-block_start k (start_index a.fallback_index e.object).0 a.parts
                (opt_prop "content_block" e.object) (ground arith),
          )
          (Gains-of_nothing (part_at k a))
    | inr later ↦ rw (parts-event_step a e, other, later) (Gains-of_nothing (part_at k a))
  ]
]

Gains-then :
    {t i t' i' : String} {p q r : Fields}
    → Gains t i p q
    → Gains t' i' q r
    → Gains (cat t t') (cat i i') p r
Gains-then {t' = t'} {i' = i'} g h = record {
  text_now = h.text_now ∙ ap (λ s. cat s t') g.text_now ∙ TextLemmas.append_assoc _ _ t';
  input_now = h.input_now ∙ ap (λ s. cat s i') g.input_now ∙ TextLemmas.append_assoc _ _ i';
}

-- If no event of a list starts a tool call, then each part gains the texts of its
-- own deltas, joined in order, and its input gains their fragments likewise.
pub event_loop-Gains :
    (k : ℕ) (a : Assembly) (es : List Event)
    → all only_adds es ≡ true
    → Gains
        (concat (map (event_text k) es))
        (concat (map (event_json k) es))
        (part_at k a)
        (part_at k (event_loop a es))
unfolding event_loop
event_loop-Gains k a [] h = Gains-of_nothing (part_at k a)
event_loop-Gains k a (e ∷ es) h =
    Gains-then (event_step-Gains k a e (ground arith))
      (event_loop-Gains k (event_step a e) es (ground arith))
