-- ===== src/Responses/Tools.antt =====
-- The tool calls of a stream of the Responses API and their keys.
use ailens.Base.Keyed.Order.{IsCoherent, store-IsCoherent, collect_each}
use ailens.Base.Keyed.{Keyed, lookup, value_at}
use ailens.Base.Outcome.{
  Outcome, done, ◌>>=◌, >>=-eq-done, done-injective, fold, or_type_error, collect,
}
use ailens.Base.{
  ℕ, String, Bool, true, false, ◌&&◌, ◌||◌, List, [], ◌∷◌, ◌==◌, string_has_eq, ℕ_has_eq, map,
  length, if◌then◌else◌, ◌≡◌, refl, subst, inl, inr, Option-cases, arith,
}
use ailens.OpenAi.{ToolCallBuilder, fresh_tool}
use ailens.Responses.{
  Assembly, change_tool, string_of, delta_key, item_change, capture_item, Output, output_step,
  capture_output, capture_object, arguments_delta, arguments_done, add_args, set_args, content_or,
  typed_step, frame_step, packed_call,
}
use ailens.Value.{
  Value, num, str, opt_prop, or_else, truthy, is_object, is_str, is_text, array?, text_of,
}

abbrev Calls : Type 0
Calls = Keyed String ToolCallBuilder

-- `m` gives only what satisfies `P`.
pub record Gives {ℓ κ} {A : Type ℓ} (P : A → Type κ) (m : Outcome A) : Type (ℓ ⊔ κ) where
  pub holds : (a : A) → m ≡ done a → P a

Gives-done {ℓ κ} : {A : Type ℓ} {P : A → Type κ} {a : A} → P a → Gives P (done a)
Gives-done {P = P} p = record { holds = λ b e. subst P (done-injective e) p }

Gives->>= {ℓ κ μ} :
    {A : Type ℓ} {B : Type κ} {P : B → Type μ} (m : Outcome A) {f : A → Outcome B}
    → ((a : A) → m ≡ done a → Gives P (f a))
    → Gives P (m >>= f)
Gives->>= m {f} h = record {
  holds = λ b e. let (a, first, rest) = >>=-eq-done m f e in (h a first).holds b rest;
}

Gives-if {ℓ κ} :
    {A : Type ℓ} {P : A → Type κ} (b : Bool) {m n : Outcome A}
    → Gives P m
    → Gives P n
    → Gives P (if b then m else n)
Gives-if true h k = h
Gives-if false h k = k

change_tool-IsCoherent :
    (key : String) (change : ToolCallBuilder → ToolCallBuilder) (tools : Calls)
    → IsCoherent tools
    → IsCoherent (change_tool key change tools)
unfolding change_tool
change_tool-IsCoherent key change tools c =
    store-IsCoherent key (change (value_at fresh_tool key tools)) tools c

capture_item-IsCoherent :
    (item : Value) (fallback : ℕ) (tools : Calls)
    → IsCoherent tools
    → Gives IsCoherent (capture_item item fallback tools)
unfolding capture_item
capture_item-IsCoherent item fallback tools c =
    Gives-if (is_object item && is_str (opt_prop "type" item) "function_call")
      (Gives->>=
        (string_of
          (or_else (opt_prop "id" item) (or_else (opt_prop "call_id" item) (num fallback))))
        (λ key _.
          Gives->>=
            (if truthy (opt_prop "name" item) then string_of (opt_prop "name" item) else done "")
            (λ name _. Gives-done (change_tool-IsCoherent key (item_change item name) tools c))))
      (Gives-done c)

abbrev CoherentOutput : Output → Type 0
CoherentOutput out = IsCoherent out.tools

abbrev pub Coherent : Assembly → Type 0
Coherent a = IsCoherent a.tools

captured_output :
    (out : Output) (item : Value)
    → CoherentOutput out
    → Gives CoherentOutput
        (capture_item item 0 out.tools >>= λ tools. done (record out { tools = tools }))
captured_output out item c =
    Gives->>= (capture_item item 0 out.tools)
      (λ tools e. Gives-done ((capture_item-IsCoherent item 0 out.tools c).holds tools e))

output_step-Coherent :
    (out : Output) (item : Value) → CoherentOutput out → Gives CoherentOutput (output_step out item)
unfolding output_step
output_step-Coherent out item c = elim (Option-cases (array? (opt_prop "content" item))) [
  | inl missing ↦ rw (output_step, missing) (captured_output out item c)
  | inr (parts, found) ↦
      rw (output_step, found)
        (Gives-if (is_str (opt_prop "type" item) "message") (Gives-done c)
          (captured_output out item c))
]

-- A loop keeps what each round keeps.
pub fold-Gives {ℓ κ μ} :
    {A : Type ℓ} {S : Type κ} {P : S → Type μ} (step : S → A → Outcome S)
    → ((s : S) (x : A) → P s → Gives P (step s x))
    → (xs : List A) (s : S) → P s
    → Gives P (fold step s xs)
fold-Gives step round [] s p = Gives-done p
fold-Gives step round (x ∷ xs) s p =
    Gives->>= (step s x) (λ t e. fold-Gives step round xs t ((round s x p).holds t e))

capture_output-Coherent :
    (a : Assembly) (output : List Value) → Coherent a → Gives Coherent (capture_output a output)
unfolding capture_output
capture_output-Coherent a output c =
    Gives->>= (fold output_step (record { text = []; tools = a.tools }) output)
      (λ out e. Gives-done ((fold-Gives output_step output_step-Coherent output _ c).holds out e))

capture_object-Coherent :
    (a : Assembly) (response : Value) → Coherent a → Gives Coherent (capture_object a response)
unfolding capture_object
capture_object-Coherent a response c =
    let text = opt_prop "output_text" response in
    let b = record a { content = content_or (is_text text) (text_of text) a.content } in
    Gives-if (is_object response)
      (elim (Option-cases (array? (opt_prop "output" response))) [
        | inl missing ↦ rw missing (Gives-done c)
        | inr (output, found) ↦ rw found (capture_output-Coherent b output c)
      ])
      (Gives-done c)

arguments_delta-Coherent :
    (a : Assembly) (object : Value) → Coherent a → Gives Coherent (arguments_delta a object)
unfolding arguments_delta
arguments_delta-Coherent a object c = Gives->>= (delta_key object (length a.tools.order)) (λ key _.
    Gives-done
      (change_tool-IsCoherent key (add_args (text_of (opt_prop "delta" object))) a.tools c))

arguments_done-Coherent :
    (a : Assembly) (object : Value) → Coherent a → Gives Coherent (arguments_done a object)
unfolding arguments_done
arguments_done-Coherent a object c = Gives->>= (delta_key object (length a.tools.order)) (λ key _.
    Gives-if (is_text (opt_prop "arguments" object))
      (Gives-done
        (change_tool-IsCoherent key (set_args (text_of (opt_prop "arguments" object))) a.tools c))
      (Gives-done c))

item_captured :
    (a : Assembly) (item : Value)
    → Coherent a
    → Gives Coherent (
        capture_item item (length a.tools.order) a.tools >>= λ tools.
        done (record a { tools = tools }))
item_captured a item c =
    Gives->>= (capture_item item (length a.tools.order) a.tools)
      (λ tools e. Gives-done ((capture_item-IsCoherent item _ a.tools c).holds tools e))

typed_step-Coherent :
    (typ : String) (a : Assembly) (object : Value)
    → Coherent a
    → Gives Coherent (typed_step typ a object)
unfolding typed_step
typed_step-Coherent typ a object c =
    Gives-if
      ((typ == "response.output_text.delta" || typ == "response.refusal.delta")
        && is_text (opt_prop "delta" object))
      (Gives-done c)
      (Gives-if
        (typ == "response.output_text.done" && a.content == "" && is_text (opt_prop "text" object))
        (Gives-done c)
        (Gives-if (typ == "response.function_call_arguments.delta")
          (arguments_delta-Coherent a object c)
          (Gives-if (typ == "response.function_call_arguments.done")
            (arguments_done-Coherent a object c)
            (Gives-if (typ == "response.output_item.added" || typ == "response.output_item.done")
              (item_captured a (opt_prop "item" object) c)
              (Gives-if
                ((typ == "response.completed" || typ == "response.incomplete")
                  && truthy (opt_prop "response" object))
                (capture_object-Coherent a (opt_prop "response" object) c) (Gives-done c))))))

pub frame_step-Coherent :
    (a : Assembly) (object : Value) → Coherent a → Gives Coherent (frame_step a object)
unfolding frame_step
frame_step-Coherent a object c =
    Gives->>= (string_of (or_else (opt_prop "type" object) (str "")))
      (λ typ _. typed_step-Coherent typ a object c)

pub finished :
    (a : Assembly)
    → IsCoherent a.tools
    → collect
        (λ k. or_type_error (lookup k a.tools.entries) >>= λ tb. done (packed_call tb))
        a.tools.order
      ≡ done (map (λ k. packed_call (value_at fresh_tool k a.tools)) a.tools.order)
unfolding value_at
finished a c = collect_each _ _ a.tools.order (λ k p.
    elim (Option-cases (lookup k a.tools.entries)) [
      | inl missing ↦ ground (arith, c.same_keys k)
      | inr (tb, found) ↦ rw found refl
    ])
