-- ===== src/Responses/Texts.antt =====
-- The text of a stream of the Responses API.
use text.Mathlib.TextEquality.{eq_iff}
use text.Mathlib.TextLemmas
use ailens.Base.Outcome.{Outcome, done, >>=_of_done, fold, collect}
use ailens.Base.Text.{concat}
use ailens.Base.{
  String, Bool, true, false, ◌&&◌, ◌||◌, List, [], ◌∷◌, ◌==◌, string_has_eq, map, all, ◌≡◌, ◌≢◌,
  refl, sym, ap, ◌∙◌, inl, inr, Bool-cases, arith,
}
use ailens.Responses.{
  Assembly, cat, string_of, typed_step, frame_step, packed, opening, assemble_responses_stream,
}
use ailens.Value.{Value, str, obj, field, end, opt_prop, is_str, is_text, text_of}

-- An event that adds a piece of text or of a refusal.
abbrev pub is_delta : Value → Bool
is_delta object =
    (is_str (opt_prop "type" object) "response.output_text.delta"
      || is_str (opt_prop "type" object) "response.refusal.delta")
    && is_text (opt_prop "delta" object)

abbrev pub delta_text : Value → String
delta_text object = text_of (opt_prop "delta" object)

pub is_str-eq : (v : Value) (s : String) → is_str v s ≡ true → v ≡ str s
is_str-eq (str t) s h = ap str ((eq_iff t s).0 h)
is_str-eq _ s h = cc

typed_step_of_delta :
    (a : Assembly) (object : Value) (typ : String)
    → (typ == "response.output_text.delta" || typ == "response.refusal.delta") ≡ true
    → is_text (opt_prop "delta" object) ≡ true
    → typed_step typ a object ≡ done (record a { content = cat a.content (delta_text object) })
unfolding typed_step
typed_step_of_delta a object typ h k = rw (h, k) refl

frame_step_of_type :
    (a : Assembly) (object : Value) (typ : String)
    → opt_prop "type" object ≡ str typ
    → (typ == "") ≡ false
    → frame_step a object ≡ typed_step typ a object
unfolding frame_step string_of
frame_step_of_type a object typ e full = rw (e, full) refl

frame_step_of_delta :
    (a : Assembly) (object : Value)
    → is_delta object ≡ true
    → frame_step a object ≡ done (record a { content = cat a.content (delta_text object) })
frame_step_of_delta a object h =
    elim (Bool-cases (is_str (opt_prop "type" object) "response.output_text.delta")) [
      | inl text ↦
          frame_step_of_type a object "response.output_text.delta" (is_str-eq _ _ text) refl
          ∙ typed_step_of_delta a object "response.output_text.delta" refl (ground arith)
      | inr other ↦
          frame_step_of_type a object "response.refusal.delta" (is_str-eq _ _ (ground arith)) refl
          ∙ typed_step_of_delta a object "response.refusal.delta" refl (ground arith)
    ]

fold_of_deltas :
    (a : Assembly) (objects : List Value)
    → all is_delta objects ≡ true
    → fold frame_step a objects
      ≡ done (record a { content = cat a.content (concat (map delta_text objects)) })
fold_of_deltas a [] h =
    ap (λ t. done (record a { content = t })) (sym (TextLemmas.append-nil a.content))
fold_of_deltas a (object ∷ objects) h =
    >>=_of_done (λ b. fold frame_step b objects) (frame_step_of_delta a object (ground arith))
    ∙ fold_of_deltas (record a { content = cat a.content (delta_text object) }) objects
        (ground arith)
    ∙ ap (λ t. done (record a { content = t })) (TextLemmas.append_assoc a.content _ _)

packed_of_text :
    (t : String)
    → t ≢ ""
    → ◌≡◌ {A = Outcome (List Value)}
        (done (packed (record opening { content = t }) []))
        (done (obj (field "role" (str "assistant") (field "content" (str t) end)) ∷ []))
unfolding packed
packed_of_text t full =
    let some_text : (t == "") ≡ false = ground (arith, eq_iff t "", full) in rw some_text refl

-- If each event adds a piece of text and the pieces are not all empty, then the stream gives one
-- message, whose content is the pieces joined in order.
pub assemble_responses_stream_of_deltas :
    (objects : List Value)
    → all is_delta objects ≡ true
    → concat (map delta_text objects) ≢ ""
    → assemble_responses_stream objects
      ≡ done (
          obj (
            field "role"
              (str "assistant")
              (field "content" (str (concat (map delta_text objects))) end))
          ∷ [])
unfolding assemble_responses_stream packed collect
assemble_responses_stream_of_deltas objects h full =
    >>=_of_done _ (
      fold_of_deltas opening objects h
      ∙ ap (λ t. done (record opening { content = t })) (TextLemmas.nil-append _))
    ∙ packed_of_text (concat (map delta_text objects)) full
