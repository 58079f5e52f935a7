-- ===== src/OpenAi/Total.antt =====
-- When the assembly returns: `null` and undeclared types in chunks, and the builders that `get(idx)!`
-- asks for.
use mathlib.Core.List.{flatten}
use ailens.Base.Keyed.Order.{IsCoherent, contains, collect_total}
use ailens.Base.Keyed.{Keyed, empty, lookup, value_at, value_of}
use ailens.Base.Outcome.{done, ◌>>=◌, fold, fold_total, >>=_of_done}
use ailens.Base.Text.{split_newline}
use ailens.Base.{
  ℕ, String, ◌≡◌, refl, sym, ap, subst, ◌∙◌, Bool, true, ◌&&◌, List, [], ◌∷◌, Option, none, some,
  arith, all, ◌⊎◌, ℕ_has_eq, string_has_eq, ◌==◌, if◌then◌else◌, inl, inr, Bool-cases, Option-cases,
}
use ailens.OpenAi.{
  ChoiceBuilder, ToolCallBuilder, fresh_choice, choice_step, choices_of, payload, line_step,
  read_stream, tool_call, message_of, emit, sort, assemble_openai_stream, is_blank,
}
use ailens.OpenAi.Indices.{contains-sort}
use ailens.OpenAi.Typed.{
  readable, readable-prop, choice_typed, Sound, empty-Sound, choice_step-done,
}
use ailens.Value.{Value, opt_prop, array?}

abbrev pub choices_in : Value → List Value
choices_in chunk = elim (array? (opt_prop "choices" chunk)) [ none ↦ [] | some l ↦ l ]

module _ (parse : String → Option Value) where
  -- A line that sends nothing, or no document, or a chunk that keeps to the declared types.
  abbrev pub line_typed : String → Bool
  line_typed line = elim (payload line) [
    | none ↦ true
    | some text ↦ elim (parse text) [
      | none ↦ true
      | some chunk ↦ readable chunk && all choice_typed (choices_in chunk)
    ]
  ]

  choices_of-done :
      (chunk : Value) → readable chunk ≡ true → choices_of chunk ≡ done (choices_in chunk)
  unfolding choices_of
  choices_of-done chunk h = rw (readable-prop "choices" chunk h)

  line_step_of_chunk :
      (s : Keyed ℕ ChoiceBuilder) (line text : String) (chunk : Value)
      → payload line ≡ some text
      → parse text ≡ some chunk
      → line_step parse s line ≡ (choices_of chunk >>= λ l. fold choice_step s l)
  unfolding line_step
  line_step_of_chunk s line text chunk p q = ground arith

  line_step_skips :
      (s : Keyed ℕ ChoiceBuilder) (line : String)
      → (payload line ≡ none) ⊎ ((text : String) × (payload line ≡ some text) × (parse text ≡ none))
      → line_step parse s line ≡ done s
  unfolding line_step
  line_step_skips s line h = ground arith

  line_step-done :
      (s : Keyed ℕ ChoiceBuilder) (line : String)
      → line_typed line ≡ true
      → Sound s
      → (t : Keyed ℕ ChoiceBuilder) × (line_step parse s line ≡ done t) × Sound t
  line_step-done s line h sound = elim (Option-cases (payload line)) [
    | inl skipped ↦ (s, line_step_skips s line (inl skipped), sound)
    | inr (text, sent) ↦ elim (Option-cases (parse text)) [
      | inl garbled ↦ (s, line_step_skips s line (inr (text, sent, garbled)), sound)
      | inr (chunk, parsed) ↦
          let (t, e, q) =
            fold_total choice_step choice_typed Sound choice_step-done (choices_in chunk) s
              (ground arith) sound in
          (
            t,
            line_step_of_chunk s line text chunk sent parsed
                ∙ >>=_of_done (λ l. fold choice_step s l) (choices_of-done chunk (ground arith))
                ∙ e,
            q,
          )
    ]
  ]

  read_stream-done :
      (raw : String)
      → all line_typed (split_newline raw) ≡ true
      → (t : Keyed ℕ ChoiceBuilder) × (read_stream parse raw ≡ done t) × Sound t
  unfolding read_stream
  read_stream-done raw h =
      fold_total (line_step parse) line_typed Sound line_step-done (split_newline raw) empty h
        empty-Sound

tool_call-done :
    (tools : Keyed ℕ ToolCallBuilder) (k : ℕ)
    → IsCoherent tools
    → contains k tools.order ≡ true
    → (v : Value) × (tool_call tools k ≡ done v)
unfolding tool_call
tool_call-done tools k c h = elim (Option-cases (lookup k tools.entries)) [
  | inl missing ↦ ground (arith, c.same_keys k)
  | inr (tb, found) ↦ rw found (_, refl)
]

message_of-done :
    (cb : ChoiceBuilder) → IsCoherent cb.tools → (v : Value) × (message_of cb ≡ done v)
unfolding message_of
message_of-done cb c =
    let (calls, e) =
      collect_total (tool_call cb.tools) cb.tools.order (λ k h. tool_call-done cb.tools k c h) in
    (_, >>=_of_done _ e)

packed-done :
    (cb : ChoiceBuilder)
    → IsCoherent cb.tools
    → (ms : List Value) × ((if is_blank cb then done [] else (message_of cb >>= λ m. done (m ∷ [])))
        ≡ done ms)
packed-done cb c = elim (Bool-cases (is_blank cb)) [
  | inl blank ↦ ([], rw blank)
  | inr full ↦
      let (m, e) = message_of-done cb c in (m ∷ [], rw full (>>=_of_done (λ m. done (m ∷ [])) e))
]

emit-done :
    (s : Keyed ℕ ChoiceBuilder) (k : ℕ)
    → Sound s
    → contains k s.order ≡ true
    → (ms : List Value) × (emit s k ≡ done ms)
unfolding emit value_at
emit-done s k sound h = elim (Option-cases (lookup k s.entries)) [
  | inl missing ↦ ground (arith, sound.coherent.same_keys k)
  | inr (cb, found) ↦
      let same = ap (value_of fresh_choice) found in
      rw found
        (packed-done cb (subst (λ (c : ChoiceBuilder). IsCoherent c.tools) same (sound.tools k)))
]

-- If each line of a stream sends nothing, no JSON document, or a chunk that keeps to the declared
-- types, then the assembly returns a list of messages.
pub assemble_openai_stream-done :
    (parse : String → Option Value) (raw : String)
    → all (line_typed parse) (split_newline raw) ≡ true
    → (messages : List Value) × (assemble_openai_stream parse (some raw) ≡ done messages)
unfolding assemble_openai_stream
assemble_openai_stream-done parse raw h = elim (Bool-cases (raw == "")) [
  | inl nothing ↦ ([], rw nothing)
  | inr full ↦
      let (t, e, sound) = read_stream-done parse raw h in
      let (ms, f) =
        collect_total (emit t) (sort t.order)
          (λ k p. emit-done t k sound (sym (contains-sort k t.order) ∙ p)) in
      (flatten ms, rw full (>>=_of_done _ e ∙ >>=_of_done _ f))
]
