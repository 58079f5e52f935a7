-- ===== src/OpenAi/Failure.antt =====
-- When the assembly throws: `Array.isArray(chunk.choices)` reads a property of what the payload
-- parses to, and `null` is a JSON document.
use ailens.Base.Keyed.{Keyed, empty}
use ailens.Base.Outcome.{done, type_error, fold, >>=-eq-done}
use ailens.Base.Text.{split_newline}
use ailens.Base.{
  ℕ, String, ◌≡◌, ◌≢◌, Bool, true, false, List, [], ◌∷◌, Option, none, some, arith, any,
}
use ailens.OpenAi.Chunks.{assemble_openai_stream-eq-done}
use ailens.OpenAi.{
  ChoiceBuilder, payload, choices_of, line_step, read_stream, assemble_openai_stream,
}
use ailens.Value.{Value, null}

abbrev pub is_null : Value → Bool
is_null null = true
is_null _ = false

module _ (parse : String → Option Value) where
  -- Whether a line sends the document `null`.
  abbrev pub sends_null : String → Bool
  sends_null line = elim (payload line) [
    | none ↦ false
    | some text ↦ elim (parse text) [ none ↦ false | some v ↦ is_null v ]
  ]

  line_step_of_null :
      (line : String) (s : Keyed ℕ ChoiceBuilder)
      → sends_null line ≡ true
      → line_step parse s line ≡ type_error
  unfolding line_step choices_of
  line_step_of_null line s h = ground arith

  fold_of_null :
      (lines : List String) (s t : Keyed ℕ ChoiceBuilder)
      → any sends_null lines ≡ true
      → fold (line_step parse) s lines ≢ done t
  fold_of_null [] s t h e = cc
  fold_of_null (line ∷ lines) s t h e =
      let (u, first, later) =
        >>=-eq-done (line_step parse s line) (λ u. fold (line_step parse) u lines) e in
      ground (arith, line_step_of_null line s, fold_of_null lines u t)

  -- A stream with a line that sends `null` is not assembled: no list of messages is returned.
  pub assemble_openai_stream_of_null :
      (raw : String) (messages : List Value)
      → raw ≢ ""
      → any sends_null (split_newline raw) ≡ true
      → assemble_openai_stream parse (some raw) ≢ done messages
  unfolding read_stream
  assemble_openai_stream_of_null raw messages full h e =
      let (t, _, read, _, _) = assemble_openai_stream-eq-done parse raw messages full e in
      fold_of_null (split_newline raw) empty t h read
