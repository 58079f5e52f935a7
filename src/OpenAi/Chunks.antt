-- ===== src/OpenAi/Chunks.antt =====
-- The stream read as one list of choices: the loops over lines and over the choices of a chunk
-- are one loop over all choices, in the order in which they arrive.
use mathlib.Core.List.{flatten}
use mathlib.Core.Path.{fun_ext}
use text.Mathlib.TextEquality.{eq_iff}
use ailens.Base.Keyed.{Keyed, empty}
use ailens.Base.Outcome.{
  collect, Outcome, done, ◌>>=◌, fold, >>=_assoc, >>=-eq-done, done-injective,
}
use ailens.Base.Text.{split_newline}
use ailens.Base.{
  ℕ, String, ◌≡◌, refl, sym, ap, ◌∙◌, inl, inr, Option-cases, ◌≢◌, List, [], ◌∷◌, ◌++◌, Option,
  none, some, arith,
}
use ailens.OpenAi.{
  ChoiceBuilder, payload, choices_of, choice_step, line_step, read_stream, emit, sort,
  assemble_openai_stream,
}
use ailens.Value.{Value}

pub fold-append {ℓ κ} :
    {A : Type ℓ} {S : Type κ} (step : S → A → Outcome S) (s : S) (xs ys : List A)
    → fold step s (xs ++ ys) ≡ (fold step s xs >>= λ t. fold step t ys)
fold-append step s [] ys = refl
fold-append step s (x ∷ xs) ys =
    ap (◌>>=◌ (step s x)) (fun_ext λ t. fold-append step t xs ys) ∙ sym (>>=_assoc (step s x) _ _)

module _ (parse : String → Option Value) where
  -- The choices that one line holds.
  pub line_choices : String → Outcome (List Value)
  line_choices line = elim (payload line) [
    | none ↦ done []
    | some text ↦ elim (parse text) [ none ↦ done [] | some chunk ↦ choices_of chunk ]
  ]

  -- Those of the whole stream.
  pub stream_choices : String → Outcome (List Value)
  stream_choices raw = collect line_choices (split_newline raw) >>= λ l. done (flatten l)

  line_step-eq-done :
      (line : String) (s t : Keyed ℕ ChoiceBuilder)
      → line_step parse s line ≡ done t
      → (l : List Value) × (line_choices line ≡ done l) × (fold choice_step s l ≡ done t)
  unfolding line_step line_choices
  line_step-eq-done line s t h = elim (Option-cases (payload line)) [
    | inl skipped ↦ ([], ground arith, ground arith)
    | inr (text, sent) ↦ elim (Option-cases (parse text)) [
      | inl garbled ↦ ([], ground arith, ground arith)
      | inr (chunk, parsed) ↦
          let looped : choices_of chunk >>= (λ l. fold choice_step s l) ≡ done t = ground arith in
          let (l, held, folded) =
            >>=-eq-done (choices_of chunk) (λ l. fold choice_step s l) looped in
          (l, ground arith, folded)
    ]
  ]

  lines-eq-done :
      (lines : List String) (s t : Keyed ℕ ChoiceBuilder)
      → fold (line_step parse) s lines ≡ done t
      → (ls : List (List Value)) × (collect line_choices lines ≡ done ls)
        × (fold choice_step s (flatten ls) ≡ done t)
  unfolding collect flatten
  lines-eq-done [] s t h = ([], refl, h)
  lines-eq-done (line ∷ lines) s t h =
      let (u, first, later) =
        >>=-eq-done (line_step parse s line) (λ u. fold (line_step parse) u lines) h in
      let (l, held, folded) = line_step-eq-done line s u first in
      let (ls, rest, on) = lines-eq-done lines u t later in
      let joined =
        fold-append choice_step s l (flatten ls)
        ∙ ap (λ m. m >>= λ v. fold choice_step v (flatten ls)) folded
        ∙ on in
      (l ∷ ls, rw (held, rest), joined)

  -- Whatever the loop over the lines builds is built by one loop over all choices.
  pub read_stream-eq-done :
      (raw : String) (t : Keyed ℕ ChoiceBuilder)
      → read_stream parse raw ≡ done t
      → (l : List Value) × (stream_choices raw ≡ done l) × (fold choice_step empty l ≡ done t)
  unfolding read_stream stream_choices
  read_stream-eq-done raw t h =
      let (ls, held, folded) = lines-eq-done (split_newline raw) empty t h in
      (flatten ls, rw held, folded)

-- The two halves of an assembly that does not throw.
pub assemble_openai_stream-eq-done :
    (parse : String → Option Value) (raw : String) (messages : List Value)
    → raw ≢ ""
    → assemble_openai_stream parse (some raw) ≡ done messages
    → (t : Keyed ℕ ChoiceBuilder) × (emitted : List (List Value)) × (read_stream parse raw ≡ done t)
      × (collect (emit t) (sort t.order) ≡ done emitted)
      × (messages ≡ flatten emitted)
unfolding assemble_openai_stream
assemble_openai_stream-eq-done parse raw messages full h =
    let run : (read_stream parse raw >>= λ t.
    collect (emit t) (sort t.order) >>= λ ms. done (flatten ms))
        ≡ done messages =
      ground (arith, eq_iff raw "") in
    let (t, read, rest) = >>=-eq-done (read_stream parse raw) _ run in
    let (emitted, collected, flat) = >>=-eq-done (collect (emit t) (sort t.order)) _ rest in
    (t, emitted, read, collected, sym (done-injective flat))
