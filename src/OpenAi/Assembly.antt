-- ===== src/OpenAi/Assembly.antt =====
-- What `assembleOpenAIStream` returns, described from the list of all choices of the stream.
use mathlib.Core.List.{flatten}
use ailens.Base.Keyed.Order.{contains, IsCoherent, empty-IsCoherent, fold-IsCoherent, fold-contains}
use ailens.Base.Keyed.{Keyed, empty, lookup, value_at, keyed_step, belongs, fold-value_at}
use ailens.Base.Outcome.{collect, Outcome, done, ◌>>=◌, fold}
use ailens.Base.{
  ℕ, String, ◌≡◌, ◌≢◌, refl, sym, ap₂, same_refl, ◌∙◌, Bool, true, List, [], ◌∷◌, Option, some,
  arith, any, keep, ℕ_has_eq, string_has_eq, if◌then◌else◌, inl, inr, Option-cases,
}
use ailens.OpenAi.Chunks.{stream_choices, assemble_openai_stream-eq-done, read_stream-eq-done}
use ailens.OpenAi.Indices.{Ascending, sort-Ascending, contains-sort}
use ailens.OpenAi.{
  ChoiceBuilder, fresh_choice, index_of, apply_choice, choice_step, sort, is_blank, message_of,
  emit, assemble_openai_stream,
}
use ailens.Value.{Value}

-- Whether a choice carries an index.
abbrev pub has_index : ℕ → Value → Bool
has_index k = belongs fresh_choice index_of apply_choice k

-- What the choices of one index build, in the order in which they arrive.
abbrev pub own_builder : List Value → ℕ → Outcome ChoiceBuilder
own_builder choices k = fold (λ cb c. apply_choice c cb) fresh_choice (keep (has_index k) choices)

-- The message that they make, if they hold anything.
abbrev pub own_messages : List Value → ℕ → Outcome (List Value)
own_messages choices k = own_builder choices k >>= λ cb.
    if is_blank cb then done [] else (message_of cb >>= λ m. done (m ∷ []))

-- `messages` are those of the stream's indices, each once and in ascending order, and the message
-- of an index is made from the choices of that index alone.
pub record IsAssembly (parse : String → Option Value) (raw : String) (messages : List Value)
    : Type 0 where
  pub choices : List Value
  pub indices : List ℕ
  pub emitted : List (List Value)
  pub in_stream : stream_choices parse raw ≡ done choices
  pub ascending : Ascending indices
  pub occurring : (k : ℕ) → contains k indices ≡ any (has_index k) choices
  pub one_each : collect (own_messages choices) indices ≡ done emitted
  pub listed : messages ≡ flatten emitted

collect_ext {ℓ} :
    {B : Type ℓ} (f g : ℕ → Outcome B) (ks : List ℕ)
    → ((k : ℕ) → contains k ks ≡ true → f k ≡ g k)
    → collect f ks ≡ collect g ks
unfolding collect
collect_ext f g [] h = refl
collect_ext {B} f g (k ∷ ks) h =
    ap₂ (λ (m : Outcome B) (n : Outcome (List B)). m >>= λ y. n >>= λ ys. done (y ∷ ys))
      (h k (ground (arith, same_refl k))) (collect_ext f g ks (λ j p. h j (ground arith)))

module _ (choices : List Value) (t : Keyed ℕ ChoiceBuilder)
    (folded : fold choice_step empty choices ≡ done t) where
  looped : fold (keyed_step fresh_choice index_of apply_choice) empty choices ≡ done t
  unfolding choice_step
  looped = folded

  coherent : IsCoherent t
  coherent =
      fold-IsCoherent fresh_choice index_of apply_choice choices empty t empty-IsCoherent looped

  own_builder-eq-done : (k : ℕ) → own_builder choices k ≡ done (value_at fresh_choice k t)
  unfolding value_at
  own_builder-eq-done k = fold-value_at fresh_choice index_of apply_choice k choices empty t looped

  emit-own_messages : (k : ℕ) → contains k t.order ≡ true → emit t k ≡ own_messages choices k
  unfolding emit value_at
  emit-own_messages k h = elim (Option-cases (lookup k t.entries)) [
    | inl missing ↦ ground (arith, coherent.same_keys k)
    | inr (cb, found) ↦ ground (arith, own_builder-eq-done k)
  ]

  order-occurring : (k : ℕ) → contains k (sort t.order) ≡ any (has_index k) choices
  order-occurring k =
      contains-sort k t.order
      ∙ fold-contains fresh_choice index_of apply_choice k choices empty t empty-IsCoherent looped

-- A stream that is not empty and whose assembly does not throw gives the messages of its choices'
-- indices, each index once and in ascending order, and each message is made from the choices of
-- its own index alone, in the order in which they arrive.
pub assemble_openai_stream-IsAssembly :
    (parse : String → Option Value) (raw : String) (messages : List Value)
    → raw ≢ ""
    → assemble_openai_stream parse (some raw) ≡ done messages
    → IsAssembly parse raw messages
assemble_openai_stream-IsAssembly parse raw messages full h =
    let (t, emitted, read, collected, flat) =
      assemble_openai_stream-eq-done parse raw messages full h in
    let (choices, held, folded) = read_stream-eq-done parse raw t read in
    record {
      choices = choices;
      indices = sort t.order;
      emitted = emitted;
      in_stream = held;
      ascending = sort-Ascending t.order (coherent choices t folded).distinct;
      occurring = order-occurring choices t folded;
      one_each =
          sym (
            collect_ext (emit t) (own_messages choices) (sort t.order)
              (λ k p. emit-own_messages choices t folded k (sym (contains-sort k t.order) ∙ p)))
          ∙ collected;
      listed = flat;
    }
