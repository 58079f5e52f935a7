-- ===== src/Stream/Printed.antt =====
-- What `assembleStream` makes of a body that a server prints, from the text to the message.
use ailens.Anthropic.Blocks.Message.{assemble_anthropic_stream_of_blocks}
use ailens.Anthropic.Blocks.{seen, is_read, message_events, message_of_blocks, Block as Content}
use ailens.Anthropic.{Event, assemble_anthropic_stream}
use ailens.Base.Outcome.{done}
use ailens.Base.Text.{concat, starts_with}
use ailens.Base.{
  String, true, false, List, [], ◌∷◌, Option, some, any, all, All, map, is_nil, keep, string_has_eq,
  ◌≡◌, ◌≢◌, refl, ap, ◌∙◌, arith, inl, inr, Bool-cases,
}
use ailens.Responses.Texts.{is_delta, delta_text, assemble_responses_stream_of_deltas, is_str-eq}
use ailens.Responses.{assemble_responses_stream}
use ailens.Sse.Blocks.{Block, IsBlock, all_lines, frame_of}
use ailens.Sse.Blocks.RoundTrip.{OneLine, text_of, parse_sse-text_of}
use ailens.Sse.{Frame, parse_sse}
use ailens.Stream.{objects_of, is_response, is_anthropic, assemble_stream, dispatch}
use ailens.Value.{Value, Fields, field, end, obj, str, opt_prop, is_str}

-- An event as it is printed, and the object that its data stands for.
pub record Sent : Type 0 where
  pub block : Block
  pub object : Fields

abbrev pub blocks : List Sent → List Block
blocks sent = map (λ (s : Sent). s.block) sent

abbrev pub event_of : Sent → Event
event_of s = record { event = (frame_of s.block).event; object = obj s.object }

abbrev pub printed : List Sent → Option String
printed sent = some (text_of (all_lines (blocks sent)))

-- The objects that the frames carry.
abbrev pub objects : List Sent → List Value
objects sent = map (λ (e : Event). e.object) (map event_of sent)

-- Each event is one that a server may print, and its data is the object's text.
pub record IsSent (parse : String → Option Value) (s : Sent) : Type 0 where
  pub block : IsBlock s.block
  pub one_line : OneLine s.block
  pub carries : parse (frame_of s.block).text ≡ some (obj s.object)

All-map {ℓ κ μ ν} :
    {A : Type ℓ} {B : Type κ} {P : A → Type μ} (Q : B → Type ν) (f : A → B)
    → ((x : A) → P x → Q (f x))
    → (xs : List A) → All P xs
    → All Q (map f xs)
All-map Q f h [] p = tt
All-map Q f h (x ∷ xs) (p, ps) = (h x p, All-map Q f h xs ps)

is_response-of_delta : (e : Event) → is_delta e.object ≡ true → is_response e ≡ true
unfolding starts_with
is_response-of_delta e h =
    elim (Bool-cases (is_str (opt_prop "type" e.object) "response.output_text.delta")) [
      | inl text ↦
          rw (is_response, is_str-eq (opt_prop "type" e.object) "response.output_text.delta" text)
            refl
      | inr other ↦
          rw
            (
              is_response,
              is_str-eq (opt_prop "type" e.object) "response.refusal.delta" (ground arith),
            )
            refl
    ]

module _ (parse : String → Option Value) where
  parse_sse-printed :
      (sent : List Sent)
      → All (IsSent parse) sent
      → parse_sse (printed sent) ≡ map frame_of (blocks sent)
  parse_sse-printed sent h =
      parse_sse-text_of (blocks sent)
        (All-map IsBlock (λ (s : Sent). s.block) (λ s p. p.block) sent h)
        (All-map OneLine (λ (s : Sent). s.block) (λ s p. p.one_line) sent h)

  objects_of-sent :
      (sent : List Sent)
      → All (IsSent parse) sent
      → objects_of parse (map frame_of (blocks sent)) ≡ map event_of sent
  unfolding objects_of
  objects_of-sent [] h = refl
  objects_of-sent (s ∷ sent) (p, h) =
      rw (objects_of, p.carries) (ap (λ es. event_of s ∷ es) (objects_of-sent sent h))

  assemble_stream-printed :
      (sent : List Sent)
      → All (IsSent parse) sent
      → assemble_stream parse (printed sent)
        ≡ dispatch parse (printed sent) (map frame_of (blocks sent)) (map event_of sent)
  unfolding assemble_stream
  assemble_stream-printed sent h =
      ap (λ frames. dispatch parse (printed sent) frames (objects_of parse frames))
        (parse_sse-printed sent h)
      ∙ ap (dispatch parse (printed sent) (map frame_of (blocks sent))) (objects_of-sent sent h)

  dispatch_of_responses :
      (raw : Option String) (frames : List Frame) (events : List Event)
      → is_nil frames ≡ false
      → any is_response events ≡ true
      → dispatch parse raw frames events
        ≡ assemble_responses_stream (map (λ (e : Event). e.object) events)
  unfolding dispatch
  dispatch_of_responses raw frames events full h = rw (full, h) refl

  dispatch_of_message :
      (raw : Option String) (frames : List Frame) (events : List Event)
      → any is_response events ≡ false
      → any is_anthropic frames ≡ true
      → dispatch parse raw frames events ≡ assemble_anthropic_stream events
  unfolding dispatch
  dispatch_of_message raw [] events other h = cc
  dispatch_of_message raw (f ∷ frames) events other h = rw (other, h) refl

  -- If a server prints events each of which adds a piece of text, the Responses API's way, and the
  -- pieces are not all empty, then the body is shown as one message: the pieces joined in order.
  pub assemble_stream-printed_deltas :
      (sent : List Sent)
      → All (IsSent parse) sent
      → all is_delta (objects sent) ≡ true
      → concat (map delta_text (objects sent)) ≢ ""
      → assemble_stream parse (printed sent)
        ≡ done (
            obj (
              field "role"
                (str "assistant")
                (field "content" (str (concat (map delta_text (objects sent)))) end))
            ∷ [])
  assemble_stream-printed_deltas [] h deltas full = absurd (full refl)
  assemble_stream-printed_deltas (s ∷ sent) h deltas full =
      assemble_stream-printed (s ∷ sent) h
      ∙ dispatch_of_responses (printed (s ∷ sent)) _ (map event_of (s ∷ sent)) refl
          (ground (arith, is_response-of_delta (event_of s)))
      ∙ assemble_responses_stream_of_deltas (objects (s ∷ sent)) deltas full

  -- If a server prints events, none of them of the Responses API, and those that the assembly reads
  -- are, but for fields that it does not read, the events of an Anthropic message with all of its blocks, then the body is shown as that message: each text that
  -- is not empty and each tool call, in order, with its pieces joined.
  pub assemble_stream-printed_message :
      (sent : List Sent) (role : String) (bs : List Content)
      → All (IsSent parse) sent
      → any is_response (map event_of sent) ≡ false
      → any is_anthropic (map frame_of (blocks sent)) ≡ true
      → role ≢ ""
      → map seen (keep is_read (map event_of sent)) ≡ map seen (message_events role bs)
      → assemble_stream parse (printed sent) ≡ done (message_of_blocks role bs)
  assemble_stream-printed_message sent role bs h other message full events =
      assemble_stream-printed sent h
      ∙ dispatch_of_message (printed sent) _ (map event_of sent) other message
      ∙ assemble_anthropic_stream_of_blocks role bs (map event_of sent) full events
