-- ===== src/Anthropic/Blocks/Message.antt =====
-- What `assembleAnthropicStream` makes of the events of a message.
use text.Mathlib.TextEquality.{eq_iff}
use ailens.Base.Keyed.Order.{SameKeys}
use ailens.Base.Keyed.{lookup, value_at}
use ailens.Base.Outcome.{done}
use ailens.Base.{
  String, Bool, List, [], ◌∷◌, string_has_eq, ℕ_has_eq, keep, map, ◌≡◌, ◌≢◌, refl, sym, ap, subst,
  ◌∙◌, arith,
}
use ailens.Anthropic.{
  Event, Assembly, event_step, event_loop, assemble_anthropic_stream, opening, pack, is_shown,
  finish,
}
use ailens.Anthropic.Message.{finish-eq, event_loop-SameKeys}
use ailens.Value.{str}
use ailens.Anthropic.Blocks.{
  seen, Block, text_block, tool_block, cut_call, blocks_events, opens, message_events, is_read,
  part_of, has_content, message_of_shown, message_of_blocks,
}
use ailens.Anthropic.Blocks.States.{
  put_at_all, event_loop-keep, event_loop-seen, event_loop_of_blocks, part_in, part_in-put_all,
}

pack-part_of :
    (role : String) (bs : List Block) → pack (str role) (map part_of bs) ≡ message_of_shown role bs
pack-part_of role [] = refl
pack-part_of role (text_block ts ∷ []) = refl
pack-part_of role (tool_block id name ts ∷ []) = refl
pack-part_of role (cut_call t ts ∷ []) = refl
pack-part_of role (cut_call t ts ∷ (c ∷ bs)) = refl
pack-part_of role (text_block ts ∷ (c ∷ bs)) = refl
pack-part_of role (tool_block id name ts ∷ (c ∷ bs)) = refl

is_shown-part_of : (b : Block) → is_shown (part_of b) ≡ has_content b
is_shown-part_of (text_block ts) = refl
is_shown-part_of (tool_block id name ts) = refl
is_shown-part_of (cut_call t ts) = refl

keep-map {ℓ κ} :
    {A : Type ℓ} {B : Type κ} (f : A → B) (p : B → Bool) (q : A → Bool)
    → ((x : A) → p (f x) ≡ q x)
    → (xs : List A) → keep p (map f xs) ≡ map f (keep q xs)
keep-map f p q h [] = refl
keep-map f p q h (x ∷ xs) = ground (arith, h x, keep-map f p q h xs)

-- The state behind a message's events.
last_state : String → List Block → Assembly
last_state role bs = put_at_all (record opening { role = str role }) 0 (map part_of bs)

event_step_of_opening :
    (role : String)
    → role ≢ ""
    → event_step opening (opens role) ≡ record opening { role = str role }
unfolding event_step
event_step_of_opening role full = ground (arith, eq_iff role "")

event_loop_of_message :
    (role : String) (bs : List Block)
    → role ≢ ""
    → event_loop opening (message_events role bs) ≡ last_state role bs
unfolding event_loop last_state lookup
event_loop_of_message role bs full =
    ap (λ a. event_loop a (blocks_events 0 bs)) (event_step_of_opening role full)
    ∙ event_loop_of_blocks (record opening { role = str role }) 0 bs (λ j h. refl)

finish-last_state :
    (role : String) (bs : List Block)
    → SameKeys (last_state role bs).parts
    → finish (last_state role bs) ≡ done (message_of_blocks role bs)
unfolding last_state put_at_all part_in value_at
finish-last_state role bs same =
    finish-eq (last_state role bs) same
    ∙ ap (λ ps. done (pack (str role) (keep is_shown ps))) (part_in-put_all 0 (map part_of bs) [])
    ∙ ap (λ ps. done (pack (str role) ps))
        (keep-map part_of is_shown has_content is_shown-part_of bs)
    ∙ ap done (pack-part_of role (keep has_content bs))

pub assemble_anthropic_stream_of_blocks :
    (role : String) (bs : List Block) (events : List Event)
    → role ≢ ""
    → map seen (keep is_read events) ≡ map seen (message_events role bs)
    → assemble_anthropic_stream events ≡ done (message_of_blocks role bs)
unfolding assemble_anthropic_stream
assemble_anthropic_stream_of_blocks role bs events full h =
    let last = event_loop_of_message role bs full in
    let same : event_loop opening (keep is_read events)
        ≡ event_loop opening (message_events role bs) =
      sym (event_loop-seen opening (keep is_read events))
      ∙ ap (event_loop opening) h
      ∙ event_loop-seen opening (message_events role bs) in
    ap finish (sym (event_loop-keep opening events) ∙ same ∙ last)
    ∙ finish-last_state role bs (
        subst (λ (a : Assembly). SameKeys a.parts) last
          (event_loop-SameKeys opening (message_events role bs) (λ k. refl)))
