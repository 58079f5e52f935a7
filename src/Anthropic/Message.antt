-- ===== src/Anthropic/Message.antt =====
-- The message that `assembleAnthropicStream` returns.
use text.Mathlib.TextLemmas
use ailens.Base.Keyed.Order.{
  IsCoherent, SameKeys, contains, Distinct, SameKeys-store, store-IsCoherent, empty-IsCoherent,
  contains-concat, collect_each,
}
use ailens.Base.Keyed.{Keyed, lookup, lookup-put, store, value_at}
use ailens.Base.Outcome.{done, or_type_error, >>=_of_done}
use ailens.Base.Text.{concat}
use ailens.Base.{
  ℕ, String, true, false, List, [], ◌∷◌, Option, none, some, ◌==◌, string_has_eq, ℕ_has_eq, all,
  map, length, ◌≤◌, keep, ◌≡◌, refl, sym, ap, ap₂, subst, ◌∙◌, arith, inl, inr, Bool-cases,
  Option-cases,
}
use ailens.Anthropic.{
  Event, Assembly, fresh_part, block_delta, block_start, change_part, delta_change, delta_index,
  start_index, event_step, event_loop, finish, assemble_anthropic_stream, opening, pack, is_shown,
  tool_part,
}
use ailens.Anthropic.Parts.{
  only_adds, event_text, event_json, part_at, part_text, part_input, Gains, event_loop-Gains,
  parts-event_step,
}
use ailens.Value.{Value, Fields, opt_prop, is_str}

change_part-SameKeys :
    (change : Option (Fields → Fields)) (j : ℕ) (parts : Keyed ℕ Fields)
    → SameKeys parts
    → SameKeys (change_part change j parts)
unfolding store
change_part-SameKeys none j parts h = h
change_part-SameKeys (some change) j parts h =
    λ k. SameKeys-store j k (change (value_at fresh_part j parts)) parts h

block_start-SameKeys :
    (parts : Keyed ℕ Fields) (j : ℕ) (block : Value)
    → SameKeys parts
    → SameKeys (block_start parts j block)
unfolding block_start
block_start-SameKeys parts j block h k =
    elim (Bool-cases (is_str (opt_prop "type" block) "tool_use")) [
      | inl tool ↦ rw tool (
          contains-concat k j parts.order
          ∙ ground (arith, h k, lookup-put j k (tool_part block) parts.entries))
      | inr other ↦ rw other (SameKeys-store j k (value_at fresh_part j parts) parts h)
    ]

event_step-SameKeys :
    (a : Assembly) (e : Event) → SameKeys a.parts → SameKeys (event_step a e).parts
unfolding block_delta
event_step-SameKeys a e h =
    subst SameKeys (sym (parts-event_step a e))
      (elim (Bool-cases (e.event == "content_block_delta")) [
        | inl adds ↦ rw adds (
            change_part-SameKeys (delta_change (opt_prop "delta" e.object)) (delta_index e.object)
              a.parts h)
        | inr other ↦ elim (Bool-cases (e.event == "content_block_start")) [
          | inl starts ↦
              rw (other, starts)
                (block_start-SameKeys a.parts (start_index a.fallback_index e.object).0
                  (opt_prop "content_block" e.object) h)
          | inr later ↦ rw (other, later) h
        ]
      ])

pub event_loop-SameKeys :
    (a : Assembly) (es : List Event) → SameKeys a.parts → SameKeys (event_loop a es).parts
unfolding event_loop
event_loop-SameKeys a [] h = h
event_loop-SameKeys a (e ∷ es) h =
    event_loop-SameKeys (event_step a e) es (event_step-SameKeys a e h)

listed_part :
    (a : Assembly)
    → SameKeys a.parts
    → (k : ℕ) → contains k a.parts.order ≡ true
    → or_type_error (lookup k a.parts.entries) ≡ done (part_at k a)
unfolding value_at
listed_part a h k p = elim (Option-cases (lookup k a.parts.entries)) [
  | inl missing ↦ ground (arith, h k)
  | inr (part, found) ↦ rw found refl
]

pub finish-eq :
    (a : Assembly)
    → SameKeys a.parts
    → finish a ≡ done (pack a.role (keep is_shown (map (λ k. part_at k a) a.parts.order)))
unfolding finish
finish-eq a h = >>=_of_done _ (
    collect_each (λ k. or_type_error (lookup k a.parts.entries)) (λ k. part_at k a) a.parts.order
      (listed_part a h))

unlisted_part :
    (a : Assembly)
    → SameKeys a.parts
    → (k : ℕ) → contains k a.parts.order ≡ false
    → part_at k a ≡ fresh_part
unfolding value_at
unlisted_part a h k out = elim (Option-cases (lookup k a.parts.entries)) [
  | inl missing ↦ rw missing refl
  | inr (part, found) ↦ ground (arith, h k)
]

Gains-nothing :
    {text input : String} {part : Fields}
    → Gains text input fresh_part part
    → part ≡ fresh_part
    → (text ≡ "") × (input ≡ "")
Gains-nothing {text} {input} g same = (
  sym (TextLemmas.nil-append text) ∙ sym g.text_now ∙ ap part_text same,
  sym (TextLemmas.nil-append input) ∙ sym g.input_now ∙ ap part_input same,
)

map-map_ext {ℓ κ μ} :
    {A : Type ℓ} {B : Type κ} {C : Type μ} (f : B → C) (g : A → B) (h : A → C)
    → ((x : A) → f (g x) ≡ h x)
    → (xs : List A) → map f (map g xs) ≡ map h xs
map-map_ext f g h e [] = refl
map-map_ext f g h e (x ∷ xs) = ap₂ (λ y ys. y ∷ ys) (e x) (map-map_ext f g h e xs)

pack-AtMostOne : (role : Value) (shown : List Fields) → length (pack role shown) ≤ 1
pack-AtMostOne role [] = omega arith
pack-AtMostOne role (part ∷ more) = omega arith

-- What a stream makes of the parts `indices`, which all its texts and fragments belong to.
pub record IsMessage (events : List Event) (messages : List Value) : Type 0 where
  pub role : Value
  pub indices : List ℕ
  pub parts : List Fields
  pub distinct : Distinct indices
  pub texts : map part_text parts ≡ map (λ k. concat (map (event_text k) events)) indices
  pub inputs : map part_input parts ≡ map (λ k. concat (map (event_json k) events)) indices
  pub complete :
      (k : ℕ)
      → contains k indices ≡ false
      → (concat (map (event_text k) events) ≡ "") × (concat (map (event_json k) events) ≡ "")
  pub packed : messages ≡ pack role (keep is_shown parts)

change_part-IsCoherent :
    (change : Option (Fields → Fields)) (j : ℕ) (parts : Keyed ℕ Fields)
    → IsCoherent parts
    → IsCoherent (change_part change j parts)
change_part-IsCoherent none j parts h = h
change_part-IsCoherent (some change) j parts h =
    store-IsCoherent j (change (value_at fresh_part j parts)) parts h

block_start-IsCoherent :
    (parts : Keyed ℕ Fields) (j : ℕ) (block : Value)
    → is_str (opt_prop "type" block) "tool_use" ≡ false
    → IsCoherent parts
    → IsCoherent (block_start parts j block)
unfolding block_start
block_start-IsCoherent parts j block other h =
    rw other (store-IsCoherent j (value_at fresh_part j parts) parts h)

event_step-IsCoherent :
    (a : Assembly) (e : Event)
    → only_adds e ≡ true
    → IsCoherent a.parts
    → IsCoherent (event_step a e).parts
unfolding block_delta
event_step-IsCoherent a e adds_only h =
    subst IsCoherent (sym (parts-event_step a e))
      (elim (Bool-cases (e.event == "content_block_delta")) [
        | inl adds ↦ rw adds (
            change_part-IsCoherent (delta_change (opt_prop "delta" e.object)) (delta_index e.object)
              a.parts h)
        | inr other ↦ elim (Bool-cases (e.event == "content_block_start")) [
          | inl starts ↦
              rw (other, starts)
                (block_start-IsCoherent a.parts (start_index a.fallback_index e.object).0
                  (opt_prop "content_block" e.object) (ground arith) h)
          | inr later ↦ rw (other, later) h
        ]
      ])

event_loop-IsCoherent :
    (a : Assembly) (es : List Event)
    → all only_adds es ≡ true
    → IsCoherent a.parts
    → IsCoherent (event_loop a es).parts
unfolding event_loop
event_loop-IsCoherent a [] adds h = h
event_loop-IsCoherent a (e ∷ es) adds h =
    event_loop-IsCoherent (event_step a e) es (ground arith)
      (event_step-IsCoherent a e (ground arith) h)

-- The assembly returns, whatever the events are, and gives one message at most.
pub assemble_anthropic_stream-done :
    (events : List Event)
    → (messages : List Value) × (assemble_anthropic_stream events ≡ done messages)
      × (length messages ≤ 1)
unfolding assemble_anthropic_stream
assemble_anthropic_stream-done events =
    let last = event_loop opening events in
    let shown = keep is_shown (map (λ k. part_at k last) last.parts.order) in
    (
      pack last.role shown,
      finish-eq last (event_loop-SameKeys opening events (λ k. refl)),
      pack-AtMostOne last.role shown,
    )

-- If no event starts a tool call, then the assembly returns the message of the parts
-- that have something to show; no part is listed twice, each holds the texts and the fragments of
-- its own deltas, joined in order, and every text and fragment is in one of them.
pub assemble_anthropic_stream-IsMessage :
    (events : List Event)
    → all only_adds events ≡ true
    → (messages : List Value) × (assemble_anthropic_stream events ≡ done messages)
      × IsMessage events messages
unfolding assemble_anthropic_stream value_at
assemble_anthropic_stream-IsMessage events adds =
    let last = event_loop opening events in
    let coherent = event_loop-IsCoherent opening events adds empty-IsCoherent in
    let gains : (k : ℕ)
        → Gains (concat (map (event_text k) events)) (concat (map (event_json k) events)) fresh_part
            (part_at k last) =
      λ k. event_loop-Gains k opening events adds in
    (
      _,
      finish-eq last coherent.same_keys,
      record {
        role = last.role;
        indices = last.parts.order;
        parts = map (λ k. part_at k last) last.parts.order;
        distinct = coherent.distinct;
        texts =
            map-map_ext part_text _ _ (λ k. (gains k).text_now ∙ TextLemmas.nil-append _)
              last.parts.order;
        inputs =
            map-map_ext part_input _ _ (λ k. (gains k).input_now ∙ TextLemmas.nil-append _)
              last.parts.order;
        complete = λ k out. Gains-nothing (gains k) (unlisted_part last coherent.same_keys k out);
        packed = refl;
      },
    )
