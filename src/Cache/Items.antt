-- ===== src/Cache/Items.antt =====
-- The marks of a request's items, and the rest of the items.
use mathlib.Core.List.{map-append}
use mathlib.Core.Path.{ap₂}
use ailens.Cache.Prefix.{marks, marks_in}
use ailens.Base.{
  ◌<◌, ◌++◌, ap, true, Bool, all, false, ℕ, ◌+◌, ◌≡◌, ◌∙◌, refl, List, [], ◌∷◌, Option, none, some,
  arith, get_or, map, leb, Bool-cases, inl, inr,
}
use ailens.Value.{Value, obj}
use ailens.Cache.{
  CacheEstimate, ToolDefinition, Message, Segments, mark, annotate, put_tool, put_message, spread,
  annotate_segments, annotate_cached_prefix,
}

abbrev pub erase_tool : ToolDefinition → ToolDefinition
erase_tool t = record t { cache_estimate = none }

abbrev pub erase_message : Message → Message
erase_message m = record m { cache_estimate = none }

-- A message as it is declared: an object, neither a text nor a list.
abbrev plain_body : Value → Bool
plain_body (obj fs) = true
plain_body _ = false

abbrev pub is_plain : Message → Bool
is_plain m = plain_body m.body

module _ {A : Type 0} (put : CacheEstimate → A → A) (erase later : A → A)
    (law : (e : CacheEstimate) (x : A) → erase (put e x) ≡ later x) (total : ℕ)
    (tokens : List ℕ) where
  map_erase-annotate :
      (consumed index : ℕ) (xs : List A)
      → map erase (annotate put total tokens consumed index xs).0 ≡ map later xs
  unfolding annotate
  map_erase-annotate consumed index [] = refl
  map_erase-annotate consumed index (x ∷ xs) =
      rw law (rw (map_erase-annotate (consumed + get_or tokens index 0) (index + 1) xs))

spread_message : Message → Message
spread_message m = record { body = spread m.body; cache_estimate = none }

spread_of_plain : (v : Value) → plain_body v ≡ true → spread v ≡ v
unfolding spread
spread_of_plain (obj fs) h = refl
spread_of_plain _ h = cc

spread_message_of_plain : (m : Message) → is_plain m ≡ true → spread_message m ≡ erase_message m
unfolding spread_message
spread_message_of_plain m h =
    ap (λ v. record { body = v; cache_estimate = none }) (spread_of_plain m.body h)

map_spread_of_plain :
    (ms : List Message) → all is_plain ms ≡ true → map spread_message ms ≡ map erase_message ms
map_spread_of_plain [] h = refl
map_spread_of_plain (m ∷ ms) h =
    ap₂ (λ n ns. n ∷ ns) (spread_message_of_plain m (ground arith))
      (map_spread_of_plain ms (ground arith))

-- If the messages are objects, then the tools and the messages stay, in number, order and content,
-- but for their marks.
pub erase-annotate_cached_prefix :
    (tools : List ToolDefinition) (messages : List Message) (total : ℕ) (segments : Option Segments)
    → all is_plain messages ≡ true
    → (map erase_tool (annotate_cached_prefix tools messages total segments).tool_definitions
        ≡ map erase_tool tools)
      × (map erase_message (annotate_cached_prefix tools messages total segments).messages
          ≡ map erase_message messages)
unfolding annotate_cached_prefix annotate_segments spread_message
erase-annotate_cached_prefix tools messages total none h = (refl, refl)
erase-annotate_cached_prefix tools messages total (some segments) h =
    elim (Bool-cases (leb total 0)) [
      | inl empty ↦ rw empty (refl, refl)
      | inr full ↦ rw full (
        map_erase-annotate put_tool erase_tool erase_tool (λ e x. refl) total segments.tool_tokens 0
            0 tools,
        map_erase-annotate put_message erase_message spread_message (λ e x. refl) total
              segments.message_tokens _ 0 messages
            ∙ map_spread_of_plain messages h,
      )
    ]

-- `tokens[index] || 0` for each item of a list.
abbrev pub sizes_of {ℓ} : {A : Type ℓ} → List ℕ → ℕ → List A → List ℕ
sizes_of tokens index [] = []
sizes_of tokens index (x ∷ xs) = get_or tokens index 0 ∷ sizes_of tokens (index + 1) xs

module _ {A : Type 0} (put : CacheEstimate → A → A) (get : A → Option CacheEstimate)
    (law : (e : CacheEstimate) (x : A) → get (put e x) ≡ some e) (total : ℕ) (tokens : List ℕ) where
  sizes-annotate :
      (consumed index : ℕ) (xs : List A)
      → map (λ e. e.estimated_tokens) (marks get (annotate put total tokens consumed index xs).0)
        ≡ sizes_of tokens index xs
  unfolding annotate mark
  sizes-annotate consumed index [] = refl
  sizes-annotate consumed index (x ∷ xs) =
      rw (law (mark total consumed (get_or tokens index 0)) x) (
        ap (◌∷◌ (get_or tokens index 0))
          (sizes-annotate (consumed + get_or tokens index 0) (index + 1) xs))

-- With segments at hand and a positive count of cached tokens every item has one mark, and the
-- mark's estimate is the segments' number at the item's index, 0 where they hold none.
pub sizes-annotate_cached_prefix :
    (tools : List ToolDefinition) (messages : List Message) (total : ℕ) (segments : Segments)
    → 0 < total
    → map
        (λ e. e.estimated_tokens)
        (marks_in (annotate_cached_prefix tools messages total (some segments)))
      ≡ sizes_of segments.tool_tokens 0 tools ++ sizes_of segments.message_tokens 0 messages
unfolding annotate_cached_prefix annotate_segments
sizes-annotate_cached_prefix tools messages total segments positive =
    let full : leb total 0 ≡ false = ground arith in
    rw full (
      rw map-append (
        ap₂ ◌++◌
          (sizes-annotate put_tool (λ t. t.cache_estimate) (λ e x. refl) total segments.tool_tokens
            0 0 tools)
          (sizes-annotate put_message (λ m. m.cache_estimate) (λ e x. refl) total
            segments.message_tokens _ 0 messages)))
