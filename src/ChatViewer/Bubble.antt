-- ===== src/ChatViewer/Bubble.antt =====
-- A message (`MessageBubble` in frontend/src/components/ChatViewer.tsx): who speaks, what the cache has
-- of it, and which of its parts are shown.
use Prim.Native.String.{String, [] as empty_text, ◌∷◌ as cons_text, ◌++◌ as cat}
use ailens.Base.Outcome.{Outcome, done, type_error, untyped, ◌>>=◌, collect}
use ailens.Base.Text.{take, text_length, trim}
use ailens.Base.{
  ℕ, Bool, true, false, not, ◌||◌, List, [], ◌∷◌, ◌++◌, Option, none, some, ltb, ◌==◌,
  string_has_eq, if◌then◌else◌, is_nil,
}
use ailens.Cache.{CacheEstimate, CacheState, Message, cached, partial, uncached}
use ailens.ChatViewer.Content.{PartView, part_view}
use ailens.ChatViewer.Visual.{RoleVisual, fallback_visual, role_visual}
use ailens.Fmt.{fmt_tokens}
use ailens.Messages.{Mode, request, response}
use ailens.Value.{Value, str, obj, arr, field, end, items, nil, cons, opt_prop, truthy}

-- `hasRenderableContent`, for a content of the declared type.
unfoldable pub has_renderable_content : Value → Bool
unfolding trim
has_renderable_content (str s) = not (trim s == "")
has_renderable_content (arr nil) = false
has_renderable_content (arr (cons v vs)) = true
has_renderable_content _ = false

-- `shortId`
unfoldable pub short_id : String → String
unfolding text_length take
short_id value = if ltb 12 (text_length value) then cat (take 12 value) "..." else value

abbrev pub is_uncached : CacheState → Bool
is_uncached uncached = true
is_uncached _ = false

-- `fixed` is that of `fmt_tokens`.
module _ (fixed : ℕ → ℕ → ℕ) where
  -- `CacheEstimateBadge`
  unfoldable pub badge : Option CacheEstimate → Option String
  badge none = none
  badge (some e) = elim e.state [
    | uncached ↦ none
    | cached ↦ some (cat "cached " (fmt_tokens fixed (some e.cached_tokens)))
    | partial ↦ some (
        cat "partial cached " (
          cat (fmt_tokens fixed (some e.cached_tokens))
            (cat "/" (fmt_tokens fixed (some e.estimated_tokens)))))
  ]

  -- `MessageCacheStats`
  unfoldable pub stats : Option CacheEstimate → Option String
  stats none = none
  stats (some e) =
      if is_uncached e.state
      then none
      else some (
          cat (fmt_tokens fixed (some e.cached_tokens))
            (cat " 缓存 / " (cat (fmt_tokens fixed (some e.estimated_tokens)) " 总计")))

-- `m.cacheEstimate?.state || 'none'`
abbrev cache_state : Option CacheEstimate → CacheState
cache_state none = uncached
cache_state (some e) = e.state

abbrev cache_ring : CacheState → String
cache_ring cached = " ring-2 ring-emerald-300/80"
cache_ring partial = " ring-2 ring-lime-300/70"
cache_ring uncached = ""

-- What stands in the place of the content.
pub data Body : Type 0 where
  hidden empty : Body
  text_body : String → Body
  parts_body : List PartView → Body

pub record BubbleView : Type 0 where
  pub visual : RoleVisual
  pub name : Value
  pub tool_call_id : Option String
  pub cache_ring : String
  pub stats_label : Option String
  pub reasoning : Option String
  pub body : Body
  pub calls : List Value

-- `Array.isArray(m.tool_calls) ? m.tool_calls : []`
abbrev tool_calls : Value → List Value
tool_calls (arr vs) = items vs
tool_calls _ = []

-- `m.function_call` as the card of a call gets it.
abbrev function_call : Value → List Value
function_call v = if truthy v then obj (field "function" v end) ∷ [] else []

-- The reasoning, if it is a text that is not blank.
unfoldable pub reasoning_of : Value → Option String
unfolding trim
reasoning_of (str s) = if trim s == "" then none else some s
reasoning_of _ = none

abbrev is_there : Option String → Bool
is_there none = false
is_there (some s) = true

abbrev shown_id : Value → Outcome (Option String)
unfolding short_id
shown_id (str s) = done (if s == "" then none else some (short_id s))
shown_id v = if truthy v then untyped else done none

-- `lower` and `upper` are `s.toLowerCase()` and `s.toUpperCase()`, `print` is
-- `JSON.stringify(v, null, 2)`, and `fixed` is that of `fmt_tokens`.
module _ (lower upper : String → String) (print : Value → String) (fixed : ℕ → ℕ → ℕ) where
  -- `titleCase`
  unfoldable pub title_case : String → String
  title_case empty_text = "Message"
  title_case (cons_text c s) = cat (upper (cons_text c empty_text)) s

  abbrev default_role : Mode → String
  default_role response = "assistant"
  default_role request = "user"

  -- The role of a message; what is no text has no `toLowerCase`.
  unfoldable pub role_of : Mode → Value → Outcome String
  role_of mode (str s) = done (lower (if s == "" then default_role mode else s))
  role_of mode v = if truthy v then type_error else done (lower (default_role mode))

  abbrev visual_or : String → Option RoleVisual → RoleVisual
  unfolding title_case
  visual_or role none = record fallback_visual { label = title_case role }
  visual_or role (some v) = v

  unfoldable pub visual_of : String → RoleVisual
  unfolding role_visual visual_or
  visual_of role = visual_or role (role_visual role)

  -- `ContentRenderer`, for a content that can be rendered.
  abbrev content_body : Value → Outcome Body
  unfolding collect part_view
  content_body (str s) = done (text_body s)
  content_body (arr ps) =
      collect (part_view lower print) (items ps) >>= λ (vs : List PartView). done (parts_body vs)
  content_body _ = untyped

  -- The body: nothing beside other output, if there is no content.
  unfoldable pub body_of : (has_auxiliary_output : Bool) → Value → Outcome Body
  unfolding has_renderable_content content_body
  body_of auxiliary content =
      if has_renderable_content content
      then content_body content
      else if auxiliary
      then done hidden
      else done empty

  unfoldable pub message_bubble : Mode → Message → Outcome BubbleView
  unfolding role_of reasoning_of visual_of body_of shown_id stats
  message_bubble mode m =
      let calls =
        tool_calls (opt_prop "tool_calls" m.body)
        ++ function_call (opt_prop "function_call" m.body) in
      let reasoning = reasoning_of (opt_prop "reasoning_content" m.body) in
      do
        role ← role_of mode (opt_prop "role" m.body)
        id ← shown_id (opt_prop "tool_call_id" m.body)
        body ← body_of (is_there reasoning || not (is_nil calls)) (opt_prop "content" m.body)
        done (record {
          visual = visual_of role;
          name = opt_prop "name" m.body;
          tool_call_id = id;
          cache_ring = cache_ring (cache_state m.cache_estimate);
          stats_label = stats fixed m.cache_estimate;
          reasoning = reasoning;
          body = body;
          calls = calls;
        })
