-- ===== src/Cache.antt =====
-- `annotateCachedPrefix` (frontend/src/components/ChatViewer.tsx): the tokens that the upstream
-- served from its cache are spread over the tools and messages of a request, in prompt order.
pub mod Prefix
pub mod Items
mod Tests
use Prim.Native.String.{String, [] as empty_text, ◌∷◌ as cons_text}
use ailens.Base.Decimal.{decimal}
use ailens.Base.{
  ℕ, ◌+◌, ◌-◌, min, Bool, List, [], ◌∷◌, Option, none, some, leb, get_or, if◌then◌else◌,
}
use ailens.Value.{Value, str, obj, arr, Fields, field, end, Items as Elements, cons, nil}

pub data CacheState : Type 0 where
  uncached cached partial : CacheState

pub record CacheEstimate : Type 0 where
  pub state : CacheState
  pub cached_tokens : ℕ
  pub estimated_tokens : ℕ

pub record ToolDefinition : Type 0 where
  pub name : String
  pub type : String
  pub description : Option String
  pub schema : Value
  pub raw : Value
  pub cache_control_label : Option String
  pub cache_estimate : Option CacheEstimate

-- A message is the object that the body holds or the viewer builds; only the annotation adds the
-- field `cacheEstimate`, so it stands apart.
pub record Message : Type 0 where
  pub body : Value
  pub cache_estimate : Option CacheEstimate

pub record Segments : Type 0 where
  pub tool_tokens : List ℕ
  pub message_tokens : List ℕ

-- `mark`, for the tokens `consumed` before the call.
pub mark : ℕ → ℕ → ℕ → CacheEstimate
mark total consumed estimated =
    let after = consumed + estimated in
    let share = if leb total consumed then 0 else min after total - consumed in
    record {
      state = if leb share 0 then uncached else if leb estimated share then cached else partial;
      cached_tokens = share;
      estimated_tokens = estimated;
    }

-- `segments.toolTokens[index] || 0`, and the same for messages.
module _ {A : Type 0} (put : CacheEstimate → A → A) (total : ℕ) (tokens : List ℕ) where
  -- One of the two calls of `map`, from an index on. It also gives the tokens consumed at its end.
  pub annotate : ℕ → ℕ → List A → List A × ℕ
  annotate consumed index [] = ([], consumed)
  annotate consumed index (x ∷ xs) =
      let estimated = get_or tokens index 0 in
      let (rest, after) = annotate (consumed + estimated) (index + 1) xs in
      (put (mark total consumed estimated) x ∷ rest, after)

abbrev pub put_tool : CacheEstimate → ToolDefinition → ToolDefinition
put_tool e tool = record tool { cache_estimate = some e }

unfoldable fields_of_items : ℕ → Elements → Fields
unfolding decimal
fields_of_items i nil = end
fields_of_items i (cons v vs) = field (decimal i) v (fields_of_items (i + 1) vs)

unfoldable fields_of_text : ℕ → String → Fields
unfolding decimal
fields_of_text i empty_text = end
fields_of_text i (cons_text c s) =
    field (decimal i) (str (cons_text c "")) (fields_of_text (i + 1) s)

-- `{ ...message }`: only an object stays what it is. The characters of a text are counted as
-- `text_length` does.
unfoldable pub spread : Value → Value
unfolding fields_of_items fields_of_text
spread (obj fs) = obj fs
spread (arr vs) = obj (fields_of_items 0 vs)
spread (str s) = obj (fields_of_text 0 s)
spread _ = obj end

abbrev pub put_message : CacheEstimate → Message → Message
put_message e m = record { body = spread m.body; cache_estimate = some e }

pub record Annotated : Type 0 where
  pub tool_definitions : List ToolDefinition
  pub messages : List Message

unfoldable pub annotate_segments : List ToolDefinition → List Message → ℕ → Segments → Annotated
unfolding annotate
annotate_segments tools messages total segments =
    let (tools', consumed) = annotate put_tool total segments.tool_tokens 0 0 tools in
    let (messages', _) = annotate put_message total segments.message_tokens consumed 0 messages in
    record { tool_definitions = tools'; messages = messages' }

pub annotate_cached_prefix : List ToolDefinition → List Message → ℕ → Option Segments → Annotated
unfolding annotate_segments
annotate_cached_prefix tools messages total none = record {
  tool_definitions = tools;
  messages = messages;
}
annotate_cached_prefix tools messages total (some segments) =
    if leb total 0
    then record { tool_definitions = tools; messages = messages }
    else annotate_segments tools messages total segments
