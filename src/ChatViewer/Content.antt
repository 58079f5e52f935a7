-- ===== src/ChatViewer/Content.antt =====
-- The parts of a message's content (`ContentPartView` in frontend/src/components/ChatViewer.tsx).
use Prim.Native.String.{String, ◌++◌ as cat}
use ailens.Base.Outcome.{Outcome, done, type_error, untyped, ◌>>=◌, collect}
use ailens.Base.Text.{join}
use ailens.Base.{Bool, ◌&&◌, List, Option, ◌==◌, string_has_eq, if◌then◌else◌}
use ailens.Tools.{cache_control_label}
use ailens.Value.{
  Value, undefined, null, str, obj, arr, end, items, opt_prop, truthy, nullish, is_text, text_of,
}

-- What is shown of a part: a text, with the label of its cache control if it has one, an image under an
-- address, a tool call, the result of one, or the JSON of a part of another type.
pub data PartView : Type 0 where
  text_view : (cache_control : Option String) → String → PartView
  image_view : String → PartView
  call_view : (id name : Value) (arguments : String) → PartView
  result_view : (id : Value) → String → PartView
  json_view : String → PartView

-- `v || ''`, for a value that is to be a text.
abbrev text_or_empty : Value → Outcome String
text_or_empty (str s) = done s
text_or_empty v = if truthy v then untyped else done ""

-- `p.text || ''` for an element of the content of a result.
abbrev result_text : Value → Outcome String
result_text undefined = type_error
result_text null = type_error
result_text p = text_or_empty (opt_prop "text" p)

-- The text of a tool's result.
unfoldable pub result_content : Value → Outcome String
unfolding collect join
result_content (str s) = done s
result_content (arr ps) =
    collect result_text (items ps) >>= λ (texts : List String). done (join "\n" texts)
result_content _ = done ""

abbrev image_url : Value → Outcome String
image_url (str url) = done url
image_url v = text_or_empty (opt_prop "url" v)

abbrev data_uri : Value → Value → Outcome String
data_uri (str media_type) (str bytes) = done (cat "data:" (cat media_type (cat ";base64," bytes)))
data_uri _ _ = untyped

abbrev as_image : Outcome String → Outcome PartView
as_image url = url >>= λ (u : String). done (image_view u)

abbrev as_result : Value → String → Outcome PartView
as_result id s = done (result_view id s)

-- `lower` is `s.toLowerCase()`, and `print` is `JSON.stringify(v, null, 2)`.
module _ (lower : String → String) (print : Value → String) where
  -- `(part.type || '').toLowerCase()`: what is no text has no such method.
  abbrev part_type : Value → Outcome String
  part_type (str s) = done (lower s)
  part_type v = if truthy v then type_error else done (lower "")

  abbrev arguments_text : Value → String
  arguments_text (str s) = s
  arguments_text v = print (nullish v (obj end))

  abbrev has_image_data : Value → Bool
  has_image_data source = truthy (opt_prop "data" source) && truthy (opt_prop "media_type" source)

  abbrev view_of_type : String → Value → Outcome PartView
  unfolding result_content
  view_of_type type part =
      if type == "text" && is_text (opt_prop "text" part)
      then done (
          text_view (cache_control_label (opt_prop "cache_control" part))
            (text_of (opt_prop "text" part)))
      else if type == "image_url" && truthy (opt_prop "image_url" part)
      then as_image (image_url (opt_prop "image_url" part))
      else if type == "image" && has_image_data (opt_prop "source" part)
      then as_image (
          data_uri (opt_prop "media_type" (opt_prop "source" part))
            (opt_prop "data" (opt_prop "source" part)))
      else if type == "tool_use"
      then done (
          call_view (opt_prop "id" part) (opt_prop "name" part)
            (arguments_text (opt_prop "input" part)))
      else if type == "tool_result"
      then result_content (opt_prop "content" part) >>= as_result (opt_prop "tool_use_id" part)
      else done (json_view (print part))

  unfoldable pub part_view : Value → Outcome PartView
  unfolding view_of_type
  part_view undefined = type_error
  part_view null = type_error
  part_view part = part_type (opt_prop "type" part) >>= λ (type : String). view_of_type type part
