-- ===== src/ChatViewer/TextBlock.antt =====
-- A text of a message (`TextBlock` in frontend/src/components/ChatViewer.tsx), which starts collapsed
-- if it is long.
pub mod Preview
use Prim.Native.String.{String, ◌++◌ as cat}
use ailens.Base.{
  ℕ, zero, suc, ◌-◌, Bool, true, false, ◌||◌, List, [], ◌∷◌, Option, none, some, leb, ltb, ◌==◌,
  string_has_eq, if◌then◌else◌, length, any,
}
use ailens.Base.Text.{join, split_newline, take, text_length}
use ailens.I18n.{Locale, number, translate}

-- `COLLAPSE_MIN_CHARS` and `COLLAPSE_PREVIEW_CHARS`
abbrev pub collapse_chars : ℕ
collapse_chars = 600

-- `COLLAPSE_MIN_LINES` and `COLLAPSE_PREVIEW_LINES`
abbrev pub collapse_lines : ℕ
collapse_lines = 8

-- `lines.slice(0, n)`
abbrev pub first_lines : ℕ → List String → List String
first_lines zero lines = []
first_lines (suc n) [] = []
first_lines (suc n) (l ∷ lines) = l ∷ first_lines n lines

abbrev pub markdown_roles : List String
markdown_roles = "user" ∷ "assistant" ∷ "system" ∷ "developer" ∷ []

-- `useMarkdown`; no role has no text here.
unfoldable pub use_markdown : Option String → Bool
use_markdown none = false
use_markdown (some role) = any (λ r. r == role) markdown_roles

unfoldable pub needs_collapse : String → Bool
unfolding text_length split_newline
needs_collapse text =
    ltb collapse_chars (text_length text) || ltb collapse_lines (length (split_newline text))

unfoldable pub by_lines : String → String
unfolding join split_newline
by_lines text = join "\n" (first_lines collapse_lines (split_newline text))

unfoldable pub by_chars : String → String
unfolding take
by_chars text = take collapse_chars text

unfoldable pub preview : String → String
unfolding by_lines by_chars text_length
preview text =
    if leb (text_length (by_lines text)) (text_length (by_chars text))
    then by_lines text
    else by_chars text

unfoldable pub remaining : String → ℕ
unfolding preview text_length
remaining text = text_length text - text_length (preview text)

-- What is shown: a text, and the label of the button below it, if there is one.
pub record Shown : Type 0 where
  pub text : String
  pub button : Option String

unfoldable pub text_block : Locale → (expanded : Bool) → String → Shown
unfolding needs_collapse preview remaining translate
text_block l expanded text =
    if needs_collapse text
    then record {
      text = if expanded then text else preview text;
      button = some (
          if expanded
          then translate l "detail.text.collapse" []
          else translate l "detail.text.expand" (("count", number (remaining text)) ∷ []));
    }
    else record { text = text; button = none }
