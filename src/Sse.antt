-- ===== src/Sse.antt =====
-- `parseSSE` (frontend/src/components/ChatViewer.tsx): a response body that was streamed as
-- server-sent events is cut into frames.
pub mod Blocks
mod Tests
use Prim.Native.Char.{code}
use Prim.Native.String.{String, [] as empty_text, ◌∷◌ as cons_text, ◌++◌ as cat}
use ailens.Base.Text.{after, is_space, join, onto_first, starts_with, trim}
use ailens.Base.{
  ℕ, Bool, true, false, ◌&&◌, ◌||◌, List, [], ◌∷◌, ◌++◌, Option, none, some, ◌==◌, ℕ_has_eq,
  string_has_eq, if◌then◌else◌, is_nil,
}

pub record Frame : Type 0 where
  pub event : String
  pub text : String

-- The characters behind which `^` matches in a multiline regular expression.
abbrev ends_line : ℕ → Bool
ends_line c = c == 10 || c == 13 || c == 0x2028 || c == 0x2029

-- `/^data:/m.test(raw)`, from a position on that is at the start of a line or not.
pub data_line_from : Bool → String → Bool
unfolding starts_with
data_line_from at empty_text = false
data_line_from at (cons_text c s) =
    at && starts_with "data:" (cons_text c s) || data_line_from (ends_line (code c)) s

-- `raw.split(/\r?\n/)`
unfoldable pub split_lines : String → List String
split_lines empty_text = "" ∷ []
split_lines (cons_text c empty_text) = if code c == 10 then "" ∷ "" ∷ [] else onto_first c ("" ∷ [])
split_lines (cons_text c (cons_text d s)) =
    let rest = split_lines (cons_text d s) in
    let behind = split_lines s in
    if code c == 10
    then "" ∷ rest
    else if code c == 13 && code d == 10
    then "" ∷ behind
    else onto_first c rest

-- The variables of the loop.
pub record Reader : Type 0 where
  pub event : String
  pub lines : List String
  pub out : List Frame

pub flush : Reader → Reader
unfolding join
flush r = record {
  event = "";
  lines = [];
  out =
      if is_nil r.lines
      then r.out
      else r.out ++ record { event = r.event; text = join "\n" r.lines } ∷ [];
}

-- A line behind `data:`.
read_data : Reader → String → Reader
unfolding trim
read_data r rest =
    let v = trim rest in
    if v == "" || v == "[DONE]" then r else record r { lines = r.lines ++ v ∷ [] }

-- A line that is not empty.
read_field : Reader → String → Reader
unfolding read_data after
read_field r line = elim (after "event:" line) [
  | some rest ↦ record r { event = trim rest }
  | none ↦ elim (after "data:" line) [ some rest ↦ read_data r rest | none ↦ r ]
]

pub read_line : Reader → String → Reader
unfolding flush read_field
read_line r line = if line == "" then flush r else read_field r line

pub read_lines : Reader → List String → Reader
unfolding read_line
read_lines r [] = r
read_lines r (line ∷ lines) = read_lines (read_line r line) lines

abbrev pub start : Reader
start = record { event = ""; lines = []; out = [] }

unfoldable pub parse_sse : Option String → List Frame
unfolding read_lines split_lines data_line_from
parse_sse none = []
parse_sse (some raw) =
    if data_line_from true raw then (flush (read_lines start (split_lines raw))).out else []
