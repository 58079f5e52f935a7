-- ===== src/Sse/Blocks.antt =====
-- Events as a server writes them, line by line, and what the reader makes of the lines.
pub mod RoundTrip
use text.Mathlib.TextEquality.{eq_iff}
use text.Mathlib.TextLemmas
use Prim.Native.Char.{Char, code}
use Prim.Native.String.{String, [] as empty_text, ◌∷◌ as cons_text, ◌++◌ as cat}
use mathlib.Core.List.{append_assoc, append-nil}
use ailens.Base.Text.{after, join, trim}
use ailens.Base.{
  ℕ, Bool, true, false, List, [], ◌∷◌, ◌++◌, Option, none, some, ◌==◌, ℕ_has_eq, string_has_eq, ◌≡◌,
  ◌≢◌, refl, sym, ap, ◌∙◌, if◌then◌else◌, is_nil, arith, map, All, same_refl,
}
use ailens.Sse.{Frame, Reader, flush, read_line, read_lines, start}

-- An event with its lines of data.
pub record Block : Type 0 where
  pub event : String
  pub pieces : List String

abbrev pub data_line : String → String
data_line p = cat "data:" (cat " " p)

abbrev pub event_line : String → String
event_line e = cat "event:" (cat " " e)

-- The lines of an event: its name, its data, and an empty line.
abbrev pub lines_of : Block → List String
lines_of b = event_line b.event ∷ (map data_line b.pieces ++ "" ∷ [])

abbrev pub all_lines : List Block → List String
all_lines [] = []
all_lines (b ∷ bs) = lines_of b ++ all_lines bs

abbrev pub frame_of : Block → Frame
frame_of b = record { event = b.event; text = join "\n" b.pieces }

-- A piece of data that reading leaves as it is: `trim` takes only the blank in front, and it is
-- neither empty nor the end mark.
pub record IsPiece (p : String) : Type 0 where
  pub trimmed : trim (cat " " p) ≡ p
  pub full : p ≢ ""
  pub goes_on : p ≢ "[DONE]"

pub record IsBlock (b : Block) : Type 0 where
  pub named : trim (cat " " b.event) ≡ b.event
  pub whole : All IsPiece b.pieces
  pub some_data : b.pieces ≢ []

pub after-append : (p s : String) → after p (cat p s) ≡ some s
unfolding after
after-append empty_text s = ap some (TextLemmas.nil-append s)
after-append (cons_text c p) s =
    rw TextLemmas.cons-append (rw (same_refl (code c)) (after-append p s))

after-append_other :
    (c d : Char) (p q s : String)
    → (code d == code c) ≡ false
    → after (cons_text c p) (cat (cons_text d q) s) ≡ none
unfolding after
after-append_other c d p q s h = rw TextLemmas.cons-append (rw h)

full_line : (p s : String) → p ≢ "" → (cat p s == "") ≡ false
full_line p s h =
    ground
      (arith, eq_iff (cat p s) "", λ (e : cat p s ≡ ""). h ((TextLemmas.append-eq-nil_iff).0 e).0)

data_full : (s : String) → (cat "data:" s == "") ≡ false
data_full s = full_line "data:" s (ground (arith, eq_iff "data:" ""))

event_full : (s : String) → (cat "event:" s == "") ≡ false
event_full s = full_line "event:" s (ground (arith, eq_iff "event:" ""))

data-no-event : (s : String) → after "event:" (cat "data:" s) ≡ none
data-no-event s = after-append_other _ _ _ _ s refl

read-data_line :
    (r : Reader) (p : String)
    → IsPiece p
    → read_line r (data_line p) ≡ record r { lines = r.lines ++ p ∷ [] }
unfolding read_line
read-data_line r p h = ground (
  arith,
  data_full (cat " " p),
  data-no-event (cat " " p),
  after-append "data:" (cat " " p),
  eq_iff p "",
  eq_iff p "[DONE]",
)

read-event_line :
    (r : Reader) (e : String)
    → trim (cat " " e) ≡ e
    → read_line r (event_line e) ≡ record r { event = e }
unfolding read_line
read-event_line r e h = ground (arith, event_full (cat " " e), after-append "event:" (cat " " e))

read-data_lines :
    (r : Reader) (ps rest : List String)
    → All IsPiece ps
    → read_lines r (map data_line ps ++ rest) ≡ read_lines (record r { lines = r.lines ++ ps }) rest
unfolding read_lines
read-data_lines r [] rest h = rw append-nil
read-data_lines r (p ∷ ps) rest (k, h) =
    ap (λ s. read_lines s (map data_line ps ++ rest)) (read-data_line r p k)
    ∙ read-data_lines (record r { lines = r.lines ++ p ∷ [] }) ps rest h
    ∙ rw append_assoc

-- The empty line behind an event makes a frame of it.
read-empty_line :
    (r : Reader) (ps : List String)
    → ps ≢ []
    → read_line (record r { lines = ps }) "" ≡ record {
      event = "";
      lines = [];
      out = r.out ++ record { event = r.event; text = join "\n" ps } ∷ [];
    }
unfolding read_line
read-empty_line r [] h = absurd (h refl)
read-empty_line r (p ∷ ps) h = refl

read-block :
    (out : List Frame) (b : Block) (rest : List String)
    → IsBlock b
    → read_lines (record { event = ""; lines = []; out = out }) (lines_of b ++ rest)
      ≡ read_lines (record { event = ""; lines = []; out = out ++ frame_of b ∷ [] }) rest
unfolding read_lines
read-block out b rest h =
    let fresh : Reader = record { event = ""; lines = []; out = out } in
    let named : Reader = record fresh { event = b.event } in
    ap (λ s. read_lines s ((map data_line b.pieces ++ "" ∷ []) ++ rest))
      (read-event_line fresh b.event h.named)
    ∙ ap (read_lines named) (append_assoc (map data_line b.pieces) ("" ∷ []) rest)
    ∙ read-data_lines named b.pieces ("" ∷ rest) h.whole
    ∙ ap (λ s. read_lines s rest) (read-empty_line named b.pieces h.some_data)

pub read-all_lines :
    (out : List Frame) (bs : List Block) (rest : List String)
    → All IsBlock bs
    → read_lines (record { event = ""; lines = []; out = out }) (all_lines bs ++ rest)
      ≡ read_lines (record { event = ""; lines = []; out = out ++ map frame_of bs }) rest
read-all_lines out [] rest h = rw append-nil
read-all_lines out (b ∷ bs) rest (k, h) =
    ap (read_lines (record { event = ""; lines = []; out = out }))
      (append_assoc (lines_of b) (all_lines bs) rest)
    ∙ read-block out b (all_lines bs ++ rest) k
    ∙ read-all_lines (out ++ frame_of b ∷ []) bs rest h
    ∙ rw append_assoc
