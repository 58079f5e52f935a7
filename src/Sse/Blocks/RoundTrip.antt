-- ===== src/Sse/Blocks/RoundTrip.antt =====
-- The text of a list of events, and its frames.
use Prim.Native.Char.{Char, code}
use Prim.Native.String.{String, [] as empty_text, ◌∷◌ as cons_text, ◌++◌ as cat}
use text.Mathlib.TextLemmas
use ailens.Base.Text.{onto_first, starts_with}
use ailens.Base.{
  Bool, true, List, [], ◌∷◌, ◌++◌, some, ℕ_has_eq, ◌≡◌, ◌≢◌, refl, ap, ◌∙◌, arith, map, All,
}
use ailens.Sse.Blocks.{
  Block, IsBlock, all_lines, lines_of, data_line, event_line, frame_of, read-all_lines,
  after-append,
}
use ailens.Sse.{flush, read_lines, split_lines, data_line_from, ends_line, parse_sse, start}

-- Each line is ended by a line feed.
abbrev pub text_of : List String → String
text_of [] = ""
text_of (l ∷ ls) = cat l (cons_text "\n" (text_of ls))

-- No carriage return and no line feed.
abbrev pub NoBreak : String → Type 0
NoBreak empty_text = Unit
NoBreak (cons_text c s) = (code c ≢ 10) × (code c ≢ 13) × NoBreak s

split_lines-cons :
    (c : Char) (s : String)
    → code c ≢ 10
    → code c ≢ 13
    → split_lines (cons_text c s) ≡ onto_first c (split_lines s)
unfolding split_lines
split_lines-cons c empty_text h k = ground arith
split_lines-cons c (cons_text d s) h k = ground arith

split_lines-newline : (t : String) → split_lines (cons_text "\n" t) ≡ "" ∷ split_lines t
unfolding split_lines
split_lines-newline empty_text = refl
split_lines-newline (cons_text d t) = refl

split_lines-line :
    (l t : String) → NoBreak l → split_lines (cat l (cons_text "\n" t)) ≡ l ∷ split_lines t
split_lines-line empty_text t h = rw TextLemmas.nil-append (split_lines-newline t)
split_lines-line (cons_text c l) t (p, q, h) =
    rw TextLemmas.cons-append
      (split_lines-cons c _ p q ∙ ap (onto_first c) (split_lines-line l t h))

split_lines-text_of : (ls : List String) → All NoBreak ls → split_lines (text_of ls) ≡ ls ++ "" ∷ []
unfolding split_lines
split_lines-text_of [] h = refl
split_lines-text_of (l ∷ ls) (p, h) =
    split_lines-line l (text_of ls) p ∙ ap (◌∷◌ l) (split_lines-text_of ls h)

NoBreak-append : (s t : String) → NoBreak s → NoBreak t → NoBreak (cat s t)
NoBreak-append empty_text t h k = rw TextLemmas.nil-append k
NoBreak-append (cons_text c s) t (p, q, h) k =
    rw TextLemmas.cons-append (p, q, NoBreak-append s t h k)

NoBreak-data_line : (p : String) → NoBreak p → NoBreak (data_line p)
NoBreak-data_line p h =
    NoBreak-append "data:" _ (omega arith) (NoBreak-append " " p (omega arith) h)

NoBreak-event_line : (e : String) → NoBreak e → NoBreak (event_line e)
NoBreak-event_line e h =
    NoBreak-append "event:" _ (omega arith) (NoBreak-append " " e (omega arith) h)

-- Event and data hold no line break.
pub record OneLine (b : Block) : Type 0 where
  pub event : NoBreak b.event
  pub pieces : All NoBreak b.pieces

All-append {ℓ} :
    {A : Type ℓ} (P : A → Type 0) (xs ys : List A) → All P xs → All P ys → All P (xs ++ ys)
All-append P [] ys h k = k
All-append P (x ∷ xs) ys (p, h) k = (p, All-append P xs ys h k)

data_lines-NoBreak : (ps : List String) → All NoBreak ps → All NoBreak (map data_line ps)
data_lines-NoBreak [] h = tt
data_lines-NoBreak (p ∷ ps) (k, h) = (NoBreak-data_line p k, data_lines-NoBreak ps h)

all_lines-NoBreak : (bs : List Block) → All OneLine bs → All NoBreak (all_lines bs)
all_lines-NoBreak [] h = tt
all_lines-NoBreak (b ∷ bs) (k, h) =
    All-append NoBreak (lines_of b) (all_lines bs)
      (
        NoBreak-event_line b.event k.event,
        All-append NoBreak (map data_line b.pieces) ("" ∷ []) (data_lines-NoBreak b.pieces k.pieces)
            (tt, tt),
      )
      (all_lines-NoBreak bs h)

data_line_from-line :
    (at : Bool) (l t : String)
    → data_line_from true t ≡ true
    → data_line_from at (cat l (cons_text "\n" t)) ≡ true
unfolding data_line_from
data_line_from-line at empty_text t h = rw TextLemmas.nil-append (ground arith)
data_line_from-line at (cons_text c l) t h =
    rw TextLemmas.cons-append (ground (arith, data_line_from-line (ends_line (code c)) l t h))

starts_with-append : (p s : String) → starts_with p (cat p s) ≡ true
unfolding starts_with
starts_with-append p s = ground (arith, after-append p s)

data_line_from-start :
    (c : Char) (p s : String)
    → starts_with "data:" (cat (cons_text c p) s) ≡ true
    → data_line_from true (cat (cons_text c p) s) ≡ true
unfolding data_line_from
data_line_from-start c p s h =
    let k : starts_with "data:" (cons_text c (cat p s)) ≡ true = rw TextLemmas.cons-append at h in
    rw TextLemmas.cons-append (ground arith)

data_line_from-data : (p t : String) → data_line_from true (cat (data_line p) t) ≡ true
data_line_from-data p t =
    rw TextLemmas.append_assoc (
      data_line_from-start _ _ (cat (cat " " p) t) (starts_with-append "data:" (cat (cat " " p) t)))

data_line_from-all_lines :
    (b : Block) (bs : List Block)
    → IsBlock b
    → data_line_from true (text_of (all_lines (b ∷ bs))) ≡ true
data_line_from-all_lines b bs h =
    data_line_from-line true (event_line b.event) _ (first b.pieces h.some_data)
  where
    first :
        (ps : List String)
        → ps ≢ []
        → data_line_from true (text_of ((map data_line ps ++ "" ∷ []) ++ all_lines bs)) ≡ true
    first [] k = absurd (k refl)
    first (p ∷ ps) k = data_line_from-data p _

-- Events that have data, each piece of it on a line and unchanged by reading, are read back as
-- one frame each, in order: the frame has the event's name and its data joined by line feeds.
pub parse_sse-text_of :
    (bs : List Block)
    → All IsBlock bs
    → All OneLine bs
    → parse_sse (some (text_of (all_lines bs))) ≡ map frame_of bs
unfolding parse_sse
parse_sse-text_of [] h k = refl
parse_sse-text_of (b ∷ bs) (p, h) k =
    let raw = text_of (all_lines (b ∷ bs)) in
    rw (data_line_from-all_lines b bs p) (
      ap (λ ls. (flush (read_lines start ls)).out)
        (split_lines-text_of (all_lines (b ∷ bs)) (all_lines-NoBreak (b ∷ bs) k))
      ∙ ap (λ r. (flush r).out) (read-all_lines [] (b ∷ bs) ("" ∷ []) (p, h)))
