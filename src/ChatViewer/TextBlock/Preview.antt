-- ===== src/ChatViewer/TextBlock/Preview.antt =====
-- The preview of a long text beside what it leaves out.
use Prim.Native.Char.{Char, code}
use Prim.Native.String.{String, [] as empty_text, ◌∷◌ as cons_text, ◌++◌ as cat}
use text.Mathlib.TextEquality.{Char-path}
use text.Mathlib.TextLemmas
use ailens.Base.{
  ℕ, zero, suc, ◌<◌, ◌≤◌, true, false, List, [], ◌∷◌, leb, ltb, ◌==◌, ℕ_has_eq, ◌≡◌, refl, sym, ap,
  ◌∙◌, arith, length, eq_of_same, Bool-cases, inl, inr, ◌⊎◌, subst,
}
use ailens.Base.Text.{join, split_newline, onto_first, take, drop, text_length}
use ailens.Base.Text.Parts.{text_length-append, take-drop, text_length-take}
use ailens.ChatViewer.TextBlock.{
  by_chars, by_lines, collapse_chars, collapse_lines, first_lines, needs_collapse, preview,
  remaining,
}

-- The first lines of a text are its beginning; they leave something out if there are more lines.
join-first_lines :
    (n : ℕ) (l : String) (ls : List String)
    → (rest : String) × (join "\n" (l ∷ ls) ≡ cat (join "\n" (first_lines (suc n) (l ∷ ls))) rest)
      × (suc n < length (l ∷ ls) → 0 < text_length rest)
unfolding join text_length
join-first_lines zero l [] = ("", sym (TextLemmas.append-nil l), λ h. ground arith)
join-first_lines (suc n) l [] = ("", sym (TextLemmas.append-nil l), λ h. ground arith)
join-first_lines zero l (k ∷ ls) =
    let rest = cat "\n" (join "\n" (k ∷ ls)) in
    (rest, refl, λ h. omega (arith, text_length-append "\n" (join "\n" (k ∷ ls))))
join-first_lines (suc n) l (k ∷ ls) =
    let (rest, e, longer) = join-first_lines n k ls in
    let kept = join "\n" (first_lines (suc n) (k ∷ ls)) in
    (
      rest,
      ap (λ x. cat l (cat "\n" x)) e
          ∙ (ap (cat l) (sym (TextLemmas.append_assoc "\n" kept rest))
              ∙ sym (TextLemmas.append_assoc l (cat "\n" kept) rest)),
      λ h. longer (ground (arith, h)),
    )

join-onto_first :
    (c : Char) (p : String) (ps : List String)
    → join "\n" (onto_first c (p ∷ ps)) ≡ cons_text c (join "\n" (p ∷ ps))
unfolding join
join-onto_first c p [] = refl
join-onto_first c p (q ∷ ps) = TextLemmas.cons-append c p (cat "\n" (join "\n" (q ∷ ps)))

split_newline-cons : (s : String) → (p : String) × (ps : List String) × (split_newline s ≡ p ∷ ps)
unfolding split_newline
split_newline-cons empty_text = ("", [], refl)
split_newline-cons (cons_text c s) =
    let (p, ps, e) = split_newline-cons s in
    elim (Bool-cases (code c == b'\n')) [
      | inl line_end ↦ ("", split_newline s, rw line_end refl)
      | inr other ↦ (cons_text c p, ps, rw (other, e) refl)
    ]

join-split_newline : (s : String) → join "\n" (split_newline s) ≡ s
unfolding join split_newline
join-split_newline empty_text = refl
join-split_newline (cons_text c s) =
    let (p, ps, e) = split_newline-cons s in
    let whole : join "\n" (p ∷ ps) ≡ s = subst (λ l. join "\n" l ≡ s) e (join-split_newline s) in
    elim (Bool-cases (code c == b'\n')) [
      | inl line_end ↦
          rw (line_end, e)
            (TextLemmas.nil-append (cat "\n" (join "\n" (p ∷ ps)))
              ∙ (ap (cat "\n") whole
                  ∙ (TextLemmas.cons-append "\n" "" s
                      ∙ (ap (cons_text "\n") (TextLemmas.nil-append s)
                          ∙ ap (λ d. cons_text d s)
                              (Char-path "\n" c (sym (eq_of_same (code c) b'\n' line_end)))))))
      | inr other ↦ rw (other, e) (join-onto_first c p ps ∙ ap (cons_text c) whole)
    ]

text-by_lines :
    (text : String)
    → (rest : String) × (text ≡ cat (by_lines text) rest)
      × (collapse_lines < length (split_newline text) → 0 < text_length rest)
unfolding by_lines
text-by_lines text =
    let (p, ps, e) = split_newline-cons text in
    let (rest, parts, longer) = join-first_lines 7 p ps in
    let whole : join "\n" (p ∷ ps) ≡ text =
      subst (λ l. join "\n" l ≡ text) e (join-split_newline text) in
    (
      rest,
      subst (λ ls. text ≡ cat (join "\n" (first_lines collapse_lines ls)) rest) (sym e)
          (sym whole ∙ parts),
      subst (λ ls. collapse_lines < length ls → 0 < text_length rest) (sym e) longer,
    )

-- The part of a text that a preview leaves out.
abbrev pub LeavesOut : String → String → Type 0
LeavesOut text rest =
    (text ≡ cat (preview text) rest) × (remaining text ≡ text_length rest) × (0 < text_length rest)

preview_of_lines :
    (text : String)
    → leb (text_length (by_lines text)) (text_length (by_chars text)) ≡ true
    → preview text ≡ by_lines text
unfolding preview
preview_of_lines text h = rw h refl

preview_of_chars :
    (text : String)
    → leb (text_length (by_lines text)) (text_length (by_chars text)) ≡ false
    → preview text ≡ by_chars text
unfolding preview
preview_of_chars text h = rw h refl

long-cases :
    (text : String)
    → needs_collapse text ≡ true
    → (collapse_chars < text_length text) ⊎ (collapse_lines < length (split_newline text))
unfolding needs_collapse
long-cases text h = elim (Bool-cases (ltb collapse_chars (text_length text))) [
  | inl long ↦ inl (ground arith)
  | inr short ↦ inr (ground arith)
]

-- A long text starts with its preview, which has at most 600 characters, and what the preview leaves
-- out is not empty and has as many characters as the button tells. Characters are code points.
pub preview-LeavesOut :
    (text : String)
    → needs_collapse text ≡ true
    → (text_length (preview text) ≤ collapse_chars) × (rest : String) × LeavesOut text rest
unfolding preview remaining needs_collapse by_chars
preview-LeavesOut text long =
    let (rest, parts, longer) = text-by_lines text in
    let lines = ap text_length parts ∙ text_length-append (by_lines text) rest in
    let chars = text_length-take collapse_chars text in
    let both =
      ap text_length (sym (take-drop collapse_chars text))
      ∙ text_length-append (take collapse_chars text) (drop collapse_chars text) in
    elim (Bool-cases (leb (text_length (by_lines text)) (text_length (by_chars text)))) [
      | inl fewer ↦
          let p = preview_of_lines text fewer in
          let n = ap text_length p in
          (
            ground (arith, n, chars, fewer),
            rest,
            (
              parts ∙ ap (λ x. cat x rest) (sym p),
              ground (arith, n, lines),
              elim (long-cases text long) [
                | inl many ↦ ground (arith, chars, fewer, lines, many)
                | inr more_lines ↦ longer more_lines
              ],
            ),
          )
      | inr more ↦
          let p = preview_of_chars text more in
          let n = ap text_length p in
          (
            ground (arith, n, chars),
            drop collapse_chars text,
            (
              sym (take-drop collapse_chars text)
                  ∙ ap (λ x. cat x (drop collapse_chars text)) (sym p),
              ground (arith, n, both),
              elim (long-cases text long) [
                | inl many ↦ ground (arith, chars, both, many)
                | inr more_lines ↦ ground (arith, chars, both, lines, more, longer more_lines)
              ],
            ),
          )
    ]
