-- ===== src/I18n/Replace.antt =====
-- `s.replaceAll(pattern, replacement)` for a pattern that is not empty (used by frontend/src/i18n/index.tsx), as
-- ECMAScript defines it: in the replacement `$$` stands for a dollar, `$&` for the pattern, and `$`
-- before a backquote or an apostrophe for what precedes or follows the match.
use Prim.Native.Char.{Char, code}
use Prim.Native.String.{String, [] as empty_text, ◌∷◌ as cons_text, ◌++◌ as cat}
use text.Mathlib.TextLemmas
use ailens.Base.Text.{after}
use ailens.Base.{
  ℕ, Bool, true, false, ◌&&◌, not, none, some, ◌==◌, ℕ_has_eq, if◌then◌else◌, ◌≡◌, refl, ap, ap₂,
  ◌∙◌, arith, same_refl,
}

-- What a character behind a dollar stands for.
abbrev dollar : String → String → String → Char → String
dollar before matched following c =
    if code c == b'$'
    then "$"
    else if code c == b'&'
    then matched
    else if code c == b'`'
    then before
    else if code c == b'\''
    then following
    else cat "$" (cons_text c empty_text)

-- `GetSubstitution`; the flag tells that a dollar has been read and waits for its character.
unfoldable pub substitute : String → String → String → Bool → String → String
substitute before matched following true empty_text = "$"
substitute before matched following false empty_text = ""
substitute before matched following true (cons_text c s) =
    cat (dollar before matched following c) (substitute before matched following false s)
substitute before matched following false (cons_text c s) = elim (code c == b'$') [
  | true ↦ substitute before matched following true s
  | false ↦ cons_text c (substitute before matched following false s)
]

abbrev tail : String → String
tail empty_text = ""
tail (cons_text c s) = s

-- The rest of a text behind `seen`: `skipped` is what is left of a match.
unfoldable pub replace_from : String → String → String → String → String → String
unfolding after substitute
replace_from pattern v seen skipped empty_text = ""
replace_from pattern v seen (cons_text d ds) (cons_text c s) =
    replace_from pattern v (cat seen (cons_text c empty_text)) ds s
replace_from pattern v seen empty_text (cons_text c s) = elim (after pattern (cons_text c s)) [
  | none ↦ cons_text c (replace_from pattern v (cat seen (cons_text c empty_text)) "" s)
  | some following ↦
      cat (substitute seen pattern following false v)
        (replace_from pattern v (cat seen (cons_text c empty_text)) (tail pattern) s)
]

unfoldable pub replace_all : String → String → String → String
unfolding replace_from
replace_all pattern v s = replace_from pattern v "" "" s

-- A text without a character.
unfoldable pub lacks : ℕ → String → Bool
lacks n empty_text = true
lacks n (cons_text c s) = not (code c == n) && lacks n s

-- A replacement without a dollar is put in as it is.
substitute_of_plain :
    (before matched following v : String)
    → lacks b'$' v ≡ true
    → substitute before matched following false v ≡ v
unfolding substitute lacks
substitute_of_plain before matched following empty_text h = refl
substitute_of_plain before matched following (cons_text c v) h =
    ground (arith, substitute_of_plain before matched following v)

after_self : (p s : String) → after p (cat p s) ≡ some s
unfolding after
after_self empty_text s = ap some (TextLemmas.nil-append s)
after_self (cons_text c p) s = rw (TextLemmas.cons-append c p s) (ground (arith, after_self p s))

-- Where no pattern starts, nothing changes.
replace_from_of_lacking :
    (d : Char) (p v seen s : String)
    → lacks (code d) s ≡ true
    → replace_from (cons_text d p) v seen "" s ≡ s
unfolding replace_from lacks after
replace_from_of_lacking d p v seen empty_text h = refl
replace_from_of_lacking d p v seen (cons_text c s) h =
    ground (arith, replace_from_of_lacking d p v (cat seen (cons_text c empty_text)) s)

-- Reading over what is left of a match.
replace_from-skip :
    (pattern v seen p s : String)
    → (seen' : String) × (replace_from pattern v seen p (cat p s)
        ≡ replace_from pattern v seen' "" s)
unfolding replace_from
replace_from-skip pattern v seen empty_text s = (seen, rw (TextLemmas.nil-append s) refl)
replace_from-skip pattern v seen (cons_text c p) s =
    let (seen', e) = replace_from-skip pattern v (cat seen (cons_text c empty_text)) p s in
    (seen', rw (TextLemmas.cons-append c p s) e)

replace_from_at_match :
    (pattern v seen : String) (c : Char) (s following : String)
    → after pattern (cons_text c s) ≡ some following
    → replace_from pattern v seen "" (cons_text c s)
      ≡ cat
          (substitute seen pattern following false v)
          (replace_from pattern v (cat seen (cons_text c empty_text)) (tail pattern) s)
unfolding replace_from
replace_from_at_match pattern v seen c s following h = rw (replace_from, h) refl

-- The one occurrence of a pattern, whose first character occurs nowhere else, is replaced.
replace_from_of_one :
    (d : Char) (p v seen pre post : String)
    → lacks (code d) pre ≡ true
    → lacks (code d) post ≡ true
    → lacks b'$' v ≡ true
    → replace_from (cons_text d p) v seen "" (cat pre (cat (cons_text d p) post))
      ≡ cat pre (cat v post)
unfolding replace_from lacks after
replace_from_of_one d p v seen empty_text post h k plain =
    let (seen', skipped) =
      replace_from-skip (cons_text d p) v (cat seen (cons_text d empty_text)) p post in
    rw (TextLemmas.nil-append (cat (cons_text d p) post)) (
      rw (TextLemmas.nil-append (cat v post)) (
        rw (TextLemmas.cons-append d p post) (
          replace_from_at_match (cons_text d p) v seen d (cat p post) post
            (ground (arith, same_refl (code d), after_self p post))
          ∙ ap₂ cat (substitute_of_plain seen (cons_text d p) post v plain)
              (skipped ∙ replace_from_of_lacking d p v seen' post k))))
replace_from_of_one d p v seen (cons_text c pre) post h k plain =
    let e = replace_from_of_one d p v (cat seen (cons_text c empty_text)) pre post in
    rw
      (
        TextLemmas.cons-append c pre (cat (cons_text d p) post),
        TextLemmas.cons-append c pre (cat v post),
      )
      (ground (arith, e))

pub replace_all_of_one :
    (d : Char) (p v pre post : String)
    → lacks (code d) pre ≡ true
    → lacks (code d) post ≡ true
    → lacks b'$' v ≡ true
    → replace_all (cons_text d p) v (cat pre (cat (cons_text d p) post)) ≡ cat pre (cat v post)
unfolding replace_all
replace_all_of_one d p v pre post h k plain = replace_from_of_one d p v "" pre post h k plain
