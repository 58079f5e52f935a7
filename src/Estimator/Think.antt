-- ===== src/Estimator/Think.antt =====
-- What `stripThink` leaves of a text.
use Prim.Native.Char.{Char, code}
use Prim.Native.String.{String, [] as empty_text, ◌∷◌ as cons_text, ◌++◌ as cat}
use text.Mathlib.TextEquality.{Char-path}
use text.Mathlib.TextLemmas
use ailens.Base.Text.{after, starts_with}
use ailens.Base.{
  ◌≡◌, sym, ap, ap₂, subst, ◌∙◌, false, Option, none, some, inl, inr, arith, Option-cases,
  Bool-cases, ◌==◌, ℕ_has_eq, eq_of_same,
}
use ailens.Estimator.{includes, behind_last, strip_think}

some-injective : {s t : String} → ◌≡◌ {A = Option String} (some s) (some t) → s ≡ t
some-injective h = cc

after-eq-some : (p s t : String) → after p s ≡ some t → s ≡ cat p t
unfolding after
after-eq-some empty_text s t h = some-injective h ∙ sym (TextLemmas.nil-append t)
after-eq-some (cons_text d p) empty_text t h = cc
after-eq-some (cons_text d p) (cons_text c s) t h = elim (Bool-cases (code c == code d)) [
  | inl same ↦
      ap₂ cons_text (Char-path c d (eq_of_same (code c) (code d) same))
        (after-eq-some p s t (ground arith))
      ∙ sym (TextLemmas.cons-append d p t)
  | inr other ↦ ground arith
]

tail_excludes :
    (p : String) (c : Char) (s : String) → includes p (cons_text c s) ≡ false → includes p s ≡ false
unfolding includes
tail_excludes p c s h = ground arith

includes-suffix : (p u t : String) → includes p (cat u t) ≡ false → includes p t ≡ false
includes-suffix p empty_text t h = subst (λ s. includes p s ≡ false) (TextLemmas.nil-append t) h
includes-suffix p (cons_text c u) t h = includes-suffix p u t (
    tail_excludes p c (cat u t)
      (subst (λ s. includes p s ≡ false) (TextLemmas.cons-append c u t) h))

-- What `behind_last` finds, or that there is nothing to find.
behind_last-eq-none : (p s : String) → behind_last p s ≡ none → includes p s ≡ false
unfolding behind_last includes starts_with
behind_last-eq-none p empty_text h = ground arith
behind_last-eq-none p (cons_text c s) h = ground (arith, behind_last-eq-none p s)

after-tail :
    (d c : Char) (p s t : String)
    → after (cons_text d p) (cons_text c s) ≡ some t
    → after p s ≡ some t
unfolding after
after-tail d c p s t h = ground arith

behind_last-eq-some :
    (d : Char) (p s t : String)
    → behind_last (cons_text d p) s ≡ some t
    → (u : String) × (s ≡ cat u (cat (cons_text d p) t)) × (includes (cons_text d p) t ≡ false)
unfolding behind_last
behind_last-eq-some d p empty_text t h = cc
behind_last-eq-some d p (cons_text c s) t h = elim (Option-cases (behind_last (cons_text d p) s)) [
  | inl nothing ↦
      let found : after (cons_text d p) (cons_text c s) ≡ some t = ground arith in
      let whole = after-eq-some (cons_text d p) (cons_text c s) t found in
      (
        "",
        whole ∙ sym (TextLemmas.nil-append _),
        includes-suffix (cons_text d p) p t (
            subst (λ r. includes (cons_text d p) r ≡ false)
              (after-eq-some p s t (after-tail d c p s t found))
              (behind_last-eq-none (cons_text d p) s nothing)),
      )
  | inr (w, later) ↦
      let (u, split, clean) = behind_last-eq-some d p s t (later ∙ ground arith) in
      (cons_text c u, ap (cons_text c) split ∙ sym (TextLemmas.cons-append c u _), clean)
]

abbrev pub marker : String
marker = "</think>"

-- What stays of a text: all of it, or what stands behind its last marker.
pub data IsStripped (content : String) : String → Type 0 where
  whole : includes marker content ≡ false → IsStripped content content
  behind :
      (u t : String)
      → content ≡ cat u (cat marker t)
      → includes marker t ≡ false
      → IsStripped content t

-- A text without the marker stays as it is; of another one stays what stands behind its last marker,
-- in which no marker is left.
pub strip_think-IsStripped : (content : String) → IsStripped content (strip_think content)
unfolding strip_think
strip_think-IsStripped content = elim (Option-cases (behind_last marker content)) [
  | inl nothing ↦ rw (strip_think, nothing) (whole (behind_last-eq-none marker content nothing))
  | inr (t, found) ↦
      let (u, split, clean) = behind_last-eq-some _ _ content t found in
      rw (strip_think, found) (behind u t split clean)
]
