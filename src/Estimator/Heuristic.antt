-- ===== src/Estimator/Heuristic.antt =====
-- Bounds of the estimate by characters.
use Prim.Native.String.{String, [] as empty_text, ◌∷◌ as cons_text}
use text.Mathlib.TextEquality.{eq_iff}
use ailens.Base.Text.{trim}
use ailens.Base.{
  ℕ, ◌+◌, ◌*◌, ◌≤◌, ◌≡◌, ◌≢◌, ◌↔◌, refl, ◌==◌, string_has_eq, arith, inl, inr, Bool-cases,
}
use ailens.Estimator.{counts, heuristic_count}

-- The number of code points of a text.
abbrev pub size : String → ℕ
size empty_text = 0
size (cons_text c s) = size s + 1

counts-size : (s : String) → (counts s).cjk + (counts s).other + (counts s).whitespace ≡ size s
unfolding counts
counts-size empty_text = refl
counts-size (cons_text c s) = ground (arith, counts-size s)

size-zero : (s : String) → size s ≡ 0 → s ≡ ""
size-zero empty_text h = refl
size-zero (cons_text c s) h = absurd (sized (size s) h)
  where
    sized : (n : ℕ) → n + 1 ≢ 0
    sized n = omega arith

-- What the estimate of a text says of its length.
pub record IsEstimate (text : String) (tokens : ℕ) : Type 0 where
  pub at_most : tokens ≤ size text
  pub zero_iff_blank : (tokens ≡ 0) ↔ (trim text ≡ "")
  pub at_least : trim text ≢ "" → 2 * size text ≤ 7 * tokens

trim_of_nothing : (s : String) → s ≡ "" → trim s ≡ ""
unfolding trim
trim_of_nothing s h = rw h refl

-- The estimate by characters is at most one token for each character, it is zero exactly at a blank
-- text, and at another text it is at least two tokens for seven characters.
pub heuristic_count-IsEstimate : (text : String) → IsEstimate text (heuristic_count text)
unfolding heuristic_count
heuristic_count-IsEstimate text = elim (Bool-cases (trim text == "")) [
  | inl blank ↦ rw blank (record {
    at_most = omega arith;
    zero_iff_blank = (λ h. (eq_iff (trim text) "").0 blank, λ h. refl);
    at_least = λ h. absurd (h ((eq_iff (trim text) "").0 blank));
  })
  | inr full ↦ rw full (record {
    at_most = grind (arith, counts-size text);
    zero_iff_blank = (
      λ h. trim_of_nothing text (size-zero text (grind (arith, counts-size text))),
      λ h. ground (arith, eq_iff (trim text) ""),
    );
    at_least = λ h. grind (arith, counts-size text);
  })
]
