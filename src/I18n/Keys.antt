-- ===== src/I18n/Keys.antt =====
-- The dictionaries side by side: their keys, and the placeholders in their texts.
use Prim.Native.Char.{code}
use Prim.Native.String.{[] as empty_text, ◌∷◌ as cons_text, ◌++◌ as cat}
use ailens.Base.{
  ◌≡◌, refl, sym, ◌∙◌, subst, Bool, true, false, not, ◌&&◌, List, [], ◌∷◌, Option, none, some, ◌==◌,
  string_has_eq, ℕ_has_eq, arith, ap, String, inl, inr, Bool-cases, Option-cases, eq_of_same,
}
use ailens.Base.Keyed.{lookup}
use ailens.Base.Keyed.Order.{is_some}
use ailens.I18n.Replace.{lacks, replace_all_of_one}
use ailens.I18n.{
  Locale, Var, translate, english, chinese, dictionary, placeholder, replace_vars, or_key,
  string_of_var, Page, Storage, refused, stored, detect, remember, browser_locale, written,
}

-- Every key of the first dictionary is one of the second.
all_keys : List (String × String) → List (String × String) → Bool
unfolding lookup
all_keys [] d = true
all_keys (e ∷ c) d = is_some (lookup e.0 d) && all_keys c d

all_keys-lookup :
    (c d : List (String × String)) (k : String)
    → all_keys c d ≡ true
    → is_some (lookup k c) ≡ true
    → is_some (lookup k d) ≡ true
unfolding all_keys lookup
all_keys-lookup [] d k h p = ground arith
all_keys-lookup (e ∷ c) d k h p = elim (Bool-cases (e.0 == k)) [
  | inl same ↦ subst (λ j. is_some (lookup j d) ≡ true) (eq_of_same e.0 k same) (ground arith)
  | inr other ↦ all_keys-lookup c d k (ground arith) (ground arith)
]

has_key : String → List (String × String) → Bool
unfolding lookup
has_key k d = is_some (lookup k d)

all_distinct : List (String × String) → Bool
unfolding has_key
all_distinct [] = true
all_distinct (e ∷ d) = not (has_key e.0 d) && all_distinct d

-- A dictionary names no key twice.
abbrev pub IsDistinct : List (String × String) → Type 0
IsDistinct [] = Unit
IsDistinct (e ∷ d) = (lookup e.0 d ≡ none) × IsDistinct d

all_distinct-IsDistinct : (d : List (String × String)) → all_distinct d ≡ true → IsDistinct d
unfolding all_distinct
all_distinct-IsDistinct [] h = tt
all_distinct-IsDistinct (e ∷ d) h = elim (Option-cases (lookup e.0 d)) [
  | inl missing ↦ (missing, all_distinct-IsDistinct d (ground arith))
  | inr (s, found) ↦ ground arith
]

dictionary-IsDistinct : (l : Locale) → all_distinct (dictionary l) ≡ true
unfolding all_distinct has_key lookup
dictionary-IsDistinct chinese = refl
dictionary-IsDistinct english = refl

dictionary-keys : (l m : Locale) → all_keys (dictionary l) (dictionary m) ≡ true
unfolding all_keys lookup
dictionary-keys chinese chinese = refl
dictionary-keys chinese english = refl
dictionary-keys english chinese = refl
dictionary-keys english english = refl

-- A dictionary has each of its keys once, and a key of one locale is a key of the other.
pub dictionary-IsComplete :
    (l m : Locale)
    → IsDistinct (dictionary l)
      × ((k : String)
          → is_some (lookup k (dictionary l)) ≡ true
          → is_some (lookup k (dictionary m)) ≡ true)
dictionary-IsComplete l m = (
  all_distinct-IsDistinct (dictionary l) (dictionary-IsDistinct l),
  λ k. all_keys-lookup (dictionary l) (dictionary m) k (dictionary-keys l m),
)

-- What stands in the braces of a text, with the braces, in order.
unfoldable pub in_braces : Bool → String → String
in_braces inside empty_text = ""
in_braces true (cons_text c s) = cons_text c (in_braces (not (code c == b'}')) s)
in_braces false (cons_text c s) = elim (code c == b'{') [
  | true ↦ cons_text c (in_braces true s)
  | false ↦ in_braces false s
]

unfoldable pub placeholders : String → String
unfolding in_braces
placeholders s = in_braces false s

-- Each text has the placeholders that a list gives for its key.
agree : List (String × String) → List (String × String) → Bool
unfolding placeholders
agree [] d = true
agree (e ∷ c) d = placeholders e.1 == placeholders (or_key "" (lookup e.0 d)) && agree c d

agree-lookup :
    (c d : List (String × String)) (k s u : String)
    → agree c d ≡ true
    → lookup k c ≡ some s
    → lookup k d ≡ some u
    → placeholders s ≡ placeholders u
unfolding agree lookup placeholders
agree-lookup [] d k s u h p q = ground arith
agree-lookup (e ∷ c) d k s u h p q = elim (Bool-cases (e.0 == k)) [
  | inl same ↦
      let own : e.1 ≡ s = ground arith in
      let found : lookup e.0 d ≡ some u =
        subst (λ j. lookup j d ≡ some u) (sym (eq_of_same e.0 k same)) q in
      let alike : (placeholders e.1 == placeholders (or_key "" (lookup e.0 d))) ≡ true =
        ground arith in
      ap placeholders (sym own)
      ∙ (eq_of_same (placeholders e.1) (placeholders (or_key "" (lookup e.0 d))) alike
          ∙ rw found refl)
  | inr other ↦ agree-lookup c d k s u (ground arith) (ground arith) q
]

dictionaries_agree : (l m : Locale) → agree (dictionary l) (dictionary m) ≡ true
unfolding agree placeholders lookup
dictionaries_agree chinese chinese = refl
dictionaries_agree chinese english = refl
dictionaries_agree english chinese = refl
dictionaries_agree english english = refl

-- The texts of a key have the same placeholders, in order, in both locales.
pub placeholders_of_translations :
    (l m : Locale) (k s u : String)
    → lookup k (dictionary l) ≡ some s
    → lookup k (dictionary m) ≡ some u
    → placeholders s ≡ placeholders u
placeholders_of_translations l m k s u =
    agree-lookup (dictionary l) (dictionary m) k s u (dictionaries_agree l m)

-- If the text of a key has the placeholder of one variable and no other brace is opened in it, and
-- the value of the variable has no dollar, then the value stands in the placeholder's place.
pub translate_of_one :
    (l : Locale) (k x pre post : String) (v : Var)
    → lookup k (dictionary l) ≡ some (cat pre (cat (placeholder x) post))
    → lacks b'{' pre ≡ true
    → lacks b'{' post ≡ true
    → lacks b'$' (string_of_var v) ≡ true
    → translate l k ((x, v) ∷ []) ≡ cat pre (cat (string_of_var v) post)
unfolding translate replace_vars
translate_of_one l k x pre post v found h j plain =
    rw found (replace_all_of_one "{" (cat x "}") (string_of_var v) pre post h j plain)

detect-written :
    (l : Locale) (storage : Storage) (language : Option String)
    → detect (written l storage) language
      ≡ (elim storage [ refused ↦ browser_locale language | stored _ ↦ l ])
unfolding detect
detect-written l refused language = refl
detect-written chinese (stored s) language = refl
detect-written english (stored s) language = refl

-- Whatever the browser's language is, the locale that a page remembered is the one that the next
-- visit detects; where the storage refuses, that is the browser's.
pub detect-remember :
    (l : Locale) (page : Page) (language : Option String)
    → detect (remember l page).storage language
      ≡ (elim page.storage [ refused ↦ browser_locale language | stored _ ↦ l ])
unfolding detect remember
detect-remember l page language = detect-written l page.storage language
