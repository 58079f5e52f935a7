-- ===== src/I18n.antt =====
-- The translations (frontend/src/i18n/index.tsx): the choice of the locale, its record in the
-- browser's storage, and `t`. The dictionaries are in I18n/Zh and I18n/En.
mod Zh
mod En
pub mod Replace
mod Keys
mod Tests
use Prim.Native.String.{String, ◌∷◌ as cons_text, ◌++◌ as cat}
use ailens.Base.{
  ℕ, Bool, true, false, List, [], ◌∷◌, Option, none, some, ◌==◌, string_has_eq, if◌then◌else◌,
}
use ailens.Base.Decimal.{decimal}
use ailens.Base.Keyed.{lookup}
use ailens.Base.Text.{starts_with}
use ailens.Estimator.{lower}
use ailens.I18n.En.{en}
use ailens.I18n.Replace.{replace_all}
use ailens.I18n.Zh.{zh}

pub data Locale : Type 0 where
  chinese english : Locale

-- The name of a locale in the code.
abbrev pub code_of : Locale → String
code_of chinese = "zh"
code_of english = "en"

-- `localeMap[locale]`
abbrev pub dictionary : Locale → List (String × String)
dictionary chinese = zh
dictionary english = en

-- `localStorage` at the key `ailens_locale`. A browser may refuse every access to it.
pub data Storage : Type 0 where
  refused : Storage
  stored : Option String → Storage

abbrev saved_locale : Storage → Option Locale
saved_locale refused = none
saved_locale (stored none) = none
saved_locale (stored (some saved)) =
    if saved == "zh" then some chinese else if saved == "en" then some english else none

-- `navigator.language`, `none` where there is no navigator.
unfoldable pub browser_locale : Option String → Locale
unfolding lower starts_with
browser_locale none = english
browser_locale (some language) = if starts_with "zh" (lower language) then chinese else english

abbrev either : Option Locale → Locale → Locale
either none fallback = fallback
either (some l) fallback = l

unfoldable pub detect : Storage → Option String → Locale
unfolding browser_locale
detect storage language = either (saved_locale storage) (browser_locale language)

pub record Page : Type 0 where
  pub storage : Storage
  pub lang : String

-- `localStorage.setItem(STORAGE_KEY, locale)`
abbrev pub written : Locale → Storage → Storage
written l refused = refused
written l (stored _) = stored (some (code_of l))

-- The effect of `I18nProvider`, which runs whenever the locale changes.
unfoldable pub remember : Locale → Page → Page
remember l page = record {
  storage = written l page.storage;
  lang = elim l [ chinese ↦ "zh-CN" | english ↦ "en" ];
}

-- The value of a variable: `string | number`.
pub data Var : Type 0 where
  text : String → Var
  number : ℕ → Var

unfoldable pub string_of_var : Var → String
unfolding decimal
string_of_var (text s) = s
string_of_var (number n) = decimal n

-- `{k}`
abbrev pub placeholder : String → String
placeholder k = cons_text "{" (cat k "}")

unfoldable pub replace_vars : List (String × Var) → String → String
unfolding replace_all string_of_var
replace_vars [] s = s
replace_vars (b ∷ vars) s = replace_vars vars (replace_all (placeholder b.0) (string_of_var b.1) s)

abbrev or_key : String → Option String → String
or_key key none = key
or_key key (some s) = s

-- `t(key, vars)` in a locale; without `vars` the list is empty.
unfoldable pub translate : Locale → String → List (String × Var) → String
unfolding lookup replace_vars
translate l key vars = replace_vars vars (or_key key (lookup key (dictionary l)))
