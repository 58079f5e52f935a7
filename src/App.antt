-- ===== src/App.antt =====
-- The title of the document (`moduleTitleKey` and `DocumentTitle` in frontend/src/App.tsx).
mod Tests
use Prim.Native.Char.{Char, code}
use Prim.Native.String.{String, [] as empty_text, ◌∷◌ as cons_text, ◌++◌ as cat}
use ailens.Base.{
  ℕ, Bool, true, false, ◌||◌, Option, none, some, ◌==◌, ℕ_has_eq, string_has_eq, List, [],
  if◌then◌else◌,
}
use ailens.Base.Text.{after}
use ailens.I18n.{Locale, translate}

-- `[^/]*` at the start of a text, and the rest.
unfoldable pub segment : String → String × String
segment empty_text = ("", "")
segment (cons_text c s) =
    let (seg, rest) = segment s in
    if code c == b'/' then ("", cons_text c s) else (cons_text c seg, rest)

abbrev filled : String → Option String
filled s = if s == "" then none else some s

abbrev module_of : Option String → Option String
unfolding segment
module_of none = none
module_of (some s) = filled (segment s).0

-- `path.match(/^\/projects\/[^/]+\/([^/]+)/)`, the second group, for what follows `/projects/`.
unfoldable pub project_module : Option String → Option String
unfolding segment module_of after
project_module none = none
project_module (some s) =
    let (project, rest) = segment s in if project == "" then none else module_of (after "/" rest)

abbrev title_key : String → Option String
title_key m =
    if m == "overview"
    then some "nav.module.overview"
    else if m == "traces"
    then some "nav.module.traces"
    else if m == "sessions"
    then some "nav.module.sessions"
    else if m == "users"
    then some "nav.module.users"
    else if m == "setup"
    then some "nav.module.setup"
    else if m == "settings"
    then some "nav.module.settings"
    else none

abbrev and_then : Option String → (String → Option String) → Option String
and_then none f = none
and_then (some s) f = f s

unfoldable pub module_title_key : String → Option String
unfolding project_module after
module_title_key path =
    if path == "/" || path == "" || path == "/login"
    then none
    else if path == "/projects" || path == "/projects/"
    then some "nav.allProjects"
    else and_then (project_module (after "/projects/" path)) title_key

abbrev titled : Locale → Option String → String
unfolding translate
titled l none = "AILens360"
titled l (some key) = cat (translate l key []) (cat " | " "AILens360")

-- What the effect of `DocumentTitle` sets.
unfoldable pub document_title : Locale → String → String
unfolding titled module_title_key
document_title l path = titled l (module_title_key path)
