-- ===== src/I18n/Tests.antt =====
-- Runs of the translations.
use ailens.Base.{true, string_has_eq, ◌≡◌, refl, String, [], ◌∷◌, none, some}
use ailens.Base.Keyed.{lookup}
use ailens.Base.Keyed.Order.{is_some}
use ailens.I18n.Replace.{replace_all, lacks}
use ailens.I18n.Keys.{
  IsDistinct, dictionary-IsComplete, placeholders, placeholders_of_translations, translate_of_one,
  detect-remember,
}
use ailens.I18n.{
  english, chinese, translate, text, number, detect, refused, stored, remember, dictionary,
  string_of_var,
}

total : translate chinese "traces.total" (("n", number 12) ∷ []) ≡ "共 12 条 trace"
unfolding translate
total = refl

no_key : translate english "traces.missing" [] ≡ "traces.missing"
unfolding translate
no_key = refl

dollars :
    translate english "settings.danger.delete" (("name", text "a$&b$$") ∷ [])
    ≡ "Delete project \"a{name}b$\""
unfolding translate
dollars = refl

overlapping : replace_all "aa" "b" "aaaxaa" ≡ "baxb"
unfolding replace_all
overlapping = refl

neighbours : replace_all "-" "[$`|$']" "a-b" ≡ "a[a|b]b"
unfolding replace_all
neighbours = refl

saved_wins : detect (stored (some "en")) (some "zh-CN") ≡ english
unfolding detect
saved_wins = refl

unknown_saved : detect (stored (some "fr")) (some "ZH-tw") ≡ chinese
unfolding detect
unknown_saved = refl

no_storage : detect refused none ≡ english
unfolding detect
no_storage = refl

zh_total : lookup "traces.total" (dictionary chinese) ≡ some "共 {n} 条 trace"
unfolding lookup
zh_total = refl

en_total : lookup "traces.total" (dictionary english) ≡ some "{n} traces"
unfolding lookup
en_total = refl

en_delete : lookup "settings.danger.delete" (dictionary english) ≡ some "Delete project \"{name}\""
unfolding lookup
en_delete = refl

no_brace_before : lacks b'{' "Delete project \"" ≡ true
unfolding lacks
no_brace_before = refl

no_brace_behind : lacks b'{' "\"" ≡ true
unfolding lacks
no_brace_behind = refl

no_dollar : lacks b'$' (string_of_var (text "demo")) ≡ true
unfolding lacks string_of_var
no_dollar = refl

dictionary-IsComplete_example :
    IsDistinct (dictionary english)
    × ((k : String)
        → is_some (lookup k (dictionary english)) ≡ true
        → is_some (lookup k (dictionary chinese)) ≡ true)
dictionary-IsComplete_example = dictionary-IsComplete english chinese

placeholders_of_translations_run : placeholders "共 {n} 条 trace" ≡ placeholders "{n} traces"
placeholders_of_translations_run =
    placeholders_of_translations chinese english "traces.total" "共 {n} 条 trace" "{n} traces"
      zh_total en_total

translate_of_one_example :
    translate english "settings.danger.delete" (("name", text "demo") ∷ [])
    ≡ "Delete project \"demo\""
unfolding string_of_var
translate_of_one_example =
    translate_of_one english "settings.danger.delete" "name" "Delete project \"" "\"" (text "demo")
      en_delete no_brace_before no_brace_behind no_dollar

detect-remember_run :
    detect (remember chinese (record { storage = stored none; lang = "" })).storage (some "en-US")
    ≡ chinese
detect-remember_run =
    detect-remember chinese (record { storage = stored none; lang = "" }) (some "en-US")
