-- ===== src/I18n/En.antt =====
-- The dictionary `en` (frontend/src/i18n/locales.ts), in the order of the source.
mod Pages
mod Detail
use ailens.Base.{String, List, ◌++◌}
use ailens.I18n.En.Pages.{en_shell, en_pages}
use ailens.I18n.En.Detail.{en_detail, en_setup}

abbrev pub en : List (String × String)
en = en_shell ++ (en_pages ++ (en_detail ++ en_setup))
