-- ===== src/I18n/Zh.antt =====
-- The dictionary `zh` (frontend/src/i18n/locales.ts), in the order of the source.
mod Pages
mod Detail
use ailens.Base.{String, List, ◌++◌}
use ailens.I18n.Zh.Pages.{zh_shell, zh_pages}
use ailens.I18n.Zh.Detail.{zh_detail, zh_setup}

abbrev pub zh : List (String × String)
zh = zh_shell ++ (zh_pages ++ (zh_detail ++ zh_setup))
