-- ===== src/App/Tests.antt =====
-- Titles.
use ailens.App.{document_title, module_title_key}
use ailens.Base.{◌≡◌, refl, none, some}
use ailens.I18n.{english}

of_trace : document_title english "/projects/p1/traces/t1" ≡ "Traces | AILens360"
unfolding document_title
of_trace = refl

of_landing : document_title english "/login" ≡ "AILens360"
unfolding document_title
of_landing = refl

of_unknown : module_title_key "/projects/p1/else" ≡ none
unfolding module_title_key
of_unknown = refl

of_list : module_title_key "/projects/" ≡ some "nav.allProjects"
unfolding module_title_key
of_list = refl
