-- ===== src/AppShell/Tests.antt =====
-- Clicks in the sidebar.
use ailens.AppShell.Menus.{is_tidy, is_tidy-clicks}
use ailens.AppShell.{Target, mounted, clicks, switcher_button, collapse_button, user_button}
use ailens.Base.{true, false, List, [], ◌∷◌, ◌≡◌, refl}

abbrev three_clicks : List Target
three_clicks = switcher_button ∷ collapse_button ∷ user_button ∷ []

narrow : clicks three_clicks (mounted true false) ≡ record {
  in_project = true;
  collapsed = true;
  switcher_open = false;
  user_open = true;
  lang_open = false;
}
unfolding clicks mounted
narrow = refl

is_tidy-clicks_example : is_tidy (clicks three_clicks (mounted true false)) ≡ true
is_tidy-clicks_example = is_tidy-clicks three_clicks true false
