-- ===== src/AppShell/Menus.antt =====
-- The menus of the sidebar (`Sidebar` in frontend/src/components/AppShell.tsx).
use ailens.AppShell.{
  Sidebar, Target, collapse_button, switcher_button, project_link, manage_link, module_link,
  all_projects_link, language_button, locale_item, user_button, elsewhere, mounted, mouse_click,
  clicks,
}
use ailens.Base.{Bool, true, not, ◌||◌, ◌&&◌, List, [], ◌∷◌, ◌≡◌, refl, arith}

-- At most one menu is open, and the switcher only where it is rendered.
unfoldable pub is_tidy : Sidebar → Bool
is_tidy s =
    not (s.switcher_open && (s.user_open || s.lang_open || s.collapsed || not s.in_project))
    && not (s.user_open && s.lang_open)

tidy-mouse_click : (t : Target) (s : Sidebar) → is_tidy s ≡ true → is_tidy (mouse_click t s) ≡ true
unfolding is_tidy mouse_click
tidy-mouse_click collapse_button s h = ground arith
tidy-mouse_click switcher_button s h = ground arith
tidy-mouse_click project_link s h = ground arith
tidy-mouse_click manage_link s h = ground arith
tidy-mouse_click module_link s h = ground arith
tidy-mouse_click all_projects_link s h = ground arith
tidy-mouse_click language_button s h = ground arith
tidy-mouse_click locale_item s h = ground arith
tidy-mouse_click user_button s h = ground arith
tidy-mouse_click elsewhere s h = ground arith

tidy-clicks : (ts : List Target) (s : Sidebar) → is_tidy s ≡ true → is_tidy (clicks ts s) ≡ true
unfolding clicks
tidy-clicks [] s h = h
tidy-clicks (t ∷ ts) s h = tidy-clicks ts (mouse_click t s) (tidy-mouse_click t s h)

-- Whatever the mouse clicks on after the sidebar has been mounted, at most one menu is open, and the
-- project switcher only in a project and while the sidebar is wide.
pub is_tidy-clicks :
    (ts : List Target) (in_project collapsed : Bool)
    → is_tidy (clicks ts (mounted in_project collapsed)) ≡ true
unfolding is_tidy mounted
is_tidy-clicks ts in_project collapsed = tidy-clicks ts (mounted in_project collapsed) refl
