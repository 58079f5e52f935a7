-- ===== src/AppShell.antt =====
-- The sidebar of the application (`useCollapsed` and `Sidebar` in
-- frontend/src/components/AppShell.tsx): its width, which is kept in the browser's storage, and its
-- three menus, as clicks of the mouse change them. Links that leave the shell are not modelled.
mod Menus
mod Tests
use Prim.Native.String.{String}
use ailens.Base.{
  Bool, true, false, not, ◌||◌, ◌&&◌, List, [], ◌∷◌, Option, none, some, ◌==◌, string_has_eq,
  if◌then◌else◌,
}
use ailens.I18n.{Storage, refused, stored}

-- `useCollapsed`: the first state, from `localStorage` at the key `ailens_sidebar_collapsed`.
unfoldable pub first_collapsed : Storage → Bool
first_collapsed refused = false
first_collapsed (stored none) = false
first_collapsed (stored (some s)) = s == "1"

-- Its effect, which runs whenever the state changes.
unfoldable pub remember_collapsed : Bool → Storage → Storage
remember_collapsed collapsed refused = refused
remember_collapsed collapsed (stored _) = stored (some (if collapsed then "1" else "0"))

-- `open` is the project switcher, `user_open` and `lang_open` the menus of the user and the language.
pub record Sidebar : Type 0 where
  pub in_project : Bool
  pub collapsed : Bool
  pub switcher_open : Bool
  pub user_open : Bool
  pub lang_open : Bool

unfoldable pub mounted : Bool → Bool → Sidebar
mounted in_project collapsed = record {
  in_project = in_project;
  collapsed = collapsed;
  switcher_open = false;
  user_open = false;
  lang_open = false;
}

-- What a click can hit.
pub data Target : Type 0 where
  collapse_button switcher_button project_link manage_link module_link all_projects_link : Target
  language_button locale_item user_button elsewhere : Target

-- `ProjectNav` renders its switcher only while the sidebar is wide.
unfoldable pub has_switcher : Sidebar → Bool
has_switcher s = s.in_project && not s.collapsed

-- Whether a target is on the page.
unfoldable pub on_page : Target → Sidebar → Bool
unfolding has_switcher
on_page switcher_button s = has_switcher s
on_page project_link s = has_switcher s && s.switcher_open
on_page manage_link s = has_switcher s && s.switcher_open
on_page module_link s = s.in_project
on_page all_projects_link s = not s.in_project
on_page locale_item s = s.lang_open
on_page collapse_button s = true
on_page language_button s = true
on_page user_button s = true
on_page elsewhere s = true

-- `switcherRef.current.contains(e.target)`
unfoldable in_switcher : Target → Bool
in_switcher switcher_button = true
in_switcher project_link = true
in_switcher manage_link = true
in_switcher t = false

-- `langRef.current.contains(e.target)`
unfoldable in_language : Target → Bool
in_language language_button = true
in_language locale_item = true
in_language t = false

-- `userRef.current.contains(e.target)`
unfoldable in_user : Target → Bool
in_user user_button = true
in_user t = false

-- The listeners of the open menus on `mousedown`. That of the switcher has no element to compare with
-- while the switcher is not rendered, and does nothing then.
unfoldable pub mouse_down : Target → Sidebar → Sidebar
unfolding has_switcher in_switcher in_language in_user
mouse_down t s = record s {
  switcher_open = s.switcher_open && not (has_switcher s && not (in_switcher t));
  lang_open = s.lang_open && in_language t;
  user_open = s.user_open && in_user t;
}

-- The effect on `collapsed`.
unfoldable pub force_close : Sidebar → Sidebar
force_close s = if s.collapsed then record s { switcher_open = false; user_open = false } else s

-- The `onClick` of the target, and the navigation of a link.
unfoldable pub press : Target → Sidebar → Sidebar
unfolding force_close
press collapse_button s = force_close (record s { collapsed = not s.collapsed })
press switcher_button s = record s { switcher_open = not s.switcher_open }
press project_link s = record s { switcher_open = false }
press manage_link s = record s { in_project = false; switcher_open = false }
press module_link s = s
press all_projects_link s = s
press language_button s = record s { lang_open = not s.lang_open }
press locale_item s = record s { lang_open = false }
press user_button s = record s { user_open = not s.user_open }
press elsewhere s = s

unfoldable pub mouse_click : Target → Sidebar → Sidebar
unfolding on_page mouse_down press
mouse_click t s = if on_page t s then press t (mouse_down t s) else s

unfoldable pub clicks : List Target → Sidebar → Sidebar
unfolding mouse_click
clicks [] s = s
clicks (t ∷ ts) s = clicks ts (mouse_click t s)
