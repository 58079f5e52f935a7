-- ===== src/Login.antt =====
-- The guard of the protected pages (`RequireAuth` in frontend/src/App.tsx) and the form that signs a
-- user in (frontend/src/components/LoginModal.tsx).
pub mod Return
mod Tests
use Prim.Native.String.{String, ◌++◌ as cat}
use ailens.Base.{
  ℕ, Bool, true, false, not, ◌&&◌, Option, none, some, ◌==◌, string_has_eq, if◌then◌else◌,
}
use ailens.Base.Outcome.{Outcome, done, type_error, untyped, ◌>>=◌}
use ailens.Base.Text.{starts_with}
use ailens.Json.{quoted}
use ailens.Session.{
  Answer, Request, Response, Store, answered, api_error, rejected, get_auth, req, set_auth,
}
use ailens.Value.{Value, undefined, null, str, obj, find, or_else}

-- `!!getAuth().token`, the initial state of `useAuthed` and what its subscription sets.
unfoldable pub is_authed : Store → Bool
unfolding get_auth
is_authed store = elim (get_auth store).token [ none ↦ false | some token ↦ not (token == "") ]

pub data Guarded : Type 0 where
  page : Guarded
  navigate : (to from : String) → Guarded

unfoldable pub require_auth : Store → String → Guarded
unfolding is_authed
require_auth store path = if is_authed store then page else navigate "/login" path

pub record Modal : Type 0 where
  pub u : String
  pub p : String
  pub busy : Bool
  pub err : Option Value

-- `s || fallback` for a text that may be missing.
abbrev pub text_or : Option String → String → String
text_or none fallback = fallback
text_or (some s) fallback = if s == "" then fallback else s

-- `from`: neither the landing page nor a login page is returned to.
abbrev pub from_of : Option String → Option String
from_of none = none
from_of (some raw) =
    if not (raw == "") && (not (raw == "/") && not (starts_with "/login" raw))
    then some raw
    else none

-- Where a successful login leads.
unfoldable pub target : Option String → Option String → String
unfolding starts_with
target redirect_to raw_from = text_or redirect_to (text_or (from_of raw_from) "/projects")

-- `JSON.stringify({ username: u, password: p })`
unfoldable pub credentials : String → String → String
unfolding quoted
credentials u p = cat "{\"username\":" (cat (quoted u) (cat ",\"password\":" (cat (quoted p) "}")))

-- What a submission leads to: the session, the form, and where the browser is sent.
pub record Submitted : Type 0 where
  pub store : Store
  pub modal : Modal
  pub destination : Option String

abbrev failed : Value → Store → Modal → Submitted
failed message store m = record {
  store = store;
  modal = record m { busy = false; err = some message };
  destination = none;
}

abbrev succeeded : String → String → String → Store → Modal → Submitted
unfolding set_auth
succeeded token username to store m = record {
  store = set_auth token username store;
  modal = record m { busy = false; err = none };
  destination = some to;
}

abbrev typed_login : String → Value → Value → Store → Modal → Outcome Submitted
unfolding succeeded
typed_login to (str token) (str username) store m = done (succeeded token username to store m)
typed_login to _ _ store m = untyped

-- `fallback` is the translated message for an error without one, `thrown` what the engine says of a
-- property of `null` or `undefined`, and `offline` what `fetch` is rejected with.
module _ (fallback thrown offline : String) where
  unfoldable pub settle_login : String → Answer → Store → Modal → Outcome Submitted
  unfolding typed_login
  settle_login to (answered undefined) store m = done (failed (str thrown) store m)
  settle_login to (answered null) store m = done (failed (str thrown) store m)
  settle_login to (answered (obj fs)) store m =
      typed_login to (find "token" fs) (find "username" fs) store m
  settle_login to (answered _) store m = untyped
  settle_login to (api_error status message code) store m =
      done (failed (or_else message (str fallback)) store m)
  settle_login to rejected store m = done (failed (or_else (str offline) (str fallback)) store m)

  unfoldable pub submit :
      (Request → Option Response)
      → Option String
      → Option String
      → Store
      → Modal
      → Outcome Submitted
  unfolding settle_login req credentials target
  submit fetch redirect_to raw_from store m =
      let (answer, after) = req fetch "POST" "/auth/login" (some (credentials m.u m.p)) store in
      settle_login (target redirect_to raw_from) answer after m

-- The reset of a form that is closed.
unfoldable pub close : Modal → Modal
close m = record m { busy = false; err = none }
