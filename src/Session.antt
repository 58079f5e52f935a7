-- ===== src/Session.antt =====
-- The authentication store (frontend/src/lib/auth.ts) and the requests to the backend
-- (frontend/src/lib/api.ts). `fetch` is a parameter: `none` stands for a request that is rejected.
mod Expired
mod Tests
use Prim.Native.String
use ailens.Base.{
  ℕ, ◌+◌, String, Bool, true, false, not, ◌&&◌, List, [], ◌∷◌, Option, none, some, ◌==◌, ℕ_has_eq,
  string_has_eq, leb, ltb, if◌then◌else◌,
}
use ailens.Value.{Value, undefined, null, str, opt_prop, or_else}

abbrev cat : String → String → String
cat = String.◌++◌

-- `localStorage` at the two keys, and how often the subscribers were notified.
pub record Store : Type 0 where
  pub token : Option String
  pub username : Option String
  pub notified : ℕ

pub record AuthState : Type 0 where
  pub token : Option String
  pub username : Option String

unfoldable pub get_auth : Store → AuthState
get_auth store = record { token = store.token; username = store.username }

unfoldable pub set_auth : String → String → Store → Store
set_auth token username store = record {
  token = some token;
  username = some username;
  notified = store.notified + 1;
}

unfoldable pub clear_auth : Store → Store
clear_auth store = record { token = none; username = none; notified = store.notified + 1 }

-- What `fetch` is called with, besides the headers that are always the same.
pub record Request : Type 0 where
  pub method : String
  pub path : String
  pub authorization : Option String
  pub body : Option String

pub record Response : Type 0 where
  pub status : ℕ
  pub status_text : String
  pub json : Option Value

-- How a call ends. A rejected request rejects it too.
pub data Answer : Type 0 where
  answered : Value → Answer
  api_error : (status : ℕ) (message code : Value) → Answer
  rejected : Answer

-- `if (token)`: an empty token is none.
abbrev pub authorization_of : Option String → Option String
authorization_of none = none
authorization_of (some token) = if token == "" then none else some (cat "Bearer " token)

unfoldable pub request_of : String → String → Option String → Store → Request
unfolding get_auth
request_of method path body store = record {
  method = method;
  path = cat "/api" path;
  authorization = authorization_of (get_auth store).token;
  body = body;
}

-- `r.ok`
abbrev pub is_ok : ℕ → Bool
is_ok status = leb 200 status && ltb status 300

-- `null` where the body is no JSON document.
abbrev json_or_null : Option Value → Value
json_or_null none = null
json_or_null (some v) = v

unfoldable pub receive : Response → Store → Answer × Store
unfolding clear_auth
receive r store =
    let json = json_or_null r.json in
    if r.status == 401
    then (api_error 401 (str "unauthenticated") undefined, clear_auth store)
    else if is_ok r.status
    then (answered (opt_prop "data" json), store)
    else (
      api_error r.status (or_else (opt_prop "message" json) (str r.status_text))
          (opt_prop "code" json),
      store,
    )

-- What a call does with the reply.
unfoldable pub settle : Option Response → Store → Answer × Store
unfolding receive
settle none store = (rejected, store)
settle (some r) store = receive r store

unfoldable pub req :
    (Request → Option Response) → String → String → Option String → Store → Answer × Store
unfolding request_of settle
req fetch method path body store = settle (fetch (request_of method path body store)) store
