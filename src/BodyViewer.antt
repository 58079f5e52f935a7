-- ===== src/BodyViewer.antt =====
-- The load of a recorded body (frontend/src/components/BodyViewer.tsx). A reply is `none` where
-- `fetch` is rejected, for a transient failure of the network.
pub mod Load
mod Tests
use Prim.Native.String.{String, ◌++◌ as cat}
use ailens.Base.{
  ℕ, zero, suc, ◌+◌, Bool, true, false, not, Option, none, some, ltb, ◌==◌, ℕ_has_eq, if◌then◌else◌,
}
use ailens.Base.Decimal.{decimal}
use ailens.Base.Text.{starts_with}
use ailens.Session.{Store, authorization_of, get_auth, is_ok}

pub data Part : Type 0 where
  request response : Part

abbrev part_name : Part → String
part_name request = "request"
part_name response = "response"

pub record BodyRequest : Type 0 where
  pub path : String
  pub authorization : Option String

-- What `fetch` is called with.
unfoldable pub request_of : Store → String → Part → BodyRequest
unfolding get_auth
request_of store trace_id part = record {
  path = cat "/api/traces/" (cat trace_id (cat "/body?part=" (part_name part)));
  authorization = authorization_of (get_auth store).token;
}

pub record Reply : Type 0 where
  pub status : ℕ
  pub text : String

-- How the query function ends: with a body, with none, or with an error and its message.
pub data Loaded : Type 0 where
  unavailable : Loaded
  available : String → Loaded
  failed : String → Loaded

-- `offline` is the message of a rejected `fetch`.
module _ (offline : String) where
  unfoldable pub query_fn : Option Reply → Loaded
  unfolding decimal
  query_fn none = failed offline
  query_fn (some r) =
      if r.status == 404
      then unavailable
      else if is_ok r.status
      then available r.text
      else failed (cat "HTTP " (decimal r.status))

  -- `retry`, at the number of failures before this one.
  unfoldable pub retry : ℕ → String → Bool
  unfolding starts_with
  retry count message = if starts_with "HTTP " message then false else ltb count 2

  -- A failure waits for the later attempts if there is to be one.
  unfoldable pub settled : ℕ → Loaded → Loaded → Loaded
  unfolding retry
  settled count later (failed message) = if retry count message then later else failed message
  settled count later unavailable = unavailable
  settled count later (available text) = available text

  -- The attempts of the query from one on, for the reply to each; the fuel bounds their number.
  unfoldable pub attempts : ℕ → (ℕ → Option Reply) → ℕ → Loaded
  unfolding query_fn settled
  attempts zero replies count = query_fn (replies count)
  attempts (suc fuel) replies count =
      settled count (attempts fuel replies (count + 1)) (query_fn (replies count))

pub data View : Type 0 where
  skeleton : View
  error : String → View
  not_archived : View
  viewer : String → View

-- What is shown, `none` while the query is loading.
unfoldable pub view_of : Option Loaded → View
view_of none = skeleton
view_of (some (failed message)) = error message
view_of (some unavailable) = not_archived
view_of (some (available text)) = viewer text
