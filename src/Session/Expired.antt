-- ===== src/Session/Expired.antt =====
-- When a session ends.
use ailens.Base.{
  String, Bool, true, false, Option, none, some, ◌==◌, ℕ_has_eq, if◌then◌else◌, ◌≡◌, ◌≢◌,
}
use ailens.Session.{Store, Response, Answer, answered, request_of, clear_auth}
use ailens.Value.{Value}

-- Whether a request is answered by the status 401.
abbrev pub is_unauthenticated : Option Response → Bool
is_unauthenticated none = false
is_unauthenticated (some r) = r.status == 401

-- What a call makes of the session.
pub record EndsSession (reply : Option Response) (store : Store) (result : Answer × Store)
    : Type 0 where
  pub store_after : result.1 ≡ (if is_unauthenticated reply then clear_auth store else store)
  pub no_data : is_unauthenticated reply ≡ true → (v : Value) → result.0 ≢ answered v
  pub anonymous :
      is_unauthenticated reply ≡ true
      → (method path : String) (body : Option String)
      → (request_of method path body result.1).authorization ≡ none
