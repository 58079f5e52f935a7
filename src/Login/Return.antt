-- ===== src/Login/Return.antt =====
-- The way to the login and back.
use Prim.Native.String.{String}
use ailens.Base.{
  Bool, true, false, not, ◌&&◌, Option, none, some, ◌==◌, ℕ_has_eq, string_has_eq, ◌≡◌, refl, arith,
  subst, sym, Bool-cases, inl, inr,
}
use ailens.Base.Outcome.{done}
use ailens.Base.Text.{starts_with}
use ailens.Login.{
  Modal, Submitted, is_authed, navigate, require_auth, settle_login, submit, target, page, text_or,
  credentials,
}
use ailens.Session.{Response, Request, Store, answered, set_auth, get_auth, req}
use ailens.Value.{Fields, str, obj, find}

-- A page that a login may return to.
pub record IsPage (path : String) : Type 0 where
  pub filled : (path == "") ≡ false
  pub no_landing : (path == "/") ≡ false
  pub no_login : starts_with "/login" path ≡ false

target_of_page : (path : String) → IsPage path → target none (some path) ≡ path
unfolding target
target_of_page path h = rw (h.filled, h.no_landing, h.no_login, h.filled) refl

text_or_filled : (s d : String) → (s == "") ≡ false → text_or (some s) d ≡ s
text_or_filled s d h = rw h refl

abbrev may_return : String → Bool
may_return raw = not (raw == "") && (not (raw == "/") && not (starts_with "/login" raw))

target_of_other : (raw : String) → may_return raw ≡ false → target none (some raw) ≡ "/projects"
unfolding target
target_of_other raw bad = rw bad refl

-- Where a login leads that no page asked for, or that a page asked for that is no place to return to.
target-IsPage : (raw_from : Option String) → IsPage (target none raw_from)
unfolding target starts_with
target-IsPage none = record { filled = refl; no_landing = refl; no_login = refl }
target-IsPage (some raw) = elim (Bool-cases (may_return raw)) [
  | inl ok ↦
      let h : IsPage raw = record {
        filled = ground arith;
        no_landing = ground arith;
        no_login = ground arith;
      } in
      subst IsPage (sym (target_of_page raw h)) h
  | inr bad ↦
      subst IsPage (sym (target_of_other raw bad))
        record { filled = refl; no_landing = refl; no_login = refl }
]

authed_after_login :
    (t n : String) (store : Store) → (t == "") ≡ false → is_authed (set_auth t n store) ≡ true
unfolding is_authed get_auth set_auth
authed_after_login t n store h = rw h refl

require_auth_of_authed :
    (store : Store) (path : String) → is_authed store ≡ true → require_auth store path ≡ page
unfolding require_auth
require_auth_of_authed store path h = rw h refl

module _ (fallback thrown offline : String) (fetch : Request → Option Response) where
  login_of_reply :
      (to t n : String) (fs : Fields) (store : Store) (m : Modal)
      → find "token" fs ≡ str t
      → find "username" fs ≡ str n
      → settle_login fallback thrown offline to (answered (obj fs)) store m
        ≡ done (record {
          store = set_auth t n store;
          modal = record m { busy = false; err = none };
          destination = some to;
        })
  unfolding settle_login
  login_of_reply to t n fs store m p q = rw (p, q) refl

  -- A visitor who is not signed in is sent from a page to the login. If the login is then answered
  -- with a token that is not empty, it leads back to that page, which is shown. Whatever page asked
  -- for it, a login leads neither to the landing page nor to a login page.
  pub submit-Returns :
      (path t n : String) (fs : Fields) (store : Store) (m : Modal)
      → is_authed store ≡ false
      → IsPage path
      → (req fetch "POST" "/auth/login" (some (credentials m.u m.p)) store).0 ≡ answered (obj fs)
      → find "token" fs ≡ str t
      → find "username" fs ≡ str n
      → (t == "") ≡ false
      → (require_auth store path ≡ navigate "/login" path)
        × (r : Submitted) × (submit fallback thrown offline fetch none (some path) store m ≡ done r)
        × (r.destination ≡ some path)
        × (require_auth r.store path ≡ page)
        × ((raw_from : Option String) → IsPage (target none raw_from))
  unfolding require_auth submit
  submit-Returns path t n fs store m anonymous ok reply at_token at_name some_token =
      let after = (req fetch "POST" "/auth/login" (some (credentials m.u m.p)) store).1 in
      let r : Submitted = record {
        store = set_auth t n after;
        modal = record m { busy = false; err = none };
        destination = some path;
      } in
      (
        rw anonymous refl,
        r,
        rw (reply, target_of_page path ok) (login_of_reply path t n fs after m at_token at_name),
        refl,
        require_auth_of_authed (set_auth t n after) path (authed_after_login t n after some_token),
        target-IsPage,
      )
