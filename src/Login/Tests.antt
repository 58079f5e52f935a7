-- ===== src/Login/Tests.antt =====
-- A login that leads back to the page that asked for it, and one that is refused.
use ailens.Base.{◌≡◌, refl, String, Option, none, some, true, false, ◌==◌, string_has_eq}
use ailens.Base.Outcome.{done}
use ailens.Login.Return.{IsPage, submit-Returns}
use ailens.Login.{
  Modal, Submitted, navigate, page, require_auth, submit, target, is_authed, credentials,
}
use ailens.Session.{Store, Request, Response, req, answered}
use ailens.Value.{Fields, str, obj, field, end}

abbrev nobody : Store
nobody = record { token = none; username = none; notified = 0 }

abbrev form : Modal
form = record { u = "ann"; p = "secret"; busy = true; err = none }

abbrev grant : Fields
grant = field "token" (str "t1") (field "username" (str "ann") end)

abbrev accept : Request → Option Response
accept r =
    some (record {
      status = 200;
      status_text = "OK";
      json = some (obj (field "data" (obj grant) end));
    })

abbrev refuse : Request → Option Response
refuse r = some (record {
  status = 401;
  status_text = "Unauthorized";
  json = some (obj (field "message" (str "invalid username or password") end));
})

-- The backend's message does not reach the form.
refused :
    submit "Login failed" "" "" refuse none none nobody form
    ≡ done (record {
      store = record { token = none; username = none; notified = 1 };
      modal = record { u = "ann"; p = "secret"; busy = false; err = some (str "unauthenticated") };
      destination = none;
    })
unfolding submit
refused = refl

accepted :
    (req accept "POST" "/auth/login" (some (credentials "ann" "secret")) nobody).0
    ≡ answered (obj grant)
unfolding req
accepted = refl

anonymous : is_authed nobody ≡ false
unfolding is_authed
anonymous = refl

protected : IsPage "/projects/p1/traces"
unfolding ailens.Base.Text.starts_with
protected = record { filled = refl; no_landing = refl; no_login = refl }

submit-Returns_example :
    (require_auth nobody "/projects/p1/traces" ≡ navigate "/login" "/projects/p1/traces")
    × (r : Submitted) × (submit "Login failed" "" "" accept none
          (some "/projects/p1/traces")
          nobody
          form
        ≡ done r)
    × (r.destination ≡ some "/projects/p1/traces")
    × (require_auth r.store "/projects/p1/traces" ≡ page)
    × ((raw_from : Option String) → IsPage (target none raw_from))
submit-Returns_example =
    submit-Returns "Login failed" "" "" accept "/projects/p1/traces" "t1" "ann" grant nobody form
      anonymous protected accepted refl refl refl
