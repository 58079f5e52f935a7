-- ===== src/Session/Tests.antt =====
-- A session that expires.
use ailens.Base.{String, ◌≡◌, refl, Option, none, some}
use ailens.Session.{Store, Request, Response, set_auth, req, answered}
use ailens.Value.{str, obj, field, end}

abbrev nobody : Store
nobody = record { token = none; username = none; notified = 0 }

-- A backend that knows one token.
abbrev reply_to : Option String → Response
reply_to none = record { status = 401; status_text = "Unauthorized"; json = none }
reply_to (some token) = record {
  status = 200;
  status_text = "OK";
  json = some (obj (field "data" (str token) end));
}

abbrev fetch : Request → Option Response
fetch r = some (reply_to r.authorization)

logged_in : (req fetch "GET" "/me" none (set_auth "t" "ann" nobody)).0 ≡ answered (str "Bearer t")
unfolding req set_auth
logged_in = refl
