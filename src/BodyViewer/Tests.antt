-- ===== src/BodyViewer/Tests.antt =====
-- Loads of a body.
use ailens.Base.{ℕ, zero, suc, ◌≡◌, refl, Option, none, some}
use ailens.BodyViewer.{Reply, attempts, available, failed}

-- The network fails once.
abbrev flaky : ℕ → Option Reply
flaky zero = none
flaky (suc n) = some (record { status = 200; text = "{}" })

retried : attempts "Failed to fetch" 2 flaky 0 ≡ available "{}"
unfolding attempts
retried = refl

-- A status that is an error is final.
abbrev broken : ℕ → Option Reply
broken zero = some (record { status = 502; text = "" })
broken (suc n) = some (record { status = 200; text = "{}" })

final : attempts "Failed to fetch" 2 broken 0 ≡ failed "HTTP 502"
unfolding attempts
final = refl
