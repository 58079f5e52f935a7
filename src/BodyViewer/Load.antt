-- ===== src/BodyViewer/Load.antt =====
-- How often a body is asked for.
use Prim.Native.String.{String}
use ailens.Base.{ℕ, zero, suc, Option, ◌≡◌, refl, arith, ap}
use ailens.BodyViewer.{
  Reply, Loaded, unavailable, available, failed, attempts, query_fn, retry, settled,
}

module _ (offline : String) (replies : ℕ → Option Reply) where
  settled_at_two : (later r : Loaded) → settled offline 2 later r ≡ r
  unfolding settled retry
  settled_at_two later unavailable = refl
  settled_at_two later (available text) = refl
  settled_at_two later (failed message) = ground arith

  third_is_last : (fuel : ℕ) → attempts offline fuel replies 2 ≡ query_fn offline (replies 2)
  unfolding attempts
  third_is_last zero = refl
  third_is_last (suc fuel) =
      settled_at_two (attempts offline fuel replies 3) (query_fn offline (replies 2))

  -- Two retries are all: more fuel changes nothing.
  pub attempts_enough :
      (fuel : ℕ) → attempts offline (suc (suc fuel)) replies 0 ≡ attempts offline 2 replies 0
  unfolding attempts
  attempts_enough fuel =
      ap
        (λ (last : Loaded).
          settled offline 0 (settled offline 1 last (query_fn offline (replies 1)))
            (query_fn offline (replies 0)))
        (third_is_last fuel)
