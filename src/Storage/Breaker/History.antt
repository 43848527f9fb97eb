-- ===== src/Storage/Breaker/History.antt =====
-- The breaker of backend/internal/storage/breaker.go after any history of probes.
use nimbus_storage_platform.Base.{ℕ, suc, ◌≡◌, refl, Bool, true, false, List, [], ◌∷◌, arith, leb}
use nimbus_storage_platform.Storage.Breaker.{
  Breaker, new_breaker, probe, is_open, failure_threshold, differs,
}

-- The breaker after a history of outcomes, the newest first.
unfoldable pub after : List Bool → Breaker
unfolding probe new_breaker
after [] = new_breaker
after (ok ∷ history) = (probe ok (after history)).0

-- How many probes in a row, up to the newest, have failed.
unfoldable pub trailing_failures : List Bool → ℕ
trailing_failures [] = 0
trailing_failures (true ∷ history) = 0
trailing_failures (false ∷ history) = suc (trailing_failures history)

failures-after : (history : List Bool) → (after history).failures ≡ trailing_failures history
unfolding after trailing_failures
failures-after [] = refl
failures-after (true ∷ history) = refl
failures-after (false ∷ history) = omega (arith, failures-after history)

-- After any history, a breaker is open exactly when the last `failureThreshold` probes, or more,
-- have failed: one success closes it, and no fewer failures open it.
pub is_open-after :
    (history : List Bool)
    → is_open (after history) ≡ leb failure_threshold (trailing_failures history)
unfolding is_open after trailing_failures
is_open-after [] = refl
is_open-after (true ∷ history) = refl
is_open-after (false ∷ history) = ground (arith, failures-after history, is_open-after history)

-- The flag that a probe returns says whether it opened a closed breaker or closed an open one.
pub probe_changed :
    (ok : Bool) (b : Breaker) → (probe ok b).1 ≡ differs b.state (probe ok b).0.state
unfolding probe
probe_changed true b = refl
probe_changed false b = refl
