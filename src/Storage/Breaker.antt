-- ===== src/Storage/Breaker.antt =====
-- backend/internal/storage/breaker.go: the two-state circuit breaker of one node. Each method holds
-- the mutex from its first line to its last, so a call is one step. The failure counter is an int;
-- it would take 2^63 probes to wrap, and is a plain number here.
pub mod History
use nimbus_storage_platform.Base.{ℕ, ◌+◌, Bool, true, false, not, if◌then◌else◌, leb, ◌||◌, ◌&&◌}

abbrev pub failure_threshold : ℕ
failure_threshold = 3

pub data BreakerState : Type 0 where
  closed open_ : BreakerState

abbrev pub is_open_state : BreakerState → Bool
is_open_state closed = false
is_open_state open_ = true

-- `was != b.state`.
abbrev pub differs : BreakerState → BreakerState → Bool
differs closed s = is_open_state s
differs open_ s = not (is_open_state s)

pub record Breaker : Type 0 where
  pub state : BreakerState
  pub failures : ℕ

unfoldable pub new_breaker : Breaker
new_breaker = record { state = closed; failures = 0 }

-- The new breaker, and whether the state changed.
unfoldable pub record_success : Breaker → Breaker × Bool
record_success b = (record b { state = closed; failures = 0 }, differs b.state closed)

unfoldable pub record_failure : Breaker → Breaker × Bool
record_failure b =
    let failures = b.failures + 1 in
    let state = if leb failure_threshold failures then open_ else b.state in
    (record b { state = state; failures = failures }, differs b.state state)

unfoldable pub is_open : Breaker → Bool
is_open b = is_open_state b.state

-- One probe, as `probeOne` of router.go records it.
unfoldable pub probe : Bool → Breaker → Breaker × Bool
unfolding record_success record_failure
probe true b = record_success b
probe false b = record_failure b
