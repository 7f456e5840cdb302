-- ===== src/Gateway/Breaker.antt =====
-- `createCircuitBreaker` of packages/api-gateway/src/middleware/circuit-breaker.js: one breaker per
-- upstream service. `now` is what `Date.now()` gives in a call.
pub mod Laws
use iuh_exchange_be.Base.{ℕ, ◌+◌, suc, Bool, true, false, List, [], ◌∷◌, ◌&&◌, if◌then◌else◌, leb}

-- `OPEN` is `tripped`.
pub data State : Type 0 where
  closed tripped half_open : State

unfoldable pub is_closed : State → Bool
is_closed closed = true
is_closed _ = false

unfoldable pub is_open : State → Bool
is_open tripped = true
is_open _ = false

unfoldable pub is_half_open : State → Bool
is_half_open half_open = true
is_half_open _ = false

pub record Options : Type 0 where
  pub failure_threshold : ℕ
  pub reset_timeout_ms : ℕ
  pub half_open_max : ℕ

pub record Breaker : Type 0 where
  pub state : State
  pub failure_count : ℕ
  pub success_count : ℕ
  pub last_failure_time : ℕ
  pub last_state_change : ℕ

unfoldable pub create_circuit_breaker : ℕ → Breaker
create_circuit_breaker now = record {
  state = closed;
  failure_count = 0;
  success_count = 0;
  last_failure_time = 0;
  last_state_change = now;
}

unfoldable pub transition : ℕ → State → Breaker → Breaker
transition now s b = record b { state = s; last_state_change = now }

-- `Date.now() - lastFailureTime >= resetTimeoutMs`, without the difference, which may be negative.
unfoldable pub check_open_to_half_open : Options → ℕ → Breaker → Breaker
unfolding is_open transition
check_open_to_half_open opts now b =
    if is_open b.state && leb (b.last_failure_time + opts.reset_timeout_ms) now
    then record (transition now half_open b) { success_count = 0 }
    else b

unfoldable pub is_rejected : Options → ℕ → Breaker → Bool × Breaker
unfolding is_open check_open_to_half_open
is_rejected opts now b =
    (is_open (check_open_to_half_open opts now b).state, check_open_to_half_open opts now b)

-- The first `if` of `onSuccess`.
unfoldable pub count_probe : Options → ℕ → Breaker → Breaker
unfolding is_half_open transition
count_probe opts now b =
    if is_half_open b.state
    then if leb opts.half_open_max (suc b.success_count)
      then transition now closed
          (record b { success_count = suc b.success_count; failure_count = 0 })
      else record b { success_count = suc b.success_count }
    else b

-- The second `if` reads the state that the first leaves.
unfoldable pub forget_failures : Breaker → Breaker
unfolding is_closed
forget_failures b = if is_closed b.state then record b { failure_count = 0 } else b

unfoldable pub on_success : Options → ℕ → Breaker → Breaker
unfolding count_probe forget_failures
on_success opts now b = forget_failures (count_probe opts now b)

unfoldable pub count_failure : ℕ → Breaker → Breaker
count_failure now b = record b { failure_count = suc b.failure_count; last_failure_time = now }

unfoldable pub on_failure : Options → ℕ → Breaker → Breaker
unfolding count_failure transition is_half_open is_closed
on_failure opts now b =
    if is_half_open b.state
    then transition now tripped (count_failure now b)
    else if is_closed b.state && leb opts.failure_threshold (suc b.failure_count)
    then transition now tripped (count_failure now b)
    else count_failure now b

-- `getState`, without the texts of its dates.
unfoldable pub get_state : Options → ℕ → Breaker → Breaker
get_state opts now b = check_open_to_half_open opts now b

-- What the gateway calls, at a time.
pub data Call : Type 0 where
  ask success failure look : ℕ → Call

unfoldable pub step : Options → Call → Breaker → Breaker
unfolding is_rejected on_success on_failure get_state
step opts (ask now) b = (is_rejected opts now b).1
step opts (success now) b = on_success opts now b
step opts (failure now) b = on_failure opts now b
step opts (look now) b = get_state opts now b

abbrev pub run : Options → List Call → Breaker → Breaker
run opts [] b = b
run opts (c ∷ cs) b = run opts cs (step opts c b)
