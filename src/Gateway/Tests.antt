-- ===== src/Gateway/Tests.antt =====
-- Runs of the circuit breaker on concrete data.
use iuh_exchange_be.Base.{ℕ, suc, ◌≡◌, refl, false, List, [], ◌∷◌, ◌+◌, map, length, leb, arith}
use iuh_exchange_be.Gateway.Breaker.{
  Options, Breaker, closed, tripped, create_circuit_breaker, is_closed, is_open, is_rejected, Call,
  ask, success, failure, run,
}
use iuh_exchange_be.Gateway.Breaker.Laws.{
  IsSound, run_created-IsSound, failures_open, let_through, requests, probes_unlimited, recovers,
}

-- The defaults.
abbrev defaults : Options
defaults = record { failure_threshold = 5; reset_timeout_ms = 30000; half_open_max = 1 }

abbrev calls : List Call
calls = failure 1 ∷ failure 2 ∷ success 3 ∷ failure 4 ∷ ask 5 ∷ []

run_created-IsSound_example : IsSound defaults (run defaults calls (create_circuit_breaker 0))
run_created-IsSound_example = run_created-IsSound defaults (omega arith) (omega arith) 0 calls

abbrev failing : List ℕ
failing = 8 ∷ 9 ∷ 10 ∷ []

abbrev answered : List ℕ
answered = 40001 ∷ []

abbrev fresh : Breaker
fresh = record {
  state = closed;
  failure_count = 2;
  success_count = 0;
  last_failure_time = 7;
  last_state_change = 0;
}

failures_open_example :
    is_open (run defaults (map failure failing) fresh).state
    ≡ leb defaults.failure_threshold (fresh.failure_count + length failing)
failures_open_example = failures_open defaults failing fresh refl (omega arith)

abbrev down : Breaker
down = record fresh { state = tripped }

-- Four requests while `halfOpenMax` is 1.
abbrev crowd : List Call
crowd = ask 40001 ∷ ask 40002 ∷ success 40003 ∷ ask 40004 ∷ []

probes_unlimited_example : let_through defaults (ask 40000 ∷ crowd) down ≡ suc (requests crowd)
probes_unlimited_example =
    probes_unlimited defaults 40000 crowd down refl (omega arith) (tt, (tt, (tt, (tt, tt))))

recovers_example :
    ((is_rejected defaults 40000 down).0 ≡ false)
    × (is_closed (run defaults (ask 40000 ∷ map success answered) down).state
        ≡ leb defaults.half_open_max (length answered))
recovers_example = recovers defaults 40000 answered down (omega arith) refl (omega arith)
