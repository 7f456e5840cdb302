-- ===== src/Gateway/Breaker/Laws.antt =====
-- When the circuit breaker opens, probes and closes.
use iuh_exchange_be.Base.{
  ℕ, ◌+◌, suc, ◌≤◌, ◌<◌, ◌≡◌, refl, true, false, List, [], ◌∷◌, map, leb, length, All, arith,
  Bool-cases, inl, inr, if◌then◌else◌, ap, ◌∙◌,
}
use iuh_exchange_be.Gateway.Breaker.{
  closed, tripped, half_open, Options, Breaker, create_circuit_breaker, is_rejected, on_success,
  on_failure, Call, ask, success, failure, look, step, run, is_open, count_probe, forget_failures,
  is_closed, is_half_open, check_open_to_half_open, transition,
}

-- A closed breaker has counted fewer failures than tripped it, a probing one fewer successes than
-- close it, and one that is not closed has counted enough failures.
pub record IsSound (opts : Options) (b : Breaker) : Type 0 where
  pub closed_below : b.state ≡ closed → b.failure_count < opts.failure_threshold
  pub probing_below : b.state ≡ half_open → b.success_count < opts.half_open_max
  pub past_threshold : is_closed b.state ≡ false → opts.failure_threshold ≤ b.failure_count

module _ (opts : Options) (0<threshold : 0 < opts.failure_threshold)
    (0<probes : 0 < opts.half_open_max) where
  step-IsSound : (c : Call) (b : Breaker) → IsSound opts b → IsSound opts (step opts c b)
  unfolding step is_closed
  step-IsSound (ask now) b h = ground arith
  step-IsSound (success now) b h = ground arith
  step-IsSound (failure now) b h = ground arith
  step-IsSound (look now) b h = ground arith

  run-IsSound : (cs : List Call) (b : Breaker) → IsSound opts b → IsSound opts (run opts cs b)
  run-IsSound [] b h = h
  run-IsSound (c ∷ cs) b h = run-IsSound cs (step opts c b) (step-IsSound c b h)

-- With positive limits, after any calls at any times: while the breaker is closed it has counted
-- fewer failures in a row than its threshold, while it probes fewer successes than close it, and
-- while it is open or probes it has counted at least the threshold.
pub run_created-IsSound :
    (opts : Options)
    → 0 < opts.failure_threshold
    → 0 < opts.half_open_max
    → (born : ℕ) (cs : List Call) → IsSound opts (run opts cs (create_circuit_breaker born))
unfolding create_circuit_breaker is_closed
run_created-IsSound opts t p born cs =
    run-IsSound opts t p cs (create_circuit_breaker born)
      (record { closed_below = λ e. t; probing_below = λ e. cc; past_threshold = λ e. cc })

failures_stay_open :
    (opts : Options) (times : List ℕ) (b : Breaker)
    → b.state ≡ tripped
    → (run opts (map failure times) b).state ≡ tripped
unfolding step is_closed is_half_open
failures_stay_open opts [] b c = c
failures_stay_open opts (t ∷ ts) b c = failures_stay_open opts ts (on_failure opts t b) (rw c refl)

on_failure_trips :
    (opts : Options) (now : ℕ) (b : Breaker)
    → b.state ≡ closed
    → leb opts.failure_threshold (suc b.failure_count) ≡ true
    → (on_failure opts now b).state ≡ tripped
unfolding on_failure is_closed is_half_open transition
on_failure_trips opts now b c h = ground arith

on_failure_counts :
    (opts : Options) (now : ℕ) (b : Breaker)
    → b.state ≡ closed
    → leb opts.failure_threshold (suc b.failure_count) ≡ false
    → ((on_failure opts now b).state ≡ closed)
      × ((on_failure opts now b).failure_count ≡ suc b.failure_count)
unfolding on_failure is_closed is_half_open transition
on_failure_counts opts now b c h = ground arith

-- A closed breaker that has counted fewer failures than its threshold, and then meets failures
-- only, is open exactly when they reach the threshold together with those counted before.
pub failures_open :
    (opts : Options) (times : List ℕ) (b : Breaker)
    → b.state ≡ closed
    → b.failure_count < opts.failure_threshold
    → is_open (run opts (map failure times) b).state
      ≡ leb opts.failure_threshold (b.failure_count + length times)
unfolding step is_open
failures_open opts [] b c h = ground arith
failures_open opts (t ∷ ts) b c h =
    elim (Bool-cases (leb opts.failure_threshold (suc b.failure_count))) [
      | inl full ↦
          rw (failures_stay_open opts ts (on_failure opts t b) (on_failure_trips opts t b c full))
            (ground arith)
      | inr room ↦
          let (still, count) = on_failure_counts opts t b c room in
          rw (failures_open opts ts (on_failure opts t b) still (ground arith), count)
            (ground arith)
    ]

check_keeps :
    (opts : Options) (now : ℕ) (b : Breaker)
    → is_open b.state ≡ false
    → check_open_to_half_open opts now b ≡ b
unfolding check_open_to_half_open
check_keeps opts now b c = rw c refl

on_success_live :
    (opts : Options) (now : ℕ) (b : Breaker)
    → is_open b.state ≡ false
    → is_open (on_success opts now b).state ≡ false
unfolding on_success count_probe forget_failures is_closed is_half_open is_open transition
on_success_live opts now b live = ground arith

check_probes :
    (opts : Options) (now : ℕ) (b : Breaker)
    → b.state ≡ tripped
    → b.last_failure_time + opts.reset_timeout_ms ≤ now
    → ((check_open_to_half_open opts now b).state ≡ half_open)
      × ((check_open_to_half_open opts now b).success_count ≡ 0)
unfolding check_open_to_half_open is_open transition
check_probes opts now b c late = ground arith

-- How many requests are let through, and how many ask.
unfoldable pub let_through : Options → List Call → Breaker → ℕ
unfolding step is_rejected
let_through opts [] b = 0
let_through opts (ask now ∷ cs) b =
    (if (is_rejected opts now b).0 then 0 else 1) + let_through opts cs (step opts (ask now) b)
let_through opts (c ∷ cs) b = let_through opts cs (step opts c b)

unfoldable pub requests : List Call → ℕ
requests [] = 0
requests (ask now ∷ cs) = suc (requests cs)
requests (c ∷ cs) = requests cs

-- Every call but the report of a failure.
abbrev pub IsNoFailure : Call → Type 0
IsNoFailure (failure now) = ⊥
IsNoFailure c = Unit

let_through-all :
    (opts : Options) (cs : List Call) (b : Breaker)
    → All IsNoFailure cs
    → is_open b.state ≡ false
    → let_through opts cs b ≡ requests cs
unfolding let_through requests step is_rejected is_open
let_through-all opts [] b calm live = refl
let_through-all opts (ask now ∷ cs) b calm live =
    let same = check_keeps opts now b live in
    rw (same, live, let_through-all opts cs b calm.1 live) (omega arith)
let_through-all opts (success now ∷ cs) b calm live =
    let_through-all opts cs (on_success opts now b) calm.1 (on_success_live opts now b live)
let_through-all opts (failure now ∷ cs) b calm live = absurd calm.0
let_through-all opts (look now ∷ cs) b calm live =
    let same = check_keeps opts now b live in
    ap (let_through opts cs) same ∙ let_through-all opts cs b calm.1 live

-- An open breaker whose timeout has passed lets every request through, from the next on and until a
-- failure is reported, however many come and whatever `halfOpenMax` is: only reported successes and
-- reads of the state stand between them.
pub probes_unlimited :
    (opts : Options) (now : ℕ) (cs : List Call) (b : Breaker)
    → b.state ≡ tripped
    → b.last_failure_time + opts.reset_timeout_ms ≤ now
    → All IsNoFailure cs
    → let_through opts (ask now ∷ cs) b ≡ suc (requests cs)
unfolding let_through step is_rejected is_open
probes_unlimited opts now cs b c late calm =
    let probing = (check_probes opts now b c late).0 in
    let rest =
      let_through-all opts cs (check_open_to_half_open opts now b) calm (ap is_open probing) in
    rw (probing, rest) (omega arith)

successes_stay_closed :
    (opts : Options) (times : List ℕ) (b : Breaker)
    → b.state ≡ closed
    → (run opts (map success times) b).state ≡ closed
unfolding step on_success count_probe forget_failures is_closed is_half_open
successes_stay_closed opts [] b c = c
successes_stay_closed opts (t ∷ ts) b c =
    successes_stay_closed opts ts (on_success opts t b) (ground arith)

on_success_closes :
    (opts : Options) (now : ℕ) (b : Breaker)
    → b.state ≡ half_open
    → leb opts.half_open_max (suc b.success_count) ≡ true
    → (on_success opts now b).state ≡ closed
unfolding on_success count_probe forget_failures is_closed is_half_open transition
on_success_closes opts now b c h = ground arith

on_success_counts :
    (opts : Options) (now : ℕ) (b : Breaker)
    → b.state ≡ half_open
    → leb opts.half_open_max (suc b.success_count) ≡ false
    → ((on_success opts now b).state ≡ half_open)
      × ((on_success opts now b).success_count ≡ suc b.success_count)
unfolding on_success count_probe forget_failures is_closed is_half_open transition
on_success_counts opts now b c h = ground arith

successes_close :
    (opts : Options) (times : List ℕ) (b : Breaker)
    → b.state ≡ half_open
    → b.success_count < opts.half_open_max
    → is_closed (run opts (map success times) b).state
      ≡ leb opts.half_open_max (b.success_count + length times)
unfolding step is_closed
successes_close opts [] b c h = ground arith
successes_close opts (t ∷ ts) b c h =
    elim (Bool-cases (leb opts.half_open_max (suc b.success_count))) [
      | inl full ↦
          rw
            (successes_stay_closed opts ts (on_success opts t b)
              (on_success_closes opts t b c full))
            (ground arith)
      | inr room ↦
          let (still, count) = on_success_counts opts t b c room in
          rw (successes_close opts ts (on_success opts t b) still (ground arith), count)
            (ground arith)
    ]

-- With a positive `halfOpenMax`, an open breaker lets the first request after its timeout through,
-- and then, meeting successes only, is closed exactly when it has met `halfOpenMax` of them.
pub recovers :
    (opts : Options) (now : ℕ) (times : List ℕ) (b : Breaker)
    → 0 < opts.half_open_max
    → b.state ≡ tripped
    → b.last_failure_time + opts.reset_timeout_ms ≤ now
    → ((is_rejected opts now b).0 ≡ false)
      × (is_closed (run opts (ask now ∷ map success times) b).state
          ≡ leb opts.half_open_max (length times))
unfolding step is_rejected is_open
recovers opts now times b p c late =
    let (probing, none_yet) = check_probes opts now b c late in
    (
      rw probing refl,
      rw
          (
            successes_close opts times (check_open_to_half_open opts now b) probing (ground arith),
            none_yet,
          )
          (ground arith),
    )
