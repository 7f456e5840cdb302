-- ===== src/Common/Retry.antt =====
-- `withRetry` of packages/common/src/utils/helpers.js.
use mathlib.Core.Path.{subst}
use iuh_exchange_be.Base.{
  ℕ, zero, suc, ◌+◌, ◌*◌, ◌<◌, ◌≡◌, refl, ap, ◌∙◌, sym, Bool, true, false, not, ◌||◌, Option, none,
  some, List, [], ◌∷◌, ◌==◌, leb, leb→le, if◌then◌else◌, arith, Bool-cases, inl, inr, ◌⊎◌,
}

-- What one call of the function gives: a value, or an error with the status of its response.
pub data Outcome {ℓ} (A : Type ℓ) : Type ℓ where
  returned : A → Outcome A
  threw : Option ℕ → Outcome A

-- `!statusCode || statusCode >= 500 || statusCode === 429`
unfoldable pub is_retryable : Option ℕ → Bool
is_retryable none = true
is_retryable (some status) = status == 0 || leb 500 status || status == 429

-- How the loop ends: with the last call, or with none where no call is allowed; and the delays
-- before the calls after the first.
pub record Run {ℓ} (A : Type ℓ) : Type ℓ where
  pub last : Option (Outcome A)
  pub delays : List ℕ

module _ {ℓ} {A : Type ℓ} where
  unfoldable pub wait_then : ℕ → Run A → Run A
  wait_then delay r = record r { delays = delay ∷ r.delays }

  -- The end of a round, in which the call with the number `attempt` gave `call`; `rest` are the
  -- rounds after it.
  unfoldable pub end_round : ℕ → ℕ → ℕ → Outcome A → Run A → Run A
  unfolding is_retryable wait_then
  end_round max_retries base_delay attempt (returned a) rest = record {
    last = some (returned a);
    delays = [];
  }
  end_round max_retries base_delay attempt (threw status) rest =
      if not (is_retryable status) || leb max_retries (suc attempt)
      then record { last = some (threw status); delays = [] }
      else wait_then (base_delay * suc attempt) rest

  -- The loop from the call with the number `attempt`; `left` bounds the rounds.
  unfoldable pub retry_from : (ℕ → Outcome A) → ℕ → ℕ → ℕ → ℕ → Run A
  unfolding end_round
  retry_from f max_retries base_delay attempt zero = record { last = none; delays = [] }
  retry_from f max_retries base_delay attempt (suc left) =
      let rest = retry_from f max_retries base_delay (suc attempt) left in
      end_round max_retries base_delay attempt (f attempt) rest

  unfoldable pub with_retry : (ℕ → Outcome A) → ℕ → ℕ → Run A
  unfolding retry_from
  with_retry f max_retries base_delay = retry_from f max_retries base_delay 0 max_retries

-- Delays that grow by the base delay.
abbrev pub rising : ℕ → ℕ → ℕ → List ℕ
rising base from zero = []
rising base from (suc n) = (base * suc from) ∷ rising base (suc from) n

-- A call that failed in a way that is tried again.
abbrev pub Fails {ℓ} : {A : Type ℓ} → Outcome A → Type 0
Fails (returned a) = ⊥
Fails (threw status) = is_retryable status ≡ true

-- A call that ends the loop by itself.
abbrev pub Ends {ℓ} : {A : Type ℓ} → Outcome A → Type 0
Ends (returned a) = Unit
Ends (threw status) = is_retryable status ≡ false

-- The loop makes the calls from one number on, and stops after `n` more.
abbrev pub Stops {ℓ} : {A : Type ℓ} → (ℕ → Outcome A) → ℕ → ℕ → ℕ → Run A → ℕ → Type ℓ
Stops f max base from r n =
    (r.last ≡ some (f (from + n)))
    × (r.delays ≡ rising base from n)
    × ((i : ℕ) → i < n → Fails (f (from + i)))
    × (from + n < max)
    × (Ends (f (from + n)) ⊎ (suc (from + n) ≡ max))

zero_plus : (n : ℕ) → 0 + n ≡ n
zero_plus n = omega arith

not_leb : (m n : ℕ) → leb m n ≡ false → n < m
not_leb m n h = ground arith

module _ {ℓ} {A : Type ℓ} (f : ℕ → Outcome A) (max base : ℕ) where
  at_from : (from : ℕ) (c : Outcome A) → f from ≡ c → f (from + 0) ≡ c
  at_from from c e = ap f (omega arith) ∙ e

  next_call : (from n : ℕ) → f (suc from + n) ≡ f (from + suc n)
  next_call from n = ap f (omega arith)

  Fails-all :
      (from n : ℕ)
      → Fails (f (from + 0))
      → ((i : ℕ) → i < n → Fails (f (suc from + i)))
      → (i : ℕ) → i < suc n
      → Fails (f (from + i))
  Fails-all from n first later zero h = first
  Fails-all from n first later (suc i) h =
      subst (λ c. Fails c) (next_call from i) (later i (omega (arith, h)))

  stop_later :
      (from n : ℕ)
      → Ends (f (suc from + n)) ⊎ (suc (suc from + n) ≡ max)
      → Ends (f (from + suc n)) ⊎ (suc (from + suc n) ≡ max)
  stop_later from n (inl e) = inl (subst (λ c. Ends c) (next_call from n) e)
  stop_later from n (inr e) = inr (omega (arith, e))

  -- One round, where the rounds after it stop if another call is allowed.
  Stops-round :
      (from : ℕ) (c : Outcome A) (rest : Run A)
      → f from ≡ c
      → from < max
      → (suc from < max → (n : ℕ) × Stops f max base (suc from) rest n)
      → (n : ℕ) × Stops f max base from (end_round max base from c rest) n
  unfolding end_round wait_then
  Stops-round from (returned a) rest e allowed later =
      let now = at_from from (returned a) e in
      (
        0,
        (
          ap some (sym now),
          refl,
          λ i h. absurd (omega (arith, h)),
          omega (arith, allowed),
          inl (rw now tt),
        ),
      )
  Stops-round from (threw status) rest e allowed later =
      let now = at_from from (threw status) e in
      elim (Bool-cases (is_retryable status)) [
        | inr final ↦ rw final (
          0,
          (
            ap some (sym now),
            refl,
            λ i h. absurd (omega (arith, h)),
            omega (arith, allowed),
            inl (rw now final),
          ),
        )
        | inl again ↦ elim (Bool-cases (leb max (suc from))) [
          | inl last ↦
              rw (again, last)
                (
                  0,
                  (
                    ap some (sym now),
                    refl,
                    λ i h. absurd (omega (arith, h)),
                    omega (arith, allowed),
                    inr (omega (arith, leb→le max (suc from) last, allowed)),
                  ),
                )
          | inr more ↦
              let (n, (end, delays, fails, small, stop)) = later (not_leb max (suc from) more) in
              rw (again, more)
                (
                  suc n,
                  (
                    end ∙ ap some (next_call from n),
                    ap (λ ds. (base * suc from) ∷ ds) delays,
                    Fails-all from n (rw now again) fails,
                    omega (arith, small),
                    stop_later from n stop,
                  ),
                )
        ]
      ]

  Stops-from :
      (left from : ℕ)
      → from + suc left ≡ max
      → (n : ℕ) × Stops f max base from (retry_from f max base from (suc left)) n
  unfolding retry_from
  Stops-from zero from same =
      Stops-round from (f from) _ refl (omega (arith, same)) (λ h. absurd (omega (arith, same, h)))
  Stops-from (suc left) from same =
      Stops-round from (f from) (retry_from f max base (suc from) (suc left)) refl
        (omega (arith, same)) (λ h. Stops-from left (suc from) (omega (arith, same)))

-- With at least one call allowed the loop ends with a call: the first that returns, or fails in a way
-- that is not tried again, or the last one allowed. All calls before it fail in a way that is tried
-- again, and the delays between them rise by the base delay.
pub with_retry_stops {ℓ} :
    {A : Type ℓ} (f : ℕ → Outcome A) (max_retries base_delay : ℕ)
    → 0 < max_retries
    → (n : ℕ) × ((with_retry f max_retries base_delay).last ≡ some (f n))
      × ((with_retry f max_retries base_delay).delays ≡ rising base_delay 0 n)
      × ((i : ℕ) → i < n → Fails (f i))
      × (n < max_retries)
      × (Ends (f n) ⊎ (suc n ≡ max_retries))
unfolding with_retry
with_retry_stops f zero base_delay some_call = absurd (omega (arith, some_call))
with_retry_stops f (suc left) base_delay some_call =
    let (n, (end, delays, fails, small, stop)) =
      Stops-from f (suc left) base_delay left 0 (omega arith) in
    (
      n,
      end ∙ ap (λ k. some (f k)) (zero_plus n),
      delays,
      λ i h. subst (λ k. Fails (f k)) (zero_plus i) (fails i h),
      omega (arith, small),
      subst (λ k. Ends (f k) ⊎ (suc k ≡ suc left)) (zero_plus n) stop,
    )
