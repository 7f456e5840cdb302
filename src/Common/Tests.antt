-- ===== src/Common/Tests.antt =====
-- Runs of the shared library on concrete data.
use iuh_exchange_be.Base.{ℕ, zero, suc, ◌≡◌, ◌<◌, refl, ◌⊎◌, none, some, [], ◌∷◌, arith}
use iuh_exchange_be.Base.Int.{pos}
use iuh_exchange_be.Common.Paging.{parse_pagination, at_least_one, at_most_hundred, skip_of}
use iuh_exchange_be.Common.Retry.{
  Outcome, returned, threw, is_retryable, with_retry, retry_from, end_round, wait_then, rising,
  Fails, Ends, with_retry_stops,
}

-- Two calls that fail, with a network error and with 503; then a value.
abbrev flaky : ℕ → Outcome ℕ
flaky zero = threw none
flaky (suc zero) = threw (some 503)
flaky (suc (suc n)) = returned 7

with_retry_stops_example :
    (n : ℕ) × ((with_retry flaky 3 3000).last ≡ some (flaky n))
    × ((with_retry flaky 3 3000).delays ≡ rising 3000 0 n)
    × ((i : ℕ) → i < n → Fails (flaky i))
    × (n < 3)
    × (Ends (flaky n) ⊎ (suc n ≡ 3))
with_retry_stops_example = with_retry_stops flaky 3 3000 (omega arith)

flaky_run : with_retry flaky 3 3000 ≡ record { last = some (returned 7); delays = 3000 ∷ 6000 ∷ [] }
unfolding with_retry retry_from end_round wait_then is_retryable
flaky_run = refl

abbrev missing : ℕ → Outcome ℕ
missing n = threw (some 404)

-- A request that is wrong is not sent again.
gives_up : with_retry missing 3 3000 ≡ record { last = some (threw (some 404)); delays = [] }
unfolding with_retry retry_from end_round wait_then is_retryable
gives_up = refl

-- No call at all, where none is allowed.
no_call : with_retry flaky 0 3000 ≡ record { last = none; delays = [] }
unfolding with_retry retry_from
no_call = refl

-- `?page=3&size=500`
page_three :
    parse_pagination (some (pos 3)) (some (pos 500))
    ≡ record { page = some 3; size = some 100; skip = some 200 }
unfolding parse_pagination at_least_one at_most_hundred skip_of
page_three = refl

-- `?page=x`
no_page :
    parse_pagination none (some (pos 20)) ≡ record { page = none; size = some 20; skip = none }
unfolding parse_pagination at_least_one at_most_hundred skip_of
no_page = refl
