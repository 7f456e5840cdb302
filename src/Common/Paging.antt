-- ===== src/Common/Paging.antt =====
-- `parsePagination` of packages/common/src/utils/helpers.js.
use iuh_exchange_be.Base.{ℕ, ◌-◌, ◌*◌, Option, none, some, min, max}
use iuh_exchange_be.Base.Int.{ℤ, pos, negsuc}

-- Each number is absent where it is `NaN`.
pub record Pagination : Type 0 where
  pub page : Option ℕ
  pub size : Option ℕ
  pub skip : Option ℕ

-- `Math.max(1, n)`
unfoldable pub at_least_one : Option ℤ → Option ℕ
at_least_one none = none
at_least_one (some (pos n)) = some (max 1 n)
at_least_one (some (negsuc n)) = some 1

-- `Math.min(100, n)`
unfoldable pub at_most_hundred : Option ℕ → Option ℕ
at_most_hundred none = none
at_most_hundred (some n) = some (min 100 n)

-- `(page - 1) * size`
unfoldable pub skip_of : Option ℕ → Option ℕ → Option ℕ
skip_of none size = none
skip_of (some page) none = none
skip_of (some page) (some size) = some ((page - 1) * size)

-- The arguments are what `parseInt` gives for the two fields, or for `'1'` and `'20'`.
unfoldable pub parse_pagination : Option ℤ → Option ℤ → Pagination
unfolding at_least_one at_most_hundred skip_of
parse_pagination page size =
    let p = at_least_one page in
    let s = at_most_hundred (at_least_one size) in record { page = p; size = s; skip = skip_of p s }
