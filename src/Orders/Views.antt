-- ===== src/Orders/Views.antt =====
-- What the order service reads out: `getOrders`, `getAdminOrders`, `getAdminOrderStats`,
-- `getOrderById`, `getReviewEligibility` and `getReceipt` of
-- packages/order-service/src/services/order.service.js, and `getPaymentDetails`.
pub mod Laws
use iuh_exchange_be.Base.{
  ℕ, ◌+◌, ◌*◌, ◌-◌, ◌/◌, String, Bool, true, false, not, Option, none, some, List, [], ◌∷◌, ◌==◌,
  ◌&&◌, ◌||◌, if◌then◌else◌, leb, length, take, drop, select, is_some,
}
use iuh_exchange_be.Base.Result.{Result, ok, err, not_found, forbidden}
use iuh_exchange_be.Orders.Model.{
  ObjectId, Order, OrderStatus, completed, cancelled, DisputeOutcome, buyer_fault, PaymentStatus,
  unpaid, paid, refunded, CaseStatus, no_case, opened, resolved, rejected,
}
use iuh_exchange_be.Orders.Flags.{is_paid, is_refunded, is_opened}
use iuh_exchange_be.Orders.Store.{World, find_by_id, save}
use iuh_exchange_be.Orders.Transitions.{status_is, is_outsider}

pub record Page (A : Type 0) : Type 0 where
  pub content : List A
  pub page : ℕ
  pub size : ℕ
  pub total_elements : ℕ
  pub total_pages : ℕ
  pub last : Bool

-- `Math.ceil(n / size)`, for a size that is not 0.
unfoldable pub ceil_div : ℕ → ℕ → ℕ
ceil_div n size = (n + size - 1) / size

-- The filter of `getOrders`; an absent status or product does not filter.
pub record OrderQuery : Type 0 where
  pub as_seller : Bool
  pub status : Option OrderStatus
  pub product_id : Option ObjectId

unfoldable pub matches : ObjectId → OrderQuery → Order → Bool
unfolding status_is
matches user q o =
    (if q.as_seller then o.seller_id == user else o.buyer_id == user)
    && elim (q.status) [ none ↦ true | some s ↦ status_is o.status s ]
    && elim (q.product_id) [ none ↦ true | some p ↦ o.product_id == p ]

-- The orders are listed newest first: the sort by `createdAt` is the store's order. Pages count
-- from 1.
unfoldable pub page_of : ℕ → ℕ → List Order → Page Order
unfolding ceil_div
page_of page size found = record {
  content = take size (drop ((page - 1) * size) found);
  page = page;
  size = size;
  total_elements = length found;
  total_pages = ceil_div (length found) size;
  last = leb (ceil_div (length found) size) page;
}

unfoldable pub get_orders : ObjectId → OrderQuery → ℕ → ℕ → World → Page Order
unfolding matches page_of
get_orders user q page size w = page_of page size (select (matches user q) w.orders)

unfoldable pub payment_is : PaymentStatus → PaymentStatus → Bool
payment_is unpaid unpaid = true
payment_is paid paid = true
payment_is refunded refunded = true
payment_is _ _ = false

unfoldable pub case_is : CaseStatus → CaseStatus → Bool
case_is no_case no_case = true
case_is opened opened = true
case_is resolved resolved = true
case_is rejected rejected = true
case_is _ _ = false

-- The filter of `getAdminOrders`; `none` is an absent field or ALL.
pub record AdminQuery : Type 0 where
  pub status : Option OrderStatus
  pub payment_status : Option PaymentStatus
  pub dispute_status : Option CaseStatus
  pub issue_status : Option CaseStatus

unfoldable pub matches_admin : AdminQuery → Order → Bool
unfolding status_is payment_is case_is
matches_admin q o =
    elim (q.status) [ none ↦ true | some s ↦ status_is o.status s ]
    && elim (q.payment_status) [ none ↦ true | some s ↦ payment_is o.payment.status s ]
    && elim (q.dispute_status) [ none ↦ true | some s ↦ case_is o.dispute.status s ]
    && elim (q.issue_status) [ none ↦ true | some s ↦ case_is o.issue.status s ]

-- The content is without the snapshots that other services give; `last` is computed otherwise than
-- in `getOrders`.
unfoldable pub get_admin_orders : AdminQuery → ℕ → ℕ → World → Page Order
unfolding matches_admin ceil_div
get_admin_orders q page size w =
    let found = select (matches_admin q) w.orders in
    record {
      content = take size (drop ((page - 1) * size) found);
      page = page;
      size = size;
      total_elements = length found;
      total_pages = ceil_div (length found) size;
      last = leb (length found) (page * size);
    }

unfoldable pub get_my_orders : ObjectId → World → List Order
unfolding is_outsider
get_my_orders user w = select (λ o. not (is_outsider o user)) w.orders

-- `role === 'ADMIN'`, the buyer or the seller. The snapshots of the product and the users are
-- other services' answers.
unfoldable pub can_view : Bool → ObjectId → Order → Bool
unfolding is_outsider
can_view is_admin user o = is_admin || not (is_outsider o user)

unfoldable pub get_order_by_id : ObjectId → ObjectId → Bool → World → Result Order
unfolding can_view
get_order_by_id id user is_admin w = elim (find_by_id id w.orders) [
  | none ↦ err not_found
  | some o ↦ if can_view is_admin user o then ok o else err forbidden
]

-- `order.disputeOutcome !== 'BUYER_FAULT'`
unfoldable pub is_buyer_fault : Option DisputeOutcome → Bool
is_buyer_fault (some buyer_fault) = true
is_buyer_fault _ = false

unfoldable pub is_eligible : ObjectId → Order → Bool
unfolding status_is is_opened is_refunded is_buyer_fault
is_eligible user o =
    o.buyer_id == user
    && status_is o.status completed
    && not (is_opened o.dispute.status)
    && not (is_opened o.issue.status)
    && not (is_refunded o.payment.status)
    && not (is_buyer_fault o.dispute.outcome)

unfoldable pub get_review_eligibility : ObjectId → ObjectId → World → Result Bool
get_review_eligibility id user w = elim (find_by_id id w.orders) [
  | none ↦ err not_found
  | some o ↦ ok (is_eligible user o)
]

-- `!order.receiptNumber && (order.paymentStatus !== 'UNPAID' || order.status === 'COMPLETED')`
unfoldable pub needs_receipt : Order → Bool
unfolding status_is is_paid is_refunded
needs_receipt o =
    not (is_some o.receipt_number)
    && (is_paid o.payment.status || is_refunded o.payment.status || status_is o.status completed)

-- `number` is what `buildReceiptNumber` gives: the date and the end of the order's id.
unfoldable pub receipt_for : String → ObjectId → World → Option Order → Result Order × World
unfolding is_outsider needs_receipt
receipt_for number user w none = (err not_found, w)
receipt_for number user w (some o) =
    let o' = record o { receipt_number = some number } in
    if is_outsider o user
    then (err forbidden, w)
    else if needs_receipt o
    then (ok o', save o' w)
    else (ok o, w)

unfoldable pub get_receipt : String → ObjectId → ObjectId → World → Result Order × World
unfolding receipt_for
get_receipt number id user w = receipt_for number user w (find_by_id id w.orders)

pub record Stats : Type 0 where
  pub total : ℕ
  pub completed_count : ℕ
  pub cancelled_count : ℕ
  pub paid_count : ℕ
  pub refunded_count : ℕ
  pub disputes_open : ℕ
  pub issues_open : ℕ
  pub gross_payment_amount : ℕ
  pub refunded_amount : ℕ
  pub cancellation_rate_tenths : ℕ

-- `$sum: '$price'` of a group.
unfoldable pub sum_prices : List Order → ℕ
sum_prices [] = 0
sum_prices (o ∷ os) = o.price + sum_prices os

-- `Math.round((cancelled / total) * 1000)`, the rate in tenths of a percent.
unfoldable pub rate_tenths : ℕ → ℕ → ℕ
rate_tenths part whole = if whole == 0 then 0 else (part * 2000 + whole) / (2 * whole)

unfoldable pub get_admin_order_stats : World → Stats
unfolding sum_prices rate_tenths
get_admin_order_stats w =
    let cancelled_count = length (select (λ o. status_is o.status cancelled) w.orders) in
    record {
      total = length w.orders;
      completed_count = length (select (λ o. status_is o.status completed) w.orders);
      cancelled_count = cancelled_count;
      paid_count = length (select (λ o. is_paid o.payment.status) w.orders);
      refunded_count = length (select (λ o. is_refunded o.payment.status) w.orders);
      disputes_open = length (select (λ o. is_opened o.dispute.status) w.orders);
      issues_open = length (select (λ o. is_opened o.issue.status) w.orders);
      gross_payment_amount = sum_prices (select (λ o. is_paid o.payment.status) w.orders);
      refunded_amount = sum_prices (select (λ o. is_refunded o.payment.status) w.orders);
      cancellation_rate_tenths = rate_tenths cancelled_count (length w.orders);
    }
