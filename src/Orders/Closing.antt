-- ===== src/Orders/Closing.antt =====
-- The user's ways to end an order: `confirmOrder`, `rejectOrder`, `cancelByBuyer` and
-- `reportNoShow` of packages/order-service/src/services/order.service.js.
use iuh_exchange_be.Base.{
  ℕ, String, Bool, false, not, Option, none, some, List, [], ◌∷◌, ◌++◌, ◌==◌, ◌&&◌, ◌||◌,
  if◌then◌else◌, any, or_else,
}
use iuh_exchange_be.Base.Text.{or_text, str_append}
use iuh_exchange_be.Base.Result.{Result, ok, ◌>>◌, throw_if, bad_request, forbidden}
use iuh_exchange_be.Orders.Model.{
  ObjectId, Order, pending, awaiting_seller, completed, cancelled, paid, ProviderStatus, matched,
  TransactionType, TransactionStatus, cash, by_user, ActorRole, buyer, seller, CancelCategory,
  no_show,
}
use iuh_exchange_be.Orders.Flags.{is_bank_transfer, is_cash, is_paid, is_system, is_buyer}
use iuh_exchange_be.Orders.Events.{
  Event, order_cancelled, order_completed, no_show_reported, parties,
}
use iuh_exchange_be.Orders.Saga.{cancelled_events}
use iuh_exchange_be.Orders.Store.{Env, World, update_order}
use iuh_exchange_be.Orders.Transitions.{
  status_is, append_status_history, assert_transition, actor_role_for,
}

-- The cash branch of `confirmOrder`: the handover itself settles the payment.
unfoldable pub settle_cash : Env → Order → Order
settle_cash env o =
    let id : Option String =
      or_else o.payment.transaction_id (some (str_append "CASH_" env.token)) in
    record o {
      payment = record (o.payment) {
        status = paid;
        provider_status = ProviderStatus.cash_confirmed;
        webhook_verified = false;
        reconciliation = matched;
        paid_at = some env.now;
        transaction_id = id;
        transactions =
            o.payment.transactions
            ++ (record {
              type = TransactionType.cash_confirmation;
              transaction_id = id;
              amount = o.price;
              method = cash;
              status = TransactionStatus.success;
              note = "Seller confirmed cash payment during handover";
            }
                ∷ []);
      };
    }

-- The guards on CANCELLED and COMPLETED behind the one on AWAITING_SELLER are kept as written.
unfoldable pub complete : Env → ObjectId → Order → Result Order
unfolding is_bank_transfer is_cash is_paid settle_cash status_is assert_transition
complete env seller_id o = do
  throw_if (not (o.seller_id == seller_id)) forbidden
  throw_if (not (status_is o.status awaiting_seller)) bad_request
  throw_if (status_is o.status cancelled) bad_request
  throw_if (status_is o.status completed) bad_request
  throw_if (is_bank_transfer o.payment.method && not (is_paid o.payment.status)) bad_request
  let settled =
      if is_cash o.payment.method && not (is_paid o.payment.status) then settle_cash env o else o
  assert_transition settled.status completed
  ok (
      append_status_history env.now completed
        (record {
          changed_by = by_user seller_id;
          actor_role = seller;
          reason = "Seller confirmed order";
          category = none;
        })
        settled)

abbrev completed_events : Order → List Event
completed_events o = order_completed (parties o) o.product_id ∷ []

unfoldable pub confirm_order : Env → ObjectId → ObjectId → World → Result Order × World
confirm_order env id seller_id = update_order env id (complete env seller_id) completed_events

unfoldable pub turn_down : ℕ → ObjectId → String → CancelCategory → Order → Result Order
unfolding status_is assert_transition
turn_down now seller_id reason category o = do
  throw_if (not (o.seller_id == seller_id)) forbidden
  throw_if (status_is o.status completed) bad_request
  assert_transition o.status cancelled
  ok (
      append_status_history now cancelled
        (record {
          changed_by = by_user seller_id;
          actor_role = seller;
          reason = reason;
          category = some category;
        })
        o)

unfoldable pub reject_order :
    Env → ObjectId → ObjectId → String → CancelCategory → World → Result Order × World
reject_order env id seller_id reason category =
    update_order env id (turn_down env.now seller_id reason category) (cancelled_events reason)

unfoldable pub call_off : ℕ → ObjectId → String → CancelCategory → Order → Result Order
unfolding status_is assert_transition
call_off now buyer_id reason category o = do
  throw_if (not (o.buyer_id == buyer_id)) forbidden
  throw_if (status_is o.status completed) bad_request
  throw_if (status_is o.status cancelled) bad_request
  assert_transition o.status cancelled
  ok (
      append_status_history now cancelled
        (record {
          changed_by = by_user buyer_id;
          actor_role = buyer;
          reason = or_text reason "Người mua hủy đơn hàng";
          category = some category;
        })
        o)

unfoldable pub cancel_by_buyer :
    Env → ObjectId → ObjectId → String → CancelCategory → World → Result Order × World
cancel_by_buyer env id buyer_id reason category =
    update_order env id (call_off env.now buyer_id reason category)
      (cancelled_events (or_text reason "Người mua hủy đơn hàng"))

-- The order is still in progress: `['PENDING', 'AWAITING_SELLER'].includes(order.status)`.
unfoldable pub is_active : Order → Bool
unfolding status_is
is_active o = status_is o.status pending || status_is o.status awaiting_seller

unfoldable pub no_show_reason : ActorRole → String → String
unfolding is_buyer
no_show_reason role reason =
    or_text reason
      (if is_buyer role then "Người bán không đến điểm hẹn" else "Người mua không đến điểm hẹn")

unfoldable pub miss : ℕ → ObjectId → String → String → Order → Result Order
unfolding is_active is_system no_show_reason actor_role_for
miss now user reason url o = do
  let role = actor_role_for o user
  throw_if (is_system role) forbidden
  throw_if (not (is_active o)) bad_request
  throw_if (any (λ r. r.reported_by == user) o.no_show_reports) bad_request
  ok (
      append_status_history now cancelled
        (record {
          changed_by = by_user user;
          actor_role = role;
          reason = no_show_reason role reason;
          category = some no_show;
        })
        (record o {
          no_show_reports =
              o.no_show_reports
              ++ (record {
                reported_by = user;
                actor_role = role;
                reason = no_show_reason role reason;
                evidence_url = url;
              }
                  ∷ []);
        }))

abbrev no_show_events : ObjectId → String → Order → List Event
no_show_events user reason o =
    order_cancelled (parties o) o.product_id (no_show_reason (actor_role_for o user) reason)
    ∷ no_show_reported (parties o) user (actor_role_for o user)
    ∷ []

unfoldable pub report_no_show :
    Env → ObjectId → ObjectId → String → String → World → Result Order × World
report_no_show env id user reason url =
    update_order env id (miss env.now user reason url) (no_show_events user reason)
