-- ===== src/Orders/Issues.antt =====
-- Complaints about a payment: `openPaymentIssue` and `resolvePaymentIssue` of
-- packages/order-service/src/services/order.service.js.
use iuh_exchange_be.Base.{ℕ, String, not, some, [], ◌∷◌, ◌++◌, ◌&&◌, or_else}
use iuh_exchange_be.Base.Text.{or_text, str_append}
use iuh_exchange_be.Base.Result.{Result, ok, ◌>>◌, throw_if, bad_request, forbidden}
use iuh_exchange_be.Orders.Model.{
  ObjectId, Order, opened, resolved, rejected, CaseStatus, CaseAction, case_opened, case_resolved,
  case_rejected, admin, paid, refunded, ProviderStatus, matched, TransactionType, TransactionStatus,
  Payment,
}
use iuh_exchange_be.Orders.Events.{
  IssueAction, confirm_paid, refund_buyer, reject_issue, issue_opened, issue_resolved, parties,
}
use iuh_exchange_be.Orders.Flags.{is_opened, is_paid, is_refunded, is_bank_transfer, is_system}
use iuh_exchange_be.Orders.Store.{Env, World, update_order}
use iuh_exchange_be.Orders.Transitions.{actor_role_for}

unfoldable pub complain : ℕ → ObjectId → String → Order → Result Order
unfolding actor_role_for is_system is_opened is_paid is_refunded is_bank_transfer
complain now user reason o = do
  let role = actor_role_for o user
  throw_if (is_system role) forbidden
  throw_if (is_opened o.issue.status) bad_request
  throw_if (is_refunded o.payment.status) bad_request
  throw_if (not (is_bank_transfer o.payment.method) && not (is_paid o.payment.status)) bad_request
  ok (record o {
    issue = record (o.issue) {
      status = opened;
      reason = reason;
      opened_by = some user;
      opened_at = some now;
      timeline =
          o.issue.timeline
          ++ (record { action = case_opened; actor_id = user; actor_role = role; note = reason }
              ∷ []);
    };
  })

unfoldable pub open_payment_issue :
    Env → ObjectId → ObjectId → String → World → Result Order × World
open_payment_issue env id user reason =
    update_order env id (complain env.now user reason)
      (λ o. issue_opened (parties o) o.product_id o.price user reason ∷ [])

-- What the admin's action does to the payment.
unfoldable pub settle_issue : Env → IssueAction → String → Order → Payment
settle_issue env confirm_paid resolution o = record (o.payment) {
  status = paid;
  provider_status = ProviderStatus.admin_confirmed_paid;
  reconciliation = matched;
  paid_at = or_else o.payment.paid_at (some env.now);
  transactions =
      o.payment.transactions
      ++ (record {
        type = TransactionType.transfer_confirmation;
        transaction_id = or_else o.payment.transaction_id (some (str_append "ADMIN_" env.now_text));
        amount = o.price;
        method = o.payment.method;
        status = TransactionStatus.success;
        note = or_text resolution "Admin xác nhận thanh toán";
      }
          ∷ []);
}
settle_issue env refund_buyer resolution o = record (o.payment) {
  status = refunded;
  provider_status = ProviderStatus.admin_refunded;
  reconciliation = matched;
  refunded_at = some env.now;
  transactions =
      o.payment.transactions
      ++ (record {
        type = TransactionType.refund_created;
        transaction_id = o.payment.transaction_id;
        amount = o.price;
        method = o.payment.method;
        status = TransactionStatus.returned;
        note = or_text resolution "Admin duyệt hoàn tiền";
      }
          ∷ []);
}
settle_issue env reject_issue resolution o = o.payment

unfoldable pub issue_status : IssueAction → CaseStatus
issue_status confirm_paid = resolved
issue_status refund_buyer = resolved
issue_status reject_issue = rejected

unfoldable pub issue_entry : IssueAction → CaseAction
issue_entry confirm_paid = case_resolved
issue_entry refund_buyer = case_resolved
issue_entry reject_issue = case_rejected

-- The order as a ruling on its complaint leaves it.
unfoldable pub closed_order : Env → ObjectId → IssueAction → String → Order → Order
unfolding settle_issue issue_status issue_entry
closed_order env admin_id action resolution o = record o {
  payment = settle_issue env action resolution o;
  issue = record (o.issue) {
    status = issue_status action;
    resolution = resolution;
    resolved_by = some admin_id;
    resolved_at = some env.now;
    timeline =
        o.issue.timeline
        ++ (record {
          action = issue_entry action;
          actor_id = admin_id;
          actor_role = admin;
          note = resolution;
        }
            ∷ []);
  };
}

unfoldable pub close_issue : Env → ObjectId → IssueAction → String → Order → Result Order
unfolding is_opened closed_order
close_issue env admin_id action resolution o = do
  throw_if (not (is_opened o.issue.status)) bad_request
  ok (closed_order env admin_id action resolution o)

unfoldable pub resolve_payment_issue :
    Env → ObjectId → ObjectId → IssueAction → String → World → Result Order × World
unfolding issue_status
resolve_payment_issue env id admin_id action resolution =
    update_order env id (close_issue env admin_id action resolution)
      (λ o. issue_resolved (parties o) o.product_id o.price action o.issue.status ∷ [])
