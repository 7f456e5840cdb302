-- ===== src/Orders/Rulings.antt =====
-- The end of a dispute: `resolveDispute`, the karma adjustments and the sanctions of
-- packages/order-service/src/services/order.service.js.
pub mod Laws
use iuh_exchange_be.Base.{
  ℕ, String, Bool, true, false, not, Option, none, some, List, [], ◌∷◌, ◌++◌, map, zero,
  if◌then◌else◌,
}
use iuh_exchange_be.Base.Int.{ℤ, pos, negsuc}
use iuh_exchange_be.Base.Text.{or_text, str_append}
use iuh_exchange_be.Base.Result.{Result, ok, ◌>>◌, throw_if, bad_request}
use iuh_exchange_be.Orders.Model.{
  ObjectId, Order, cancelled, CaseStatus, resolved, rejected, DisputeOutcome, no_fault,
  seller_fault, buyer_fault, both_fault, claim_rejected, Remedy, no_remedy, refund, cancel_order,
  Sanction, no_sanction, warning, karma_minus_5, karma_minus_10, karma_minus_15, CaseAction,
  case_resolved, case_rejected, admin, system, by_user, refunded, ProviderStatus, matched,
  TransactionType, TransactionStatus, CancelCategory,
}
use iuh_exchange_be.Orders.Events.{
  Event, Adjustment, KarmaSource, dispute_resolved, karma_adjustment_requested, parties,
  dispute_rejected, dispute_seller_fault, dispute_buyer_protected, dispute_buyer_fault,
  dispute_both_fault_buyer, dispute_both_fault_seller, dispute_buyer_sanction,
  dispute_seller_sanction,
}
use iuh_exchange_be.Orders.Flags.{is_opened, is_paid}
use iuh_exchange_be.Orders.Store.{Env, World, update_order}
use iuh_exchange_be.Orders.Transitions.{status_is, append_status_history}

-- The `status` of the admin's request: REJECTED, or anything else.
pub data Verdict : Type 0 where
  dismiss uphold : Verdict

unfoldable pub verdict_status : Verdict → CaseStatus
verdict_status dismiss = rejected
verdict_status uphold = resolved

unfoldable pub verdict_outcome : Verdict → DisputeOutcome → DisputeOutcome
verdict_outcome dismiss outcome = claim_rejected
verdict_outcome uphold outcome = outcome

unfoldable pub verdict_action : Verdict → CaseAction
verdict_action dismiss = case_rejected
verdict_action uphold = case_resolved

-- Sanctions as `normalizeDisputeSanctions` gives them: a text that is no label is NONE.
pub record Ruling : Type 0 where
  pub verdict : Verdict
  pub outcome : DisputeOutcome
  pub remedy : Remedy
  pub resolution : String
  pub buyer_sanction : Option Sanction
  pub seller_sanction : Option Sanction
  pub internal_note : String

unfoldable pub normalize_sanction : Option Sanction → Sanction
normalize_sanction none = no_sanction
normalize_sanction (some s) = s

-- `DISPUTE_SANCTION_POINTS[sanction] || 0`
unfoldable pub sanction_points : Sanction → ℤ
sanction_points no_sanction = pos 0
sanction_points warning = pos 0
sanction_points karma_minus_5 = negsuc 4
sanction_points karma_minus_10 = negsuc 9
sanction_points karma_minus_15 = negsuc 14

unfoldable pub sanction_label : Sanction → String
sanction_label no_sanction = "Không áp dụng"
sanction_label warning = "Cảnh cáo"
sanction_label karma_minus_5 = "Trừ 5 Karma"
sanction_label karma_minus_10 = "Trừ 10 Karma"
sanction_label karma_minus_15 = "Trừ 15 Karma"

abbrev adjustment : Order → ObjectId → Option ObjectId → ℤ → String → KarmaSource → Adjustment
adjustment o admin_id user amount reason source = record {
  user_id = user;
  amount = amount;
  reason = reason;
  source = source;
  related_id = o.id;
  performed_by = admin_id;
}

-- `disputeKarmaAdjustments`, on the order that the ruling has changed.
unfoldable pub outcome_adjustments : Order → ObjectId → Verdict → DisputeOutcome → List Adjustment
outcome_adjustments o admin_id dismiss _ =
    adjustment o admin_id o.dispute.opened_by (negsuc 4) "Tranh chấp bị từ chối do không đủ căn cứ"
      dispute_rejected
    ∷ []
outcome_adjustments o admin_id uphold seller_fault =
    adjustment o admin_id (some o.seller_id) (negsuc 14)
      "Admin xác định người bán có lỗi trong tranh chấp" dispute_seller_fault
    ∷ adjustment o admin_id (some o.buyer_id) (pos 3) "Tranh chấp được xử lý có lợi cho người mua"
        dispute_buyer_protected
    ∷ []
outcome_adjustments o admin_id uphold buyer_fault =
    adjustment o admin_id (some o.buyer_id) (negsuc 9)
      "Admin xác định người mua có lỗi trong tranh chấp" dispute_buyer_fault
    ∷ []
outcome_adjustments o admin_id uphold both_fault =
    adjustment o admin_id (some o.buyer_id) (negsuc 4)
      "Admin xác định cả hai bên cùng có lỗi trong tranh chấp" dispute_both_fault_buyer
    ∷ adjustment o admin_id (some o.seller_id) (negsuc 4)
        "Admin xác định cả hai bên cùng có lỗi trong tranh chấp" dispute_both_fault_seller
    ∷ []
outcome_adjustments o admin_id uphold no_fault = []
outcome_adjustments o admin_id uphold claim_rejected = []

unfoldable pub is_zero : ℤ → Bool
is_zero (pos zero) = true
is_zero _ = false

-- One party's part of `disputeSanctionAdjustments`: nothing for an amount of 0.
unfoldable pub sanction_adjustment :
    Order → ObjectId → ObjectId → Sanction → KarmaSource → List Adjustment
unfolding is_zero sanction_points sanction_label
sanction_adjustment o admin_id user sanction source =
    if is_zero (sanction_points sanction)
    then []
    else adjustment o admin_id (some user) (sanction_points sanction)
        (str_append "Chế tài tranh chấp: " (sanction_label sanction)) source
      ∷ []

unfoldable pub sanction_adjustments : Order → ObjectId → Sanction → Sanction → List Adjustment
unfolding sanction_adjustment
sanction_adjustments o admin_id buyer_sanction seller_sanction =
    sanction_adjustment o admin_id o.buyer_id buyer_sanction dispute_buyer_sanction
    ++ sanction_adjustment o admin_id o.seller_id seller_sanction dispute_seller_sanction

-- The fields of the case.
unfoldable pub rule : ℕ → ObjectId → Ruling → Order → Order
unfolding verdict_status verdict_outcome normalize_sanction
rule now admin_id r o = record o {
  dispute = record (o.dispute) {
    status = verdict_status r.verdict;
    outcome = some (verdict_outcome r.verdict r.outcome);
    remedy = some r.remedy;
    buyer_sanction = normalize_sanction r.buyer_sanction;
    seller_sanction = normalize_sanction r.seller_sanction;
    internal_note = r.internal_note;
    resolution = r.resolution;
    resolved_by = some admin_id;
    resolved_at = some now;
  };
}

unfoldable pub log_ruling : ObjectId → Ruling → Order → Order
unfolding verdict_action
log_ruling admin_id r o = record o {
  dispute = record (o.dispute) {
    timeline =
        o.dispute.timeline
        ++ (record {
          action = verdict_action r.verdict;
          actor_id = admin_id;
          actor_role = admin;
          note = r.resolution;
        }
            ∷ []);
  };
}

-- `remedy === 'CANCEL_ORDER' && order.status !== 'CANCELLED'`: no transition is asserted.
unfoldable pub force_cancel : ℕ → ObjectId → String → Order → Order
unfolding status_is
force_cancel now admin_id resolution o =
    if status_is o.status cancelled
    then o
    else append_status_history now cancelled
        (record {
          changed_by = by_user admin_id;
          actor_role = system;
          reason = or_text resolution "Admin hủy giao dịch sau tranh chấp";
          category = some CancelCategory.dispute;
        })
        o

-- `remedy === 'REFUND' && order.paymentStatus === 'PAID'`
unfoldable pub refund_dispute : ℕ → String → Order → Order
unfolding is_paid
refund_dispute now resolution o =
    if is_paid o.payment.status
    then record o {
      payment = record (o.payment) {
        status = refunded;
        provider_status = ProviderStatus.dispute_refunded;
        reconciliation = matched;
        refunded_at = some now;
        transactions =
            o.payment.transactions
            ++ (record {
              type = TransactionType.refund_created;
              transaction_id = o.payment.transaction_id;
              amount = o.price;
              method = o.payment.method;
              status = TransactionStatus.returned;
              note = or_text resolution "Admin hoàn tiền sau tranh chấp";
            }
                ∷ []);
      };
    }
    else o

unfoldable pub apply_remedy : ℕ → ObjectId → Remedy → String → Order → Order
unfolding force_cancel refund_dispute
apply_remedy now admin_id no_remedy resolution o = o
apply_remedy now admin_id cancel_order resolution o = force_cancel now admin_id resolution o
apply_remedy now admin_id refund resolution o = refund_dispute now resolution o

unfoldable pub settle_dispute : ℕ → ObjectId → Ruling → Order → Result Order
unfolding is_opened rule apply_remedy log_ruling
settle_dispute now admin_id r o = do
  throw_if (not (is_opened o.dispute.status)) bad_request
  ok (
      log_ruling admin_id r
        (apply_remedy now admin_id r.remedy r.resolution (rule now admin_id r o)))

abbrev pub karma_adjustments : ObjectId → Ruling → Order → List Adjustment
karma_adjustments admin_id r o =
    outcome_adjustments o admin_id r.verdict r.outcome
    ++ sanction_adjustments o admin_id (normalize_sanction r.buyer_sanction)
        (normalize_sanction r.seller_sanction)

abbrev pub ruling_events : ObjectId → Ruling → Order → List Event
ruling_events admin_id r o =
    dispute_resolved (parties o) o.product_id o.dispute.status o.dispute.outcome r.remedy
      (normalize_sanction r.buyer_sanction) (normalize_sanction r.seller_sanction)
    ∷ map karma_adjustment_requested (karma_adjustments admin_id r o)

unfoldable pub resolve_dispute : Env → ObjectId → ObjectId → Ruling → World → Result Order × World
resolve_dispute env id admin_id r =
    update_order env id (settle_dispute env.now admin_id r) (ruling_events admin_id r)
