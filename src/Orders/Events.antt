-- ===== src/Orders/Events.antt =====
-- The Kafka events that the order service publishes (packages/order-service/src/services), by
-- topic, with the payload fields that a consumer reads.
use iuh_exchange_be.Base.{ℕ, String, Option}
use iuh_exchange_be.Base.Int.{ℤ}
use iuh_exchange_be.Orders.Model.{
  ObjectId, OrderStatus, PaymentStatus, PaymentMethod, ActorRole, CaseStatus, DisputeOutcome,
  Remedy, Sanction, HandoverStatus, Order,
}

pub record Parties : Type 0 where
  pub order_id : ObjectId
  pub buyer_id : ObjectId
  pub seller_id : ObjectId

unfoldable pub parties : Order → Parties
parties o = record { order_id = o.id; buyer_id = o.buyer_id; seller_id = o.seller_id }

pub data KarmaSource : Type 0 where
  dispute_rejected dispute_seller_fault dispute_buyer_protected dispute_buyer_fault : KarmaSource
  dispute_both_fault_buyer dispute_both_fault_seller : KarmaSource
  dispute_buyer_sanction dispute_seller_sanction : KarmaSource

-- The payload of `karma.adjustment.requested`, without its `metadata`.
pub record Adjustment : Type 0 where
  pub user_id : Option ObjectId
  pub amount : ℤ
  pub reason : String
  pub source : KarmaSource
  pub related_id : ObjectId
  pub performed_by : ObjectId

pub data HandoverAction : Type 0 where
  accept reject : HandoverAction

pub data IssueAction : Type 0 where
  confirm_paid refund_buyer reject_issue : IssueAction

pub data Event : Type 0 where
  order_created : Parties → ObjectId → ℕ → Option ObjectId → Event
  order_updated : Parties → ObjectId → OrderStatus → PaymentStatus → String → Event
  order_cancelled : Parties → ObjectId → String → Event
  order_completed : Parties → ObjectId → Event
  order_refunded : Parties → ObjectId → ℕ → Event
  no_show_reported : Parties → ObjectId → ActorRole → Event
  dispute_opened : Parties → ObjectId → ObjectId → String → Event
  evidence_added : Parties → ObjectId → String → Event
  dispute_resolved :
      Parties → ObjectId → CaseStatus → Option DisputeOutcome → Remedy → Sanction → Sanction → Event
  karma_adjustment_requested : Adjustment → Event
  handover_proposed : Parties → ObjectId → String → ℕ → Event
  handover_responded : Parties → ObjectId → HandoverAction → HandoverStatus → Event
  handover_confirmed : Parties → ObjectId → HandoverStatus → Event
  issue_opened : Parties → ObjectId → ℕ → ObjectId → String → Event
  issue_resolved : Parties → ObjectId → ℕ → IssueAction → CaseStatus → Event
  payment_reported : Parties → ObjectId → ℕ → PaymentMethod → Event
  payment_confirmed : Parties → ObjectId → ℕ → PaymentMethod → Event
