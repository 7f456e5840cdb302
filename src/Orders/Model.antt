-- ===== src/Orders/Model.antt =====
-- The order document (packages/order-service/src/models/Order.js), its parts grouped into records.
-- Ids are only compared, so they are numbers; a date is its number of milliseconds.
use iuh_exchange_be.Base.{ℕ, String, Bool, Option, List, none, [], false}

abbrev pub ObjectId : Type 0
ObjectId = ℕ

pub data OrderStatus : Type 0 where
  pending awaiting_seller completed cancelled : OrderStatus

pub data PaymentStatus : Type 0 where
  unpaid paid refunded : PaymentStatus

pub data PaymentMethod : Type 0 where
  no_method bank_transfer cash vnpay_mock : PaymentMethod

pub data ListingType : Type 0 where
  sell give_away trade : ListingType

-- `disputeStatus` and `paymentIssueStatus`: NONE, OPEN, RESOLVED, REJECTED.
pub data CaseStatus : Type 0 where
  no_case opened resolved rejected : CaseStatus

pub data DisputeOutcome : Type 0 where
  no_fault seller_fault buyer_fault both_fault claim_rejected : DisputeOutcome

pub data Remedy : Type 0 where
  no_remedy refund cancel_order : Remedy

pub data Sanction : Type 0 where
  no_sanction warning karma_minus_5 karma_minus_10 karma_minus_15 : Sanction

pub data HandoverStatus : Type 0 where
  not_scheduled proposed scheduled buyer_confirmed seller_confirmed handed_over : HandoverStatus

pub data ProposalStatus : Type 0 where
  waiting countered accepted declined : ProposalStatus

pub data ActorRole : Type 0 where
  buyer seller system admin : ActorRole

-- `changedBy`: the text 'system' or a user.
pub data Actor : Type 0 where
  by_system : Actor
  by_user : ObjectId → Actor

pub data CancelCategory : Type 0 where
  other seller_rejected buyer_cancelled no_show dispute : CancelCategory

pub data ProviderStatus : Type 0 where
  mock_pending mock_payment_created transfer_reported transfer_confirmed mock_paid : ProviderStatus
  mock_refunded dispute_refunded admin_confirmed_paid admin_refunded : ProviderStatus
  cash_confirmed : ProviderStatus

pub data Reconciliation : Type 0 where
  not_required reconciling matched : Reconciliation

pub data TransactionType : Type 0 where
  payment_created payment_captured payment_failed : TransactionType
  transfer_report transfer_confirmation cash_confirmation refund_created : TransactionType

pub data TransactionStatus : Type 0 where
  in_progress reported success failure returned : TransactionStatus

pub record Transaction : Type 0 where
  pub type : TransactionType
  pub transaction_id : Option String
  pub amount : ℕ
  pub method : PaymentMethod
  pub status : TransactionStatus
  pub note : String

pub record HistoryEntry : Type 0 where
  pub from : Option OrderStatus
  pub to : OrderStatus
  pub changed_by : Actor
  pub actor_role : ActorRole
  pub reason : String
  pub category : Option CancelCategory

-- `status` is absent until a response sets it: no code writes the 'PENDING' of a new proposal.
pub record MeetingProposal : Type 0 where
  pub id : Option ObjectId
  pub location : String
  pub time : ℕ
  pub note : String
  pub proposed_by : ObjectId
  pub status : Option ProposalStatus
  pub responded_by : Option ObjectId
  pub responded_at : Option ℕ

pub record HandoverProof : Type 0 where
  pub confirmed_by : ObjectId
  pub actor_role : ActorRole
  pub code_used : String
  pub evidence_url : String
  pub note : String

pub record NoShowReport : Type 0 where
  pub reported_by : ObjectId
  pub actor_role : ActorRole
  pub reason : String
  pub evidence_url : String

pub record Evidence : Type 0 where
  pub submitted_by : ObjectId
  pub type : String
  pub url : String
  pub note : String

pub data CaseAction : Type 0 where
  case_opened evidence_added case_resolved case_rejected : CaseAction

pub record CaseEntry : Type 0 where
  pub action : CaseAction
  pub actor_id : ObjectId
  pub actor_role : ActorRole
  pub note : String

pub record Handover : Type 0 where
  pub location : String
  pub time : Option ℕ
  pub status : HandoverStatus
  pub proposals : List MeetingProposal
  pub code : Option String
  pub code_expires_at : Option ℕ
  pub proofs : List HandoverProof
  pub buyer_confirmed_at : Option ℕ
  pub seller_confirmed_at : Option ℕ

pub record Cancellation : Type 0 where
  pub at : Option ℕ
  pub by : Option Actor
  pub reason : String
  pub category : Option CancelCategory

pub record Dispute : Type 0 where
  pub status : CaseStatus
  pub reason : String
  pub opened_by : Option ObjectId
  pub opened_at : Option ℕ
  pub outcome : Option DisputeOutcome
  pub remedy : Option Remedy
  pub buyer_sanction : Sanction
  pub seller_sanction : Sanction
  pub internal_note : String
  pub resolution : String
  pub resolved_by : Option ObjectId
  pub resolved_at : Option ℕ
  pub evidence : List Evidence
  pub timeline : List CaseEntry

pub record Payment : Type 0 where
  pub status : PaymentStatus
  pub method : PaymentMethod
  pub transaction_id : Option String
  pub provider_status : ProviderStatus
  pub webhook_verified : Bool
  pub reconciliation : Reconciliation
  pub paid_at : Option ℕ
  pub refunded_at : Option ℕ
  pub transfer_proof_url : String
  pub transfer_reported_at : Option ℕ
  pub transfer_confirmed_at : Option ℕ
  pub transfer_confirmed_by : Option ObjectId
  pub transactions : List Transaction

pub record PaymentIssue : Type 0 where
  pub status : CaseStatus
  pub reason : String
  pub opened_by : Option ObjectId
  pub opened_at : Option ℕ
  pub resolution : String
  pub resolved_by : Option ObjectId
  pub resolved_at : Option ℕ
  pub timeline : List CaseEntry

pub record Order : Type 0 where
  pub id : ObjectId
  pub buyer_id : ObjectId
  pub seller_id : ObjectId
  pub product_id : ObjectId
  pub offer_id : Option ObjectId
  pub price : ℕ
  pub listing_type : ListingType
  pub trade_item_title : String
  pub trade_item_description : String
  pub status : OrderStatus
  pub buyer_note : String
  pub idempotency_key : String
  pub status_history : List HistoryEntry
  pub completed_at : Option ℕ
  pub receipt_number : Option String
  pub no_show_reports : List NoShowReport
  pub cancellation : Cancellation
  pub handover : Handover
  pub dispute : Dispute
  pub payment : Payment
  pub issue : PaymentIssue

-- What `mapOrderToRow` stores for the parts that a new order does not name.
unfoldable pub no_cancellation : Cancellation
no_cancellation = record { at = none; by = none; reason = ""; category = none }

unfoldable pub no_dispute : Dispute
no_dispute = record {
  status = no_case;
  reason = "";
  opened_by = none;
  opened_at = none;
  outcome = none;
  remedy = none;
  buyer_sanction = no_sanction;
  seller_sanction = no_sanction;
  internal_note = "";
  resolution = "";
  resolved_by = none;
  resolved_at = none;
  evidence = [];
  timeline = [];
}

unfoldable pub new_payment : PaymentMethod → Payment
new_payment m = record {
  status = unpaid;
  method = m;
  transaction_id = none;
  provider_status = mock_pending;
  webhook_verified = false;
  reconciliation = not_required;
  paid_at = none;
  refunded_at = none;
  transfer_proof_url = "";
  transfer_reported_at = none;
  transfer_confirmed_at = none;
  transfer_confirmed_by = none;
  transactions = [];
}

unfoldable pub no_issue : PaymentIssue
no_issue = record {
  status = no_case;
  reason = "";
  opened_by = none;
  opened_at = none;
  resolution = "";
  resolved_by = none;
  resolved_at = none;
  timeline = [];
}
