-- ===== src/Orders/Create/Identity.antt =====
-- The id and the idempotency key of an order, change by change.
use iuh_exchange_be.Base.{
  Bool, Option, not, Bool-cases, inl, inr, ℕ, String, ◌≡◌, refl, some, arith,
}
use iuh_exchange_be.Base.Result.{ok, throw_if-ok, >>-ok, ok-injective, forbidden, bad_request}
use iuh_exchange_be.Orders.Handover.{
  propose, respond, hand_over, can_hand_over, check_code, sign, settle_handover,
}
use iuh_exchange_be.Orders.Model.{
  ObjectId, Order, OrderStatus, pending, awaiting_seller, completed, cancelled, CancelCategory,
  Remedy, no_remedy, refund, cancel_order,
}
use iuh_exchange_be.Orders.Events.{IssueAction, HandoverAction, accept, reject}
use iuh_exchange_be.Orders.Flags.{is_opened, is_system, is_buyer}
use iuh_exchange_be.Orders.Store.{Env}
use iuh_exchange_be.Orders.Transitions.{actor_role_for, status_is, Change, append_status_history}
use iuh_exchange_be.Orders.Saga.{await_seller, roll_back}
use iuh_exchange_be.Orders.Closing.{complete, turn_down, call_off, miss}
use iuh_exchange_be.Orders.Disputes.{DisputeInput, claim, add_evidence}
use iuh_exchange_be.Orders.Rulings.{Ruling, settle_dispute, rule, log_ruling, apply_remedy}
use iuh_exchange_be.Orders.Issues.{complain, close_issue}
use iuh_exchange_be.Orders.Payments.{
  start_payment, report_transfer, confirm_transfer, call_back, give_back,
}

-- Id and key are those of `o`.
pub record SameIdentity (o o' : Order) : Type 0 where
  pub id : o'.id ≡ o.id
  pub key : o'.idempotency_key ≡ o.idempotency_key

append-SameIdentity :
    (now : ℕ) (next : OrderStatus) (c : Change) (o : Order)
    → SameIdentity o (append_status_history now next c o)
unfolding append_status_history
append-SameIdentity now pending c o = record { id = refl; key = refl }
append-SameIdentity now awaiting_seller c o = record { id = refl; key = refl }
append-SameIdentity now completed c o = record { id = refl; key = refl }
append-SameIdentity now cancelled c o = record { id = refl; key = refl }

apply_remedy-SameIdentity :
    (now : ℕ) (admin_id : ObjectId) (m : Remedy) (text : String) (o : Order)
    → SameIdentity o (apply_remedy now admin_id m text o)
unfolding apply_remedy
apply_remedy-SameIdentity now admin_id no_remedy text o = record { id = refl; key = refl }
apply_remedy-SameIdentity now admin_id refund text o = ground arith
apply_remedy-SameIdentity now admin_id cancel_order text o =
    elim (Bool-cases (status_is o.status cancelled)) [
      | inl gone ↦ rw gone (record { id = refl; key = refl })
      | inr live ↦ rw live (append-SameIdentity now cancelled _ o)
    ]

module _ (env : Env) (o o' : Order) where
  pub complete-SameIdentity : (user : ObjectId) → complete env user o ≡ ok o' → SameIdentity o o'
  unfolding complete append_status_history
  complete-SameIdentity user e = ground arith

  pub turn_down-SameIdentity :
      (user : ObjectId) (reason : String) (c : CancelCategory)
      → turn_down env.now user reason c o ≡ ok o'
      → SameIdentity o o'
  unfolding turn_down append_status_history
  turn_down-SameIdentity user reason c e = ground arith

  pub call_off-SameIdentity :
      (user : ObjectId) (reason : String) (c : CancelCategory)
      → call_off env.now user reason c o ≡ ok o'
      → SameIdentity o o'
  unfolding call_off append_status_history
  call_off-SameIdentity user reason c e = ground arith

  pub miss-SameIdentity :
      (user : ObjectId) (reason url : String)
      → miss env.now user reason url o ≡ ok o'
      → SameIdentity o o'
  unfolding miss append_status_history
  miss-SameIdentity user reason url e = ground arith

  pub claim-SameIdentity :
      (user : ObjectId) (input : DisputeInput)
      → claim env.now user input o ≡ ok o'
      → SameIdentity o o'
  unfolding claim
  claim-SameIdentity user input e = ground arith

  pub add_evidence-SameIdentity :
      (user : ObjectId) (type url note : String)
      → add_evidence user type url note o ≡ ok o'
      → SameIdentity o o'
  unfolding add_evidence
  add_evidence-SameIdentity user type url note e = ground arith

  pub settle_dispute-SameIdentity :
      (admin_id : ObjectId) (r : Ruling)
      → settle_dispute env.now admin_id r o ≡ ok o'
      → SameIdentity o o'
  unfolding settle_dispute rule log_ruling
  settle_dispute-SameIdentity admin_id r e =
      let (open_case, e₁) = throw_if-ok (not (is_opened o.dispute.status)) bad_request _ e in
      let ruled = rule env.now admin_id r o in
      let remedied = apply_remedy env.now admin_id r.remedy r.resolution ruled in
      let same : log_ruling admin_id r remedied ≡ o' = cc in
      let kept = apply_remedy-SameIdentity env.now admin_id r.remedy r.resolution ruled in
      rw (← same) (record { id = kept.id; key = kept.key })

  pub complain-SameIdentity :
      (user : ObjectId) (reason : String)
      → complain env.now user reason o ≡ ok o'
      → SameIdentity o o'
  unfolding complain
  complain-SameIdentity user reason e = ground arith

  pub close_issue-SameIdentity :
      (user : ObjectId) (a : IssueAction) (text : String)
      → close_issue env user a text o ≡ ok o'
      → SameIdentity o o'
  unfolding close_issue
  close_issue-SameIdentity user a text e = ground arith

  pub start_payment-SameIdentity :
      (user : ObjectId) → start_payment env user o ≡ ok o' → SameIdentity o o'
  unfolding start_payment
  start_payment-SameIdentity user e = ground arith

  pub report_transfer-SameIdentity :
      (user : ObjectId) (url note : String)
      → report_transfer env user url note o ≡ ok o'
      → SameIdentity o o'
  unfolding report_transfer
  report_transfer-SameIdentity user url note e = ground arith

  pub confirm_transfer-SameIdentity :
      (user : ObjectId) (note : String)
      → confirm_transfer env.now user note o ≡ ok o'
      → SameIdentity o o'
  unfolding confirm_transfer
  confirm_transfer-SameIdentity user note e = ground arith

  pub call_back-SameIdentity :
      (id status : String) → call_back env.now id status o ≡ ok o' → SameIdentity o o'
  unfolding call_back
  call_back-SameIdentity id status e = ground arith

  pub give_back-SameIdentity :
      (user : ObjectId) → give_back env.now user o ≡ ok o' → SameIdentity o o'
  unfolding give_back
  give_back-SameIdentity user e = ground arith

  pub await_seller-SameIdentity : await_seller env.now o ≡ some o' → SameIdentity o o'
  unfolding await_seller append_status_history
  await_seller-SameIdentity e = ground arith

  pub roll_back-SameIdentity :
      (reason : String) → roll_back env.now reason o ≡ some o' → SameIdentity o o'
  unfolding roll_back append_status_history
  roll_back-SameIdentity reason e = ground arith

  pub propose-SameIdentity :
      (user : ObjectId) (place : String) (time : Option ℕ) (note : String)
      → propose env user place time note o ≡ ok o'
      → SameIdentity o o'
  unfolding propose
  propose-SameIdentity user place time note e = ground arith

  pub respond-SameIdentity :
      (user pid : ObjectId) (a : HandoverAction)
      → respond env user pid a o ≡ ok o'
      → SameIdentity o o'
  unfolding respond
  respond-SameIdentity user pid accept e = ground arith
  respond-SameIdentity user pid reject e = ground arith

  sign-SameIdentity :
      (b : Bool) (user : ObjectId) (code url note : String)
      → SameIdentity o (settle_handover b (sign env.now b user code url note o))
  unfolding settle_handover sign
  sign-SameIdentity b user code url note = ground arith

  pub hand_over-SameIdentity :
      (user : ObjectId) (code url note : String)
      → hand_over env.now user code url note o ≡ ok o'
      → SameIdentity o o'
  unfolding hand_over
  hand_over-SameIdentity user code url note e =
      let role = actor_role_for o user in
      let (party, e₁) = throw_if-ok (is_system role) forbidden _ e in
      let (ready, e₂) = throw_if-ok (not (can_hand_over o)) bad_request _ e₁ in
      let e₃ = >>-ok (check_code env.now code o.handover.code o.handover.code_expires_at) _ e₂ in
      rw (← ok-injective _ _ e₃) (sign-SameIdentity (is_buyer role) user code url note)
