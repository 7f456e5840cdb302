-- ===== src/Orders/Meetings/Frame.antt =====
-- The changes of an order that leave its handover alone.
use iuh_exchange_be.Base.{Bool-cases, inl, inr, ℕ, String, ◌≡◌, refl, some, arith}
use iuh_exchange_be.Base.Result.{ok, throw_if-ok, bad_request}
use iuh_exchange_be.Base.{not}
use iuh_exchange_be.Orders.Model.{
  ObjectId, Order, OrderStatus, pending, awaiting_seller, completed, cancelled, CancelCategory,
  Remedy, no_remedy, refund, cancel_order,
}
use iuh_exchange_be.Orders.Events.{IssueAction}
use iuh_exchange_be.Orders.Flags.{is_opened}
use iuh_exchange_be.Orders.Store.{Env}
use iuh_exchange_be.Orders.Transitions.{status_is, Change, append_status_history}
use iuh_exchange_be.Orders.Saga.{await_seller, roll_back}
use iuh_exchange_be.Orders.Closing.{complete, turn_down, call_off, miss}
use iuh_exchange_be.Orders.Disputes.{DisputeInput, claim, add_evidence}
use iuh_exchange_be.Orders.Rulings.{Ruling, settle_dispute, rule, log_ruling, apply_remedy}
use iuh_exchange_be.Orders.Issues.{complain, close_issue}
use iuh_exchange_be.Orders.Payments.{
  start_payment, report_transfer, confirm_transfer, call_back, give_back,
}

pub append_keeps :
    (now : ℕ) (next : OrderStatus) (c : Change) (o : Order)
    → (append_status_history now next c o).handover ≡ o.handover
unfolding append_status_history
append_keeps now pending c o = refl
append_keeps now awaiting_seller c o = refl
append_keeps now completed c o = refl
append_keeps now cancelled c o = refl

apply_remedy_keeps :
    (now : ℕ) (admin_id : ObjectId) (m : Remedy) (text : String) (o : Order)
    → (apply_remedy now admin_id m text o).handover ≡ o.handover
unfolding apply_remedy
apply_remedy_keeps now admin_id no_remedy text o = refl
apply_remedy_keeps now admin_id refund text o = ground arith
apply_remedy_keeps now admin_id cancel_order text o =
    elim (Bool-cases (status_is o.status cancelled)) [
      | inl gone ↦ rw gone
      | inr live ↦ rw live (append_keeps now cancelled _ o)
    ]

module _ (env : Env) (o o' : Order) where
  pub complete_keeps : (user : ObjectId) → complete env user o ≡ ok o' → o'.handover ≡ o.handover
  unfolding complete append_status_history
  complete_keeps user e = ground arith

  pub turn_down_keeps :
      (user : ObjectId) (reason : String) (c : CancelCategory)
      → turn_down env.now user reason c o ≡ ok o'
      → o'.handover ≡ o.handover
  unfolding turn_down append_status_history
  turn_down_keeps user reason c e = ground arith

  pub call_off_keeps :
      (user : ObjectId) (reason : String) (c : CancelCategory)
      → call_off env.now user reason c o ≡ ok o'
      → o'.handover ≡ o.handover
  unfolding call_off append_status_history
  call_off_keeps user reason c e = ground arith

  pub miss_keeps :
      (user : ObjectId) (reason url : String)
      → miss env.now user reason url o ≡ ok o'
      → o'.handover ≡ o.handover
  unfolding miss append_status_history
  miss_keeps user reason url e = ground arith

  pub claim_keeps :
      (user : ObjectId) (input : DisputeInput)
      → claim env.now user input o ≡ ok o'
      → o'.handover ≡ o.handover
  unfolding claim
  claim_keeps user input e = ground arith

  pub add_evidence_keeps :
      (user : ObjectId) (type url note : String)
      → add_evidence user type url note o ≡ ok o'
      → o'.handover ≡ o.handover
  unfolding add_evidence
  add_evidence_keeps user type url note e = ground arith

  pub settle_dispute_keeps :
      (admin_id : ObjectId) (r : Ruling)
      → settle_dispute env.now admin_id r o ≡ ok o'
      → o'.handover ≡ o.handover
  unfolding settle_dispute rule log_ruling
  settle_dispute_keeps admin_id r e =
      let (open_case, e₁) = throw_if-ok (not (is_opened o.dispute.status)) bad_request _ e in
      let ruled = rule env.now admin_id r o in
      let remedied = apply_remedy env.now admin_id r.remedy r.resolution ruled in
      let same : log_ruling admin_id r remedied ≡ o' = cc in
      rw (← same) (apply_remedy_keeps env.now admin_id r.remedy r.resolution ruled)

  pub complain_keeps :
      (user : ObjectId) (reason : String)
      → complain env.now user reason o ≡ ok o'
      → o'.handover ≡ o.handover
  unfolding complain
  complain_keeps user reason e = ground arith

  pub close_issue_keeps :
      (user : ObjectId) (a : IssueAction) (text : String)
      → close_issue env user a text o ≡ ok o'
      → o'.handover ≡ o.handover
  unfolding close_issue
  close_issue_keeps user a text e = ground arith

  pub start_payment_keeps :
      (user : ObjectId) → start_payment env user o ≡ ok o' → o'.handover ≡ o.handover
  unfolding start_payment
  start_payment_keeps user e = ground arith

  pub report_transfer_keeps :
      (user : ObjectId) (url note : String)
      → report_transfer env user url note o ≡ ok o'
      → o'.handover ≡ o.handover
  unfolding report_transfer
  report_transfer_keeps user url note e = ground arith

  pub confirm_transfer_keeps :
      (user : ObjectId) (note : String)
      → confirm_transfer env.now user note o ≡ ok o'
      → o'.handover ≡ o.handover
  unfolding confirm_transfer
  confirm_transfer_keeps user note e = ground arith

  pub call_back_keeps :
      (id status : String) → call_back env.now id status o ≡ ok o' → o'.handover ≡ o.handover
  unfolding call_back
  call_back_keeps id status e = ground arith

  pub give_back_keeps :
      (user : ObjectId) → give_back env.now user o ≡ ok o' → o'.handover ≡ o.handover
  unfolding give_back
  give_back_keeps user e = ground arith

  pub await_seller_keeps : await_seller env.now o ≡ some o' → o'.handover ≡ o.handover
  unfolding await_seller append_status_history
  await_seller_keeps e = ground arith

  pub roll_back_keeps :
      (reason : String) → roll_back env.now reason o ≡ some o' → o'.handover ≡ o.handover
  unfolding roll_back append_status_history
  roll_back_keeps reason e = ground arith
