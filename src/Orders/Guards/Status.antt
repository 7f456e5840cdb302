-- ===== src/Orders/Guards/Status.antt =====
-- The moves of an order's status by commands.
use iuh_exchange_be.Base.{String, ◌≡◌, ◌⊎◌, inl, Bool, true, false, ◌||◌, arith}
use iuh_exchange_be.Base.Result.{ok}
use iuh_exchange_be.Orders.Model.{
  ObjectId, Order, OrderStatus, awaiting_seller, completed, CancelCategory,
}
use iuh_exchange_be.Orders.Flags.{is_paid, is_bank_transfer, is_cash}
use iuh_exchange_be.Orders.Store.{Env}
use iuh_exchange_be.Orders.Transitions.{append_status_history, valid_transition}
use iuh_exchange_be.Orders.Closing.{complete, turn_down, call_off, miss}
use iuh_exchange_be.Orders.Disputes.{DisputeInput, claim}
use iuh_exchange_be.Orders.Lifecycle.Steps
use iuh_exchange_be.Orders.Machine.{
  Command, confirm, reject_it, cancel, no_show, propose_meeting, answer_proposal, sign_handover,
  dispute, give_evidence, rule_dispute, raise_issue, end_issue, pay, report_payment,
  confirm_payment, payment_answer, refund, change,
}

-- The status stays, or moves as `VALID_TRANSITIONS` says.
abbrev pub Follows : OrderStatus → OrderStatus → Type 0
Follows s t = (t ≡ s) ⊎ (valid_transition s t ≡ true)

module _ (env : Env) (o o' : Order) where
  complete-Follows : (user : ObjectId) → complete env user o ≡ ok o' → Follows o.status o'.status
  unfolding complete append_status_history valid_transition
  complete-Follows user e = ground arith

  turn_down-Follows :
      (user : ObjectId) (reason : String) (c : CancelCategory)
      → turn_down env.now user reason c o ≡ ok o'
      → Follows o.status o'.status
  unfolding turn_down append_status_history
  turn_down-Follows user reason c e = ground arith

  call_off-Follows :
      (user : ObjectId) (reason : String) (c : CancelCategory)
      → call_off env.now user reason c o ≡ ok o'
      → Follows o.status o'.status
  unfolding call_off append_status_history
  call_off-Follows user reason c e = ground arith

  miss-Follows :
      (user : ObjectId) (reason url : String)
      → miss env.now user reason url o ≡ ok o'
      → Follows o.status o'.status
  unfolding miss append_status_history valid_transition
  miss-Follows user reason url e = ground arith

  claim-Follows :
      (user : ObjectId) (input : DisputeInput)
      → claim env.now user input o ≡ ok o'
      → Follows o.status o'.status
  unfolding claim
  claim-Follows user input e = ground arith

abbrev pub is_ruling : Command → Bool
is_ruling (rule_dispute user r) = true
is_ruling _ = false

-- No command but an admin's ruling on a dispute moves an order's status outside the table
-- `VALID_TRANSITIONS`: a cancelled order stays cancelled, and a completed one completed.
pub change-Follows :
    (env : Env) (c : Command) (o o' : Order)
    → is_ruling c ≡ false
    → change env c o ≡ ok o'
    → Follows o.status o'.status
unfolding change
change-Follows env (confirm user) o o' n e = complete-Follows env o o' user e
change-Follows env (reject_it user reason k) o o' n e = turn_down-Follows env o o' user reason k e
change-Follows env (cancel user reason k) o o' n e = call_off-Follows env o o' user reason k e
change-Follows env (no_show user reason url) o o' n e = miss-Follows env o o' user reason url e
change-Follows env (propose_meeting user place time note) o o' n e =
    inl (Steps.propose-SameLife env o o' user place time note e).status
change-Follows env (answer_proposal user pid a) o o' n e =
    inl (Steps.respond-SameLife env o o' user pid a e).status
change-Follows env (sign_handover user code url note) o o' n e =
    inl (Steps.hand_over-SameLife env o o' user code url note e).status
change-Follows env (dispute user input) o o' n e = claim-Follows env o o' user input e
change-Follows env (give_evidence user type url note) o o' n e =
    inl (Steps.add_evidence-SameLife env o o' user type url note e).status
change-Follows env (rule_dispute user r) o o' n e = cc
change-Follows env (raise_issue user reason) o o' n e =
    inl (Steps.complain-SameLife env o o' user reason e).status
change-Follows env (end_issue user a text) o o' n e =
    inl (Steps.close_issue-SameLife env o o' user a text e).status
change-Follows env (pay user) o o' n e = inl (Steps.start_payment-SameLife env o o' user e).status
change-Follows env (report_payment user url note) o o' n e =
    inl (Steps.report_transfer-SameLife env o o' user url note e).status
change-Follows env (confirm_payment user note) o o' n e =
    inl (Steps.confirm_transfer-SameLife env o o' user note e).status
change-Follows env (payment_answer id status) o o' n e =
    inl (Steps.call_back-SameLife env o o' id status e).status
change-Follows env (refund user) o o' n e = inl (Steps.give_back-SameLife env o o' user e).status

-- A seller's confirmation succeeds only for the order's seller while the order awaits the seller,
-- and leaves an order by bank transfer or cash paid, with the completion in its status.
pub complete_requires :
    (env : Env) (user : ObjectId) (o o' : Order)
    → complete env user o ≡ ok o'
    → (o.seller_id ≡ user)
      × (o.status ≡ awaiting_seller)
      × (o'.status ≡ completed)
      × ((is_bank_transfer o.payment.method || is_cash o.payment.method) ≡ true
          → is_paid o'.payment.status ≡ true)
unfolding complete append_status_history
complete_requires env user o o' e = ground arith
