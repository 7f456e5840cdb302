-- ===== src/Orders/Accounts/Invariant.antt =====
-- The accounts of every order that the service can hold.
use iuh_exchange_be.Base.{◌≡◌, refl, All}
use iuh_exchange_be.Base.Result.{ok}
use iuh_exchange_be.Orders.Model.{ObjectId, Order}
use iuh_exchange_be.Orders.Flags.{is_paid, is_refunded}
use iuh_exchange_be.Orders.Store.{Env, World}
use iuh_exchange_be.Orders.Create.{Request, Checkout, new_order}
use iuh_exchange_be.Orders.Machine.{
  Command, confirm, reject_it, cancel, no_show, propose_meeting, answer_proposal, sign_handover,
  dispute, give_evidence, rule_dispute, raise_issue, end_issue, pay, report_payment,
  confirm_payment, payment_answer, refund, change, Reachable,
}
use iuh_exchange_be.Orders.Machine.Lift.{IsInvariant, Reachable-All}
use iuh_exchange_be.Orders.Accounts.{IsAccounted}
use iuh_exchange_be.Orders.Accounts.Frame
use iuh_exchange_be.Orders.Accounts.Frame.{SamePayment}
use iuh_exchange_be.Orders.Accounts.Steps
use iuh_exchange_be.Orders.Accounts.Rulings

same-IsAccounted : (o o' : Order) → SamePayment o o' → IsAccounted o → IsAccounted o'
same-IsAccounted o o' s h = Steps.Frame-IsAccounted o o' s.price s.payment h

change-IsAccounted :
    (env : Env) (c : Command) (o o' : Order)
    → IsAccounted o
    → change env c o ≡ ok o'
    → IsAccounted o'
unfolding change
change-IsAccounted env (confirm user) o o' h e = Rulings.complete-IsAccounted env o o' user h e
change-IsAccounted env (reject_it user reason k) o o' h e =
    same-IsAccounted o o' (Frame.turn_down-SamePayment env o o' user reason k e) h
change-IsAccounted env (cancel user reason k) o o' h e =
    same-IsAccounted o o' (Frame.call_off-SamePayment env o o' user reason k e) h
change-IsAccounted env (no_show user reason url) o o' h e =
    same-IsAccounted o o' (Frame.miss-SamePayment env o o' user reason url e) h
change-IsAccounted env (propose_meeting user place time note) o o' h e =
    same-IsAccounted o o' (Frame.propose-SamePayment env o o' user place time note e) h
change-IsAccounted env (answer_proposal user pid a) o o' h e =
    same-IsAccounted o o' (Frame.respond-SamePayment env o o' user pid a e) h
change-IsAccounted env (sign_handover user code url note) o o' h e =
    same-IsAccounted o o' (Frame.hand_over-SamePayment env o o' user code url note e) h
change-IsAccounted env (dispute user input) o o' h e =
    same-IsAccounted o o' (Frame.claim-SamePayment env o o' user input e) h
change-IsAccounted env (give_evidence user type url note) o o' h e =
    same-IsAccounted o o' (Frame.add_evidence-SamePayment env o o' user type url note e) h
change-IsAccounted env (raise_issue user reason) o o' h e =
    same-IsAccounted o o' (Frame.complain-SamePayment env o o' user reason e) h
change-IsAccounted env (rule_dispute user r) o o' h e =
    Rulings.settle_dispute-IsAccounted env o o' user r h e
change-IsAccounted env (end_issue user a text) o o' h e =
    Rulings.close_issue-IsAccounted env o o' user a text h e
change-IsAccounted env (pay user) o o' h e = Steps.start_payment-IsAccounted env o o' h user e
change-IsAccounted env (report_payment user url note) o o' h e =
    Steps.report_transfer-IsAccounted env o o' h user url note e
change-IsAccounted env (confirm_payment user note) o o' h e =
    Steps.confirm_transfer-IsAccounted env o o' h user note e
change-IsAccounted env (payment_answer id status) o o' h e =
    Steps.call_back-IsAccounted env o o' h id status e
change-IsAccounted env (refund user) o o' h e = Steps.give_back-IsAccounted env o o' h user e

new_order-IsAccounted :
    (env : Env) (buyer : ObjectId) (r : Request) (c : Checkout)
    → IsAccounted (new_order env buyer r c)
unfolding new_order is_paid is_refunded
new_order-IsAccounted env buyer r c = record {
  amounts = tt;
  paid_dated = λ p. cc;
  refunded_dated = λ p. cc;
  paid_entry = λ p. cc;
  refunded_entry = λ p. cc;
}

IsAccounted-IsInvariant : IsInvariant IsAccounted
IsAccounted-IsInvariant = record {
  by_change = change-IsAccounted;
  by_await = λ env o o' h e. same-IsAccounted o o' (Frame.await_seller-SamePayment env o o' e) h;
  by_roll_back = λ env reason o o' h e.
      same-IsAccounted o o' (Frame.roll_back-SamePayment env o o' reason e) h;
  by_receipt = λ number o h. Steps.Frame-IsAccounted o _ refl refl h;
  by_create = new_order-IsAccounted;
}

-- In every reachable state each entry of an order's ledger is of the order's price, a paid order
-- has a payment date and an entry that succeeded, and a refunded one a refund date and the entry of
-- a refund.
pub reachable-IsAccounted : {w : World} → Reachable w → All IsAccounted w.orders
reachable-IsAccounted r = Reachable-All IsAccounted IsAccounted-IsInvariant r
