-- ===== src/Orders/Machine.antt =====
-- All that can happen to the orders: the commands of the users and admins on one order, the
-- messages of the product service, new orders and receipts, each by its handler. The states of the
-- service are those that such steps reach from an empty table, in any environments.
use iuh_exchange_be.Base.{ℕ, String, Option, some, []}
pub mod Lift
use iuh_exchange_be.Base.Result.{Result}
use iuh_exchange_be.Orders.Model.{ObjectId, Order, CancelCategory}
use iuh_exchange_be.Orders.Events.{HandoverAction, IssueAction}
use iuh_exchange_be.Orders.Store.{Env, World}
use iuh_exchange_be.Orders.Saga.{Message, each_message}
use iuh_exchange_be.Orders.Closing.{
  complete, turn_down, call_off, miss, confirm_order, reject_order, cancel_by_buyer, report_no_show,
}
use iuh_exchange_be.Orders.Handover.{
  propose, respond, hand_over, propose_handover, respond_handover, confirm_handover,
}
use iuh_exchange_be.Orders.Disputes.{
  DisputeInput, claim, add_evidence, open_dispute, add_dispute_evidence,
}
use iuh_exchange_be.Orders.Rulings.{Ruling, settle_dispute, resolve_dispute}
use iuh_exchange_be.Orders.Issues.{complain, close_issue, open_payment_issue, resolve_payment_issue}
use iuh_exchange_be.Orders.Payments.{
  start_payment, report_transfer, confirm_transfer, call_back, give_back, create_payment,
  report_bank_transfer, confirm_bank_transfer, payment_callback, process_refund,
}
use iuh_exchange_be.Orders.Create.{Catalog, Request, create_order}
use iuh_exchange_be.Orders.Views.{get_receipt}

-- A request on one order, with its user.
pub data Command : Type 0 where
  confirm : ObjectId → Command
  reject_it : ObjectId → String → CancelCategory → Command
  cancel : ObjectId → String → CancelCategory → Command
  no_show : ObjectId → String → String → Command
  propose_meeting : ObjectId → String → Option ℕ → String → Command
  answer_proposal : ObjectId → ObjectId → HandoverAction → Command
  sign_handover : ObjectId → String → String → String → Command
  dispute : ObjectId → DisputeInput → Command
  give_evidence : ObjectId → String → String → String → Command
  rule_dispute : ObjectId → Ruling → Command
  raise_issue : ObjectId → String → Command
  end_issue : ObjectId → IssueAction → String → Command
  pay : ObjectId → Command
  report_payment : ObjectId → String → String → Command
  confirm_payment : ObjectId → String → Command
  payment_answer : String → String → Command
  refund : ObjectId → Command

-- What a command's handler does between the read of the order and its save.
unfoldable pub change : Env → Command → Order → Result Order
change env (confirm user) = complete env user
change env (reject_it user reason category) = turn_down env.now user reason category
change env (cancel user reason category) = call_off env.now user reason category
change env (no_show user reason url) = miss env.now user reason url
change env (propose_meeting user location time note) = propose env user location time note
change env (answer_proposal user pid action) = respond env user pid action
change env (sign_handover user code url note) = hand_over env.now user code url note
change env (dispute user input) = claim env.now user input
change env (give_evidence user type url note) = add_evidence user type url note
change env (rule_dispute user r) = settle_dispute env.now user r
change env (raise_issue user reason) = complain env.now user reason
change env (end_issue user action resolution) = close_issue env user action resolution
change env (pay user) = start_payment env user
change env (report_payment user url note) = report_transfer env user url note
change env (confirm_payment user note) = confirm_transfer env.now user note
change env (payment_answer id status) = call_back env.now id status
change env (refund user) = give_back env.now user

-- The handler of a command.
unfoldable pub handle : Env → ObjectId → Command → World → Result Order × World
handle env id (confirm user) = confirm_order env id user
handle env id (reject_it user reason category) = reject_order env id user reason category
handle env id (cancel user reason category) = cancel_by_buyer env id user reason category
handle env id (no_show user reason url) = report_no_show env id user reason url
handle env id (propose_meeting user location time note) =
    propose_handover env id user location time note
handle env id (answer_proposal user pid action) = respond_handover env id user pid action
handle env id (sign_handover user code url note) = confirm_handover env id user code url note
handle env id (dispute user input) = open_dispute env id user input
handle env id (give_evidence user type url note) = add_dispute_evidence env id user type url note
handle env id (rule_dispute user r) = resolve_dispute env id user r
handle env id (raise_issue user reason) = open_payment_issue env id user reason
handle env id (end_issue user action resolution) =
    resolve_payment_issue env id user action resolution
handle env id (pay user) = create_payment env (some user) id
handle env id (report_payment user url note) = report_bank_transfer env (some user) id url note
handle env id (confirm_payment user note) = confirm_bank_transfer env (some user) id note
handle env id (payment_answer txn status) = payment_callback env id txn status
handle env id (refund user) = process_refund env (some user) id

pub data Call : Type 0 where
  command : ObjectId → Command → Call
  message : Message → Call
  create : Catalog → ObjectId → Request → Call
  receipt : String → ObjectId → ObjectId → Call

unfoldable pub serve : Env → Call → World → World
unfolding handle
serve env (command id c) w = (handle env id c w).1
serve env (message m) w = each_message env m w
serve env (create c buyer r) w = (create_order env c buyer r w).1
serve env (receipt number id user) w = (get_receipt number id user w).1

abbrev pub empty : World
empty = record { orders = []; redis = []; published = [] }

pub data Reachable : World → Type 0 where
  start : Reachable empty
  then : {w : World} → Reachable w → (env : Env) (c : Call) → Reachable (serve env c w)
