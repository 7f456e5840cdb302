-- ===== src/Orders/Meetings/Invariant.antt =====
-- What no reachable state has: an accepted meeting.
use iuh_exchange_be.Base.{◌≡◌, refl, ◌≢◌, Option, none, some, All, List}
use iuh_exchange_be.Base.Result.{Result, ok, err}
use iuh_exchange_be.Orders.Model.{ObjectId, Order}
use iuh_exchange_be.Orders.Events.{HandoverAction, Event}
use iuh_exchange_be.Orders.Store.{Env, World, update_order, attempt, commit, find_by_id}
use iuh_exchange_be.Orders.Store.Laws.{All-find_by_id}
use iuh_exchange_be.Orders.Handover.{respond, respond_handover}
use iuh_exchange_be.Orders.Machine.{
  Command, confirm, reject_it, cancel, no_show, propose_meeting, answer_proposal, sign_handover,
  dispute, give_evidence, rule_dispute, raise_issue, end_issue, pay, report_payment,
  confirm_payment, payment_answer, refund, change, Reachable,
}
use iuh_exchange_be.Orders.Machine.Lift.{IsInvariant, Reachable-All}
use iuh_exchange_be.Orders.Meetings.Frame
use iuh_exchange_be.Orders.Meetings.Proposals.{
  IsUnscheduled, Frame-IsUnscheduled, propose-IsUnscheduled, hand_over-IsUnscheduled, respond_fails,
  new_order-IsUnscheduled,
}

change-IsUnscheduled :
    (env : Env) (c : Command) (o o' : Order)
    → IsUnscheduled o
    → change env c o ≡ ok o'
    → IsUnscheduled o'
unfolding change
change-IsUnscheduled env (confirm user) o o' h e =
    Frame-IsUnscheduled o o' (Frame.complete_keeps env o o' user e) h
change-IsUnscheduled env (reject_it user reason k) o o' h e =
    Frame-IsUnscheduled o o' (Frame.turn_down_keeps env o o' user reason k e) h
change-IsUnscheduled env (cancel user reason k) o o' h e =
    Frame-IsUnscheduled o o' (Frame.call_off_keeps env o o' user reason k e) h
change-IsUnscheduled env (no_show user reason url) o o' h e =
    Frame-IsUnscheduled o o' (Frame.miss_keeps env o o' user reason url e) h
change-IsUnscheduled env (dispute user input) o o' h e =
    Frame-IsUnscheduled o o' (Frame.claim_keeps env o o' user input e) h
change-IsUnscheduled env (give_evidence user type url note) o o' h e =
    Frame-IsUnscheduled o o' (Frame.add_evidence_keeps env o o' user type url note e) h
change-IsUnscheduled env (rule_dispute user r) o o' h e =
    Frame-IsUnscheduled o o' (Frame.settle_dispute_keeps env o o' user r e) h
change-IsUnscheduled env (raise_issue user reason) o o' h e =
    Frame-IsUnscheduled o o' (Frame.complain_keeps env o o' user reason e) h
change-IsUnscheduled env (end_issue user a text) o o' h e =
    Frame-IsUnscheduled o o' (Frame.close_issue_keeps env o o' user a text e) h
change-IsUnscheduled env (pay user) o o' h e =
    Frame-IsUnscheduled o o' (Frame.start_payment_keeps env o o' user e) h
change-IsUnscheduled env (report_payment user url note) o o' h e =
    Frame-IsUnscheduled o o' (Frame.report_transfer_keeps env o o' user url note e) h
change-IsUnscheduled env (confirm_payment user note) o o' h e =
    Frame-IsUnscheduled o o' (Frame.confirm_transfer_keeps env o o' user note e) h
change-IsUnscheduled env (payment_answer id status) o o' h e =
    Frame-IsUnscheduled o o' (Frame.call_back_keeps env o o' id status e) h
change-IsUnscheduled env (refund user) o o' h e =
    Frame-IsUnscheduled o o' (Frame.give_back_keeps env o o' user e) h
change-IsUnscheduled env (propose_meeting user place time note) o o' h e =
    propose-IsUnscheduled env o o' user place time note h e
change-IsUnscheduled env (answer_proposal user pid a) o o' h e =
    absurd (respond_fails env user pid a o o' h e)
change-IsUnscheduled env (sign_handover user code url note) o o' h e =
    hand_over-IsUnscheduled env o o' user code url note h e

IsUnscheduled-IsInvariant : IsInvariant IsUnscheduled
IsUnscheduled-IsInvariant = record {
  by_change = change-IsUnscheduled;
  by_await = λ env o o' h e. Frame-IsUnscheduled o o' (Frame.await_seller_keeps env o o' e) h;
  by_roll_back =
      λ env reason o o' h e. Frame-IsUnscheduled o o' (Frame.roll_back_keeps env o o' reason e) h;
  by_receipt = λ number o h. Frame-IsUnscheduled o _ refl h;
  by_create = new_order-IsUnscheduled;
}

-- In every reachable state no order has a proposal with the status PENDING, a handover code, or the
-- handover status SCHEDULED.
pub reachable-IsUnscheduled : {w : World} → Reachable w → All IsUnscheduled w.orders
reachable-IsUnscheduled r = Reachable-All IsUnscheduled IsUnscheduled-IsInvariant r

commit_unchanged :
    (env : Env) (events : Order → List Event) (w : World) (r : Result Order)
    → ((o : Order) → r ≢ ok o)
    → (commit env events w r).1 ≡ w
unfolding commit
commit_unchanged env events w (err e) h = refl
commit_unchanged env events w (ok o) h = absurd (h o refl)

commit_fails :
    (env : Env) (events : Order → List Event) (w : World) (r : Result Order)
    → ((o : Order) → r ≢ ok o)
    → (o : Order) → (commit env events w r).0 ≢ ok o
unfolding commit
commit_fails env events w (err e) h o q = cc
commit_fails env events w (ok x) h o q = absurd (h x refl)

attempt_fails :
    (env : Env) (user pid : ObjectId) (a : HandoverAction) (found : Option Order)
    → ((o : Order) → found ≡ some o → IsUnscheduled o)
    → (o' : Order) → attempt (respond env user pid a) found ≢ ok o'
unfolding attempt
attempt_fails env user pid a none h o' e = cc
attempt_fails env user pid a (some o) h o' e = respond_fails env user pid a o o' (h o refl) e

-- In every reachable state every answer to a meeting proposal fails, and changes nothing: whoever
-- gives it, for whatever order and proposal, to accept or to reject.
pub respond_handover_unchanged :
    (env : Env) (id user pid : ObjectId) (a : HandoverAction) (w : World)
    → Reachable w
    → ((o : Order) → (respond_handover env id user pid a w).0 ≢ ok o)
      × ((respond_handover env id user pid a w).1 ≡ w)
unfolding respond_handover update_order
respond_handover_unchanged env id user pid a w r =
    let fails =
      attempt_fails env user pid a (find_by_id id w.orders)
        (λ o. All-find_by_id IsUnscheduled id w.orders o (reachable-IsUnscheduled r)) in
    (commit_fails env _ w _ fails, commit_unchanged env _ w _ fails)
