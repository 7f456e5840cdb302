-- ===== src/Orders/Create/Handlers.antt =====
-- What the commands of the machine keep of an idempotency key.
use iuh_exchange_be.Base.{◌≡◌, refl, ◌∙◌, List, [], ◌∷◌, arith}
use iuh_exchange_be.Base.Result.{Result, ok, err}
use iuh_exchange_be.Orders.Model.{ObjectId, Order}
use iuh_exchange_be.Orders.Events.{Event}
use iuh_exchange_be.Orders.Store.{
  Env, World, find_by_id, save, publish, publish_all, attempt, commit, commit_strict, after_publish,
  update_order, update_order_strict,
}
use iuh_exchange_be.Orders.Closing.{confirm_order, reject_order, cancel_by_buyer, report_no_show}
use iuh_exchange_be.Orders.Handover.{propose_handover, respond_handover, confirm_handover}
use iuh_exchange_be.Orders.Disputes.{open_dispute, add_dispute_evidence}
use iuh_exchange_be.Orders.Rulings.{resolve_dispute}
use iuh_exchange_be.Orders.Issues.{open_payment_issue, resolve_payment_issue}
use iuh_exchange_be.Orders.Payments.{
  signed_in, create_payment, report_bank_transfer, confirm_bank_transfer, payment_callback,
  process_refund,
}
use iuh_exchange_be.Orders.Create.Laws.{redis-publish_logged}
use iuh_exchange_be.Orders.Create.Identity.{
  SameIdentity, add_evidence-SameIdentity, call_back-SameIdentity, call_off-SameIdentity,
  claim-SameIdentity, close_issue-SameIdentity, complain-SameIdentity, complete-SameIdentity,
  confirm_transfer-SameIdentity, give_back-SameIdentity, hand_over-SameIdentity, miss-SameIdentity,
  propose-SameIdentity, report_transfer-SameIdentity, respond-SameIdentity,
  settle_dispute-SameIdentity, start_payment-SameIdentity, turn_down-SameIdentity,
}
use iuh_exchange_be.Orders.Machine.{
  Command, confirm, reject_it, cancel, no_show, propose_meeting, answer_proposal, sign_handover,
  dispute, give_evidence, rule_dispute, raise_issue, end_issue, pay, report_payment,
  confirm_payment, payment_answer, refund, change, handle,
}

-- No publish and no save touches a Redis key.
redis-publish_all :
    (env : Env) (es : List Event) (w : World) → (publish_all env es w).1.redis ≡ w.redis
unfolding publish_all publish
redis-publish_all env [] w = refl
redis-publish_all env (e ∷ es) w = ground (arith, redis-publish_all env es (publish env e w).1)

redis-commit :
    (env : Env) (events : Order → List Event) (w : World) (r : Result Order)
    → (commit env events w r).1.redis ≡ w.redis
unfolding commit save
redis-commit env events w (err e) = refl
redis-commit env events w (ok o) = redis-publish_logged env (events o) (save o w)

redis-after_publish :
    (o : Order) (p : Result (Unit {0}) × World) → (after_publish o p).1.redis ≡ p.1.redis
unfolding after_publish
redis-after_publish o (ok u, w) = refl
redis-after_publish o (err x, w) = refl

redis-commit_strict :
    (env : Env) (events : Order → List Event) (w : World) (r : Result Order)
    → (commit_strict env events w r).1.redis ≡ w.redis
unfolding commit_strict save
redis-commit_strict env events w (err e) = refl
redis-commit_strict env events w (ok o) =
    redis-after_publish o (publish_all env (events o) (save o w))
    ∙ redis-publish_all env (events o) (save o w)

redis-update_order :
    (env : Env) (id : ObjectId) (f : Order → Result Order) (events : Order → List Event) (w : World)
    → (update_order env id f events w).1.redis ≡ w.redis
unfolding update_order
redis-update_order env id f events w =
    redis-commit env events w (attempt f (find_by_id id w.orders))

redis-update_order_strict :
    (env : Env) (id : ObjectId) (f : Order → Result Order) (events : Order → List Event) (w : World)
    → (update_order_strict env id f events w).1.redis ≡ w.redis
unfolding update_order_strict
redis-update_order_strict env id f events w =
    redis-commit_strict env events w (attempt f (find_by_id id w.orders))

pub redis-handle :
    (env : Env) (id : ObjectId) (c : Command) (w : World) → (handle env id c w).1.redis ≡ w.redis
unfolding handle confirm_order reject_order cancel_by_buyer report_no_show propose_handover
    respond_handover confirm_handover open_dispute add_dispute_evidence resolve_dispute
    open_payment_issue resolve_payment_issue signed_in create_payment report_bank_transfer
    confirm_bank_transfer payment_callback process_refund
redis-handle env id (confirm user) w = redis-update_order env id _ _ w
redis-handle env id (reject_it user reason category) w = redis-update_order env id _ _ w
redis-handle env id (cancel user reason category) w = redis-update_order env id _ _ w
redis-handle env id (no_show user reason url) w = redis-update_order env id _ _ w
redis-handle env id (propose_meeting user location time note) w = redis-update_order env id _ _ w
redis-handle env id (answer_proposal user pid action) w = redis-update_order env id _ _ w
redis-handle env id (sign_handover user code url note) w = redis-update_order env id _ _ w
redis-handle env id (dispute user input) w = redis-update_order env id _ _ w
redis-handle env id (give_evidence user type url note) w = redis-update_order env id _ _ w
redis-handle env id (rule_dispute user r) w = redis-update_order env id _ _ w
redis-handle env id (raise_issue user reason) w = redis-update_order env id _ _ w
redis-handle env id (end_issue user action resolution) w = redis-update_order env id _ _ w
redis-handle env id (pay user) w = redis-update_order env id _ _ w
redis-handle env id (report_payment user url note) w = redis-update_order_strict env id _ _ w
redis-handle env id (confirm_payment user note) w = redis-update_order_strict env id _ _ w
redis-handle env id (payment_answer txn status) w = redis-update_order_strict env id _ _ w
redis-handle env id (refund user) w = redis-update_order_strict env id _ _ w

pub change-SameIdentity :
    (env : Env) (c : Command) (o o' : Order) → change env c o ≡ ok o' → SameIdentity o o'
unfolding change
change-SameIdentity env (confirm user) o o' e = complete-SameIdentity env o o' user e
change-SameIdentity env (reject_it user reason k) o o' e =
    turn_down-SameIdentity env o o' user reason k e
change-SameIdentity env (cancel user reason k) o o' e =
    call_off-SameIdentity env o o' user reason k e
change-SameIdentity env (no_show user reason url) o o' e =
    miss-SameIdentity env o o' user reason url e
change-SameIdentity env (propose_meeting user place time note) o o' e =
    propose-SameIdentity env o o' user place time note e
change-SameIdentity env (answer_proposal user pid a) o o' e =
    respond-SameIdentity env o o' user pid a e
change-SameIdentity env (sign_handover user code url note) o o' e =
    hand_over-SameIdentity env o o' user code url note e
change-SameIdentity env (dispute user input) o o' e = claim-SameIdentity env o o' user input e
change-SameIdentity env (give_evidence user type url note) o o' e =
    add_evidence-SameIdentity env o o' user type url note e
change-SameIdentity env (rule_dispute user r) o o' e = settle_dispute-SameIdentity env o o' user r e
change-SameIdentity env (raise_issue user reason) o o' e =
    complain-SameIdentity env o o' user reason e
change-SameIdentity env (end_issue user a text) o o' e =
    close_issue-SameIdentity env o o' user a text e
change-SameIdentity env (pay user) o o' e = start_payment-SameIdentity env o o' user e
change-SameIdentity env (report_payment user url note) o o' e =
    report_transfer-SameIdentity env o o' user url note e
change-SameIdentity env (confirm_payment user note) o o' e =
    confirm_transfer-SameIdentity env o o' user note e
change-SameIdentity env (payment_answer id status) o o' e =
    call_back-SameIdentity env o o' id status e
change-SameIdentity env (refund user) o o' e = give_back-SameIdentity env o o' user e
