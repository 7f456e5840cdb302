-- ===== src/Orders/Lifecycle/Invariant.antt =====
-- The life of every order that the service can hold.
use iuh_exchange_be.Base.{
  ℕ, String, ◌≡◌, refl, true, false, ◌||◌, none, some, All, arith, Bool-cases, inl, inr,
}
use iuh_exchange_be.Base.Result.{ok}
use iuh_exchange_be.Orders.Model.{
  ObjectId, Order, OrderStatus, awaiting_seller, completed, cancelled,
}
use iuh_exchange_be.Orders.Store.{Env, World}
use iuh_exchange_be.Orders.Transitions.{Change, append_status_history, status_is}
use iuh_exchange_be.Orders.Flags.{is_opened}
use iuh_exchange_be.Orders.Saga.{await_seller, roll_back}
use iuh_exchange_be.Orders.Create.{Request, Checkout, new_order}
use iuh_exchange_be.Orders.Machine.{
  Command, confirm, reject_it, cancel, no_show, propose_meeting, answer_proposal, sign_handover,
  dispute, give_evidence, rule_dispute, raise_issue, end_issue, pay, report_payment,
  confirm_payment, payment_answer, refund, change, Reachable,
}
use iuh_exchange_be.Orders.Machine.Lift.{IsInvariant, Reachable-All}
use iuh_exchange_be.Orders.Lifecycle.{IsLive, legal_link, append_status_history-IsLive}
use iuh_exchange_be.Orders.Lifecycle.Steps
use iuh_exchange_be.Orders.Lifecycle.Steps.{SameLife-IsLive}
use iuh_exchange_be.Orders.Lifecycle.Moves.{
  closed_of_active, turn_down-IsLive, call_off-IsLive, miss-IsLive, complete-IsLive,
}
use iuh_exchange_be.Orders.Lifecycle.Cases.{claim-IsLive, settle_dispute-IsLive, cancel_legal}

-- A move of the saga that the code makes.
saga_move-IsLive :
    (now : ℕ) (next : OrderStatus) (c : Change) (o : Order) {o' : Order}
    → some (append_status_history now next c o) ≡ some o'
    → IsLive o
    → legal_link (some o.status) next ≡ true
    → is_opened o.dispute.status ≡ false
    → IsLive o'
saga_move-IsLive now next c o {o'} e h legal closed =
    let same : append_status_history now next c o ≡ o' = cc in
    rw (← same) (append_status_history-IsLive now next c o h legal closed)

await_legal :
    (s : OrderStatus)
    → (status_is s cancelled || status_is s completed) ≡ false
    → (legal_link (some s) awaiting_seller ≡ true) × (status_is s completed ≡ false)
unfolding status_is
await_legal s h = ground arith

await_seller-IsLive :
    (env : Env) (o o' : Order) → IsLive o → await_seller env.now o ≡ some o' → IsLive o'
unfolding await_seller
await_seller-IsLive env o o' h e =
    elim (Bool-cases (status_is o.status cancelled || status_is o.status completed)) [
      | inl ended ↦ let stuck : none ≡ some o' = rw (← e) (rw ended) in cc
      | inr live ↦
          let (legal, active) = await_legal o.status live in
          saga_move-IsLive env.now awaiting_seller _ o (rw live at e) h legal
            (closed_of_active o h active)
    ]

roll_back-IsLive :
    (env : Env) (reason : String) (o o' : Order)
    → IsLive o
    → roll_back env.now reason o ≡ some o'
    → IsLive o'
unfolding roll_back
roll_back-IsLive env reason o o' h e = elim (Bool-cases (status_is o.status completed)) [
  | inl done ↦ let stuck : none ≡ some o' = rw (← e) (rw done) in cc
  | inr active ↦
      saga_move-IsLive env.now cancelled _ o (rw active at e) h (cancel_legal o.status)
        (closed_of_active o h active)
]

new_order-IsLive :
    (env : Env) (buyer : ObjectId) (r : Request) (c : Checkout) → IsLive (new_order env buyer r c)
unfolding new_order is_opened
new_order-IsLive env buyer r c = record {
  trail = (refl, refl, refl);
  disputed = λ d. cc;
  completed_stamped = λ d. cc;
  cancelled_stamped = λ d. cc;
}

receipt-IsLive :
    (number : String) (o : Order) → IsLive o → IsLive (record o { receipt_number = some number })
receipt-IsLive number o h = record {
  trail = h.trail;
  disputed = h.disputed;
  completed_stamped = h.completed_stamped;
  cancelled_stamped = h.cancelled_stamped;
}

change-IsLive :
    (env : Env) (c : Command) (o o' : Order) → IsLive o → change env c o ≡ ok o' → IsLive o'
unfolding change
change-IsLive env (confirm user) o o' h e = complete-IsLive env o o' h user e
change-IsLive env (reject_it user reason k) o o' h e = turn_down-IsLive env o o' h user reason k e
change-IsLive env (cancel user reason k) o o' h e = call_off-IsLive env o o' h user reason k e
change-IsLive env (no_show user reason url) o o' h e = miss-IsLive env o o' h user reason url e
change-IsLive env (propose_meeting user place time note) o o' h e =
    SameLife-IsLive o o' (Steps.propose-SameLife env o o' user place time note e) h
change-IsLive env (answer_proposal user pid a) o o' h e =
    SameLife-IsLive o o' (Steps.respond-SameLife env o o' user pid a e) h
change-IsLive env (sign_handover user code url note) o o' h e =
    SameLife-IsLive o o' (Steps.hand_over-SameLife env o o' user code url note e) h
change-IsLive env (dispute user input) o o' h e = claim-IsLive env o o' h user input e
change-IsLive env (give_evidence user type url note) o o' h e =
    SameLife-IsLive o o' (Steps.add_evidence-SameLife env o o' user type url note e) h
change-IsLive env (rule_dispute user r) o o' h e = settle_dispute-IsLive env o o' user r h e
change-IsLive env (raise_issue user reason) o o' h e =
    SameLife-IsLive o o' (Steps.complain-SameLife env o o' user reason e) h
change-IsLive env (end_issue user a text) o o' h e =
    SameLife-IsLive o o' (Steps.close_issue-SameLife env o o' user a text e) h
change-IsLive env (pay user) o o' h e =
    SameLife-IsLive o o' (Steps.start_payment-SameLife env o o' user e) h
change-IsLive env (report_payment user url note) o o' h e =
    SameLife-IsLive o o' (Steps.report_transfer-SameLife env o o' user url note e) h
change-IsLive env (confirm_payment user note) o o' h e =
    SameLife-IsLive o o' (Steps.confirm_transfer-SameLife env o o' user note e) h
change-IsLive env (payment_answer id status) o o' h e =
    SameLife-IsLive o o' (Steps.call_back-SameLife env o o' id status e) h
change-IsLive env (refund user) o o' h e =
    SameLife-IsLive o o' (Steps.give_back-SameLife env o o' user e) h

IsLive-IsInvariant : IsInvariant IsLive
IsLive-IsInvariant = record {
  by_change = change-IsLive;
  by_await = await_seller-IsLive;
  by_roll_back = roll_back-IsLive;
  by_receipt = receipt-IsLive;
  by_create = new_order-IsLive;
}

-- In every reachable state, each order's history is a trail from nothing to its status by legal
-- links, an open dispute is one of a completed order, and a completed or cancelled order has the
-- date of that.
pub reachable-IsLive : {w : World} → Reachable w → All IsLive w.orders
reachable-IsLive r = Reachable-All IsLive IsLive-IsInvariant r
