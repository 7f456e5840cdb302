-- ===== src/Orders/Accounts/Rulings.antt =====
-- What the admins and the handover account for.
use iuh_exchange_be.Base.{
  ◌≡◌, refl, Bool, true, false, not, ◌&&◌, ◌==◌, String, if◌then◌else◌, arith, ℕ, Bool-cases, inl,
  inr,
}
use iuh_exchange_be.Base.Result.{ok, throw_if-ok, ok-injective, forbidden, bad_request}
use iuh_exchange_be.Orders.Model.{
  ObjectId, Order, OrderStatus, pending, awaiting_seller, completed, cancelled, Remedy, no_remedy,
  refund, cancel_order,
}
use iuh_exchange_be.Orders.Events.{IssueAction, confirm_paid, refund_buyer, reject_issue}
use iuh_exchange_be.Orders.Flags.{is_paid, is_refunded, is_bank_transfer, is_cash, is_opened}
use iuh_exchange_be.Orders.Store.{Env}
use iuh_exchange_be.Orders.Transitions.{Change, append_status_history, status_is, valid_transition}
use iuh_exchange_be.Orders.Closing.{complete, settle_cash}
use iuh_exchange_be.Orders.Rulings.{
  Ruling, rule, log_ruling, apply_remedy, refund_dispute, settle_dispute,
}
use iuh_exchange_be.Orders.Issues.{settle_issue, closed_order, close_issue}
use iuh_exchange_be.Orders.Accounts.{IsAccounted}
use iuh_exchange_be.Orders.Accounts.Steps.{Adds-IsAccounted, Frame-IsAccounted}

pub append-IsAccounted :
    (now : ℕ) (next : OrderStatus) (c : Change) (o : Order)
    → IsAccounted o
    → IsAccounted (append_status_history now next c o)
unfolding append_status_history
append-IsAccounted now pending c o h = Frame-IsAccounted o _ refl refl h
append-IsAccounted now awaiting_seller c o h = Frame-IsAccounted o _ refl refl h
append-IsAccounted now completed c o h = Frame-IsAccounted o _ refl refl h
append-IsAccounted now cancelled c o h = Frame-IsAccounted o _ refl refl h

settle_cash-IsAccounted : (env : Env) (o : Order) → IsAccounted o → IsAccounted (settle_cash env o)
unfolding settle_cash is_paid is_refunded
settle_cash-IsAccounted env o h =
    Adds-IsAccounted _ o _
      (record {
        price = refl;
        amount = refl;
        ledger = refl;
        paid = λ p. (refl, inl refl);
        refunded = λ p. cc;
      })
      h

settled-IsAccounted :
    (env : Env) (b : Bool) (o : Order)
    → IsAccounted o
    → IsAccounted (if b then settle_cash env o else o)
settled-IsAccounted env true o h = settle_cash-IsAccounted env o h
settled-IsAccounted env false o h = h

pub complete-IsAccounted :
    (env : Env) (o o' : Order) (user : ObjectId)
    → IsAccounted o
    → complete env user o ≡ ok o'
    → IsAccounted o'
unfolding complete
complete-IsAccounted env o o' user h e =
    let (own, e₁) = throw_if-ok (not (o.seller_id == user)) forbidden _ e in
    let (waiting, e₂) = throw_if-ok (not (status_is o.status awaiting_seller)) bad_request _ e₁ in
    let (live, e₃) = throw_if-ok (status_is o.status cancelled) bad_request _ e₂ in
    let (active, e₄) = throw_if-ok (status_is o.status completed) bad_request _ e₃ in
    let (received, e₅) =
      throw_if-ok (is_bank_transfer o.payment.method && not (is_paid o.payment.status)) bad_request
        _ e₄ in
    let cash = is_cash o.payment.method && not (is_paid o.payment.status) in
    let settled = if cash then settle_cash env o else o in
    let (valid, e₆) =
      throw_if-ok (not (valid_transition settled.status completed)) bad_request _ e₅ in
    rw (← ok-injective _ _ e₆)
      (append-IsAccounted env.now completed _ settled (settled-IsAccounted env cash o h))

refund_dispute-IsAccounted :
    (now : ℕ) (text : String) (o : Order) → IsAccounted o → IsAccounted (refund_dispute now text o)
unfolding refund_dispute
refund_dispute-IsAccounted now text o h = elim (Bool-cases (is_paid o.payment.status)) [
  | inl paid ↦ rw paid (
      Adds-IsAccounted _ o _
        (record {
          price = refl;
          amount = refl;
          ledger = refl;
          paid = λ p. cc;
          refunded = λ p. (refl, inl refl);
        })
        h)
  | inr unpaid ↦ rw unpaid h
]

apply_remedy-IsAccounted :
    (now : ℕ) (admin_id : ObjectId) (m : Remedy) (text : String) (o : Order)
    → IsAccounted o
    → IsAccounted (apply_remedy now admin_id m text o)
unfolding apply_remedy
apply_remedy-IsAccounted now admin_id no_remedy text o h = h
apply_remedy-IsAccounted now admin_id refund text o h = refund_dispute-IsAccounted now text o h
apply_remedy-IsAccounted now admin_id cancel_order text o h =
    elim (Bool-cases (status_is o.status cancelled)) [
      | inl gone ↦ rw gone h
      | inr live ↦ rw live (append-IsAccounted now cancelled _ o h)
    ]

pub settle_dispute-IsAccounted :
    (env : Env) (o o' : Order) (admin_id : ObjectId) (r : Ruling)
    → IsAccounted o
    → settle_dispute env.now admin_id r o ≡ ok o'
    → IsAccounted o'
unfolding settle_dispute rule log_ruling
settle_dispute-IsAccounted env o o' admin_id r h e =
    let (open_case, e₁) = throw_if-ok (not (is_opened o.dispute.status)) bad_request _ e in
    let ruled = rule env.now admin_id r o in
    let remedied = apply_remedy env.now admin_id r.remedy r.resolution ruled in
    let fine =
      apply_remedy-IsAccounted env.now admin_id r.remedy r.resolution ruled
        (Frame-IsAccounted o ruled refl refl h) in
    rw (← ok-injective _ _ e₁)
      (Frame-IsAccounted remedied (log_ruling admin_id r remedied) refl refl fine)

closed_order-IsAccounted :
    (env : Env) (user : ObjectId) (action : IssueAction) (text : String) (o : Order)
    → IsAccounted o
    → IsAccounted (closed_order env user action text o)
unfolding closed_order settle_issue is_paid is_refunded
closed_order-IsAccounted env user confirm_paid text o h =
    Adds-IsAccounted _ o _
      (record {
        price = refl;
        amount = refl;
        ledger = refl;
        paid = λ p. (ground arith, inl refl);
        refunded = λ p. cc;
      })
      h
closed_order-IsAccounted env user refund_buyer text o h =
    Adds-IsAccounted _ o _
      (record {
        price = refl;
        amount = refl;
        ledger = refl;
        paid = λ p. cc;
        refunded = λ p. (refl, inl refl);
      })
      h
closed_order-IsAccounted env user reject_issue text o h = Frame-IsAccounted o _ refl refl h

pub close_issue-IsAccounted :
    (env : Env) (o o' : Order) (user : ObjectId) (action : IssueAction) (text : String)
    → IsAccounted o
    → close_issue env user action text o ≡ ok o'
    → IsAccounted o'
unfolding close_issue
close_issue-IsAccounted env o o' user action text h e =
    let (open_case, e₁) = throw_if-ok (not (is_opened o.issue.status)) bad_request _ e in
    rw (← ok-injective _ _ e₁) (closed_order-IsAccounted env user action text o h)
