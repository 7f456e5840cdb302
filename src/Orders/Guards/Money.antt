-- ===== src/Orders/Guards/Money.antt =====
-- Where refunds come from.
use iuh_exchange_be.Base.{
  if◌then◌else◌, ℕ, suc, ◌+◌, ap, ◌∙◌, false, String, ◌≡◌, refl, true, List, [], ◌∷◌, ◌++◌, arith,
}
use iuh_exchange_be.Base.Result.{ok, err, bad_request}
use iuh_exchange_be.Orders.Model.{ObjectId, Order, Transaction, refund_created, returned}
use iuh_exchange_be.Orders.Events.{refund_buyer}
use iuh_exchange_be.Orders.Flags.{is_opened, is_refunded}
use iuh_exchange_be.Orders.Transitions.{is_outsider}
use iuh_exchange_be.Orders.Payments.{give_back, record_transaction}
use iuh_exchange_be.Orders.Store.{Env}
use iuh_exchange_be.Orders.Issues.{complain, closed_order, close_issue}
use iuh_exchange_be.Orders.Accounts.{refunds}

-- How many refunds a ledger holds.
abbrev pub refund_count : List Transaction → ℕ
refund_count [] = 0
refund_count (t ∷ ts) = let rest = refund_count ts in if refunds t then suc rest else rest

refund_count-append :
    (ts : List Transaction) (t : Transaction)
    → refunds t ≡ true
    → refund_count (ts ++ (t ∷ [])) ≡ suc (refund_count ts)
refund_count-append [] t h = ground arith
refund_count-append (x ∷ ts) t h = ground (arith, refund_count-append ts t h)

complain_opens :
    (now : ℕ) (user : ObjectId) (reason : String) (o o' : Order)
    → complain now user reason o ≡ ok o'
    → (is_opened o'.issue.status ≡ true) × (o'.payment.transactions ≡ o.payment.transactions)
unfolding complain is_opened
complain_opens now user reason o o' e = ground arith

abbrev refund_entry : Order → Transaction
refund_entry o = record {
  type = refund_created;
  transaction_id = o.payment.transaction_id;
  amount = o.price;
  method = o.payment.method;
  status = returned;
  note = "Refund processed for cancelled order";
}

give_back_done :
    (now : ℕ) (user : ObjectId) (o o' : Order)
    → give_back now user o ≡ ok o'
    → (o'.issue ≡ o.issue)
      × (is_refunded o'.payment.status ≡ true)
      × (is_outsider o' user ≡ false)
      × (o'.payment.transactions ≡ o.payment.transactions ++ (refund_entry o ∷ []))
unfolding give_back record_transaction is_refunded
give_back_done now user o o' e = ground arith

-- A complaint about a payment is opened, and then the payment of the cancelled order is refunded.
-- From there the same user's second refund is refused with 400; but an admin's refund of the open
-- complaint, which looks at no payment status, succeeds and books another: two more refunds than at
-- the start.
pub close_issue_refunds :
    (env : Env) (now now' now'' : ℕ) (complainer user admin_id : ObjectId) (reason text : String)
    (o o1 o2 : Order)
    → complain now complainer reason o ≡ ok o1
    → give_back now' user o1 ≡ ok o2
    → (give_back now'' user o2 ≡ err bad_request)
      × ((o3 : Order) × (close_issue env admin_id refund_buyer text o2 ≡ ok o3)
          × (refund_count o3.payment.transactions ≡ refund_count o.payment.transactions + 2))
unfolding close_issue give_back
close_issue_refunds env now now' now'' complainer user admin_id reason text o o1 o2 e e' =
    let (opened, same) = complain_opens now complainer reason o o1 e in
    let (issue, refunded, inside, ledger) = give_back_done now' user o1 o2 e' in
    let first = refund_count-append o1.payment.transactions (refund_entry o1) refl in
    let booked = refund_count-append o2.payment.transactions _ refl in
    (
      rw (inside, refunded) refl,
      (
        closed_order env admin_id refund_buyer text o2,
        rw (issue, opened) refl,
        booked
            ∙ ap (λ ts. suc (refund_count ts)) ledger
            ∙ ap suc first
            ∙ ap (λ ts. suc (suc (refund_count ts))) same
            ∙ omega arith,
      ),
    )
