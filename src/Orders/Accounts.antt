-- ===== src/Orders/Accounts.antt =====
-- The money side of an order: its payment status against its ledger of transactions
-- (packages/order-service/src/controllers/payment.controller.js and the payment parts of
-- packages/order-service/src/services/order.service.js).
pub mod Frame
pub mod Steps
pub mod Rulings
pub mod Invariant
use iuh_exchange_be.Base.{
  ◌≡◌, refl, Bool, true, false, ◌||◌, List, [], ◌∷◌, ◌++◌, All, any, arith, is_some, ◌⊎◌,
}
use iuh_exchange_be.Orders.Model.{
  Order, Transaction, TransactionType, refund_created, TransactionStatus, success,
}
use iuh_exchange_be.Orders.Flags.{is_paid, is_refunded}

abbrev pub is_success : TransactionStatus → Bool
is_success success = true
is_success _ = false

abbrev pub is_refund : TransactionType → Bool
is_refund refund_created = true
is_refund _ = false

abbrev pub succeeds : Transaction → Bool
succeeds t = is_success t.status

abbrev pub refunds : Transaction → Bool
refunds t = is_refund t.type

-- Every entry is of the order's price; a paid order has the date and an entry that succeeded, a
-- refunded one the date and the entry of a refund.
pub record IsAccounted (o : Order) : Type 0 where
  pub amounts : All (λ (t : Transaction). t.amount ≡ o.price) o.payment.transactions
  pub paid_dated : is_paid o.payment.status ≡ true → is_some o.payment.paid_at ≡ true
  pub refunded_dated : is_refunded o.payment.status ≡ true → is_some o.payment.refunded_at ≡ true
  pub paid_entry : is_paid o.payment.status ≡ true → any succeeds o.payment.transactions ≡ true
  pub refunded_entry :
      is_refunded o.payment.status ≡ true → any refunds o.payment.transactions ≡ true

pub any-append_left :
    (p : Transaction → Bool) (xs ys : List Transaction) → any p xs ≡ true → any p (xs ++ ys) ≡ true
any-append_left p [] ys h = cc
any-append_left p (x ∷ xs) ys h = ground (arith, any-append_left p xs ys)

pub any-append_last :
    (p : Transaction → Bool) (xs : List Transaction) (t : Transaction)
    → p t ≡ true
    → any p (xs ++ (t ∷ [])) ≡ true
any-append_last p [] t h = ground arith
any-append_last p (x ∷ xs) t h = ground (arith, any-append_last p xs t h)

-- A step that adds the entry `t`, with what justifies the status that it leaves.
pub record Adds (t : Transaction) (o o' : Order) : Type 0 where
  pub price : o'.price ≡ o.price
  pub amount : t.amount ≡ o.price
  pub ledger : o'.payment.transactions ≡ o.payment.transactions ++ (t ∷ [])
  pub paid :
      is_paid o'.payment.status ≡ true
      → (is_some o'.payment.paid_at ≡ true)
        × ((succeeds t ≡ true) ⊎ (is_paid o.payment.status ≡ true))
  pub refunded :
      is_refunded o'.payment.status ≡ true
      → (is_some o'.payment.refunded_at ≡ true)
        × ((refunds t ≡ true) ⊎ (is_refunded o.payment.status ≡ true))
