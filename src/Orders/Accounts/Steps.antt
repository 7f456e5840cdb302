-- ===== src/Orders/Accounts/Steps.antt =====
-- How the steps of the service account for what they do.
use iuh_exchange_be.Base.{
  ◌≡◌, refl, Bool, true, false, List, [], ◌∷◌, ◌++◌, All-append, any, inl, inr, ◌⊎◌,
}
use iuh_exchange_be.Base.{◌||◌, String, not, ◌==◌, is_some}
use iuh_exchange_be.Base.Result.{ok, throw_if-ok, ok-injective, forbidden, bad_request}
use iuh_exchange_be.Base.Text.{str_eq}
use iuh_exchange_be.Orders.Model.{ObjectId, Order, Transaction, cancelled}
use iuh_exchange_be.Orders.Store.{Env}
use iuh_exchange_be.Orders.Flags.{is_paid, is_refunded, is_bank_transfer}
use iuh_exchange_be.Orders.Transitions.{is_outsider, status_is}
use iuh_exchange_be.Orders.Payments.{
  start_payment, report_transfer, confirm_transfer, call_back, give_back, capture, fail_payment,
  is_wrong_transaction,
}
use iuh_exchange_be.Orders.Accounts.{
  IsAccounted, Adds, any-append_left, any-append_last, succeeds, refunds,
}

any-append :
    (p : Transaction → Bool) (xs : List Transaction) (t : Transaction) {Q : Type 0}
    → (p t ≡ true) ⊎ Q
    → (Q → any p xs ≡ true)
    → any p (xs ++ (t ∷ [])) ≡ true
any-append p xs t (inl here) f = any-append_last p xs t here
any-append p xs t (inr q) f = any-append_left p xs (t ∷ []) (f q)

pub Adds-IsAccounted :
    (t : Transaction) (o o' : Order) → Adds t o o' → IsAccounted o → IsAccounted o'
Adds-IsAccounted t o o' a h = record {
  amounts =
      rw (a.ledger, a.price)
        (All-append (λ (t : Transaction). t.amount ≡ o.price) o.payment.transactions (t ∷ [])
          h.amounts (a.amount, tt));
  paid_dated = λ p. (a.paid p).0;
  refunded_dated = λ p. (a.refunded p).0;
  paid_entry =
      λ p. rw a.ledger (any-append succeeds o.payment.transactions t (a.paid p).1 h.paid_entry);
  refunded_entry = λ p.
      rw a.ledger (any-append refunds o.payment.transactions t (a.refunded p).1 h.refunded_entry);
}

-- A change that leaves price and payment alone.
pub Frame-IsAccounted :
    (o o' : Order) → o'.price ≡ o.price → o'.payment ≡ o.payment → IsAccounted o → IsAccounted o'
Frame-IsAccounted o o' p e h = record {
  amounts = rw (e, p) h.amounts;
  paid_dated = rw e h.paid_dated;
  refunded_dated = rw e h.refunded_dated;
  paid_entry = rw e h.paid_entry;
  refunded_entry = rw e h.refunded_entry;
}

module _ (env : Env) (o o' : Order) (h : IsAccounted o) where
  pub give_back-IsAccounted : (user : ObjectId) → give_back env.now user o ≡ ok o' → IsAccounted o'
  unfolding give_back
  give_back-IsAccounted user e =
      let (party, e₁) = throw_if-ok (is_outsider o user) forbidden _ e in
      let (first, e₂) = throw_if-ok (is_refunded o.payment.status) bad_request _ e₁ in
      let (paid, e₃) = throw_if-ok (not (is_paid o.payment.status)) bad_request _ e₂ in
      let (gone, e₄) = throw_if-ok (not (status_is o.status cancelled)) bad_request _ e₃ in
      rw (← ok-injective _ _ e₄) (
        Adds-IsAccounted _ o _
          (record {
            price = refl;
            amount = refl;
            ledger = refl;
            paid = λ p. cc;
            refunded = λ p. (refl, inl refl);
          })
          h)

  pub start_payment-IsAccounted :
      (user : ObjectId) → start_payment env user o ≡ ok o' → IsAccounted o'
  unfolding start_payment
  start_payment-IsAccounted user e =
      let (own, e₁) = throw_if-ok (not (o.buyer_id == user)) forbidden _ e in
      let (unpaid, e₂) = throw_if-ok (is_paid o.payment.status) bad_request _ e₁ in
      let (live, e₃) = throw_if-ok (status_is o.status cancelled) bad_request _ e₂ in
      rw (← ok-injective _ _ e₃) (
        Adds-IsAccounted _ o _
          (record {
            price = refl;
            amount = refl;
            ledger = refl;
            paid = λ p. (h.paid_dated p, inr p);
            refunded = λ p. (h.refunded_dated p, inr p);
          })
          h)

  pub report_transfer-IsAccounted :
      (user : ObjectId) (url note : String)
      → report_transfer env user url note o ≡ ok o'
      → IsAccounted o'
  unfolding report_transfer
  report_transfer-IsAccounted user url note e =
      let (own, e₁) = throw_if-ok (not (o.buyer_id == user)) forbidden _ e in
      let (live, e₂) = throw_if-ok (status_is o.status cancelled) bad_request _ e₁ in
      let (unpaid, e₃) = throw_if-ok (is_paid o.payment.status) bad_request _ e₂ in
      rw (← ok-injective _ _ e₃) (
        Adds-IsAccounted _ o _
          (record {
            price = refl;
            amount = refl;
            ledger = refl;
            paid = λ p. (h.paid_dated p, inr p);
            refunded = λ p. (h.refunded_dated p, inr p);
          })
          h)

  pub confirm_transfer-IsAccounted :
      (user : ObjectId) (note : String)
      → confirm_transfer env.now user note o ≡ ok o'
      → IsAccounted o'
  unfolding confirm_transfer is_refunded
  confirm_transfer-IsAccounted user note e =
      let (own, e₁) = throw_if-ok (not (o.seller_id == user)) forbidden _ e in
      let (told, e₂) =
        throw_if-ok
          (not (is_bank_transfer o.payment.method) || not (is_some o.payment.transfer_reported_at))
          bad_request _ e₁ in
      let (unpaid, e₃) = throw_if-ok (is_paid o.payment.status) bad_request _ e₂ in
      let (live, e₄) = throw_if-ok (status_is o.status cancelled) bad_request _ e₃ in
      rw (← ok-injective _ _ e₄) (
        Adds-IsAccounted _ o _
          (record {
            price = refl;
            amount = refl;
            ledger = refl;
            paid = λ p. (refl, inl refl);
            refunded = λ p. cc;
          })
          h)

  capture-IsAccounted : (id : String) → IsAccounted (capture env.now id o)
  unfolding capture is_paid is_refunded
  capture-IsAccounted id =
      Adds-IsAccounted _ o _
        (record {
          price = refl;
          amount = refl;
          ledger = refl;
          paid = λ p. (refl, inl refl);
          refunded = λ p. cc;
        })
        h

  fail_payment-IsAccounted : (id status : String) → IsAccounted (fail_payment id status o)
  unfolding fail_payment
  fail_payment-IsAccounted id status =
      Adds-IsAccounted _ o _
        (record {
          price = refl;
          amount = refl;
          ledger = refl;
          paid = λ p. (h.paid_dated p, inr p);
          refunded = λ p. (h.refunded_dated p, inr p);
        })
        h

  answered-IsAccounted :
      (id status : String) (b : Bool)
      → IsAccounted (elim b [ true ↦ capture env.now id o | false ↦ fail_payment id status o ])
  answered-IsAccounted id status true = capture-IsAccounted id
  answered-IsAccounted id status false = fail_payment-IsAccounted id status

  pub call_back-IsAccounted :
      (id status : String) → call_back env.now id status o ≡ ok o' → IsAccounted o'
  unfolding call_back
  call_back-IsAccounted id status e =
      let (live, e₁) = throw_if-ok (status_is o.status cancelled) bad_request _ e in
      let (unpaid, e₂) = throw_if-ok (is_paid o.payment.status) bad_request _ e₁ in
      let (kept, e₃) = throw_if-ok (is_refunded o.payment.status) bad_request _ e₂ in
      let (right, e₄) =
        throw_if-ok (is_wrong_transaction id o.payment.transaction_id) bad_request _ e₃ in
      rw (← ok-injective _ _ e₄) (answered-IsAccounted id status (str_eq status "success"))
