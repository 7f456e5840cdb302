-- ===== src/Orders/Payments.antt =====
-- The payment handlers (packages/order-service/src/controllers/payment.controller.js). A missing
-- X-User-Id header is `none`. Their publishes are not caught.
use iuh_exchange_be.Base.{
  ℕ, String, Bool, true, false, not, Option, none, some, [], ◌∷◌, ◌++◌, ◌==◌, ◌||◌, or_else,
  is_some,
}
use iuh_exchange_be.Base.Text.{truthy, or_text, str_append, str_eq}
use iuh_exchange_be.Base.Result.{Result, ok, err, ◌>>◌, throw_if, bad_request, forbidden}
use iuh_exchange_be.Orders.Model.{
  ObjectId, Order, cancelled, PaymentMethod, bank_transfer, vnpay_mock, paid, refunded,
  ProviderStatus, mock_payment_created, mock_paid, mock_refunded, reconciling, matched,
  TransactionType, payment_created, payment_captured, payment_failed, transfer_report,
  transfer_confirmation, refund_created, TransactionStatus, in_progress, reported, success, failure,
  returned,
}
use iuh_exchange_be.Orders.Events.{order_refunded, payment_reported, payment_confirmed, parties}
use iuh_exchange_be.Orders.Flags.{is_paid, is_refunded, is_bank_transfer}
use iuh_exchange_be.Orders.Store.{Env, World, update_order, update_order_strict}
use iuh_exchange_be.Orders.Transitions.{status_is, is_outsider}

-- One entry of the order's ledger.
unfoldable pub record_transaction :
    TransactionType → Option String → PaymentMethod → TransactionStatus → String → Order → Order
record_transaction type id method status note o = record o {
  payment = record (o.payment) {
    transactions =
        o.payment.transactions
        ++ (record {
          type = type;
          transaction_id = id;
          amount = o.price;
          method = method;
          status = status;
          note = note;
        }
            ∷ []);
  };
}

-- A handler of a signed-in user.
unfoldable pub signed_in {ℓ} :
    {S A : Type ℓ} → Option ObjectId → (ObjectId → S → Result A × S) → S → Result A × S
signed_in none handler w = (err bad_request, w)
signed_in (some user) handler w = handler user w

unfoldable pub start_payment : Env → ObjectId → Order → Result Order
unfolding is_paid status_is record_transaction
start_payment env user o = do
  throw_if (not (o.buyer_id == user)) forbidden
  throw_if (is_paid o.payment.status) bad_request
  throw_if (status_is o.status cancelled) bad_request
  let id : Option String = some (str_append "VNPAY_" env.token)
  ok (
      record_transaction payment_created id vnpay_mock in_progress "Mock VNPay payment link created"
        (record o {
          payment = record (o.payment) {
            method = vnpay_mock;
            transaction_id = id;
            provider_status = mock_payment_created;
            reconciliation = reconciling;
          };
        }))

unfoldable pub create_payment : Env → Option ObjectId → ObjectId → World → Result Order × World
create_payment env user_id id =
    signed_in user_id (λ user. update_order env id (start_payment env user) (λ o. []))

unfoldable pub report_transfer : Env → ObjectId → String → String → Order → Result Order
unfolding is_paid status_is record_transaction
report_transfer env user proof_url note o = do
  throw_if (not (o.buyer_id == user)) forbidden
  throw_if (status_is o.status cancelled) bad_request
  throw_if (is_paid o.payment.status) bad_request
  let id : Option String = or_else o.payment.transaction_id (some (str_append "BANK_" env.token))
  ok (
      record_transaction transfer_report id bank_transfer reported
        (or_text note "Buyer reported direct bank transfer")
        (record o {
          payment = record (o.payment) {
            method = bank_transfer;
            transaction_id = id;
            provider_status = ProviderStatus.transfer_reported;
            reconciliation = reconciling;
            transfer_proof_url = or_text proof_url o.payment.transfer_proof_url;
            transfer_reported_at = some env.now;
          };
        }))

unfoldable pub report_bank_transfer :
    Env → Option ObjectId → ObjectId → String → String → World → Result Order × World
report_bank_transfer env user_id id proof_url note = signed_in user_id (λ user.
    update_order_strict env id (report_transfer env user proof_url note)
      (λ o. payment_reported (parties o) o.product_id o.price bank_transfer ∷ []))

unfoldable pub confirm_transfer : ℕ → ObjectId → String → Order → Result Order
unfolding is_paid is_bank_transfer status_is record_transaction
confirm_transfer now user note o = do
  throw_if (not (o.seller_id == user)) forbidden
  throw_if (not (is_bank_transfer o.payment.method) || not (is_some o.payment.transfer_reported_at))
      bad_request
  throw_if (is_paid o.payment.status) bad_request
  throw_if (status_is o.status cancelled) bad_request
  ok (
      record_transaction transfer_confirmation o.payment.transaction_id bank_transfer success
        (or_text note "Seller confirmed bank transfer received")
        (record o {
          payment = record (o.payment) {
            status = paid;
            provider_status = ProviderStatus.transfer_confirmed;
            webhook_verified = false;
            reconciliation = matched;
            paid_at = some now;
            transfer_confirmed_at = some now;
            transfer_confirmed_by = some user;
          };
        }))

unfoldable pub confirm_bank_transfer :
    Env → Option ObjectId → ObjectId → String → World → Result Order × World
confirm_bank_transfer env user_id id note = signed_in user_id (λ user.
    update_order_strict env id (confirm_transfer env.now user note)
      (λ o. payment_confirmed (parties o) o.product_id o.price bank_transfer ∷ []))

-- `!transactionId || transactionId !== order.paymentTransactionId`
unfoldable pub is_wrong_transaction : String → Option String → Bool
is_wrong_transaction id none = true
is_wrong_transaction id (some expected) = not (truthy id) || not (str_eq id expected)

unfoldable pub capture : ℕ → String → Order → Order
unfolding record_transaction
capture now id o =
    record_transaction payment_captured (some id) o.payment.method success "Payment completed"
      (record o {
        payment = record (o.payment) {
          status = paid;
          provider_status = mock_paid;
          webhook_verified = true;
          reconciliation = matched;
          paid_at = some now;
        };
      })

unfoldable pub fail_payment : String → String → Order → Order
unfolding record_transaction
fail_payment id status o =
    record_transaction payment_failed (some id) o.payment.method failure
      (str_append "Payment callback status: " (or_text status "unknown")) o

unfoldable pub call_back : ℕ → String → String → Order → Result Order
unfolding is_paid is_refunded status_is is_wrong_transaction capture fail_payment
call_back now id status o = do
  throw_if (status_is o.status cancelled) bad_request
  throw_if (is_paid o.payment.status) bad_request
  throw_if (is_refunded o.payment.status) bad_request
  throw_if (is_wrong_transaction id o.payment.transaction_id) bad_request
  ok (elim (str_eq status "success") [ true ↦ capture now id o | false ↦ fail_payment id status o ])

-- Anyone may call this back: it takes no user.
unfoldable pub payment_callback : Env → ObjectId → String → String → World → Result Order × World
payment_callback env id transaction_id status =
    update_order_strict env id (call_back env.now transaction_id status) (λ o.
      elim (str_eq status "success") [
        | true ↦ payment_confirmed (parties o) o.product_id o.price o.payment.method ∷ []
        | false ↦ []
      ])

unfoldable pub give_back : ℕ → ObjectId → Order → Result Order
unfolding is_outsider is_paid is_refunded status_is record_transaction
give_back now user o = do
  throw_if (is_outsider o user) forbidden
  throw_if (is_refunded o.payment.status) bad_request
  throw_if (not (is_paid o.payment.status)) bad_request
  throw_if (not (status_is o.status cancelled)) bad_request
  ok (
      record_transaction refund_created o.payment.transaction_id o.payment.method returned
        "Refund processed for cancelled order"
        (record o {
          payment = record (o.payment) {
            status = refunded;
            provider_status = mock_refunded;
            reconciliation = matched;
            refunded_at = some now;
          };
        }))

unfoldable pub process_refund : Env → Option ObjectId → ObjectId → World → Result Order × World
process_refund env user_id id = signed_in user_id (λ user.
    update_order_strict env id (give_back env.now user)
      (λ o. order_refunded (parties o) o.product_id o.price ∷ []))
