-- ===== src/Orders/Accounts/Frame.antt =====
-- The changes of an order that leave its price and payment alone.
use iuh_exchange_be.Base.{ℕ, String, Bool, not, ◌≡◌, Option, some, arith}
use iuh_exchange_be.Base.Result.{ok, throw_if-ok, >>-ok, ok-injective, forbidden, bad_request}
use iuh_exchange_be.Orders.Model.{ObjectId, Order, CancelCategory}
use iuh_exchange_be.Orders.Events.{HandoverAction, accept, reject}
use iuh_exchange_be.Orders.Flags.{is_system, is_buyer}
use iuh_exchange_be.Orders.Store.{Env}
use iuh_exchange_be.Orders.Transitions.{append_status_history, actor_role_for}
use iuh_exchange_be.Orders.Saga.{await_seller, roll_back}
use iuh_exchange_be.Orders.Closing.{turn_down, call_off, miss}
use iuh_exchange_be.Orders.Handover.{
  propose, respond, hand_over, can_hand_over, check_code, sign, settle_handover,
}
use iuh_exchange_be.Orders.Disputes.{DisputeInput, claim, add_evidence}
use iuh_exchange_be.Orders.Issues.{complain}

-- Price and payment are those of `o`.
pub record SamePayment (o o' : Order) : Type 0 where
  pub price : o'.price ≡ o.price
  pub payment : o'.payment ≡ o.payment

module _ (env : Env) (o o' : Order) where
  pub turn_down-SamePayment :
      (user : ObjectId) (reason : String) (c : CancelCategory)
      → turn_down env.now user reason c o ≡ ok o'
      → SamePayment o o'
  unfolding turn_down append_status_history
  turn_down-SamePayment user reason c e = ground arith

  pub call_off-SamePayment :
      (user : ObjectId) (reason : String) (c : CancelCategory)
      → call_off env.now user reason c o ≡ ok o'
      → SamePayment o o'
  unfolding call_off append_status_history
  call_off-SamePayment user reason c e = ground arith

  pub miss-SamePayment :
      (user : ObjectId) (reason url : String)
      → miss env.now user reason url o ≡ ok o'
      → SamePayment o o'
  unfolding miss append_status_history
  miss-SamePayment user reason url e = ground arith

  pub propose-SamePayment :
      (user : ObjectId) (place : String) (time : Option ℕ) (note : String)
      → propose env user place time note o ≡ ok o'
      → SamePayment o o'
  unfolding propose
  propose-SamePayment user place time note e = ground arith

  pub respond-SamePayment :
      (user pid : ObjectId) (a : HandoverAction)
      → respond env user pid a o ≡ ok o'
      → SamePayment o o'
  unfolding respond
  respond-SamePayment user pid accept e = ground arith
  respond-SamePayment user pid reject e = ground arith

  pub claim-SamePayment :
      (user : ObjectId) (input : DisputeInput)
      → claim env.now user input o ≡ ok o'
      → SamePayment o o'
  unfolding claim
  claim-SamePayment user input e = ground arith

  pub add_evidence-SamePayment :
      (user : ObjectId) (type url note : String)
      → add_evidence user type url note o ≡ ok o'
      → SamePayment o o'
  unfolding add_evidence
  add_evidence-SamePayment user type url note e = ground arith

  pub complain-SamePayment :
      (user : ObjectId) (reason : String)
      → complain env.now user reason o ≡ ok o'
      → SamePayment o o'
  unfolding complain
  complain-SamePayment user reason e = ground arith

  pub await_seller-SamePayment : await_seller env.now o ≡ some o' → SamePayment o o'
  unfolding await_seller append_status_history
  await_seller-SamePayment e = ground arith

  pub roll_back-SamePayment :
      (reason : String) → roll_back env.now reason o ≡ some o' → SamePayment o o'
  unfolding roll_back append_status_history
  roll_back-SamePayment reason e = ground arith

  sign-SamePayment :
      (b : Bool) (user : ObjectId) (code url note : String)
      → SamePayment o (settle_handover b (sign env.now b user code url note o))
  unfolding settle_handover sign
  sign-SamePayment b user code url note = ground arith

  pub hand_over-SamePayment :
      (user : ObjectId) (code url note : String)
      → hand_over env.now user code url note o ≡ ok o'
      → SamePayment o o'
  unfolding hand_over
  hand_over-SamePayment user code url note e =
      let role = actor_role_for o user in
      let (party, e₁) = throw_if-ok (is_system role) forbidden _ e in
      let (ready, e₂) = throw_if-ok (not (can_hand_over o)) bad_request _ e₁ in
      let e₃ = >>-ok (check_code env.now code o.handover.code o.handover.code_expires_at) _ e₂ in
      rw (← ok-injective _ _ e₃) (sign-SamePayment (is_buyer role) user code url note)
