-- ===== src/Orders/Lifecycle/Steps.antt =====
-- Every change of an order keeps `IsLive`: the ones that leave the status alone, and the ones that
-- record a change of it.
use iuh_exchange_be.Base.{ℕ, Bool, not, String, ◌≡◌, Option, arith}
use iuh_exchange_be.Base.Result.{ok, throw_if-ok, >>-ok}
use iuh_exchange_be.Orders.Model.{ObjectId, Order}
use iuh_exchange_be.Orders.Store.{Env}
use iuh_exchange_be.Orders.Lifecycle.{IsLive}
use iuh_exchange_be.Orders.Events.{
  HandoverAction, IssueAction, accept, reject, confirm_paid, refund_buyer, reject_issue,
}
use iuh_exchange_be.Orders.Flags.{is_system, is_buyer}
use iuh_exchange_be.Orders.Transitions.{actor_role_for}
use iuh_exchange_be.Orders.Handover.{
  propose, respond, hand_over, can_hand_over, check_code, settle_handover, sign,
}
use iuh_exchange_be.Orders.Disputes.{add_evidence}
use iuh_exchange_be.Orders.Issues.{complain, close_issue}
use iuh_exchange_be.Orders.Payments.{
  start_payment, report_transfer, confirm_transfer, call_back, give_back,
}

-- What `IsLive` reads of an order is unchanged.
pub record SameLife (o o' : Order) : Type 0 where
  pub status : o'.status ≡ o.status
  pub history : o'.status_history ≡ o.status_history
  pub dispute : o'.dispute.status ≡ o.dispute.status
  pub completed_at : o'.completed_at ≡ o.completed_at
  pub cancellation : o'.cancellation ≡ o.cancellation

pub SameLife-IsLive : (o o' : Order) → SameLife o o' → IsLive o → IsLive o'
SameLife-IsLive o o' s h = record {
  trail = rw (s.status, s.history) h.trail;
  disputed = rw (s.status, s.dispute) h.disputed;
  completed_stamped = rw (s.status, s.completed_at) h.completed_stamped;
  cancelled_stamped = rw (s.status, s.cancellation) h.cancelled_stamped;
}

module _ (env : Env) (o o' : Order) where
  pub propose-SameLife :
      (user : ObjectId) (location : String) (time : Option ℕ) (note : String)
      → propose env user location time note o ≡ ok o'
      → SameLife o o'
  unfolding propose
  propose-SameLife user location time note e = ground arith

  pub respond-SameLife :
      (user pid : ObjectId) (a : HandoverAction) → respond env user pid a o ≡ ok o' → SameLife o o'
  unfolding respond
  respond-SameLife user pid accept e = ground arith
  respond-SameLife user pid reject e = ground arith

  pub sign-SameLife :
      (b : Bool) (user : ObjectId) (code url note : String)
      → SameLife o (settle_handover b (sign env.now b user code url note o))
  unfolding settle_handover sign
  sign-SameLife b user code url note = ground arith

  pub hand_over-SameLife :
      (user : ObjectId) (code url note : String)
      → hand_over env.now user code url note o ≡ ok o'
      → SameLife o o'
  unfolding hand_over
  hand_over-SameLife user code url note e =
      let role = actor_role_for o user in
      let (party, e₁) = throw_if-ok (is_system role) _ _ e in
      let (ready, e₂) = throw_if-ok (not (can_hand_over o)) _ _ e₁ in
      let e₃ = >>-ok (check_code env.now code o.handover.code o.handover.code_expires_at) _ e₂ in
      let same : settle_handover (is_buyer role) (sign env.now (is_buyer role) user code url note o)
          ≡ o' =
        cc in
      rw (← same) (sign-SameLife (is_buyer role) user code url note)

  pub add_evidence-SameLife :
      (user : ObjectId) (type url note : String)
      → add_evidence user type url note o ≡ ok o'
      → SameLife o o'
  unfolding add_evidence
  add_evidence-SameLife user type url note e = ground arith

  pub complain-SameLife :
      (user : ObjectId) (reason : String) → complain env.now user reason o ≡ ok o' → SameLife o o'
  unfolding complain
  complain-SameLife user reason e = ground arith

  pub close_issue-SameLife :
      (user : ObjectId) (a : IssueAction) (text : String)
      → close_issue env user a text o ≡ ok o'
      → SameLife o o'
  unfolding close_issue
  close_issue-SameLife user confirm_paid text e = ground arith
  close_issue-SameLife user refund_buyer text e = ground arith
  close_issue-SameLife user reject_issue text e = ground arith

  pub start_payment-SameLife : (user : ObjectId) → start_payment env user o ≡ ok o' → SameLife o o'
  unfolding start_payment
  start_payment-SameLife user e = ground arith

  pub report_transfer-SameLife :
      (user : ObjectId) (url note : String)
      → report_transfer env user url note o ≡ ok o'
      → SameLife o o'
  unfolding report_transfer
  report_transfer-SameLife user url note e = ground arith

  pub confirm_transfer-SameLife :
      (user : ObjectId) (note : String)
      → confirm_transfer env.now user note o ≡ ok o'
      → SameLife o o'
  unfolding confirm_transfer
  confirm_transfer-SameLife user note e = ground arith

  pub call_back-SameLife :
      (id status : String) → call_back env.now id status o ≡ ok o' → SameLife o o'
  unfolding call_back
  call_back-SameLife id status e = ground arith

  pub give_back-SameLife : (user : ObjectId) → give_back env.now user o ≡ ok o' → SameLife o o'
  unfolding give_back
  give_back-SameLife user e = ground arith
