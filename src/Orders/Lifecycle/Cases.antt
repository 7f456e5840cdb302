-- ===== src/Orders/Lifecycle/Cases.antt =====
-- Disputes and their rulings keep `IsLive`.
use iuh_exchange_be.Base.{ℕ, String, ◌≡◌, refl, true, false, not, some, arith, Bool-cases, inl, inr}
use iuh_exchange_be.Base.Text.{trim}
use iuh_exchange_be.Base.Result.{ok, throw_if-ok, forbidden, bad_request}
use iuh_exchange_be.Orders.Model.{
  ObjectId, Order, OrderStatus, pending, awaiting_seller, completed, cancelled, Remedy, no_remedy,
  refund, cancel_order,
}
use iuh_exchange_be.Orders.Store.{Env}
use iuh_exchange_be.Orders.Transitions.{status_is, is_outsider}
use iuh_exchange_be.Orders.Flags.{is_opened}
use iuh_exchange_be.Orders.Disputes.{DisputeInput, claim, open_case, attach_initial}
use iuh_exchange_be.Orders.Rulings.{
  Ruling, settle_dispute, rule, log_ruling, apply_remedy, refund_dispute,
}
use iuh_exchange_be.Orders.Lifecycle.{IsLive, legal_link, append_status_history-IsLive}
use iuh_exchange_be.Orders.Lifecycle.Steps.{SameLife, SameLife-IsLive}

-- A change of the dispute alone, to an open one on a completed order or to a closed one.
record SameCourse (o o' : Order) : Type 0 where
  status : o'.status ≡ o.status
  history : o'.status_history ≡ o.status_history
  completed_at : o'.completed_at ≡ o.completed_at
  cancellation : o'.cancellation ≡ o.cancellation

SameCourse-IsLive :
    (o o' : Order)
    → SameCourse o o'
    → (is_opened o'.dispute.status ≡ true → o.status ≡ completed)
    → IsLive o
    → IsLive o'
SameCourse-IsLive o o' s d h = record {
  trail = rw (s.status, s.history) h.trail;
  disputed = rw s.status d;
  completed_stamped = rw (s.status, s.completed_at) h.completed_stamped;
  cancelled_stamped = rw (s.status, s.cancellation) h.cancelled_stamped;
}

module _ (env : Env) (o o' : Order) (h : IsLive o) where
  claim_course :
      (user : ObjectId) (input : DisputeInput)
      → SameCourse o (attach_initial user input (open_case env.now user (trim input.reason) o))
  unfolding attach_initial open_case
  claim_course user input = ground arith

  pub claim-IsLive :
      (user : ObjectId) (input : DisputeInput) → claim env.now user input o ≡ ok o' → IsLive o'
  unfolding claim
  claim-IsLive user input e =
      let (party, e₁) = throw_if-ok (is_outsider o user) forbidden _ e in
      let (done, e₂) = throw_if-ok (not (status_is o.status completed)) bad_request _ e₁ in
      let (fresh, e₃) = throw_if-ok (is_opened o.dispute.status) bad_request _ e₂ in
      let r = attach_initial user input (open_case env.now user (trim input.reason) o) in
      let same : r ≡ o' = cc in
      rw (← same)
        (SameCourse-IsLive o r (claim_course user input) (λ d. unfold status_is in ground arith) h)

  rule_course : (admin_id : ObjectId) (r : Ruling) → SameCourse o (rule env.now admin_id r o)
  unfolding rule
  rule_course admin_id r = ground arith

rule_closed :
    (now : ℕ) (admin_id : ObjectId) (r : Ruling) (o : Order)
    → is_opened (rule now admin_id r o).dispute.status ≡ false
unfolding rule is_opened
rule_closed now admin_id r o = ground arith

log_ruling-SameLife :
    (admin_id : ObjectId) (r : Ruling) (o : Order) → SameLife o (log_ruling admin_id r o)
unfolding log_ruling
log_ruling-SameLife admin_id r o = ground arith

refund_dispute-SameLife :
    (now : ℕ) (text : String) (o : Order) → SameLife o (refund_dispute now text o)
unfolding refund_dispute
refund_dispute-SameLife now text o = ground arith

pub cancel_legal : (s : OrderStatus) → legal_link (some s) cancelled ≡ true
cancel_legal pending = refl
cancel_legal awaiting_seller = refl
cancel_legal completed = refl
cancel_legal cancelled = refl

apply_remedy-IsLive :
    (now : ℕ) (admin_id : ObjectId) (m : Remedy) (text : String) (o : Order)
    → IsLive o
    → is_opened o.dispute.status ≡ false
    → IsLive (apply_remedy now admin_id m text o)
unfolding apply_remedy
apply_remedy-IsLive now admin_id no_remedy text o h closed = h
apply_remedy-IsLive now admin_id refund text o h closed =
    SameLife-IsLive o (refund_dispute now text o) (refund_dispute-SameLife now text o) h
apply_remedy-IsLive now admin_id cancel_order text o h closed =
    elim (Bool-cases (status_is o.status cancelled)) [
      | inl gone ↦ rw gone h
      | inr live ↦
          rw live (append_status_history-IsLive now cancelled _ o h (cancel_legal o.status) closed)
    ]

pub settle_dispute-IsLive :
    (env : Env) (o o' : Order) (admin_id : ObjectId) (r : Ruling)
    → IsLive o
    → settle_dispute env.now admin_id r o ≡ ok o'
    → IsLive o'
unfolding settle_dispute
settle_dispute-IsLive env o o' admin_id r h e =
    let (open_case, e₁) = throw_if-ok (not (is_opened o.dispute.status)) bad_request _ e in
    let ruled = rule env.now admin_id r o in
    let closed = rule_closed env.now admin_id r o in
    let remedied = apply_remedy env.now admin_id r.remedy r.resolution ruled in
    let same : log_ruling admin_id r remedied ≡ o' = cc in
    let live = SameCourse-IsLive o ruled (rule_course env o o h admin_id r) (λ d. cc) h in
    rw (← same) (
      SameLife-IsLive remedied (log_ruling admin_id r remedied)
        (log_ruling-SameLife admin_id r remedied)
        (apply_remedy-IsLive env.now admin_id r.remedy r.resolution ruled live closed))
