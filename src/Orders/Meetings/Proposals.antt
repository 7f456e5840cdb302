-- ===== src/Orders/Meetings/Proposals.antt =====
-- No proposal ever waits for an answer, since no code gives a new one the status 'PENDING'
-- (order.service.js, `proposeHandover` and `respondHandover`; models/Order.js, `withNestedIds`).
use iuh_exchange_be.Base.{
  ℕ, suc, String, ◌≡◌, refl, ◌≢◌, Bool, true, false, not, Option, none, some, List, [], ◌∷◌, ◌++◌,
  All, All-append, arith, ◌==◌, Bool-cases, inl, inr, Option-cases,
}
use iuh_exchange_be.Base.Result.{
  ok, throw_if-ok, >>-ok, >>-first, ok-injective, forbidden, bad_request,
}
use iuh_exchange_be.Orders.Model.{
  ObjectId, Order, MeetingProposal, HandoverStatus, scheduled, ProposalStatus,
}
use iuh_exchange_be.Orders.Events.{HandoverAction}
use iuh_exchange_be.Orders.Flags.{is_system, is_buyer}
use iuh_exchange_be.Base.Text.{truthy}
use iuh_exchange_be.Orders.Store.{Env}
use iuh_exchange_be.Orders.Transitions.{actor_role_for, is_outsider}
use iuh_exchange_be.Orders.Closing.{is_active}
use iuh_exchange_be.Orders.Handover.{
  is_waiting, counter, counter_all, with_nested_ids, new_proposal, propose, find_proposal, has_id,
  check_waiting, respond, can_hand_over, check_code, sign, settle_handover, hand_over,
}
use iuh_exchange_be.Orders.Create.{Request, Checkout, new_order, first_proposals}

abbrev pub IsSettled : MeetingProposal → Type 0
IsSettled p = is_waiting p.status ≡ false

abbrev is_scheduled : HandoverStatus → Bool
is_scheduled scheduled = true
is_scheduled _ = false

-- No proposal waits, the order has no handover code, and its handover is not SCHEDULED.
pub record IsUnscheduled (o : Order) : Type 0 where
  pub settled : All IsSettled o.handover.proposals
  pub no_code : o.handover.code ≡ none
  pub not_scheduled : is_scheduled o.handover.status ≡ false

pub Frame-IsUnscheduled :
    (o o' : Order) → o'.handover ≡ o.handover → IsUnscheduled o → IsUnscheduled o'
Frame-IsUnscheduled o o' e h = record {
  settled = rw e h.settled;
  no_code = rw e h.no_code;
  not_scheduled = rw e h.not_scheduled;
}

counter-IsSettled :
    (now : ℕ) (user : ObjectId) (p : MeetingProposal) → IsSettled (counter now user p)
unfolding counter
counter-IsSettled now user p = ground arith

counter_all-IsSettled :
    (now : ℕ) (user : ObjectId) (ps : List MeetingProposal)
    → All IsSettled (counter_all now user ps)
unfolding counter_all
counter_all-IsSettled now user [] = tt
counter_all-IsSettled now user (p ∷ ps) =
    (counter-IsSettled now user p, counter_all-IsSettled now user ps)

with_nested_ids-IsSettled :
    (env : Env) (k : ℕ) (ps : List MeetingProposal)
    → All IsSettled ps
    → All IsSettled (with_nested_ids env k ps)
unfolding with_nested_ids
with_nested_ids-IsSettled env k [] h = tt
with_nested_ids-IsSettled env k (p ∷ ps) h = (h.0, with_nested_ids-IsSettled env (suc k) ps h.1)

new_proposal-IsSettled :
    (place : String) (at : ℕ) (note : String) (user : ObjectId)
    → IsSettled (new_proposal place at note user)
unfolding new_proposal is_waiting
new_proposal-IsSettled place at note user = refl

All-find_proposal :
    (pid : ObjectId) (ps : List MeetingProposal) (p : MeetingProposal)
    → All IsSettled ps
    → find_proposal pid ps ≡ some p
    → IsSettled p
unfolding find_proposal
All-find_proposal pid [] p h e = cc
All-find_proposal pid (x ∷ xs) p h e = elim (Bool-cases (has_id pid x)) [
  | inl same ↦ let found : some x ≡ some p = rw same at e in let q : x ≡ p = cc in rw (← q) h.0
  | inr other ↦ All-find_proposal pid xs p h.1 (rw other at e)
]

-- The answer to a settled proposal throws.
check_waiting_fails : (s : Option ProposalStatus) → is_waiting s ≡ false → check_waiting s ≢ ok tt
unfolding check_waiting is_waiting
check_waiting_fails s h e = ground arith

pub respond_fails :
    (env : Env) (user pid : ObjectId) (a : HandoverAction) (o o' : Order)
    → IsUnscheduled o
    → respond env user pid a o ≢ ok o'
unfolding respond
respond_fails env user pid a o o' h e =
    elim (Option-cases (find_proposal pid o.handover.proposals)) [
      | inl missing ↦
          let (party, e₁) = throw_if-ok (is_outsider o user) forbidden _ e in
          let e₂ = rw missing at e₁ in cc
      | inr (p, found) ↦
          let (party, e₁) = throw_if-ok (is_outsider o user) forbidden _ e in
          let e₂ = rw found at e₁ in
          let (other, e₃) = throw_if-ok (p.proposed_by == user) bad_request _ e₂ in
          check_waiting_fails p.status
            (All-find_proposal pid o.handover.proposals p h.settled found)
            (>>-first (check_waiting p.status) _ e₃)
    ]

pub propose-IsUnscheduled :
    (env : Env) (o o' : Order) (user : ObjectId) (place : String) (time : Option ℕ) (note : String)
    → IsUnscheduled o
    → propose env user place time note o ≡ ok o'
    → IsUnscheduled o'
unfolding propose
propose-IsUnscheduled env o o' user place none note h e = ground arith
propose-IsUnscheduled env o o' user place (some at) note h e =
    let (party, e₁) = throw_if-ok (is_outsider o user) forbidden _ e in
    let (active, e₂) = throw_if-ok (not (is_active o)) bad_request _ e₁ in
    let (named, e₃) = throw_if-ok (not (truthy place)) bad_request _ e₂ in
    let all =
      with_nested_ids-IsSettled env 0
        (counter_all env.now user o.handover.proposals ++ (new_proposal place at note user ∷ []))
        (All-append IsSettled (counter_all env.now user o.handover.proposals) _
          (counter_all-IsSettled env.now user o.handover.proposals)
          (new_proposal-IsSettled place at note user, tt)) in
    let same = ok-injective _ _ e₃ in
    rw (← same) (record { settled = all; no_code = h.no_code; not_scheduled = refl })

sign-IsUnscheduled :
    (now : ℕ) (b : Bool) (user : ObjectId) (code url note : String) (o : Order)
    → IsUnscheduled o
    → IsUnscheduled (settle_handover b (sign now b user code url note o))
unfolding settle_handover sign
sign-IsUnscheduled now b user code url note o h = record {
  settled = ground arith;
  no_code = ground arith;
  not_scheduled = ground arith;
}

pub hand_over-IsUnscheduled :
    (env : Env) (o o' : Order) (user : ObjectId) (code url note : String)
    → IsUnscheduled o
    → hand_over env.now user code url note o ≡ ok o'
    → IsUnscheduled o'
unfolding hand_over
hand_over-IsUnscheduled env o o' user code url note h e =
    let role = actor_role_for o user in
    let (party, e₁) = throw_if-ok (is_system role) forbidden _ e in
    let (ready, e₂) = throw_if-ok (not (can_hand_over o)) bad_request _ e₁ in
    let e₃ = >>-ok (check_code env.now code o.handover.code o.handover.code_expires_at) _ e₂ in
    let same = ok-injective _ _ e₃ in
    rw (← same) (sign-IsUnscheduled env.now (is_buyer role) user code url note o h)

first_proposals-IsSettled :
    (env : Env) (buyer : ObjectId) (place note : String) (time : Option ℕ)
    → All IsSettled (first_proposals env buyer place note time)
unfolding first_proposals is_waiting
first_proposals-IsSettled env buyer place note none = tt
first_proposals-IsSettled env buyer place note (some at) = elim (Bool-cases (truthy place)) [
  | inl named ↦ rw named (refl, tt)
  | inr blank ↦ rw blank tt
]

pub new_order-IsUnscheduled :
    (env : Env) (buyer : ObjectId) (r : Request) (c : Checkout)
    → IsUnscheduled (new_order env buyer r c)
unfolding new_order
new_order-IsUnscheduled env buyer r c = record {
  settled = first_proposals-IsSettled env buyer r.handover_location r.buyer_note r.handover_time;
  no_code = refl;
  not_scheduled = ground arith;
}
