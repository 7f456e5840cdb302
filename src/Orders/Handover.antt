-- ===== src/Orders/Handover.antt =====
-- The handover of a product: `proposeHandover`, `respondHandover` and `confirmHandover` of
-- packages/order-service/src/services/order.service.js, with `withNestedIds` of models/Order.js.
use iuh_exchange_be.Base.{
  ℕ, suc, ◌+◌, String, Bool, true, false, not, Option, none, some, List, [], ◌∷◌, ◌++◌, ◌==◌, ◌&&◌,
  ◌||◌, if◌then◌else◌, is_some, or_else, ltb,
}
use iuh_exchange_be.Base.Text.{truthy, trim, str_eq}
use iuh_exchange_be.Base.Result.{
  Result, ok, err, ◌>>=◌, ◌>>◌, throw_if, require, bad_request, forbidden, not_found, type_error,
}
use iuh_exchange_be.Orders.Model.{
  ObjectId, Order, MeetingProposal, ProposalStatus, waiting, countered, accepted, declined,
  not_scheduled, proposed, scheduled, buyer_confirmed, seller_confirmed, handed_over,
  awaiting_seller, completed,
}
use iuh_exchange_be.Orders.Events.{
  HandoverAction, accept, reject, handover_proposed, handover_responded, handover_confirmed,
  parties,
}
use iuh_exchange_be.Orders.Flags.{is_buyer, is_system}
use iuh_exchange_be.Orders.Store.{Env, World, update_order}
use iuh_exchange_be.Orders.Transitions.{status_is, actor_role_for, is_outsider}
use iuh_exchange_be.Orders.Closing.{is_active}

-- `proposal.status === 'PENDING'`
unfoldable pub is_waiting : Option ProposalStatus → Bool
is_waiting (some waiting) = true
is_waiting _ = false

-- A new proposal counters those that wait for an answer.
unfoldable pub counter : ℕ → ObjectId → MeetingProposal → MeetingProposal
unfolding is_waiting
counter now user p =
    if is_waiting p.status
    then record p { status = some countered; responded_by = some user; responded_at = some now }
    else p

unfoldable pub counter_all : ℕ → ObjectId → List MeetingProposal → List MeetingProposal
counter_all now user [] = []
counter_all now user (p ∷ ps) = counter now user p ∷ counter_all now user ps

-- `withNestedIds`: an item that has no `_id` is stored with a new one.
unfoldable pub with_nested_ids : Env → ℕ → List MeetingProposal → List MeetingProposal
with_nested_ids env k [] = []
with_nested_ids env k (p ∷ ps) =
    record p { id = or_else p.id (some (env.object_id k)) } ∷ with_nested_ids env (suc k) ps

-- The literal that `proposeHandover` and `createOrder` push: it has no `status`.
unfoldable pub new_proposal : String → ℕ → String → ObjectId → MeetingProposal
new_proposal location time note user = record {
  id = none;
  location = location;
  time = time;
  note = note;
  proposed_by = user;
  status = none;
  responded_by = none;
  responded_at = none;
}

-- A missing time is `none`.
unfoldable pub propose : Env → ObjectId → String → Option ℕ → String → Order → Result Order
unfolding is_outsider is_active counter_all with_nested_ids new_proposal
propose env user location time note o = do
  throw_if (is_outsider o user) forbidden
  throw_if (not (is_active o)) bad_request
  throw_if (not (truthy location)) bad_request
  at ← require time bad_request
  ok (record o {
    handover = record (o.handover) {
      location = location;
      time = some at;
      status = proposed;
      proposals = with_nested_ids env 0 (
          counter_all env.now user o.handover.proposals
          ++ (new_proposal location at note user ∷ []));
    };
  })

unfoldable pub propose_handover :
    Env → ObjectId → ObjectId → String → Option ℕ → String → World → Result Order × World
propose_handover env id user location time note =
    update_order env id (propose env user location time note)
      (λ o. elim time [ none ↦ [] | some at ↦ handover_proposed (parties o) user location at ∷ [] ])

-- `(order.meetingProposals || []).find((item) => String(item._id) === String(proposalId))`
unfoldable pub has_id : ObjectId → MeetingProposal → Bool
has_id id p = elim (p.id) [ none ↦ false | some j ↦ j == id ]

unfoldable pub find_proposal : ObjectId → List MeetingProposal → Option MeetingProposal
unfolding has_id
find_proposal id [] = none
find_proposal id (p ∷ ps) = if has_id id p then some p else find_proposal id ps

-- The write through the reference that `find` returned: the first item with the id changes.
unfoldable pub set_proposal :
    ObjectId → MeetingProposal → List MeetingProposal → List MeetingProposal
unfolding has_id
set_proposal id q [] = []
set_proposal id q (p ∷ ps) = if has_id id p then q ∷ ps else p ∷ set_proposal id q ps

-- The guard on the proposal's status. Its message reads `proposal.status.toLowerCase()`, which
-- throws a TypeError where the status is absent.
unfoldable pub check_waiting : Option ProposalStatus → Result (Unit {0})
check_waiting none = err type_error
check_waiting (some waiting) = ok tt
check_waiting (some _) = err bad_request

unfoldable pub one_day_ms : ℕ
one_day_ms = 86400000

unfoldable pub answer : Env → ObjectId → HandoverAction → ObjectId → MeetingProposal → Order → Order
unfolding set_proposal one_day_ms
answer env user accept pid p o = record o {
  handover = record (o.handover) {
    proposals =
        set_proposal pid
          (record p {
            status = some accepted;
            responded_by = some user;
            responded_at = some env.now;
          })
          o.handover.proposals;
    status = scheduled;
    location = p.location;
    time = some p.time;
    code = some env.handover_code;
    code_expires_at = some (env.now + one_day_ms);
  };
}
answer env user reject pid p o = record o {
  handover = record (o.handover) {
    proposals =
        set_proposal pid
          (record p {
            status = some declined;
            responded_by = some user;
            responded_at = some env.now;
          })
          o.handover.proposals;
    status = not_scheduled;
  };
}

unfoldable pub respond : Env → ObjectId → ObjectId → HandoverAction → Order → Result Order
unfolding is_outsider find_proposal check_waiting answer
respond env user pid action o = do
  throw_if (is_outsider o user) forbidden
  p ← require (find_proposal pid o.handover.proposals) not_found
  throw_if (p.proposed_by == user) bad_request
  check_waiting p.status
  ok (answer env user action pid p o)

unfoldable pub respond_handover :
    Env → ObjectId → ObjectId → ObjectId → HandoverAction → World → Result Order × World
respond_handover env id user pid action =
    update_order env id (respond env user pid action)
      (λ o. handover_responded (parties o) user action o.handover.status ∷ [])

-- The code is checked only while one is set, and then against its expiry too.
unfoldable pub check_code : ℕ → String → Option String → Option ℕ → Result (Unit {0})
check_code now code none expires = ok tt
check_code now code (some expected) expires = do
  throw_if (not (truthy code) || not (str_eq (trim code) expected)) bad_request
  throw_if (elim expires [ none ↦ false | some at ↦ ltb at now ]) bad_request

unfoldable pub can_hand_over : Order → Bool
unfolding status_is
can_hand_over o = status_is o.status awaiting_seller || status_is o.status completed

-- The end of `confirmHandover`, after the party's time is set.
unfoldable pub settle_handover : Bool → Order → Order
settle_handover is_buyer o =
    if is_some o.handover.buyer_confirmed_at && is_some o.handover.seller_confirmed_at
    then record o {
      handover = record (o.handover) { status = handed_over; code = none; code_expires_at = none };
    }
    else record o {
      handover = record (o.handover) {
        status = if is_buyer then buyer_confirmed else seller_confirmed;
      };
    }

unfoldable pub sign : ℕ → Bool → ObjectId → String → String → String → Order → Order
unfolding actor_role_for
sign now is_buyer user code url note o = record o {
  handover = record (o.handover) {
    buyer_confirmed_at = if is_buyer then some now else o.handover.buyer_confirmed_at;
    seller_confirmed_at = if is_buyer then o.handover.seller_confirmed_at else some now;
    proofs =
        o.handover.proofs
        ++ (record {
          confirmed_by = user;
          actor_role = actor_role_for o user;
          code_used = code;
          evidence_url = url;
          note = note;
        }
            ∷ []);
  };
}

unfoldable pub hand_over : ℕ → ObjectId → String → String → String → Order → Result Order
unfolding is_system is_buyer can_hand_over check_code sign settle_handover
hand_over now user code url note o = do
  let role = actor_role_for o user
  throw_if (is_system role) forbidden
  throw_if (not (can_hand_over o)) bad_request
  check_code now code o.handover.code o.handover.code_expires_at
  ok (settle_handover (is_buyer role) (sign now (is_buyer role) user code url note o))

unfoldable pub confirm_handover :
    Env → ObjectId → ObjectId → String → String → String → World → Result Order × World
confirm_handover env id user code url note =
    update_order env id (hand_over env.now user code url note)
      (λ o. handover_confirmed (parties o) user o.handover.status ∷ [])
