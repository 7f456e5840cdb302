-- ===== src/Orders/Disputes.antt =====
-- Disputes: `openDispute` and `addDisputeEvidence` of
-- packages/order-service/src/services/order.service.js.
use iuh_exchange_be.Base.{ℕ, String, not, some, [], ◌∷◌, ◌++◌, if◌then◌else◌}
use iuh_exchange_be.Base.Text.{truthy, or_text, trim}
use iuh_exchange_be.Base.Result.{Result, ok, ◌>>◌, throw_if, bad_request, forbidden}
use iuh_exchange_be.Orders.Model.{ObjectId, Order, completed, opened, case_opened, evidence_added}
use iuh_exchange_be.Orders.Events
use iuh_exchange_be.Orders.Events.{
  Event, Adjustment, KarmaSource, dispute_opened, dispute_resolved, karma_adjustment_requested,
  parties,
}
use iuh_exchange_be.Orders.Flags.{is_opened}
use iuh_exchange_be.Orders.Store.{Env, World, update_order}
use iuh_exchange_be.Orders.Transitions.{status_is, actor_role_for, is_outsider}

-- The texts of a request; the case's `category` and `desiredResolution` go into metadata only.
pub record DisputeInput : Type 0 where
  pub reason : String
  pub evidence_url : String
  pub evidence_note : String

-- The initial evidence, if the request brings a URL.
unfoldable pub attach_initial : ObjectId → DisputeInput → Order → Order
unfolding trim
attach_initial user input o =
    let url = trim input.evidence_url in
    if truthy url
    then record o {
      dispute = record (o.dispute) {
        evidence =
            o.dispute.evidence
            ++ (record {
              submitted_by = user;
              type = "OTHER";
              url = url;
              note = or_text (trim input.evidence_note) "Bằng chứng ban đầu khi mở tranh chấp";
            }
                ∷ []);
      };
    }
    else o

unfoldable pub open_case : ℕ → ObjectId → String → Order → Order
unfolding actor_role_for
open_case now user reason o = record o {
  dispute = record (o.dispute) {
    status = opened;
    reason = reason;
    opened_by = some user;
    opened_at = some now;
    timeline =
        o.dispute.timeline
        ++ (record {
          action = case_opened;
          actor_id = user;
          actor_role = actor_role_for o user;
          note = reason;
        }
            ∷ []);
  };
}

unfoldable pub claim : ℕ → ObjectId → DisputeInput → Order → Result Order
unfolding is_outsider status_is is_opened open_case attach_initial
claim now user input o = do
  throw_if (is_outsider o user) forbidden
  throw_if (not (status_is o.status completed)) bad_request
  throw_if (is_opened o.dispute.status) bad_request
  ok (attach_initial user input (open_case now user (trim input.reason) o))

unfoldable pub open_dispute :
    Env → ObjectId → ObjectId → DisputeInput → World → Result Order × World
open_dispute env id user input =
    update_order env id (claim env.now user input)
      (λ o. dispute_opened (parties o) o.product_id user (trim input.reason) ∷ [])

unfoldable pub add_evidence : ObjectId → String → String → String → Order → Result Order
unfolding is_outsider is_opened actor_role_for
add_evidence user type url note o = do
  throw_if (is_outsider o user) forbidden
  throw_if (not (is_opened o.dispute.status)) bad_request
  throw_if (not (truthy url)) bad_request
  ok (record o {
    dispute = record (o.dispute) {
      evidence =
          o.dispute.evidence
          ++ (record { submitted_by = user; type = type; url = url; note = note } ∷ []);
      timeline =
          o.dispute.timeline
          ++ (record {
            action = evidence_added;
            actor_id = user;
            actor_role = actor_role_for o user;
            note = note;
          }
              ∷ []);
    };
  })

unfoldable pub add_dispute_evidence :
    Env → ObjectId → ObjectId → String → String → String → World → Result Order × World
add_dispute_evidence env id user type url note =
    update_order env id (add_evidence user type url note)
      (λ o. Events.evidence_added (parties o) user type ∷ [])
