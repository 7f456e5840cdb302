-- ===== src/Orders/Rulings/Laws.antt =====
-- The karma that a ruling on a dispute moves.
use iuh_exchange_be.Base.{◌≡◌, ◌⊎◌, false, some, All, All-append, arith}
use iuh_exchange_be.Base.Int.{pos, negsuc, ◌≤ℤ◌}
use iuh_exchange_be.Orders.Model.{
  ObjectId, Order, Sanction, no_sanction, warning, karma_minus_5, karma_minus_10, karma_minus_15,
  DisputeOutcome, no_fault, seller_fault, buyer_fault, both_fault, claim_rejected,
}
use iuh_exchange_be.Orders.Events.{
  Adjustment, KarmaSource, dispute_buyer_sanction, dispute_seller_sanction,
}
use iuh_exchange_be.Orders.Rulings.{
  Verdict, dismiss, uphold, Ruling, is_zero, outcome_adjustments, sanction_adjustment,
  sanction_adjustments, karma_adjustments, sanction_points, normalize_sanction,
}

-- An adjustment is of a party of the order, or of who opened the dispute, in the name of the admin
-- and of the order; it is not 0, takes at most 15 points and gives at most 3.
pub record IsFair (o : Order) (admin_id : ObjectId) (a : Adjustment) : Type 0 where
  pub party :
      (a.user_id ≡ some o.buyer_id)
      ⊎ ((a.user_id ≡ some o.seller_id) ⊎ (a.user_id ≡ o.dispute.opened_by))
  pub takes : negsuc 14 ≤ℤ a.amount
  pub gives : a.amount ≤ℤ pos 3
  pub counts : is_zero a.amount ≡ false
  pub of_order : a.related_id ≡ o.id
  pub by_admin : a.performed_by ≡ admin_id

module _ (o : Order) (admin_id : ObjectId) where
  outcome_adjustments-IsFair :
      (v : Verdict) (d : DisputeOutcome)
      → All (IsFair o admin_id) (outcome_adjustments o admin_id v d)
  unfolding outcome_adjustments is_zero
  outcome_adjustments-IsFair dismiss d = ground arith
  outcome_adjustments-IsFair uphold seller_fault = ground arith
  outcome_adjustments-IsFair uphold buyer_fault = ground arith
  outcome_adjustments-IsFair uphold both_fault = ground arith
  outcome_adjustments-IsFair uphold no_fault = tt
  outcome_adjustments-IsFair uphold claim_rejected = tt

  buyer_sanction-IsFair :
      (s : Sanction) (source : KarmaSource)
      → All (IsFair o admin_id) (sanction_adjustment o admin_id o.buyer_id s source)
  unfolding sanction_adjustment is_zero sanction_points
  buyer_sanction-IsFair no_sanction source = tt
  buyer_sanction-IsFair warning source = tt
  buyer_sanction-IsFair karma_minus_5 source = ground arith
  buyer_sanction-IsFair karma_minus_10 source = ground arith
  buyer_sanction-IsFair karma_minus_15 source = ground arith

  seller_sanction-IsFair :
      (s : Sanction) (source : KarmaSource)
      → All (IsFair o admin_id) (sanction_adjustment o admin_id o.seller_id s source)
  unfolding sanction_adjustment is_zero sanction_points
  seller_sanction-IsFair no_sanction source = tt
  seller_sanction-IsFair warning source = tt
  seller_sanction-IsFair karma_minus_5 source = ground arith
  seller_sanction-IsFair karma_minus_10 source = ground arith
  seller_sanction-IsFair karma_minus_15 source = ground arith

-- Every karma adjustment of a ruling is of the buyer, the seller or who opened the dispute, takes
-- at most 15 points, gives at most 3, is not 0, and names the order and the admin.
pub karma_adjustments-IsFair :
    (o : Order) (admin_id : ObjectId) (r : Ruling)
    → All (IsFair o admin_id) (karma_adjustments admin_id r o)
unfolding sanction_adjustments
karma_adjustments-IsFair o admin_id r =
    All-append _ (outcome_adjustments o admin_id r.verdict r.outcome) _
      (outcome_adjustments-IsFair o admin_id r.verdict r.outcome)
      (All-append _ (sanction_adjustment o admin_id o.buyer_id _ dispute_buyer_sanction) _
        (buyer_sanction-IsFair o admin_id (normalize_sanction r.buyer_sanction)
          dispute_buyer_sanction)
        (seller_sanction-IsFair o admin_id (normalize_sanction r.seller_sanction)
          dispute_seller_sanction))
