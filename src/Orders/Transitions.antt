-- ===== src/Orders/Transitions.antt =====
-- The status machine of an order: `VALID_TRANSITIONS`, `appendStatusHistory` and `actorRoleFor` of
-- packages/order-service/src/services/order.service.js.
use iuh_exchange_be.Base.{
  ℕ, String, Bool, true, false, not, Option, some, [], ◌∷◌, ◌++◌, ◌==◌, if◌then◌else◌, or_else,
  ◌&&◌,
}
use iuh_exchange_be.Base.Result.{Result, throw_if, bad_request}
use iuh_exchange_be.Orders.Model.{
  ObjectId, OrderStatus, pending, awaiting_seller, completed, cancelled, Actor, ActorRole, buyer,
  seller, system, CancelCategory, other, Order,
}

unfoldable pub valid_transition : OrderStatus → OrderStatus → Bool
valid_transition pending awaiting_seller = true
valid_transition pending cancelled = true
valid_transition awaiting_seller completed = true
valid_transition awaiting_seller cancelled = true
valid_transition _ _ = false

unfoldable pub assert_transition : OrderStatus → OrderStatus → Result (Unit {0})
unfolding valid_transition
assert_transition current next = throw_if (not (valid_transition current next)) bad_request

-- `order.status === s`
unfoldable pub status_is : OrderStatus → OrderStatus → Bool
status_is pending pending = true
status_is awaiting_seller awaiting_seller = true
status_is completed completed = true
status_is cancelled cancelled = true
status_is _ _ = false

unfoldable pub actor_role_for : Order → ObjectId → ActorRole
actor_role_for o user =
    if o.buyer_id == user then buyer else if o.seller_id == user then seller else system

-- `userId` is neither the buyer nor the seller.
unfoldable pub is_outsider : Order → ObjectId → Bool
is_outsider o user = not (o.buyer_id == user) && not (o.seller_id == user)

-- The options of `appendStatusHistory`; `category` is `metadata.category`.
pub record Change : Type 0 where
  pub changed_by : Actor
  pub actor_role : ActorRole
  pub reason : String
  pub category : Option CancelCategory

unfoldable pub stamp : ℕ → OrderStatus → Change → Order → Order
stamp now completed c o = record o { completed_at = some now }
stamp now cancelled c o = record o {
  cancellation = record {
    at = some now;
    by = some c.changed_by;
    reason = c.reason;
    category = or_else c.category (or_else o.cancellation.category (some other));
  };
}
stamp now _ c o = o

unfoldable pub append_status_history : ℕ → OrderStatus → Change → Order → Order
unfolding stamp
append_status_history now next c o = stamp now next c (record o {
  status = next;
  status_history =
      o.status_history
      ++ (record {
        from = some o.status;
        to = next;
        changed_by = c.changed_by;
        actor_role = c.actor_role;
        reason = c.reason;
        category = c.category;
      }
          ∷ []);
})
