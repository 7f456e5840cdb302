-- ===== src/Orders/Create/Standing.antt =====
-- What messages, receipts and saves leave of a key that stands for an order.
use iuh_exchange_be.Base.{String, ◌≡◌, refl, Option, none, some, List, ◌∙◌, Bool-cases, inl, inr}
use iuh_exchange_be.Orders.Model.{ObjectId, Order}
use iuh_exchange_be.Orders.Events.{Event}
use iuh_exchange_be.Orders.Store.{Env, World, Reservation, find_by_id, upsert, save, publish_logged}
use iuh_exchange_be.Orders.Store.Laws.{orders-publish_logged}
use iuh_exchange_be.Orders.Transitions.{is_outsider}
use iuh_exchange_be.Orders.Saga.{
  Message, product_reserved, product_reserve_failed, product_reserve_expired, unknown_topic,
  unparsable, each_message, attempt_quietly, commit_quietly, update_quietly,
  mark_awaiting_seller_confirmation, cancel_order,
}
use iuh_exchange_be.Orders.Views.{receipt_for, needs_receipt}
use iuh_exchange_be.Orders.Create.{redis_get}
use iuh_exchange_be.Orders.Create.Laws.{redis-publish_logged}
use iuh_exchange_be.Orders.Create.Identity.{
  SameIdentity, await_seller-SameIdentity, roll_back-SameIdentity,
}
use iuh_exchange_be.Orders.Create.Taken.{IsTaken, upsert-IsTaken}

module _ (key : String) (id : ObjectId) where
  abbrev pub Stands : World → Type 0
  Stands w = IsTaken key id w.redis w.orders

  pub same-Stands : (w w' : World) → w' ≡ w → Stands w → Stands w'
  same-Stands w w' e h = rw e h

  pub moved :
      (w : World) (m : List (String × Reservation)) (os : List Order)
      → w.redis ≡ m
      → w.orders ≡ os
      → IsTaken key id m os
      → Stands w
  moved w m os e e' h = rw (e, e') h

  -- Another key changes in Redis.
  pub re_redis :
      (m m' : List (String × Reservation)) (os : List Order)
      → redis_get key m' ≡ redis_get key m
      → IsTaken key id m os
      → IsTaken key id m' os
  re_redis m m' os e h = record {
    order = h.order;
    of_id = h.of_id;
    held = e ∙ h.held;
    by_id = h.by_id;
    by_key = h.by_key;
  }

  saved-Stands :
      (env : Env) (es : List Event) (w : World) (i : ObjectId) (u z : Order)
      → Stands w
      → find_by_id i w.orders ≡ some u
      → SameIdentity u z
      → Stands (publish_logged env es (save z w))
  unfolding save
  saved-Stands env es w i u z h e s =
      moved (publish_logged env es (save z w)) w.redis (upsert z w.orders)
        (redis-publish_logged env es (save z w)) (orders-publish_logged env es (save z w))
        (upsert-IsTaken key id w.redis w.orders h i u z e s)

  quietly-Stands :
      (env : Env) (i : ObjectId) (f : Order → Option Order) (events : Order → List Event)
      (w : World)
      → ((o o' : Order) → f o ≡ some o' → SameIdentity o o')
      → Stands w
      → Stands (update_quietly env i f events w)
  unfolding update_quietly attempt_quietly commit_quietly
  quietly-Stands env i f events w keeps h = split (find_by_id i w.orders) refl
    where
      made :
          (u : Order)
          → find_by_id i w.orders ≡ some u
          → (r : Option Order) → f u ≡ r
          → Stands (commit_quietly env events w r)
      made u e none e' = h
      made u e (some z) e' = saved-Stands env (events z) w i u z h e (keeps u z e')

      split :
          (found : Option Order)
          → find_by_id i w.orders ≡ found
          → Stands (commit_quietly env events w (attempt_quietly f found))
      split none e = h
      split (some u) e = made u e (f u) refl

  pub message-Stands :
      (env : Env) (m : Message) (w : World) → Stands w → Stands (each_message env m w)
  unfolding each_message mark_awaiting_seller_confirmation cancel_order
  message-Stands env (product_reserved i) w h =
      quietly-Stands env i _ _ w (λ o o'. await_seller-SameIdentity env o o') h
  message-Stands env (product_reserve_failed i reason) w h =
      quietly-Stands env i _ _ w (λ o o'. roll_back-SameIdentity env o o' _) h
  message-Stands env (product_reserve_expired i reason) w h =
      quietly-Stands env i _ _ w (λ o o'. roll_back-SameIdentity env o o' _) h
  message-Stands env unknown_topic w h = h
  message-Stands env unparsable w h = h

  pub receipt-Stands :
      (number : String) (i user : ObjectId) (w : World) (found : Option Order)
      → find_by_id i w.orders ≡ found
      → Stands w
      → Stands (receipt_for number user w found).1
  unfolding receipt_for save
  receipt-Stands number i user w none e h = h
  receipt-Stands number i user w (some o) e h = elim (Bool-cases (is_outsider o user)) [
    | inl out ↦ rw out h
    | inr party ↦ rw party (elim (Bool-cases (needs_receipt o)) [
      | inl needs ↦ rw needs (
          upsert-IsTaken key id w.redis w.orders h i o (record o { receipt_number = some number }) e
            (record { id = refl; key = refl }))
      | inr has ↦ rw has h
    ])
  ]
