-- ===== src/Orders/Saga.antt =====
-- The order side of the saga: `markAwaitingSellerConfirmation`, `cancelOrder` and the Kafka
-- consumer of packages/order-service/src/services (order.service.js, saga.service.js).
use iuh_exchange_be.Base.{ℕ, String, Option, none, some, List, [], ◌∷◌, ◌||◌, if◌then◌else◌}
use iuh_exchange_be.Base.Text.{or_text}
use iuh_exchange_be.Orders.Model.{
  ObjectId, Order, awaiting_seller, completed, cancelled, by_system, system,
}
use iuh_exchange_be.Orders.Events.{Event, order_updated, order_cancelled, parties}
use iuh_exchange_be.Orders.Store.{Env, World, find_by_id, save, publish_logged}
use iuh_exchange_be.Orders.Transitions.{status_is, append_status_history}

-- What the consumer's handlers do to an order that is found; `none` is an early return.
unfoldable pub await_seller : ℕ → Order → Option Order
unfolding status_is
await_seller now o =
    if status_is o.status cancelled || status_is o.status completed
    then none
    else some (
        append_status_history now awaiting_seller
          (record {
            changed_by = by_system;
            actor_role = system;
            reason = "Product reserved successfully";
            category = none;
          })
          o)

unfoldable pub roll_back : ℕ → String → Order → Option Order
unfolding status_is
roll_back now reason o =
    if status_is o.status completed
    then none
    else some (
        append_status_history now cancelled
          (record { changed_by = by_system; actor_role = system; reason = reason; category = none })
          o)

unfoldable pub attempt_quietly : (Order → Option Order) → Option Order → Option Order
attempt_quietly f none = none
attempt_quietly f (some o) = f o

unfoldable pub commit_quietly : Env → (Order → List Event) → World → Option Order → World
commit_quietly env events w none = w
commit_quietly env events w (some o) = publish_logged env (events o) (save o w)

-- A handler that returns early on a missing order, and answers nobody.
unfoldable pub update_quietly :
    Env → ObjectId → (Order → Option Order) → (Order → List Event) → World → World
unfolding attempt_quietly commit_quietly
update_quietly env id change events w =
    commit_quietly env events w (attempt_quietly change (find_by_id id w.orders))

abbrev updated_events : Order → List Event
updated_events o =
    order_updated (parties o) o.product_id o.status o.payment.status "Product reserved successfully"
    ∷ []

unfoldable pub mark_awaiting_seller_confirmation : Env → ObjectId → World → World
mark_awaiting_seller_confirmation env id =
    update_quietly env id (await_seller env.now) updated_events

abbrev pub cancelled_events : String → Order → List Event
cancelled_events reason o = order_cancelled (parties o) o.product_id reason ∷ []

unfoldable pub cancel_order : Env → ObjectId → String → World → World
cancel_order env id reason =
    update_quietly env id (roll_back env.now reason) (cancelled_events reason)

-- The messages of the product service, as `eachMessage` tells them apart.
pub data Message : Type 0 where
  product_reserved : ObjectId → Message
  product_reserve_failed product_reserve_expired : ObjectId → String → Message
  unknown_topic unparsable : Message

unfoldable pub each_message : Env → Message → World → World
each_message env (product_reserved id) w = mark_awaiting_seller_confirmation env id w
each_message env (product_reserve_failed id reason) w =
    cancel_order env id (or_text reason "Sản phẩm không còn khả dụng") w
each_message env (product_reserve_expired id reason) w =
    cancel_order env id (or_text reason "Thời gian giữ chỗ đã hết hạn") w
each_message env unknown_topic w = w
each_message env unparsable w = w
