-- ===== src/Orders/Tests.antt =====
-- Runs of the order service on concrete data.
use iuh_exchange_be.Base.{
  ◌≡◌, ◌≢◌, refl, true, none, some, List, [], ◌∷◌, All, ◌||◌, ◌+◌, ◌==◌, false, select, arith,
}
use iuh_exchange_be.Base.Result.{Result, ok, err, bad_request}
use iuh_exchange_be.Orders.Model.{
  Order, OrderStatus, seller_fault, no_remedy, warning, karma_minus_10, sell, cash, awaiting_seller,
  completed, cancelled, paid,
}
use iuh_exchange_be.Orders.Events.{accept, refund_buyer}
use iuh_exchange_be.Orders.Flags.{is_paid, is_bank_transfer, is_cash}
use iuh_exchange_be.Orders.Store.{
  Env, World, find_by_id, update_order, publish, publish_logged, save, upsert,
}
use iuh_exchange_be.Orders.Transitions.{append_status_history}
use iuh_exchange_be.Orders.Saga.{
  product_reserved, await_seller, each_message, mark_awaiting_seller_confirmation, update_quietly,
}
use iuh_exchange_be.Orders.Closing.{complete, confirm_order}
use iuh_exchange_be.Orders.Handover.{respond_handover}
use iuh_exchange_be.Orders.Issues.{complain, close_issue}
use iuh_exchange_be.Orders.Payments.{give_back}
use iuh_exchange_be.Orders.Create.{
  Catalog, Response, Listing, Checkout, Request, checkout, create_order, claim_key, new_order,
  redis_get, find_by_key,
}
use iuh_exchange_be.Orders.Create.Laws.{IsFresh, Ends, create_order-Ends}
use iuh_exchange_be.Orders.Create.Once.{serve_all, create_order_once}
use iuh_exchange_be.Orders.Machine.{
  Call, confirm, command, message, create, serve, handle, change, empty, Reachable, start, then,
}
use iuh_exchange_be.Orders.Lifecycle.{IsLive}
use iuh_exchange_be.Orders.Lifecycle.Invariant.{reachable-IsLive}
use iuh_exchange_be.Orders.Meetings.Proposals.{IsUnscheduled}
use iuh_exchange_be.Orders.Meetings.Invariant.{reachable-IsUnscheduled, respond_handover_unchanged}
use iuh_exchange_be.Orders.Accounts.{IsAccounted}
use iuh_exchange_be.Orders.Accounts.Invariant.{reachable-IsAccounted}
use iuh_exchange_be.Orders.Guards.Status.{Follows, change-Follows, complete_requires}
use iuh_exchange_be.Orders.Rulings.{Ruling, uphold, karma_adjustments}
use iuh_exchange_be.Orders.Rulings.Laws.{IsFair, karma_adjustments-IsFair}
use iuh_exchange_be.Orders.Views.{
  OrderQuery, get_orders, matches, AdminQuery, get_admin_orders, matches_admin, page_of,
}
use iuh_exchange_be.Orders.Views.Laws.{pages, get_orders_complete, get_admin_orders_page}
use iuh_exchange_be.Orders.Guards.Money.{refund_count, close_issue_refunds}

abbrev env : Env
env = record {
  now = 1000;
  now_text = "1000";
  handover_code = "123456";
  token = "1000_ab";
  object_id = λ n. n;
  producer_ready = true;
  broker = λ e. true;
}

-- Other environments give other ids.
abbrev env' : Env
env' = record env { object_id = λ n. n + 10 }

abbrev goods : Checkout
goods = record {
  product_id = 7;
  seller_id = 2;
  price = 50;
  listing_type = sell;
  trade_item_title = "";
  trade_item_description = "";
}

abbrev goods_listed : Response Listing
goods_listed = record {
  is_ok = true;
  success = true;
  content =
      some
        (record { id = some 7; seller_id = 2; price = 50; listing_type = sell; for_sale = true });
}

abbrev catalog : Catalog
catalog = record {
  fetch_offer = λ offer buyer. none;
  fetch_product = λ product buyer. some goods_listed;
}

abbrev no_catalog : Catalog
no_catalog = record { fetch_offer = λ offer buyer. none; fetch_product = λ product buyer. none }

abbrev request : Request
request = record {
  idempotency_key = "k1";
  product_id = 7;
  offer_id = none;
  buyer_note = "";
  handover_location = "Gate 1";
  handover_time = some 2000;
  payment_method = cash;
}

-- An order placed by user 1, reserved, and confirmed by user 2.
abbrev placed_world : World
placed_world = serve env (create catalog 1 request) empty

abbrev placed_run : Reachable placed_world
placed_run = then start env (create catalog 1 request)

abbrev reserved_world : World
reserved_world = serve env (message (product_reserved 0)) placed_world

abbrev reserved_run : Reachable reserved_world
reserved_run = then placed_run env (message (product_reserved 0))

abbrev sold_world : World
sold_world = serve env (command 0 (confirm 2)) reserved_world

abbrev sold_run : Reachable sold_world
sold_run = then reserved_run env (command 0 (confirm 2))

abbrev statuses : List Order → List OrderStatus
statuses [] = []
statuses (o ∷ os) = o.status ∷ statuses os

sold_world_completed : statuses sold_world.orders ≡ completed ∷ []
unfolding serve handle confirm_order update_order find_by_id each_message
    mark_awaiting_seller_confirmation update_quietly create_order redis_get find_by_key
    publish_logged publish await_seller save upsert append_status_history complete
sold_world_completed = refl

reachable-IsLive_example : All IsLive sold_world.orders
reachable-IsLive_example = reachable-IsLive sold_run

reachable-IsAccounted_example : All IsAccounted sold_world.orders
reachable-IsAccounted_example = reachable-IsAccounted sold_run

reachable-IsUnscheduled_example : All IsUnscheduled placed_world.orders
reachable-IsUnscheduled_example = reachable-IsUnscheduled placed_run

-- The seller accepts the buyer's own proposal, which has the id 1.
respond_handover_unchanged_example :
    ((o : Order) → (respond_handover env 0 2 1 accept placed_world).0 ≢ ok o)
    × ((respond_handover env 0 2 1 accept placed_world).1 ≡ placed_world)
respond_handover_unchanged_example =
    respond_handover_unchanged env 0 2 1 accept placed_world placed_run

empty-IsFresh : IsFresh "k1" empty
unfolding redis_get find_by_key
empty-IsFresh = record { free = refl; unused = refl }

create_order-Ends_example :
    Ends "k1" empty (checkout catalog 1 request) (create_order env catalog 1 request empty)
create_order-Ends_example = create_order-Ends env catalog 1 request empty empty-IsFresh

abbrev new_one : Order
new_one = new_order env 1 request goods

create_order_runs : create_order env catalog 1 request empty ≡ (ok new_one, placed_world)
unfolding serve create_order redis_get find_by_key publish_logged publish
create_order_runs = refl

-- The product is reserved and sold, and a request with another key comes, before the key comes
-- again, by another user and without any answer of the catalog.
abbrev between : List (Env × Call)
between =
    (env', message (product_reserved 0))
    ∷ (env', command 0 (confirm 2))
    ∷ (env', create catalog 1 (record request { idempotency_key = "k2" }))
    ∷ []

new_id_other : (env'.object_id 0 == new_one.id) ≡ false
unfolding new_order
new_id_other = refl

create_order_once_example :
    (o' : Order) × (o'.id ≡ new_one.id)
    × (find_by_id new_one.id (serve_all between placed_world).orders ≡ some o')
    × (create_order env no_catalog 3 request (serve_all between placed_world)
        ≡ (ok o', serve_all between placed_world))
    × (claim_key env no_catalog 3 request (serve_all between placed_world)
        ≡ (ok o', serve_all between placed_world))
create_order_once_example =
    create_order_once env env catalog no_catalog 1 3 request request new_one empty placed_world
      between empty-IsFresh create_order_runs (new_id_other, (new_id_other, (new_id_other, tt)))
      refl

abbrev made : Result Order → Order → Order
made (ok o) x = o
made (err e) x = x

abbrev waiting_one : Order
waiting_one = record new_one { status = awaiting_seller }

abbrev confirmed_one : Order
confirmed_one = made (complete env 2 waiting_one) waiting_one

complete_runs : complete env 2 waiting_one ≡ ok confirmed_one
unfolding complete append_status_history new_order
complete_runs = refl

change_runs : change env (confirm 2) waiting_one ≡ ok confirmed_one
unfolding change
change_runs = complete_runs

change-Follows_example : Follows waiting_one.status confirmed_one.status
change-Follows_example = change-Follows env (confirm 2) waiting_one confirmed_one refl change_runs

complete_requires_example :
    (waiting_one.seller_id ≡ 2)
    × (waiting_one.status ≡ awaiting_seller)
    × (confirmed_one.status ≡ completed)
    × ((is_bank_transfer waiting_one.payment.method || is_cash waiting_one.payment.method) ≡ true
        → is_paid confirmed_one.payment.status ≡ true)
complete_requires_example = complete_requires env 2 waiting_one confirmed_one complete_runs

-- A cancelled order that was paid.
abbrev paid_one : Order
paid_one = record new_one {
  status = cancelled;
  payment = record (new_one.payment) { status = paid };
}

abbrev contested_one : Order
contested_one = made (complain 1 1 "late" paid_one) paid_one

abbrev returned_one : Order
returned_one = made (give_back 2 1 contested_one) contested_one

contested_one_made : complain 1 1 "late" paid_one ≡ ok contested_one
unfolding complain new_order
contested_one_made = refl

returned_one_made : give_back 2 1 contested_one ≡ ok returned_one
unfolding give_back complain new_order
returned_one_made = refl

close_issue_refunds_example :
    (give_back 3 1 returned_one ≡ err bad_request)
    × ((o3 : Order) × (close_issue env 9 refund_buyer "" returned_one ≡ ok o3)
        × (refund_count o3.payment.transactions ≡ refund_count paid_one.payment.transactions + 2))
close_issue_refunds_example =
    close_issue_refunds env 1 2 3 1 1 9 "late" "" paid_one contested_one returned_one
      contested_one_made returned_one_made

abbrev ruling : Ruling
ruling = record {
  verdict = uphold;
  outcome = seller_fault;
  remedy = no_remedy;
  resolution = "";
  buyer_sanction = some warning;
  seller_sanction = some karma_minus_10;
  internal_note = "";
}

karma_adjustments-IsFair_example : All (IsFair new_one 9) (karma_adjustments 9 ruling new_one)
karma_adjustments-IsFair_example = karma_adjustments-IsFair new_one 9 ruling

abbrev all_bought : OrderQuery
all_bought = record { as_seller = false; status = none; product_id = none }

get_orders_complete_example :
    pages
      (get_orders 1 all_bought 1 20 sold_world).total_pages
      (λ p. get_orders 1 all_bought p 20 sold_world)
    ≡ select (matches 1 all_bought) sold_world.orders
get_orders_complete_example = get_orders_complete 1 all_bought 20 sold_world (omega arith)

abbrev every_order : AdminQuery
every_order = record {
  status = none;
  payment_status = none;
  dispute_status = none;
  issue_status = none;
}

admin_first_page :
    get_admin_orders every_order 1 20 sold_world
    ≡ page_of 1 20 (select (matches_admin every_order) sold_world.orders)
admin_first_page = get_admin_orders_page every_order 1 20 sold_world (omega arith)
