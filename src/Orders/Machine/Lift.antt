-- ===== src/Orders/Machine/Lift.antt =====
-- From one order to the table: a property that every change keeps, and that new orders have, holds
-- of all orders of a reachable state.
use iuh_exchange_be.Base.{
  String, ◌≡◌, refl, Option, none, some, List, ◌∷◌, All, Bool-cases, inl, inr, ◌==◌,
}
use iuh_exchange_be.Base.Text.{or_text}
use iuh_exchange_be.Base.Result.{Result, ok, err}
use iuh_exchange_be.Orders.Model.{ObjectId, Order}
use iuh_exchange_be.Orders.Events.{Event}
use iuh_exchange_be.Orders.Store.{
  Env, World, Reservation, processing, placed, find_by_id, save, attempt,
}
use iuh_exchange_be.Orders.Store.Laws.{
  written, orders-update_order, orders-update_order_strict, All-update, All-upsert, All-find_by_id,
  orders-publish_logged,
}
use iuh_exchange_be.Orders.Transitions.{is_outsider}
use iuh_exchange_be.Orders.Saga.{
  Message, product_reserved, product_reserve_failed, product_reserve_expired, unknown_topic,
  unparsable, each_message, attempt_quietly, commit_quietly, update_quietly, await_seller,
  roll_back, mark_awaiting_seller_confirmation, cancel_order,
}
use iuh_exchange_be.Orders.Closing.{confirm_order, reject_order, cancel_by_buyer, report_no_show}
use iuh_exchange_be.Orders.Handover.{propose_handover, respond_handover, confirm_handover}
use iuh_exchange_be.Orders.Disputes.{open_dispute, add_dispute_evidence}
use iuh_exchange_be.Orders.Rulings.{resolve_dispute}
use iuh_exchange_be.Orders.Issues.{open_payment_issue, resolve_payment_issue}
use iuh_exchange_be.Orders.Payments.{
  signed_in, create_payment, report_bank_transfer, confirm_bank_transfer, payment_callback,
  process_refund,
}
use iuh_exchange_be.Orders.Create.{
  Request, Checkout, Catalog, new_order, create_order, claim_unless, create_unless, place_checkout,
  insert_unless, replay_found, replay_placed, created_events, redis_set, answer_duplicate,
  find_by_key, redis_get, checkout,
}
use iuh_exchange_be.Orders.Views.{get_receipt, receipt_for, needs_receipt}
use iuh_exchange_be.Orders.Machine.{
  Command, confirm, reject_it, cancel, no_show, propose_meeting, answer_proposal, sign_handover,
  dispute, give_evidence, rule_dispute, raise_issue, end_issue, pay, report_payment,
  confirm_payment, payment_answer, refund, change, handle, Call, command, message, create, receipt,
  serve, Reachable, start, then,
}

-- Every command's handler writes what its change makes of the order, and nothing else.
pub orders-handle :
    (env : Env) (id : ObjectId) (c : Command) (w : World)
    → (handle env id c w).1.orders
      ≡ written (attempt (change env c) (find_by_id id w.orders)) w.orders
unfolding handle change confirm_order reject_order cancel_by_buyer report_no_show propose_handover
    respond_handover confirm_handover open_dispute add_dispute_evidence resolve_dispute
    open_payment_issue resolve_payment_issue signed_in create_payment report_bank_transfer
    confirm_bank_transfer payment_callback process_refund
orders-handle env id (confirm user) w = orders-update_order env id _ _ w
orders-handle env id (reject_it user reason category) w = orders-update_order env id _ _ w
orders-handle env id (cancel user reason category) w = orders-update_order env id _ _ w
orders-handle env id (no_show user reason url) w = orders-update_order env id _ _ w
orders-handle env id (propose_meeting user location time note) w = orders-update_order env id _ _ w
orders-handle env id (answer_proposal user pid action) w = orders-update_order env id _ _ w
orders-handle env id (sign_handover user code url note) w = orders-update_order env id _ _ w
orders-handle env id (dispute user input) w = orders-update_order env id _ _ w
orders-handle env id (give_evidence user type url note) w = orders-update_order env id _ _ w
orders-handle env id (rule_dispute user r) w = orders-update_order env id _ _ w
orders-handle env id (raise_issue user reason) w = orders-update_order env id _ _ w
orders-handle env id (end_issue user action resolution) w = orders-update_order env id _ _ w
orders-handle env id (pay user) w = orders-update_order env id _ _ w
orders-handle env id (report_payment user url note) w = orders-update_order_strict env id _ _ w
orders-handle env id (confirm_payment user note) w = orders-update_order_strict env id _ _ w
orders-handle env id (payment_answer txn status) w = orders-update_order_strict env id _ _ w
orders-handle env id (refund user) w = orders-update_order_strict env id _ _ w

-- What a property of orders needs to hold in every reachable state.
pub record IsInvariant {ℓ} (P : Order → Type ℓ) : Type ℓ where
  pub by_change : (env : Env) (c : Command) (o o' : Order) → P o → change env c o ≡ ok o' → P o'
  pub by_await : (env : Env) (o o' : Order) → P o → await_seller env.now o ≡ some o' → P o'
  pub by_roll_back :
      (env : Env) (reason : String) (o o' : Order)
      → P o
      → roll_back env.now reason o ≡ some o'
      → P o'
  pub by_receipt :
      (number : String) (o : Order) → P o → P (record o { receipt_number = some number })
  pub by_create :
      (env : Env) (buyer : ObjectId) (r : Request) (c : Checkout) → P (new_order env buyer r c)

module _ {ℓ} (P : Order → Type ℓ) (inv : IsInvariant P) where
  commit_quietly-All :
      (env : Env) (events : Order → List Event) (w : World) (r : Option Order)
      → ((o : Order) → r ≡ some o → P o)
      → All P w.orders
      → All P (commit_quietly env events w r).orders
  unfolding commit_quietly save
  commit_quietly-All env events w none p h = h
  commit_quietly-All env events w (some o) p h =
      rw (orders-publish_logged env (events o) (save o w)) (All-upsert P o w.orders (p o refl) h)

  attempt_quietly-All :
      (f : Order → Option Order)
      → ((o o' : Order) → P o → f o ≡ some o' → P o')
      → (found : Option Order) → ((o : Order) → found ≡ some o → P o)
      → (o' : Order) → attempt_quietly f found ≡ some o'
      → P o'
  unfolding attempt_quietly
  attempt_quietly-All f keep none here o' e = cc
  attempt_quietly-All f keep (some o) here o' e = keep o o' (here o refl) e

  update_quietly-All :
      (env : Env) (id : ObjectId) (f : Order → Option Order) (events : Order → List Event)
      (w : World)
      → ((o o' : Order) → P o → f o ≡ some o' → P o')
      → All P w.orders
      → All P (update_quietly env id f events w).orders
  unfolding update_quietly
  update_quietly-All env id f events w keep h =
      commit_quietly-All env events w (attempt_quietly f (find_by_id id w.orders))
        (attempt_quietly-All f keep (find_by_id id w.orders)
          (λ o. All-find_by_id P id w.orders o h))
        h

  each_message-All :
      (env : Env) (m : Message) (w : World) → All P w.orders → All P (each_message env m w).orders
  unfolding each_message mark_awaiting_seller_confirmation cancel_order
  each_message-All env (product_reserved id) w h =
      update_quietly-All env id _ _ w (inv.by_await env) h
  each_message-All env (product_reserve_failed id reason) w h =
      update_quietly-All env id _ _ w
        (inv.by_roll_back env (or_text reason "Sản phẩm không còn khả dụng")) h
  each_message-All env (product_reserve_expired id reason) w h =
      update_quietly-All env id _ _ w
        (inv.by_roll_back env (or_text reason "Thời gian giữ chỗ đã hết hạn")) h
  each_message-All env unknown_topic w h = h
  each_message-All env unparsable w h = h

  insert_unless-All :
      (env : Env) (o : Order) (w : World) (existing : Option Order)
      → P o
      → All P w.orders
      → All P (insert_unless env o w existing).1.orders
  unfolding insert_unless
  insert_unless-All env o w (some e) p h = h
  insert_unless-All env o w none p h =
      rw (orders-publish_logged env (created_events o) (record w { orders = o ∷ w.orders })) (p, h)

  place_checkout-All :
      (env : Env) (buyer : ObjectId) (r : Request) (w : World) (k : Result Checkout)
      → All P w.orders
      → All P (place_checkout env buyer r w k).1.orders
  unfolding place_checkout
  place_checkout-All env buyer r w (err e) h = h
  place_checkout-All env buyer r w (ok c) h = elim (Bool-cases (buyer == c.seller_id)) [
    | inl own ↦ rw own h
    | inr other ↦ rw other (
        insert_unless-All env (new_order env buyer r c) w
          (find_by_key (new_order env buyer r c).idempotency_key w.orders)
          (inv.by_create env buyer r c) h)
  ]

  replay_found-All :
      (w : World) (found : Option Order) → All P w.orders → All P (replay_found w found).1.orders
  unfolding replay_found
  replay_found-All w none h = h
  replay_found-All w (some o) h = h

  answer_duplicate-All :
      (key : String) (w : World) (v : Reservation)
      → All P w.orders
      → All P (answer_duplicate key w v).1.orders
  unfolding answer_duplicate
  answer_duplicate-All key w processing h = replay_found-All w (find_by_key key w.orders) h
  answer_duplicate-All key w (placed id) h = by_id (find_by_id id w.orders)
    where
      by_id : (found : Option Order) → All P (replay_placed key w found).1.orders
      by_id none = replay_found-All w (find_by_key key w.orders) h
      by_id (some o) = h

  claim_unless-All :
      (env : Env) (c : Catalog) (buyer : ObjectId) (r : Request) (w : World)
      (v : Option Reservation)
      → All P w.orders
      → All P (claim_unless env c buyer r w v).1.orders
  unfolding claim_unless
  claim_unless-All env c buyer r w (some taken) h =
      replay_found-All w (find_by_key r.idempotency_key w.orders) h
  claim_unless-All env c buyer r w none h =
      place_checkout-All env buyer r
        (record w { redis = redis_set r.idempotency_key processing w.redis }) (checkout c buyer r) h

  create_unless-All :
      (env : Env) (c : Catalog) (buyer : ObjectId) (r : Request) (w : World)
      (v : Option Reservation)
      → All P w.orders
      → All P (create_unless env c buyer r w v).1.orders
  unfolding create_unless
  create_unless-All env c buyer r w (some v) h = answer_duplicate-All r.idempotency_key w v h
  create_unless-All env c buyer r w none h =
      claim_unless-All env c buyer r w (redis_get r.idempotency_key w.redis) h

  receipt_for-All :
      (number : String) (user : ObjectId) (w : World) (found : Option Order)
      → ((o : Order) → found ≡ some o → P o)
      → All P w.orders
      → All P (receipt_for number user w found).1.orders
  unfolding receipt_for save
  receipt_for-All number user w none here h = h
  receipt_for-All number user w (some o) here h = elim (Bool-cases (is_outsider o user)) [
    | inl out ↦ rw out h
    | inr party ↦ rw party (elim (Bool-cases (needs_receipt o)) [
      | inl needs ↦ rw needs (
          All-upsert P (record o { receipt_number = some number }) w.orders
            (inv.by_receipt number o (here o refl)) h)
      | inr has ↦ rw has h
    ])
  ]

  serve-All : (env : Env) (c : Call) (w : World) → All P w.orders → All P (serve env c w).orders
  unfolding serve create_order get_receipt
  serve-All env (command id c) w h =
      rw (orders-handle env id c w)
        (All-update P (change env c) (inv.by_change env c) id w.orders h)
  serve-All env (message m) w h = each_message-All env m w h
  serve-All env (create c buyer r) w h =
      create_unless-All env c buyer r w (redis_get r.idempotency_key w.redis) h
  serve-All env (receipt number id user) w h =
      receipt_for-All number user w (find_by_id id w.orders) (λ o. All-find_by_id P id w.orders o h)
        h

  pub Reachable-All : {w : World} → Reachable w → All P w.orders
  Reachable-All start = tt
  Reachable-All (then {w} r env c) = serve-All env c w (Reachable-All r)
