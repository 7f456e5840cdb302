-- ===== src/Karma/Service.antt =====
-- `applyKarmaAdjustment` of packages/user-service/src/services/karma.service.js and the consumer
-- of karma-consumer.service.js.
use iuh_exchange_be.Base.{
  ℕ, String, Bool, false, Option, none, some, List, [], ◌∷◌, ◌++◌, ◌==◌, ◌&&◌, if◌then◌else◌, suc,
  zero,
}
use iuh_exchange_be.Base.Int.{ℤ, pos, negsuc, ◌+ℤ◌}
use iuh_exchange_be.Base.Text.{or_text, str_eq}
use iuh_exchange_be.Base.Result.{Result, ok, err, not_found, broker_down}
use iuh_exchange_be.Orders.Model.{ObjectId}
use iuh_exchange_be.Karma.Policy.{User, karma_of, sync_permissions_with_karma}

-- `amount` is absent where it is no finite number. The `metadata` is only stored.
pub record Request : Type 0 where
  pub user_id : Option ObjectId
  pub amount : Option ℤ
  pub reason : String
  pub source : String
  pub related_id : Option ObjectId
  pub performed_by : Option ObjectId

pub record Entry : Type 0 where
  pub user_id : ObjectId
  pub amount : ℤ
  pub previous_karma : ℤ
  pub new_karma : ℤ
  pub reason : String
  pub related_id : Option ObjectId
  pub performed_by : Option ObjectId
  pub source : String

pub record Store : Type 0 where
  pub users : List User
  pub history : List Entry
  pub published : List Entry

unfoldable pub find_user : ObjectId → List User → Option User
find_user id [] = none
find_user id (u ∷ us) = if u.id == id then some u else find_user id us

unfoldable pub save_user : User → List User → List User
save_user u [] = u ∷ []
save_user u (x ∷ xs) = let rest = save_user u xs in if x.id == u.id then u ∷ xs else x ∷ rest

-- `KarmaHistory.findOne({ userId, relatedId, source })`
unfoldable pub is_entry_of : ObjectId → ObjectId → String → Entry → Bool
is_entry_of user related source e =
    e.user_id == user
    && elim (e.related_id) [ none ↦ false | some r ↦ r == related ]
    && str_eq e.source source

unfoldable pub find_entry : ObjectId → ObjectId → String → List Entry → Option Entry
unfolding is_entry_of
find_entry user related source [] = none
find_entry user related source (e ∷ es) =
    if is_entry_of user related source e then some e else find_entry user related source es

unfoldable pub find_duplicate : ObjectId → Request → List Entry → Option Entry
find_duplicate user r es = elim (r.related_id) [
  | none ↦ none
  | some related ↦ find_entry user related r.source es
]

unfoldable pub adjusted : User → ℤ → User
unfolding karma_of sync_permissions_with_karma
adjusted u delta =
    sync_permissions_with_karma (record u { karma_point = some (karma_of u +ℤ delta) })

unfoldable pub new_entry : User → ℤ → Request → Entry
unfolding karma_of
new_entry u delta r = record {
  user_id = u.id;
  amount = delta;
  previous_karma = karma_of u;
  new_karma = karma_of u +ℤ delta;
  reason = or_text r.reason "Cập nhật karma";
  related_id = r.related_id;
  performed_by = r.performed_by;
  source = r.source;
}

-- The user is saved and the entry is stored before the publish, which may throw.
unfoldable pub store_adjustment : Bool → User → ℤ → Request → Store → Result (Option Entry) × Store
unfolding adjusted new_entry save_user
store_adjustment broker_up u delta r s =
    let e : Entry = new_entry u delta r in
    let s' : Store = record s {
      users = save_user (adjusted u delta) s.users;
      history = s.history ++ (e ∷ []);
    } in
    if broker_up
    then (ok (some e), record s' { published = s.published ++ (e ∷ []) })
    else (err broker_down, s')

unfoldable pub adjust_found :
    Bool → ℤ → Request → Store → Option User → Result (Option Entry) × Store
unfolding store_adjustment
adjust_found broker_up delta r s none = (err not_found, s)
adjust_found broker_up delta r s (some u) = store_adjustment broker_up u delta r s

unfoldable pub adjust_unless :
    Bool → ObjectId → ℤ → Request → Store → Option Entry → Result (Option Entry) × Store
unfolding adjust_found find_user
adjust_unless broker_up user delta r s (some e) = (ok (some e), s)
adjust_unless broker_up user delta r s none =
    adjust_found broker_up delta r s (find_user user s.users)

-- An adjustment without a user, or of no or zero amount, is none.
unfoldable pub apply_to :
    Bool → Option ObjectId → Option ℤ → Request → Store → Result (Option Entry) × Store
unfolding adjust_unless find_duplicate
apply_to broker_up none amount r s = (ok none, s)
apply_to broker_up (some user) none r s = (ok none, s)
apply_to broker_up (some user) (some (pos zero)) r s = (ok none, s)
apply_to broker_up (some user) (some delta) r s =
    adjust_unless broker_up user delta r s (find_duplicate user r s.history)

unfoldable pub apply_karma_adjustment : Bool → Request → Store → Result (Option Entry) × Store
unfolding apply_to
apply_karma_adjustment broker_up r s = apply_to broker_up r.user_id r.amount r s

-- The messages of the three topics, with what the payload's alternatives give (`relatedId ||
-- orderId || id`, `source || 'ORDER_RESOLUTION'`, `points || amount || 10`).
pub data Message : Type 0 where
  order_completed : ObjectId → ObjectId → ObjectId → Message
  adjustment_requested : Request → Message
  karma_penalty : Option ObjectId → ℤ → String → Option ObjectId → Message
  unparsable : Message

-- `-Math.abs(n)`
unfoldable pub minus_abs : ℤ → ℤ
minus_abs (pos zero) = pos zero
minus_abs (pos (suc n)) = negsuc n
minus_abs (negsuc n) = negsuc n

abbrev pub seller_request : ObjectId → ObjectId → Request
seller_request order seller = record {
  user_id = some seller;
  amount = some (pos 10);
  reason = "Hoàn tất giao dịch thành công với vai trò người bán";
  source = "ORDER_COMPLETED_SELLER";
  related_id = some order;
  performed_by = none;
}

abbrev pub buyer_request : ObjectId → ObjectId → Request
buyer_request order buyer = record {
  user_id = some buyer;
  amount = some (pos 5);
  reason = "Hoàn tất giao dịch thành công với vai trò người mua";
  source = "ORDER_COMPLETED_BUYER";
  related_id = some order;
  performed_by = none;
}

-- What a message asks for, the seller's share of an order before the buyer's. What one request
-- throws is logged and keeps no other from being tried.
unfoldable pub requests_of : Message → List Request
unfolding minus_abs
requests_of (order_completed order seller buyer) =
    seller_request order seller ∷ buyer_request order buyer ∷ []
requests_of (adjustment_requested r) = r ∷ []
requests_of (karma_penalty user points reason related) =
    record {
      user_id = user;
      amount = some (minus_abs points);
      reason = or_text reason "Vi phạm quy định cộng đồng";
      source = "LOST_FOUND_PENALTY";
      related_id = related;
      performed_by = none;
    }
    ∷ []
requests_of unparsable = []

unfoldable pub apply_all : (ℕ → Bool) → ℕ → List Request → Store → Store
unfolding apply_karma_adjustment
apply_all broker n [] s = s
apply_all broker n (r ∷ rs) s =
    apply_all broker (suc n) rs (apply_karma_adjustment (broker n) r s).1

unfoldable pub each_message : (ℕ → Bool) → Message → Store → Store
unfolding requests_of apply_all
each_message broker m s = apply_all broker 0 (requests_of m) s
