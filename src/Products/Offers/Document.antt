-- ===== src/Products/Offers/Document.antt =====
-- The document of packages/product-service/src/models/Offer.js, the state of
-- controllers/offer.controller.js, and its helpers.
use Prim.Native.Char.{code}
use iuh_exchange_be.Base.{
  ℕ, zero, suc, String, Bool, true, false, Option, none, some, List, [], ◌∷◌, ◌++◌, ◌+◌, ◌*◌, ◌==◌,
  ◌&&◌, if◌then◌else◌, leb,
}
use iuh_exchange_be.Base.Int.{ℤ, pos, negsuc}
use iuh_exchange_be.Base.Text.{trim}
use iuh_exchange_be.Base.Result.{Result, ok, err, broker_down}
use iuh_exchange_be.Orders.Model.{ObjectId}
use iuh_exchange_be.Products.Saga.{Product}

pub data OfferStatus : Type 0 where
  pending accepted rejected countered expired withdrawn : OfferStatus

unfoldable pub is_pending : OfferStatus → Bool
is_pending pending = true
is_pending _ = false

unfoldable pub is_accepted : OfferStatus → Bool
is_accepted accepted = true
is_accepted _ = false

-- `'system'` or a user.
pub data Resolver : Type 0 where
  by_system : Resolver
  by_user : ObjectId → Resolver

-- `for_trade` is the type 'TRADE', else the type is 'PRICE'.
pub record Offer : Type 0 where
  pub id : ObjectId
  pub product_id : ObjectId
  pub buyer_id : ObjectId
  pub seller_id : ObjectId
  pub for_trade : Bool
  pub amount : Option ℕ
  pub trade_item_title : String
  pub trade_item_description : String
  pub message : String
  pub status : OfferStatus
  pub counter_amount : Option ℕ
  pub counter_message : String
  pub expires_at : ℕ
  pub resolved_at : Option ℕ
  pub resolved_by : Option Resolver

pub data OfferEvent : Type 0 where
  offer_created : ObjectId → ObjectId → ObjectId → ObjectId → OfferEvent
  offer_resolved : ObjectId → OfferStatus → OfferEvent

-- The body of a new offer. A number is absent where the field is none; numbers are whole.
pub record Proposal : Type 0 where
  pub for_trade : Bool
  pub amount : Option ℤ
  pub trade_item_title : String
  pub trade_item_description : String
  pub message : String
  pub expires_in_hours : Option ℤ

-- The body of a decision: the action in capitals, or another text.
pub data Action : Type 0 where
  accept reject : Action
  counter : Option ℤ → String → Action
  unknown : Action

pub record Env : Type 0 where
  pub now : ℕ
  pub new_id : ObjectId
  pub broker : OfferEvent → Bool

pub record Market : Type 0 where
  pub products : List Product
  pub offers : List Offer
  pub published : List OfferEvent

unfoldable pub find_offer : ObjectId → List Offer → Option Offer
find_offer id [] = none
find_offer id (o ∷ os) = let rest = find_offer id os in if o.id == id then some o else rest

-- `offer.save()` on an offer that was read.
unfoldable pub save_offer : Offer → List Offer → List Offer
save_offer o [] = []
save_offer o (x ∷ xs) = let rest = save_offer o xs in (if x.id == o.id then o else x) ∷ rest

-- `Offer.updateMany(filter, change)`
unfoldable pub update_many : (Offer → Bool) → (Offer → Offer) → List Offer → List Offer
update_many filter change [] = []
update_many filter change (o ∷ os) =
    let rest = update_many filter change os in (if filter o then change o else o) ∷ rest

unfoldable pub put_offer : Offer → Market → Market
unfolding save_offer
put_offer o m = record m { offers = save_offer o m.offers }

unfoldable pub resolve_as : OfferStatus → Env → Resolver → Offer → Offer
resolve_as status e by o = record o {
  status = status;
  resolved_at = some e.now;
  resolved_by = some by;
}

unfoldable pub is_due : Env → Offer → Bool
unfolding is_pending
is_due e o = is_pending o.status && leb o.expires_at e.now

-- `expireOfferIfNeeded`: the offer as it is then, and the table.
unfoldable pub expire_if_needed : Env → Offer → Offer
unfolding is_due resolve_as
expire_if_needed e o = if is_due e o then resolve_as expired e by_system o else o

unfoldable pub save_expired : Env → Offer → Market → Market
unfolding is_due resolve_as put_offer
save_expired e o m = if is_due e o then put_offer (resolve_as expired e by_system o) m else m

-- `publishProductEvent` fails the handler, after the offers are saved.
unfoldable pub publish_offer {ℓ} : {A : Type ℓ} → Env → OfferEvent → A → Market → Result A × Market
publish_offer e event a m =
    if e.broker event
    then (ok a, record m { published = m.published ++ (event ∷ []) })
    else (err broker_down, m)

-- `buildExpiresAt`: `Math.max(1, Number(hours) || 48)`
unfoldable pub hours_of : Option ℤ → ℕ
hours_of none = 48
hours_of (some (pos zero)) = 48
hours_of (some (pos (suc n))) = suc n
hours_of (some (negsuc n)) = 1

-- A number that is not negative.
unfoldable pub price_of : Option ℤ → Option ℕ
price_of none = none
price_of (some (pos n)) = some n
price_of (some (negsuc n)) = none

unfoldable pub new_offer : Env → ObjectId → Product → Option ℕ → Proposal → Offer
unfolding hours_of
new_offer e buyer p amount b = record {
  id = e.new_id;
  product_id = p.id;
  buyer_id = buyer;
  seller_id = p.seller_id;
  for_trade = b.for_trade;
  amount = amount;
  trade_item_title = trim b.trade_item_title;
  trade_item_description = trim b.trade_item_description;
  message = trim b.message;
  status = pending;
  counter_amount = none;
  counter_message = "";
  expires_at = e.now + hours_of b.expires_in_hours * 60 * 60 * 1000;
  resolved_at = none;
  resolved_by = none;
}

-- The length of a text in UTF-16 units.
unfoldable pub units : String → ℕ
units String.[] = 0
units (String.◌∷◌ c s) = (if leb 65536 (code c) then 2 else 1) + units s

-- The lengths that the schema allows; without them `Offer.create` throws.
unfoldable pub fits_schema : Offer → Bool
unfolding units
fits_schema o =
    leb (units o.trade_item_title) 200
    && leb (units o.trade_item_description) 1000
    && leb (units o.message) 1000
