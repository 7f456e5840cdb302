-- ===== src/Orders/Lifecycle.antt =====
-- The life of an order's status, read from its history (appendStatusHistory and its callers in
-- packages/order-service/src/services/order.service.js).
pub mod Steps
pub mod Moves
pub mod Cases
pub mod Invariant
use iuh_exchange_be.Base.{
  ℕ, ◌≡◌, refl, Bool, true, false, Option, none, some, List, [], ◌∷◌, ◌++◌, arith, is_some,
}
use iuh_exchange_be.Orders.Model.{
  OrderStatus, pending, awaiting_seller, completed, cancelled, HistoryEntry, Order,
}
use iuh_exchange_be.Orders.Flags.{is_opened}
use iuh_exchange_be.Orders.Transitions.{Change, stamp, append_status_history, valid_transition}

-- The links of a history: the creation, the table `VALID_TRANSITIONS`, the repeats that the saga
-- may record, and the cancellation of a completed order.
abbrev pub legal_link : Option OrderStatus → OrderStatus → Bool
legal_link none pending = true
legal_link (some pending) awaiting_seller = true
legal_link (some pending) cancelled = true
legal_link (some awaiting_seller) completed = true
legal_link (some awaiting_seller) cancelled = true
legal_link (some awaiting_seller) awaiting_seller = true
legal_link (some cancelled) cancelled = true
legal_link (some completed) cancelled = true
legal_link _ _ = false

-- Each entry starts where the one before it ended, by a legal link, and the last ends in `t`.
abbrev pub IsTrail : Option OrderStatus → List HistoryEntry → OrderStatus → Type 0
IsTrail s [] t = s ≡ some t
IsTrail s (e ∷ es) t = (e.from ≡ s) × (legal_link s e.to ≡ true) × IsTrail (some e.to) es t

pub IsTrail-append :
    (s : Option OrderStatus) (es : List HistoryEntry) (t : OrderStatus) (e : HistoryEntry)
    → IsTrail s es t
    → e.from ≡ some t
    → legal_link (some t) e.to ≡ true
    → IsTrail s (es ++ (e ∷ [])) e.to
IsTrail-append s [] t e h from legal = (ground arith, ground arith, refl)
IsTrail-append s (x ∷ es) t e h from legal =
    (h.0, h.1, IsTrail-append (some x.to) es t e h.2 from legal)

pub record IsLive (o : Order) : Type 0 where
  pub trail : IsTrail none o.status_history o.status
  pub disputed : is_opened o.dispute.status ≡ true → o.status ≡ completed
  pub completed_stamped : o.status ≡ completed → is_some o.completed_at ≡ true
  pub cancelled_stamped : o.status ≡ cancelled → is_some o.cancellation.at ≡ true

-- A legal change of the status keeps the record of it in order, unless a dispute is open.
pub append_status_history-IsLive :
    (now : ℕ) (next : OrderStatus) (c : Change) (o : Order)
    → IsLive o
    → legal_link (some o.status) next ≡ true
    → is_opened o.dispute.status ≡ false
    → IsLive (append_status_history now next c o)
unfolding append_status_history
append_status_history-IsLive now pending c o h legal closed = record {
  trail = IsTrail-append none o.status_history o.status _ h.trail refl legal;
  disputed = λ d. cc;
  completed_stamped = λ d. cc;
  cancelled_stamped = λ d. cc;
}
append_status_history-IsLive now awaiting_seller c o h legal closed = record {
  trail = IsTrail-append none o.status_history o.status _ h.trail refl legal;
  disputed = λ d. cc;
  completed_stamped = λ d. cc;
  cancelled_stamped = λ d. cc;
}
append_status_history-IsLive now completed c o h legal closed = record {
  trail = IsTrail-append none o.status_history o.status _ h.trail refl legal;
  disputed = λ d. refl;
  completed_stamped = λ d. refl;
  cancelled_stamped = λ d. cc;
}
append_status_history-IsLive now cancelled c o h legal closed = record {
  trail = IsTrail-append none o.status_history o.status _ h.trail refl legal;
  disputed = λ d. cc;
  completed_stamped = λ d. cc;
  cancelled_stamped = λ d. refl;
}
