-- ===== src/Orders/Lifecycle/Moves.antt =====
-- The changes that move an order's status keep `IsLive` too.
use iuh_exchange_be.Base.{
  ℕ, String, ◌≡◌, refl, Bool, true, false, not, if◌then◌else◌, ◌==◌, ◌&&◌, ◌++◌, ◌∷◌, [], any, List,
  some, arith, Bool-cases, inl, inr,
}
use iuh_exchange_be.Base.Result.{ok, throw_if-ok, forbidden, bad_request}
use iuh_exchange_be.Orders.Model.{
  ObjectId, Order, NoShowReport, CancelCategory, OrderStatus, awaiting_seller, completed, cancelled,
}
use iuh_exchange_be.Orders.Store.{Env}
use iuh_exchange_be.Orders.Transitions.{
  Change, append_status_history, status_is, valid_transition, actor_role_for,
}
use iuh_exchange_be.Orders.Flags.{is_opened, is_system, is_cash, is_paid, is_bank_transfer}
use iuh_exchange_be.Orders.Lifecycle.{IsLive, legal_link, append_status_history-IsLive}
use iuh_exchange_be.Orders.Lifecycle.Steps.{SameLife, SameLife-IsLive}
use iuh_exchange_be.Orders.Closing.{
  complete, settle_cash, turn_down, call_off, miss, is_active, no_show_reason,
}

-- A move that the code returns, made on an order whose life is in order.
pub move-IsLive :
    (now : ℕ) (next : OrderStatus) (c : Change) (o : Order) {o' : Order}
    → ok (append_status_history now next c o) ≡ ok o'
    → IsLive o
    → legal_link (some o.status) next ≡ true
    → is_opened o.dispute.status ≡ false
    → IsLive o'
move-IsLive now next c o {o'} e h legal closed =
    let same : append_status_history now next c o ≡ o' = cc in
    rw (← same) (append_status_history-IsLive now next c o h legal closed)

-- An order whose status is not COMPLETED has no open dispute.
pub closed_of_active :
    (o : Order)
    → IsLive o
    → status_is o.status completed ≡ false
    → is_opened o.dispute.status ≡ false
unfolding status_is
closed_of_active o h active = elim (Bool-cases (is_opened o.dispute.status)) [
  | inl d ↦ let c : o.status ≡ completed = h.disputed d in ground arith
  | inr d ↦ d
]

legal_of_valid :
    (s t : OrderStatus) → not (valid_transition s t) ≡ false → legal_link (some s) t ≡ true
unfolding valid_transition
legal_of_valid s t h = ground arith

not-false : (b : Bool) → not b ≡ false → b ≡ true
not-false b h = ground arith

module _ (env : Env) (o o' : Order) (h : IsLive o) where
  pub turn_down-IsLive :
      (user : ObjectId) (reason : String) (c : CancelCategory)
      → turn_down env.now user reason c o ≡ ok o'
      → IsLive o'
  unfolding turn_down
  turn_down-IsLive user reason c e =
      let (own, e₁) = throw_if-ok (not (o.seller_id == user)) forbidden _ e in
      let (active, e₂) = throw_if-ok (status_is o.status completed) bad_request _ e₁ in
      let (valid, e₃) = throw_if-ok (not (valid_transition o.status cancelled)) bad_request _ e₂ in
      move-IsLive env.now cancelled _ o e₃ h (legal_of_valid o.status cancelled valid)
        (closed_of_active o h active)

  pub call_off-IsLive :
      (user : ObjectId) (reason : String) (c : CancelCategory)
      → call_off env.now user reason c o ≡ ok o'
      → IsLive o'
  unfolding call_off
  call_off-IsLive user reason c e =
      let (own, e₁) = throw_if-ok (not (o.buyer_id == user)) forbidden _ e in
      let (active, e₂) = throw_if-ok (status_is o.status completed) bad_request _ e₁ in
      let (live, e₃) = throw_if-ok (status_is o.status cancelled) bad_request _ e₂ in
      let (valid, e₄) = throw_if-ok (not (valid_transition o.status cancelled)) bad_request _ e₃ in
      move-IsLive env.now cancelled _ o e₄ h (legal_of_valid o.status cancelled valid)
        (closed_of_active o h active)

  miss_legal : is_active o ≡ true → legal_link (some o.status) cancelled ≡ true
  unfolding is_active
  miss_legal a = ground arith

  miss_closed : is_active o ≡ true → status_is o.status completed ≡ false
  unfolding is_active
  miss_closed a = ground arith

  same_base : (reports : List NoShowReport) → SameLife o (record o { no_show_reports = reports })
  same_base reports = record {
    status = refl;
    history = refl;
    dispute = refl;
    completed_at = refl;
    cancellation = refl;
  }

  pub miss-IsLive :
      (user : ObjectId) (reason url : String) → miss env.now user reason url o ≡ ok o' → IsLive o'
  unfolding miss
  miss-IsLive user reason url e =
      let (party, e₁) = throw_if-ok (is_system (actor_role_for o user)) forbidden _ e in
      let (active, e₂) = throw_if-ok (not (is_active o)) bad_request _ e₁ in
      let (first, e₃) =
        throw_if-ok (any (λ r. r.reported_by == user) o.no_show_reports) bad_request _ e₂ in
      let a : is_active o ≡ true = not-false (is_active o) active in
      let reports : List NoShowReport =
        o.no_show_reports
        ++ (record {
          reported_by = user;
          actor_role = actor_role_for o user;
          reason = no_show_reason (actor_role_for o user) reason;
          evidence_url = url;
        }
            ∷ []) in
      move-IsLive env.now cancelled _ (record o { no_show_reports = reports }) e₃
        (SameLife-IsLive o (record o { no_show_reports = reports }) (same_base reports) h)
        (miss_legal a) (closed_of_active o h (miss_closed a))

  settled : Order
  settled =
      if is_cash o.payment.method && not (is_paid o.payment.status) then settle_cash env o else o

  settled-SameLife : SameLife o settled
  unfolding settled settle_cash
  settled-SameLife = ground arith

  pub complete-IsLive : (user : ObjectId) → complete env user o ≡ ok o' → IsLive o'
  unfolding complete settled
  complete-IsLive user e =
      let (own, e₁) = throw_if-ok (not (o.seller_id == user)) forbidden _ e in
      let (waiting, e₂) = throw_if-ok (not (status_is o.status awaiting_seller)) bad_request _ e₁ in
      let (live, e₃) = throw_if-ok (status_is o.status cancelled) bad_request _ e₂ in
      let (active, e₄) = throw_if-ok (status_is o.status completed) bad_request _ e₃ in
      let (received, e₅) =
        throw_if-ok (is_bank_transfer o.payment.method && not (is_paid o.payment.status))
          bad_request _ e₄ in
      let (valid, e₆) =
        throw_if-ok (not (valid_transition settled.status completed)) bad_request _ e₅ in
      move-IsLive env.now completed _ settled e₆ (SameLife-IsLive o settled settled-SameLife h)
        (legal_of_valid settled.status completed valid)
        (rw settled-SameLife.dispute (closed_of_active o h active))
