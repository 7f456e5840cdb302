-- ===== src/Orders/Flags.antt =====
-- Tests on the enumerations of an order, as the source compares them with texts.
use iuh_exchange_be.Base.{Bool, true, false}
use iuh_exchange_be.Orders.Model.{
  PaymentMethod, PaymentStatus, ActorRole, CaseStatus, bank_transfer, cash, paid, refunded, buyer,
  system, opened,
}

unfoldable pub is_bank_transfer : PaymentMethod → Bool
is_bank_transfer bank_transfer = true
is_bank_transfer _ = false

unfoldable pub is_cash : PaymentMethod → Bool
is_cash cash = true
is_cash _ = false

unfoldable pub is_paid : PaymentStatus → Bool
is_paid paid = true
is_paid _ = false

unfoldable pub is_refunded : PaymentStatus → Bool
is_refunded refunded = true
is_refunded _ = false

unfoldable pub is_system : ActorRole → Bool
is_system system = true
is_system _ = false

unfoldable pub is_buyer : ActorRole → Bool
is_buyer buyer = true
is_buyer _ = false

unfoldable pub is_opened : CaseStatus → Bool
is_opened opened = true
is_opened _ = false
