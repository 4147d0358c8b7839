-- ===== src/Conditional/Once.antt =====
-- A triggered order is sent once.
use pios_backend.Prelude.{is_some, Result, ok, err, String, ◌≡◌, true, false, ◌||◌}
use pios_backend.Desk.{BrokerResult}
use pios_backend.Num.{Num}
use pios_backend.Conditional.{is_armed}
use pios_backend.Order.{Order}

module _ {F : Type 0} ⦃n : Num F⦄ where
  -- An answer that leaves an order at work names it.
  abbrev pub IsNamed : Result String (BrokerResult F) → Type 0
  IsNamed (err _) = Unit
  IsNamed (ok r) = r.is_filled || is_some r.broker_order_id ≡ true

  -- The row that the answer leaves is not armed.
  pub record IsFired (o : Order F) (row : Order F) : Type 0 where
    pub shut : is_armed row ≡ false
    pub id : row.id ≡ o.id
