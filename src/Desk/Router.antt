-- ===== src/Desk/Router.antt =====
-- `create_order` (app/api/v1/endpoints/orders.py): the request around `submit_order`.
use pios_backend.Desk.{
  is_algorithmic, RiskLimit, Settings, OrderCreate, Broker, BrokerResult, User, OrderError,
}
use pios_backend.Num.{nought, or_zero, Num}
use pios_backend.Order.{same_status, Status, Order, InvalidTransition}
use pios_backend.Store.{World, order_update, position_update}
use pios_backend.Desk.Submit.{submit_order}
use mathlib.Core.Option.{none}
use pios_backend.Prelude.{
  if◌then◌else◌, Result, ok, err, ℕ, String, Bool, false, ◌&&◌, Option, some, List, [], ◌∷◌, ◌++◌,
}

-- `order.status == "SUBMITTED"` and `order.status == "FILLED"`
abbrev has_status : Status → Option Status → Bool
has_status s none = false
has_status s (some t) = same_status s t

module _ {F : Type 0} ⦃n : Num F⦄ where
  -- What follows the commit: the schedule of an algorithmic order, and the events.
  unfoldable pub committed : User → OrderCreate F → Order F → World F → World F
  unfolding same_status is_algorithmic
  committed user req o w = record w {
    background =
        if is_algorithmic req.order_type && has_status Status.submitted o.status
        then w.background ++ (o.id ∷ [])
        else w.background;
    published =
        w.published
        ++ (order_update user.id o.id o.status (or_zero o.filled_qty nought)
            ∷ (if has_status Status.filled o.status then position_update user.id ∷ [] else []));
  }

  -- A request that raises is rolled back.
  unfoldable pub create_order :
      (InvalidTransition → String)
      → (Order F → Result String (BrokerResult F))
      → Settings F
      → List (RiskLimit F)
      → List Broker
      → List (Order F)
      → ℕ
      → ℕ
      → ℕ
      → String
      → User
      → OrderCreate F
      → World F
      → Result OrderError (Order F) × World F
  create_order text adapter settings limits brokers seen now i j generated user req w =
      elim (submit_order text adapter settings limits brokers seen now i j generated user req w) [
        | err e ↦ (err e, w)
        | ok (o, w') ↦ (ok o, committed user req o w')
      ]
