-- ===== src/Desk/Cancel.antt =====
-- `cancel_order` (app/services/order_service.py).
pub mod Pair
use pios_backend.Desk.{
  adapter_unavailable, order_not_found, not_your_order, cannot_cancel, false, none, true,
  OrderError, is_oco, some, User,
}
use pios_backend.Desk.Risk.{given_key}
use pios_backend.Prelude.{
  all_of, ◌||◌, List, ◌==◌, err, not, [], ◌∷◌, ◌++◌, opt_eq, find_first, ok, ◌&&◌, Result, Bool,
  if◌then◌else◌, ℕ, Option,
}
use pios_backend.Order.{is_working, Status, Order}
use pios_backend.Store.{is_order, World}
use pios_backend.Desk.Moves.{store, audit_order, cancel_row, cancel_rows, asked_of}

-- `order.status in ("FILLED", "CANCELLED", "REJECTED")`
unfoldable pub is_closed : Option Status → Bool
is_closed (some Status.filled) = true
is_closed (some Status.cancelled) = true
is_closed (some Status.rejected) = true
is_closed _ = false

module _ {F : Type 0} where
  -- `(order.algo_config or {}).get("oco_group")`
  abbrev pub oco_group_of : Order F → Option ℕ
  oco_group_of o = elim o.algo_config [ none ↦ none | some c ↦ c.oco_group ]

  -- An OCO row of the group, other than `i`, that is still at work.
  abbrev pub sibling : ℕ → ℕ → Order F → Bool
  sibling group i o =
      is_oco o.order_type
      && opt_eq (oco_group_of o) (some group)
      && not (o.id == i)
      && is_working o.status

  abbrev pub oco_key : Order F → Option ℕ
  oco_key o = if is_oco o.order_type then oco_group_of o else none

  -- Whether `get_adapter` returns for the rows that have a broker's identifier; where it raises, nothing
  -- catches it. `adapts` tells the brokers for which it returns.
  abbrev pub reaches : (ℕ → Bool) → Order F → Bool
  reaches adapts o = elim (given_key o.broker_order_id) [
    | none ↦ true
    | some _ ↦ adapts o.broker_id
  ]

  abbrev pub reaches_all : (ℕ → Bool) → (Order F → Bool) → List (Order F) → Bool
  reaches_all adapts p os = all_of (λ o. not (p o) || reaches adapts o) os

  -- The legs that cancel with the row.
  unfoldable pub cancel_pair : (ℕ → Bool) → ℕ → Order F → World F → Result OrderError (World F)
  cancel_pair adapts now o w = elim (oco_key o) [
    | none ↦ ok w
    | some group ↦
        if reaches_all adapts (sibling group o.id) w.orders
        then elim (cancel_rows (sibling group o.id) "OCO pair cancelled by user" now w.orders) [
          | err e ↦ err e
          | ok orders ↦ ok (record w {
            orders = orders;
            asked = w.asked ++ asked_of (sibling group o.id) w.orders;
          })
        ]
        else err adapter_unavailable
  ]

  -- `cancel_order`. An exception rolls the tables back; a cancellation that a broker has been asked for
  -- by then stays asked.
  unfoldable pub cancel_order :
      (ℕ → Bool) → ℕ → ℕ → User → World F → Result OrderError (Order F × World F)
  unfolding is_closed
  cancel_order adapts now i user w = elim (find_first (is_order i) w.orders) [
    | none ↦ err order_not_found
    | some order ↦
        if not user.is_admin && not (order.user_id == user.id)
        then err not_your_order
        else if is_closed order.status
        then err (cannot_cancel order.status)
        else if not (reaches adapts order)
        then err adapter_unavailable
        else elim (cancel_row "User requested" now order) [
          | err e ↦ err e
          | ok o ↦
              elim (cancel_pair adapts now o
                (record (store o w) { asked = w.asked ++ asked_of (is_order i) (order ∷ []) })) [
                  | err e ↦ err e
                  | ok w' ↦ ok (o, audit_order "ORDER_CANCELLED" i user w')
                ]
        ]
  ]
