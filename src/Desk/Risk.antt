-- ===== src/Desk/Risk.antt =====
-- `_risk_check` and the refusals before an order exists (app/services/order_service.py,
-- `get_broker_or_404` of app/services/broker_service.py).
pub mod Gated
use pios_backend.Prelude.{
  ltb, all_of, count_if, ◌||◌, is_some, is_empty, ◌&&◌, not, str_eq, err, [], any_of, keep_if,
  if◌then◌else◌, ok, ◌∷◌, ◌==◌, Result, String, Option, ℕ, List,
}
use pios_backend.Store.{num_or_zero}
use pios_backend.Order.{is_open, RiskResult, Check, CheckName}
use pios_backend.Num.{le, lt, nought, ◌⊗◌, Num}
use pios_backend.Desk.{
  risk_rejected, requires_limit_price, requires_stop_price, broker_not_found, multiple_rows,
  duplicate, none, false, OrderCreate, true, RiskLimit, Order, Bool, OrderError, some,
  is_conditional, Settings, Broker, LimitType, User,
}

-- `scalar_one_or_none`
unfoldable pub scalar_one_or_none {ℓ} : {A : Type ℓ} → List A → Result OrderError (Option A)
scalar_one_or_none [] = ok none
scalar_one_or_none (x ∷ []) = ok (some x)
scalar_one_or_none (_ ∷ _ ∷ _) = err multiple_rows

-- `get_broker_or_404`: the active broker of that id which the user owns; an admin may use any.
abbrev usable : User → ℕ → Broker → Bool
usable user i b = b.id == i && b.is_active && (user.is_admin || b.owner_id == user.id)

unfoldable pub get_broker_or_404 : User → ℕ → List Broker → Result OrderError Broker
get_broker_or_404 user i brokers = elim (scalar_one_or_none (keep_if (usable user i) brokers)) [
  | err e ↦ err e
  | ok none ↦ err broker_not_found
  | ok (some b) ↦ ok b
]

abbrev same_limit : LimitType → LimitType → Bool
same_limit LimitType.max_position_usd LimitType.max_position_usd = true
same_limit LimitType.daily_loss_limit LimitType.daily_loss_limit = true
same_limit LimitType.other_limit LimitType.other_limit = true
same_limit _ _ = false

-- `if client_order_id:`
abbrev pub given_key : Option String → Option String
given_key none = none
given_key (some k) = if is_empty k then none else some k

abbrev pub has_key : String → Option String → Bool
has_key k none = false
has_key k (some k') = str_eq k k'

-- The names of the failed checks.
unfoldable pub failed_checks : List Check → List CheckName
failed_checks [] = []
failed_checks (c ∷ cs) = if c.passed then failed_checks cs else c.check ∷ failed_checks cs

abbrev is_idempotency : CheckName → Bool
is_idempotency CheckName.idempotency = true
is_idempotency _ = false

-- What the router is told when the gate does not pass.
abbrev pub refusal : List CheckName → OrderError
refusal names = if any_of is_idempotency names then duplicate else risk_rejected names

module _ {F : Type 0} where
  -- The value of the active limit of a type, or the default.
  unfoldable pub limit_of : LimitType → F → List (RiskLimit F) → Result OrderError F
  limit_of t default limits =
      elim (scalar_one_or_none (keep_if (λ l. same_limit t l.limit_type && l.is_active) limits)) [
        | err e ↦ err e
        | ok none ↦ ok default
        | ok (some l) ↦ ok l.limit_value
      ]

  -- The user's rows that carry the key.
  abbrev pub keyed : ℕ → String → Order F → Bool
  keyed user_id k o = o.user_id == user_id && has_key k o.client_order_id

  abbrev pub open_of : ℕ → Order F → Bool
  open_of user_id o = o.user_id == user_id && is_open o.status

  unfoldable pub idempotency_check :
      ℕ → Option String → List (Order F) → Result OrderError (List Check)
  idempotency_check user_id none orders = ok []
  idempotency_check user_id (some k) orders =
      elim (scalar_one_or_none (keep_if (keyed user_id k) orders)) [
        | err e ↦ err e
        | ok dup ↦ ok (record { check = CheckName.idempotency; passed = not (is_some dup) } ∷ [])
      ]

module _ {F : Type 0} ⦃n : Num F⦄ where
  -- `_risk_check`
  unfoldable pub risk_check :
      Settings F
      → List (RiskLimit F)
      → List (Order F)
      → ℕ
      → F
      → Option F
      → Option String
      → Result OrderError (RiskResult F)
  risk_check settings limits orders user_id qty price client_order_id =
      let notional = qty ⊗ num_or_zero price in
      elim (limit_of LimitType.max_position_usd settings.default_max_position_usd limits) [
        | err e ↦ err e
        | ok max_pos ↦
            elim (limit_of LimitType.daily_loss_limit settings.default_daily_loss_limit limits) [
              | err e ↦ err e
              | ok _ ↦ elim (idempotency_check user_id (given_key client_order_id) orders) [
                | err e ↦ err e
                | ok last_check ↦
                    let checks =
                      record { check = CheckName.max_position; passed = le notional max_pos }
                      ∷ record { check = CheckName.daily_loss; passed = true }
                      ∷ record {
                        check = CheckName.max_open_orders;
                        passed =
                            ltb (count_if (open_of user_id) orders)
                              settings.default_max_open_orders;
                      }
                      ∷ last_check in
                    ok (record {
                      passed = all_of (λ c. c.passed) checks;
                      checks = checks;
                      notional = notional;
                    })
              ]
            ]
      ]

  -- The prices that a conditional order must bring: `req.price and req.price > 0`.
  abbrev pub is_priced : Option F → Bool
  is_priced none = false
  is_priced (some x) = not (n.eq x nought) && lt nought x

  unfoldable pub conditional_error : OrderCreate F → Option OrderError
  unfolding is_conditional
  conditional_error req =
      if is_conditional req.order_type
      then (if is_priced req.price
          then (if is_priced req.stop_price then none else some requires_stop_price)
          else some requires_limit_price)
      else none
