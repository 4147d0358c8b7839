-- ===== src/Desk/Risk/Gated.antt =====
-- What has been checked of an order that the desk accepts.
use pios_backend.Desk.{OrderCreate, Broker, BrokerResult, User, LimitType, RiskLimit, Settings}
use pios_backend.Order.{InvalidTransition, Check, RiskResult, Order}
use pios_backend.Store.{World, num_or_zero}
use pios_backend.Desk.Submit.{submit_order}
use pios_backend.Desk.Risk.{
  get_broker_or_404, conditional_error, risk_check, scalar_one_or_none, given_key, limit_of, keyed,
  open_of, idempotency_check,
}
use pios_backend.Prelude.{
  Bool-cases, Option-cases, Result, ap, ◌∙◌, ok_inj, Result-cases, keep_if, keep_if-nil, refl, sym,
  inl, inr, [], ◌∷◌, arith, ltb, ok, find_first, all_of, count_if, ℕ, String, ◌≡◌, true, Option,
  none, some, List,
}
use pios_backend.Num.{◌⊗◌, le, Num}
use mathlib.Core.Option.{some-injective}

module _ {F : Type 0} ⦃n : Num F⦄ where
  -- The gate as the rows tell it.
  pub record IsGated (settings : Settings F) (limits : List (RiskLimit F)) (seen : List (Order F))
      (user_id : ℕ) (qty : F) (price : Option F) (key : Option String) : Type 0 where
    pub open_count : ltb (count_if (open_of user_id) seen) settings.default_max_open_orders ≡ true
    pub unused_key :
        (k : String) → given_key key ≡ some k → find_first (keyed user_id k) seen ≡ none
    pub notional :
        (max_pos : F)
        → limit_of LimitType.max_position_usd settings.default_max_position_usd limits ≡ ok max_pos
        → le (qty ⊗ num_or_zero price) max_pos ≡ true

  unused :
      (user_id : ℕ) (key : Option String) (seen : List (Order F)) (last_check : List Check)
      → idempotency_check user_id key seen ≡ ok last_check
      → all_of (λ c. c.passed) last_check ≡ true
      → (k : String) → key ≡ some k
      → find_first (keyed user_id k) seen ≡ none
  unfolding idempotency_check scalar_one_or_none
  unused user_id none seen last_check e passed k same = cc
  unused user_id (some j) seen last_check e passed k same =
      rw (sym (some-injective j k same)) (from_rows (keep_if (keyed user_id j) seen) refl e)
    where
      from_rows :
          (rows : List (Order F))
          → keep_if (keyed user_id j) seen ≡ rows
          → idempotency_check user_id (some j) seen ≡ ok last_check
          → find_first (keyed user_id j) seen ≡ none
      from_rows [] kept f = keep_if-nil (keyed user_id j) seen kept
      from_rows (x ∷ []) kept f =
          let checks = ok_inj refl (rw (kept, idempotency_check) at f) in
          ground (arith, ap (all_of (λ c. c.passed)) checks ∙ passed)
      from_rows (x ∷ y ∷ rows) kept f = ground (arith, rw (kept, idempotency_check) at f)

  risk_check-IsGated :
      (settings : Settings F) (limits : List (RiskLimit F)) (seen : List (Order F)) (user_id : ℕ)
      (qty : F) (price : Option F) (key : Option String) (r : RiskResult F)
      → risk_check settings limits seen user_id qty price key ≡ ok r
      → r.passed ≡ true
      → IsGated settings limits seen user_id qty price key
  unfolding risk_check
  risk_check-IsGated settings limits seen user_id qty price key r e passed =
      elim (Result-cases
        (limit_of LimitType.max_position_usd settings.default_max_position_usd limits)) [
          | inr (_, no_max) ↦ ground (arith, rw (no_max, risk_check) at e)
          | inl (max_pos, is_max) ↦
              elim (Result-cases
                (limit_of LimitType.daily_loss_limit settings.default_daily_loss_limit limits)) [
                  | inr (_, no_daily) ↦ ground (arith, rw (is_max, no_daily, risk_check) at e)
                  | inl (daily, is_daily) ↦
                      elim (Result-cases (idempotency_check user_id (given_key key) seen)) [
                        | inr (_, no_check) ↦
                            ground (arith, rw (is_max, is_daily, no_check, risk_check) at e)
                        | inl (last_check, is_check) ↦
                            let same =
                              ok_inj refl (rw (is_max, is_daily, is_check, risk_check) at e) in
                            let all = ap RiskResult.passed same ∙ passed in
                            record {
                              open_count = ground (arith, all);
                              unused_key =
                                  unused user_id (given_key key) seen last_check is_check
                                    (ground (arith, all));
                              notional = λ m h. rw (ok_inj h is_max) (ground (arith, all));
                            }
                      ]
                ]
        ]

  -- What the desk accepts has passed the gate: the user had fewer open orders than the limit among
  -- the rows that the gate saw, a key that the request brings was on none of that user's rows, and
  -- the notional is within the limit.
  pub submit_order-IsGated :
      (text : InvalidTransition → String) (adapter : Order F → Result String (BrokerResult F))
      (settings : Settings F) (limits : List (RiskLimit F)) (brokers : List Broker)
      (seen : List (Order F)) (now i j : ℕ) (generated : String) (user : User) (req : OrderCreate F)
      (w : World F) {o : Order F} {w' : World F}
      → submit_order text adapter settings limits brokers seen now i j generated user req w
        ≡ ok (o, w')
      → IsGated settings limits seen user.id req.qty req.price req.client_order_id
  unfolding submit_order
  submit_order-IsGated text adapter settings limits brokers seen now i j generated user req w e =
      elim (Result-cases (get_broker_or_404 user req.broker_id brokers)) [
        | inr (_, no_broker) ↦ ground (arith, rw (no_broker, submit_order) at e)
        | inl (broker, is_broker) ↦ elim (Option-cases (conditional_error req)) [
          | inr (_, unpriced) ↦ ground (arith, rw (is_broker, unpriced, submit_order) at e)
          | inl priced ↦
              elim (Result-cases
                (risk_check settings limits seen user.id req.qty req.price req.client_order_id)) [
                  | inr (_, no_risk) ↦
                      ground (arith, rw (is_broker, priced, no_risk, submit_order) at e)
                  | inl (risk, is_risk) ↦ elim (Bool-cases risk.passed) [
                    | inl passed ↦
                        risk_check-IsGated settings limits seen user.id req.qty req.price
                          req.client_order_id risk is_risk passed
                    | inr refused ↦
                        ground (arith, rw (is_broker, priced, is_risk, refused, submit_order) at e)
                  ]
                ]
        ]
      ]
