-- ===== src/Desk/Moves.antt =====
-- Transitions in the services that let the exception through, and the cancellation of several rows
-- (the same loop in `cancel_order`, `_cancel_oco_siblings` and `trigger_kill_switch`).
use pios_backend.Desk.{transition_refused, true, some, OrderError, User}
use pios_backend.Desk.Risk.{given_key}
use pios_backend.Prelude.{
  Bool-cases, refl, inl, inr, none, if◌then◌else◌, ok, err, [], ◌≡◌, ◌++◌, ◌∷◌, List, update_if,
  Result, Bool, ℕ, Option, String,
}
use pios_backend.Order.Machine.{transition_cancel}
use pios_backend.Store.{is_order, World}
use pios_backend.Order.{transition, is_open, moved, Status, Order}

module _ {F : Type 0} where
  -- `order.transition(...)` in code that lets the error through.
  abbrev pub move : Status → Option String → ℕ → Order F → Result OrderError (Order F)
  move s reason now o = elim (transition s reason now o) [
    | ok o' ↦ ok o'
    | err e ↦ err (transition_refused e)
  ]

  abbrev pub store : Order F → World F → World F
  store row w = record w { orders = update_if (is_order row.id) (λ _. row) w.orders }

  abbrev pub audit_order : String → ℕ → User → World F → World F
  audit_order action i user w = record w {
    audits = w.audits ++ (record { action = action; resource_id = i; actor_id = user.id } ∷ []);
  }

  -- `transition("CANCELLED", …)` and `cancelled_at`.
  abbrev pub cancelled_row : String → ℕ → Order F → Order F
  cancelled_row reason now o = record (moved Status.cancelled (some reason) now o) {
    cancelled_at = some now;
  }

  unfoldable pub cancel_row : String → ℕ → Order F → Result OrderError (Order F)
  cancel_row reason now o = elim (move Status.cancelled (some reason) now o) [
    | err e ↦ err e
    | ok o' ↦ ok (record o' { cancelled_at = some now })
  ]

  -- The loop over the rows of a query.
  unfoldable pub cancel_rows :
      (Order F → Bool) → String → ℕ → List (Order F) → Result OrderError (List (Order F))
  cancel_rows p reason now [] = ok []
  cancel_rows p reason now (o ∷ os) =
      let rest = cancel_rows p reason now os in
      elim (if p o then cancel_row reason now o else ok o) [
        | err e ↦ err e
        | ok o' ↦ elim rest [ err e ↦ err e | ok os' ↦ ok (o' ∷ os') ]
      ]

  -- The cancellations that the loop asks of the brokers; what they answer is ignored.
  unfoldable pub asked_of : (Order F → Bool) → List (Order F) → List String
  asked_of p [] = []
  asked_of p (o ∷ os) =
      let rest = asked_of p os in
      if p o then elim (given_key o.broker_order_id) [ none ↦ rest | some b ↦ b ∷ rest ] else rest

  pub cancel_row_open :
      (reason : String) (now : ℕ) (o : Order F)
      → is_open o.status ≡ true
      → cancel_row reason now o ≡ ok (cancelled_row reason now o)
  unfolding cancel_row
  cancel_row_open reason now o h = rw (transition_cancel (some reason) now o h, cancel_row) refl

  -- Over open rows the loop never raises, and it is an update of those rows.
  pub cancel_rows_open :
      (p : Order F → Bool) (reason : String) (now : ℕ) (os : List (Order F))
      → ((o : Order F) → p o ≡ true → is_open o.status ≡ true)
      → cancel_rows p reason now os ≡ ok (update_if p (cancelled_row reason now) os)
  unfolding cancel_rows
  cancel_rows_open p reason now [] h = refl
  cancel_rows_open p reason now (o ∷ os) h = elim (Bool-cases (p o)) [
    | inl hit ↦
        rw
          (
            hit,
            cancel_row_open reason now o (h o hit),
            cancel_rows_open p reason now os h,
            cancel_rows,
          )
          refl
    | inr miss ↦ rw (miss, cancel_rows_open p reason now os h, cancel_rows) refl
  ]
