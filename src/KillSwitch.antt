-- ===== src/KillSwitch.antt =====
-- `trigger_kill_switch` (app/services/risk_service.py).
use pios_backend.Desk.Moves.{cancelled_row, cancel_rows_open, audit_order, cancel_rows, asked_of}
use pios_backend.Order.{is_open, Order}
use pios_backend.Prelude.{
  count_if-update_if, keep_if-update_if, refl, arith, ◌==◌, Result, ok, err, length, keep_if,
  update_if, count_if, ℕ, String, str_append, ◌≡◌, Bool, false, not, ◌&&◌, some, List, [], ◌∷◌,
  ◌++◌,
}
use pios_backend.Desk.{User, OrderError}
use pios_backend.Position.{Position}
use pios_backend.Store.{World}
use pios_backend.Desk.Risk.{open_of}

-- `KillSwitchEvent`
pub record KillSwitchEvent : Type 0 where
  pub triggered_by : ℕ
  pub reason : String
  pub orders_cancelled : ℕ
  pub positions_closed : ℕ
  pub completed_at : ℕ

-- `Alert`
pub record Alert : Type 0 where
  pub title : String
  pub message : String

-- The tables that the switch writes.
pub record Switchboard (F : Type 0) : Type 0 where
  pub world : World F
  pub kill_events : List KillSwitchEvent
  pub alerts : List Alert

module _ {F : Type 0} where
  -- The user's open positions.
  abbrev pub held_by : ℕ → Position F → Bool
  held_by user_id p = p.user_id == user_id && p.is_open

  abbrev pub closed_position : ℕ → Position F → Position F
  closed_position now p = record p { is_open = false; closed_at = some now }

  abbrev pub kill_event : ℕ → String → User → World F → KillSwitchEvent
  kill_event now reason user w = record {
    triggered_by = user.id;
    reason = reason;
    orders_cancelled = count_if (open_of user.id) w.orders;
    positions_closed = count_if (held_by user.id) w.books.positions;
    completed_at = now;
  }

  -- The rows after the two loops.
  abbrev pub swept : ℕ → User → List (Order F) → World F → World F
  swept now user orders w = record w {
    orders = orders;
    books = record w.books {
      positions = update_if (held_by user.id) (closed_position now) w.books.positions;
    };
    asked = w.asked ++ asked_of (open_of user.id) w.orders;
  }

  -- What the switch leaves, once the orders are `orders`. The identifier that the database gives to
  -- the new event stands in the audit call; here it is the event's place in the table.
  abbrev pub switched : ℕ → String → User → String → List (Order F) → Switchboard F → Switchboard F
  switched now reason user email orders s = record {
    world = audit_order "KILL_SWITCH" (length s.kill_events) user (swept now user orders s.world);
    kill_events = s.kill_events ++ (kill_event now reason user s.world ∷ []);
    alerts =
        s.alerts
        ++ (record { title = str_append "Kill switch triggered by " email; message = reason } ∷ []);
  }

  unfoldable pub trigger_kill_switch :
      ℕ
      → String
      → User
      → String
      → Switchboard F
      → Result OrderError (KillSwitchEvent × Switchboard F)
  trigger_kill_switch now reason user email s =
      elim (cancel_rows (open_of user.id) "Kill switch triggered" now s.world.orders) [
        | err e ↦ err e
        | ok orders ↦
            ok (kill_event now reason user s.world, switched now reason user email orders s)
      ]

  abbrev pub not_of : ℕ → Order F → Bool
  not_of user_id o = not (o.user_id == user_id)

  -- The switch never fails, whatever it finds. After it the user has no open order and no open
  -- position, and the event it returns counts the orders it has cancelled and the positions it has
  -- closed; the orders of other users are those of before.
  pub trigger_kill_switch_lem :
      (now : ℕ) (reason : String) (user : User) (email : String) (s : Switchboard F)
      → (event : KillSwitchEvent) × (s' : Switchboard F) × (trigger_kill_switch now reason user
            email s
          ≡ ok (event, s'))
        × (count_if (open_of user.id) s'.world.orders ≡ 0)
        × (count_if (held_by user.id) s'.world.books.positions ≡ 0)
        × (event.orders_cancelled ≡ count_if (open_of user.id) s.world.orders)
        × (event.positions_closed ≡ count_if (held_by user.id) s.world.books.positions)
        × (keep_if (not_of user.id) s'.world.orders ≡ keep_if (not_of user.id) s.world.orders)
  unfolding trigger_kill_switch is_open
  trigger_kill_switch_lem now reason user email s =
      let all =
        cancel_rows_open (open_of user.id) "Kill switch triggered" now s.world.orders
          (λ o h. ground (arith, h)) in
      (
        kill_event now reason user s.world,
        switched now reason user email
            (update_if (open_of user.id) (cancelled_row "Kill switch triggered" now) s.world.orders)
            s,
        rw (all, trigger_kill_switch) refl,
        count_if-update_if (open_of user.id) (open_of user.id)
            (cancelled_row "Kill switch triggered" now) s.world.orders (λ o h. ground arith)
            (λ o h. h),
        count_if-update_if (held_by user.id) (held_by user.id) (closed_position now)
            s.world.books.positions (λ o h. ground arith) (λ o h. h),
        refl,
        refl,
        keep_if-update_if (open_of user.id) (not_of user.id)
            (cancelled_row "Kill switch triggered" now) s.world.orders (λ o h. ground (arith, h))
            (λ o h. ground (arith, h)),
      )
