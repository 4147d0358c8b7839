-- ===== src/FillSync/Outcome.antt =====
-- How one pass of the reconciliation ends, on every branch.
use pios_backend.Order.Machine.{transition_working, is_outcome}
use pios_backend.Prelude.{
  is_some, ◌||◌, ℕ, String, ◌≡◌, refl, inl, inr, Bool, true, false, Option, none, some, ok, arith,
  Bool-cases,
}
use pios_backend.Num.{Num}
use pios_backend.Order.{Status, Order, moved, is_working}
use pios_backend.Store.{Books}
use pios_backend.FillSync.{
  str_append, is_unplaced, BrokerStatus, BrokerState, Execution, Pass, apply_delta, apply_status,
  closing, sync_row,
}

-- What the broker's status makes of the row's: `none` where it makes nothing of it.
abbrev pub target : BrokerStatus → Bool → Option Status
target BrokerStatus.filled changed = some Status.filled
target BrokerStatus.partial true = some Status.partial
target BrokerStatus.partial false = none
target BrokerStatus.rejected changed = some Status.rejected
target BrokerStatus.cancelled changed = some Status.cancelled
target BrokerStatus.expired changed = some Status.expired
target _ changed = none

abbrev pub or_kept : Option Status → Option Status → Option Status
or_kept none old = old
or_kept (some s) old = some s

module _ {F : Type 0} ⦃n : Num F⦄ where
  closing_ok :
      (s : Status) (reason : String) (now : ℕ) (write : Order F → Order F) (p : Pass F)
      → is_working p.order.status ≡ true
      → is_outcome s ≡ true
      → closing s reason now write p
        ≡ ok (record p { order = write (moved s (some reason) now p.order); changed = true })
  closing_ok s reason now write p w h =
      rw (transition_working s (some reason) now p.order w h, closing)

  -- What the second half of a pass keeps and changes.
  pub record IsSettled (s : BrokerStatus) (p q : Pass F) : Type 0 where
    pub status : q.order.status ≡ or_kept (target s p.changed) p.order.status
    pub books : q.books ≡ p.books
    pub filled_qty : q.order.filled_qty ≡ p.order.filled_qty
    pub changed : q.changed ≡ p.changed || is_some (target s p.changed)
    pub avg_fill_price : q.order.avg_fill_price ≡ p.order.avg_fill_price
    pub id : q.order.id ≡ p.order.id
    pub broker_order_id : q.order.broker_order_id ≡ p.order.broker_order_id

  -- From SUBMITTED and PARTIAL the state machine accepts all that a broker's status asks for.
  pub apply_status_ok :
      (now : ℕ) (source : String) (s : BrokerStatus) (p : Pass F)
      → is_working p.order.status ≡ true
      → (q : Pass F) × (apply_status now source s p ≡ ok q) × IsSettled s p q
  unfolding apply_status
  apply_status_ok now source BrokerStatus.filled p w =
      (_, closing_ok Status.filled _ now _ p w refl, ground arith)
  apply_status_ok now source BrokerStatus.partial p w = elim (Bool-cases p.changed) [
    | inl c ↦ (
      record p {
        order = moved Status.partial (some (str_append "Broker " source)) now p.order;
        changed = true;
      },
      rw c (closing_ok Status.partial (str_append "Broker " source) now (λ o. o) p w refl),
      ground arith,
    )
    | inr c ↦ (p, rw c, ground arith)
  ]
  apply_status_ok now source BrokerStatus.rejected p w =
      (_, closing_ok Status.rejected _ now _ p w refl, ground arith)
  apply_status_ok now source BrokerStatus.cancelled p w =
      (_, closing_ok Status.cancelled _ now _ p w refl, ground arith)
  apply_status_ok now source BrokerStatus.expired p w =
      (_, closing_ok Status.expired _ now _ p w refl, ground arith)
  apply_status_ok now source BrokerStatus.unplaced p w = (p, refl, ground arith)
  apply_status_ok now source BrokerStatus.submitted p w = (p, refl, ground arith)
  apply_status_ok now source BrokerStatus.other p w = (p, refl, ground arith)

  -- The first half of a pass.
  pub apply_delta_status :
      (now : ℕ) (state : BrokerState F) (execution : Option (Execution F)) (o : Order F)
      (b : Books F)
      → ((apply_delta now state execution o b).order.status ≡ o.status)
        × ((apply_delta now state execution o b).order.id ≡ o.id)
  unfolding apply_delta
  apply_delta_status now state execution o b = ground arith

  pub apply_delta_broker_order_id :
      (now : ℕ) (state : BrokerState F) (execution : Option (Execution F)) (o : Order F)
      (b : Books F)
      → (apply_delta now state execution o b).order.broker_order_id ≡ o.broker_order_id
  unfolding apply_delta
  apply_delta_broker_order_id now state execution o b = ground arith

  -- A pass over a working order that the broker knows never fails on the state machine, whatever
  -- the broker says of it: the order ends with the status that the broker's state stands for, or
  -- keeps the old one.
  pub sync_row_status :
      (now : ℕ) (source : String) (state : BrokerState F) (execution : Option (Execution F))
      (o : Order F) (b : Books F)
      → is_working o.status ≡ true
      → is_unplaced state.status ≡ false
      → (q : Pass F) × (sync_row now source state execution o b ≡ ok q)
        × (q.order.status
            ≡ or_kept (target state.status (apply_delta now state execution o b).changed) o.status)
  unfolding sync_row
  sync_row_status now source state execution o b w u =
      let p = apply_delta now state execution o b in
      let (same, _) = apply_delta_status now state execution o b in
      let (q, e, settled) = apply_status_ok now source state.status p (rw same w) in
      (q, rw (w, u) e, ground (arith, settled.status, same))
