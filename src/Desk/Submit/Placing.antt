-- ===== src/Desk/Submit/Placing.antt =====
-- What one call of the broker makes of an order, on every branch.
use pios_backend.Order.{
  allowed_order_transitions, status_in, transition, is_working, moved, Status, Order,
  InvalidTransition,
}
use pios_backend.Desk.Submit.{fill_note, num_or, book_instant, place}
use pios_backend.Prelude.{
  Option, Bool-cases, refl, inl, inr, if◌then◌else◌, Result, ok, err, ℕ, String, ◌≡◌, some,
}
use pios_backend.Desk.{BrokerResult}
use pios_backend.Num.{nought, Num}
use pios_backend.Store.{Books}
use pios_backend.Order.Machine.{transition_working}

module _ {F : Type 0} where
  -- The status that the broker's answer stands for.
  abbrev pub placed_status : Result String (BrokerResult F) → Status
  placed_status (err _) = Status.rejected
  placed_status (ok r) = if r.is_filled then Status.filled else Status.submitted

module _ {F : Type 0} ⦃n : Num F⦄ where
  -- The books that the answer stands for: an instant fill is booked with its position and snapshot.
  abbrev pub placed_books : ℕ → Result String (BrokerResult F) → Order F → Books F → Books F
  placed_books now (err _) o b = b
  placed_books now (ok r) o b =
      if r.is_filled
      then book_instant now (record o { broker_order_id = r.broker_order_id })
          (num_or r.filled_qty o.qty) (num_or r.avg_price (num_or o.price nought)) b
      else b

  -- Another SUBMITTED is accepted.
  pub transition_submitted :
      (reason : Option String) (now : ℕ) (o : Order F)
      → o.status ≡ some Status.submitted
      → transition Status.submitted reason now o ≡ ok (moved Status.submitted reason now o)
  unfolding transition status_in allowed_order_transitions
  transition_submitted reason now o e = rw e refl

  -- The broker's answer on an order that is SUBMITTED is always recorded: the call returns the row
  -- with the status that the answer stands for and the books with exactly the fill that it reports,
  -- and the row keeps its identifier, its owner and its key.
  pub place_lem :
      (text : InvalidTransition → String) (now : ℕ) (answer : Result String (BrokerResult F))
      (o : Order F) (b : Books F)
      → o.status ≡ some Status.submitted
      → (o' : Order F) × (place text now answer o b ≡ ok (o', placed_books now answer o b))
        × (o'.status ≡ some (placed_status answer))
        × (o'.id ≡ o.id)
        × (o'.user_id ≡ o.user_id)
        × (o'.client_order_id ≡ o.client_order_id)
  unfolding is_working place
  place_lem text now (err reason) o b e = (
    record (moved Status.rejected (some reason) now o) { reject_reason = some reason },
    rw (transition_working Status.rejected (some reason) now o (rw e refl) refl, place) refl,
    refl,
    refl,
    refl,
    refl,
  )
  place_lem text now (ok r) o b e = elim (Bool-cases r.is_filled) [
    | inl hit ↦
        let sent = record o {
          broker_order_id = r.broker_order_id;
          filled_qty = num_or r.filled_qty o.qty;
          avg_fill_price = some (num_or r.avg_price (num_or o.price nought));
        } in
        let note = fill_note (num_or r.filled_qty o.qty) o.qty in
        (
          record (moved Status.filled note now sent) { filled_at = some now },
          rw (hit, transition_working Status.filled note now sent (rw e refl) refl, place) refl,
          rw hit refl,
          refl,
          refl,
          refl,
        )
    | inr miss ↦
        let sent = record o { broker_order_id = r.broker_order_id } in
        (
          moved Status.submitted (some "Sent to broker") now sent,
          rw (miss, transition_submitted (some "Sent to broker") now sent e, place) refl,
          rw miss refl,
          refl,
          refl,
          refl,
        )
  ]
