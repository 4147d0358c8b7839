-- ===== src/FillSync/LostFill.antt =====
-- A broker that reports an order as filled without a price: `OandaAdapter.get_order` does so when it
-- cannot read the transaction.
use pios_backend.Prelude.{
  ℕ, String, ◌≡◌, refl, ◌∙◌, true, false, Option, none, some, ok, inl, inr, Bool-cases,
}
use pios_backend.Num.{Num, nought, ◌⊖◌, ◌⊗◌, ◌⊘◌, lt}
use pios_backend.Order.{Status, Order, is_working}
use pios_backend.Store.{Books, num_or_zero}
use pios_backend.FillSync.{
  BrokerStatus, BrokerState, Execution, Pass, fill_price_of, apply_delta, sync_row,
}
use pios_backend.FillSync.Outcome.{apply_status_ok}

-- Zero times, minus and over: what a price of nothing comes to.
pub record IsFlat (F : Type 0) ⦃n : Num F⦄ : Type 0 where
  pub mul_zero : (a : F) → nought ⊗ a ≡ nought
  pub sub_zero : ◌≡◌ {A = F} (nought ⊖ nought) nought
  pub div_zero : (a : F) → nought ⊘ a ≡ nought
  pub lt_zero : n.lt nought nought ≡ false
  pub eq_zero : n.eq nought nought ≡ true

module _ {F : Type 0} ⦃n : Num F⦄ where
  -- FILLED, of this quantity, at an average of zero.
  abbrev pub priceless : Option F → BrokerState F
  priceless filled = record {
    status = BrokerStatus.filled;
    filled_qty = filled;
    avg_price = some nought;
  }

  priceless_delta :
      IsFlat F
      → (now : ℕ) (filled : Option F) (o : Order F) (b : Books F) → o.filled_qty ≡ nought
      → o.avg_fill_price ≡ none
      → apply_delta now (priceless filled) none o b
        ≡ record { order = o; books = b; changed = false }
  unfolding apply_delta fill_price_of
  priceless_delta laws now filled o b e f =
      rw
        (
          f,
          e,
          laws.eq_zero,
          laws.mul_zero (num_or_zero filled),
          laws.mul_zero nought,
          laws.sub_zero,
          laws.div_zero (num_or_zero filled ⊖ nought),
          laws.lt_zero,
          laws.lt_zero,
        )
        (elim (Bool-cases (lt (n.lit 1 12) (num_or_zero filled ⊖ nought))) [
          | inl h ↦ rw h refl
          | inr h ↦ rw h refl
        ])

  -- A working order without fills that the broker reports as filled, whatever its quantity, but at
  -- an average price of zero and without a print, becomes FILLED with a filled quantity of zero and
  -- no fill, position or snapshot booked; and no later pass, whatever the broker then says, changes
  -- it. The laws are those of zero in products, differences and quotients.
  pub sync_row-priceless :
      IsFlat F
      → (now : ℕ) (source : String) (filled : Option F) (o : Order F) (b : Books F)
      → is_working o.status ≡ true
      → o.filled_qty ≡ nought
      → o.avg_fill_price ≡ none
      → (q : Pass F) × (sync_row now source (priceless filled) none o b ≡ ok q)
        × (q.order.status ≡ some Status.filled)
        × (q.order.filled_qty ≡ nought)
        × (q.books ≡ b)
        × ((now' : ℕ) (source' : String) (state : BrokerState F) (execution : Option (Execution F))
            → sync_row now' source' state execution q.order q.books
              ≡ ok (record { order = q.order; books = q.books; changed = false }))
  unfolding sync_row is_working
  sync_row-priceless laws now source filled o b w e f =
      let idle = priceless_delta laws now filled o b e f in
      let (q, g, settled) =
        apply_status_ok now source BrokerStatus.filled
          (record { order = o; books = b; changed = false }) w in
      (
        q,
        rw (w, idle) g,
        settled.status,
        settled.filled_qty ∙ e,
        settled.books,
        λ now' source' state execution. rw settled.status refl,
      )
