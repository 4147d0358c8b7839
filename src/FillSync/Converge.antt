-- ===== src/FillSync/Converge.antt =====
-- Passes that overlap: what a pass books, and that the same broker state is never booked twice.
use pios_backend.Prelude.{
  ◌∙◌, sym, ok_inj, ap, ◌&&◌, ℕ, String, ◌≡◌, refl, ◌⊎◌, inl, inr, Bool, true, false, not, ◌||◌,
  Option, none, ok, arith, Bool-cases,
}
use pios_backend.Num.{Num, nought, ◌⊖◌, lt, or_zero}
use pios_backend.Order.{Status, Order, is_working}
use pios_backend.Store.{Books, num_or_zero, book_fill, book_snapshot}
use pios_backend.FillSync.{
  BrokerStatus, BrokerState, Execution, Pass, is_unplaced, apply_delta, book_delta, fill_price_of,
  sync_row,
}
use pios_backend.FillSync.Outcome.{target, or_kept, IsSettled, apply_status_ok, apply_delta_status}

-- Nothing minus itself is not positive, and what compares equal to zero is zero.
pub record IsSteady (F : Type 0) ⦃n : Num F⦄ : Type 0 where
  pub sub_self : (a : F) → lt (n.lit 1 12) (a ⊖ a) ≡ false
  pub eq_nought : (a : F) → n.eq a nought ≡ true → a ≡ nought

target_idle :
    (s : BrokerStatus) (changed : Bool) (old : Option Status)
    → is_working (or_kept (target s changed) old) ≡ true
    → target s false ≡ none
unfolding is_working
target_idle s changed old = ground arith

module _ {F : Type 0} ⦃n : Num F⦄ where
  -- The quantity that a pass finds to be newly filled, and the price at which it books it.
  abbrev pub newly_filled : BrokerState F → Order F → F
  newly_filled state o = num_or_zero state.filled_qty ⊖ or_zero o.filled_qty nought

  abbrev pub booking_price : BrokerState F → Option (Execution F) → Order F → F
  booking_price state execution o =
      fill_price_of execution (num_or_zero state.avg_price) (num_or_zero state.filled_qty)
        (num_or_zero o.avg_fill_price) (or_zero o.filled_qty nought) (newly_filled state o)

  -- A pass books exactly when the order is working, the broker has it, more than the tolerance is newly
  -- filled, and the price is positive.
  pub record BooksFill (state : BrokerState F) (execution : Option (Execution F)) (o : Order F)
      : Type 0 where
    pub working : is_working o.status ≡ true
    pub placed : is_unplaced state.status ≡ false
    pub newly_pos : lt (n.lit 1 12) (newly_filled state o) ≡ true
    pub priced : lt nought (booking_price state execution o) ≡ true

  -- What it does to the order and the books: one fill of the whole delta, with its position and its
  -- snapshot; or nothing, when one of the four conditions fails.
  abbrev pub IsBooked :
      ℕ → BrokerState F → Option (Execution F) → Order F → Books F → Order F → Books F → Type 0
  IsBooked now state execution o b o' b' =
      ((¬ BooksFill state execution o) × (b' ≡ b) × (o'.filled_qty ≡ o.filled_qty))
      ⊎ (BooksFill state execution o
          × (o'.filled_qty ≡ num_or_zero state.filled_qty)
          × (b'
              ≡ book_snapshot o.user_id
                  (book_fill now o (newly_filled state o) (booking_price state execution o) b)))

  apply_delta-IsBooked :
      (now : ℕ) (state : BrokerState F) (execution : Option (Execution F)) (o : Order F)
      (b : Books F)
      → is_working o.status ≡ true
      → is_unplaced state.status ≡ false
      → let p = apply_delta now state execution o b in
        IsBooked now state execution o b p.order p.books
  unfolding apply_delta
  apply_delta-IsBooked now state execution o b working placed =
      elim (Bool-cases (lt (n.lit 1 12) (newly_filled state o))) [
        | inl some_new ↦ elim (Bool-cases (lt nought (booking_price state execution o))) [
          | inl priced ↦
              rw (some_new, priced, apply_delta)
                (inr (
                  record {
                    working = working;
                    placed = placed;
                    newly_pos = some_new;
                    priced = priced;
                  },
                  refl,
                  refl,
                ))
          | inr free ↦
              rw (some_new, free, apply_delta) (inl ((λ k. let p = k.priced in cc), refl, refl))
        ]
        | inr none_new ↦
            rw (none_new, apply_delta) (inl ((λ k. let p = k.newly_pos in cc), refl, refl))
      ]

  -- Whether the first half of a pass books anything.
  abbrev pub decides : BrokerState F → Option (Execution F) → F → Option F → Bool
  decides state execution filled avg =
      let broker_filled = num_or_zero state.filled_qty in
      let newly = broker_filled ⊖ or_zero filled nought in
      lt (n.lit 1 12) newly
      && lt nought (
          fill_price_of execution (num_or_zero state.avg_price) broker_filled (num_or_zero avg)
            (or_zero filled nought) newly)

  pub apply_delta_changed :
      (now : ℕ) (state : BrokerState F) (execution : Option (Execution F)) (o : Order F)
      (b : Books F)
      → (apply_delta now state execution o b).changed
        ≡ decides state execution o.filled_qty o.avg_fill_price
  unfolding apply_delta book_delta
  apply_delta_changed now state execution o b =
      elim (Bool-cases (decides state execution o.filled_qty o.avg_fill_price)) [
        | inl d ↦ rw d refl
        | inr d ↦ rw d refl
      ]

  apply_delta_idle :
      (now : ℕ) (state : BrokerState F) (execution : Option (Execution F)) (o : Order F)
      (b : Books F)
      → (apply_delta now state execution o b).changed ≡ false
      → apply_delta now state execution o b ≡ record { order = o; books = b; changed = false }
  unfolding apply_delta book_delta
  apply_delta_idle now state execution o b =
      elim (Bool-cases (decides state execution o.filled_qty o.avg_fill_price)) [
        | inl d ↦ rw d (ground arith)
        | inr d ↦ rw d (λ _. refl)
      ]

  apply_delta_filled :
      (now : ℕ) (state : BrokerState F) (execution : Option (Execution F)) (o : Order F)
      (b : Books F)
      → (apply_delta now state execution o b).changed ≡ true
      → (apply_delta now state execution o b).order.filled_qty ≡ num_or_zero state.filled_qty
  unfolding apply_delta book_delta
  apply_delta_filled now state execution o b =
      elim (Bool-cases (decides state execution o.filled_qty o.avg_fill_price)) [
        | inl d ↦ rw d (λ _. refl)
        | inr d ↦ rw d (ground arith)
      ]

  -- A pass is either idle or settled.
  sync_row-cases :
      (now : ℕ) (source : String) (state : BrokerState F) (execution : Option (Execution F))
      (o : Order F) (b : Books F) (q : Pass F)
      → sync_row now source state execution o b ≡ ok q
      → ((is_unplaced state.status ≡ false)
          × IsSettled state.status (apply_delta now state execution o b) q)
        ⊎ ((not (is_working o.status) || is_unplaced state.status ≡ true)
            × (q ≡ record { order = o; books = b; changed = false }))
  unfolding sync_row
  sync_row-cases now source state execution o b q e = elim (Bool-cases (is_working o.status)) [
    | inr w ↦ inr (rw w refl, ground (arith, w, e))
    | inl w ↦ elim (Bool-cases (is_unplaced state.status)) [
      | inl u ↦ inr (rw (w, u) refl, ground (arith, w, u, e))
      | inr u ↦
          let p = apply_delta now state execution o b in
          let (same, _) = apply_delta_status now state execution o b in
          let (r, f, settled) = apply_status_ok now source state.status p (rw same w) in
          let same_pass = ok_inj {r = sync_row now source state execution o b} (rw (w, u) f) e in
          inl (u, rw (sym same_pass) settled)
    ]
  ]

  -- A pass books exactly when the order is working, the broker has it, more than the tolerance is newly
  -- filled, and the price is positive: it then books one fill of all that the broker reports beyond the
  -- row's filled quantity, at that price, with the position and the snapshot, and the row carries the
  -- broker's quantity. Otherwise the pass leaves the books and the quantity as they are.
  pub sync_row-IsBooked :
      (now : ℕ) (source : String) (state : BrokerState F) (execution : Option (Execution F))
      (o : Order F) (b : Books F) (q : Pass F)
      → sync_row now source state execution o b ≡ ok q
      → IsBooked now state execution o b q.order q.books
  unfolding sync_row
  sync_row-IsBooked now source state execution o b q e = elim (Bool-cases (is_working o.status)) [
    | inr w ↦
        let idle : q ≡ record { order = o; books = b; changed = false } =
          ground (arith, w, rw (w, sync_row) at e) in
        rw idle (inl ((λ k. let p = k.working in cc), refl, refl))
    | inl w ↦ elim (Bool-cases (is_unplaced state.status)) [
      | inl u ↦
          let idle : q ≡ record { order = o; books = b; changed = false } =
            ground (arith, rw (w, u, sync_row) at e) in
          rw idle (inl ((λ k. let p = k.placed in cc), refl, refl))
      | inr u ↦ elim (sync_row-cases now source state execution o b q e) [
        | inl (_, settled) ↦
            rw (settled.books, settled.filled_qty)
              (apply_delta-IsBooked now state execution o b w u)
        | inr (shut, _) ↦ absurd (ground (arith, w, u, shut))
      ]
    ]
  ]

  pub or_zero_same : IsSteady F → (a : F) → or_zero a nought ≡ a
  or_zero_same laws a = elim (Bool-cases (n.eq a nought)) [
    | inl z ↦ rw z (sym (laws.eq_nought a z))
    | inr z ↦ rw z refl
  ]

  decides_nothing :
      IsSteady F
      → (state : BrokerState F) (execution : Option (Execution F)) (avg : Option F)
      → decides state execution (num_or_zero state.filled_qty) avg ≡ false
  decides_nothing laws state execution avg =
      let qty = num_or_zero state.filled_qty in rw (or_zero_same laws qty, laws.sub_self qty) refl

  -- After a pass, the next one on the same broker state books nothing.
  decides_again :
      IsSteady F
      → (now now' : ℕ) (state : BrokerState F) (execution : Option (Execution F)) (o : Order F)
        (b : Books F) (q : Pass F)
      → IsSettled state.status (apply_delta now state execution o b) q
      → (apply_delta now' state execution q.order q.books).changed ≡ false
  decides_again laws now now' state execution o b q settled =
      let p = apply_delta now state execution o b in
      elim (Bool-cases p.changed) [
        | inl booked ↦
            rw
              (
                apply_delta_changed now' state execution q.order q.books,
                settled.filled_qty,
                apply_delta_filled now state execution o b booked,
              )
              (decides_nothing laws state execution q.order.avg_fill_price)
        | inr idle ↦
            let same = apply_delta_idle now state execution o b idle in
            rw
              (
                apply_delta_changed now' state execution q.order q.books,
                settled.filled_qty,
                settled.avg_fill_price,
                ap Pass.order same,
              )
              (sym (apply_delta_changed now state execution o b) ∙ idle)
      ]

  settled_again :
      IsSteady F
      → (now now' : ℕ) (source' : String) (state : BrokerState F) (execution : Option (Execution F))
        (o : Order F) (b : Books F) (q : Pass F)
      → is_unplaced state.status ≡ false
      → IsSettled state.status (apply_delta now state execution o b) q
      → is_working q.order.status ≡ true
      → (r : Pass F) × (sync_row now' source' state execution q.order q.books ≡ ok r)
        × (r.changed ≡ false)
  unfolding sync_row
  settled_again laws now now' source' state execution o b q u settled w =
      let p' = apply_delta now' state execution q.order q.books in
      let idle = decides_again laws now now' state execution o b q settled in
      let (same, _) = apply_delta_status now' state execution q.order q.books in
      let (r, f, after) = apply_status_ok now' source' state.status p' (rw same w) in
      let nothing =
        target_idle state.status (apply_delta now state execution o b).changed
          (apply_delta now state execution o b).order.status (rw (sym settled.status) w) in
      (r, rw (w, u) f, rw (after.changed, idle, nothing) refl)

  -- Two passes on the same broker state and the same print: when the first one ends, the second
  -- one ends too and changes nothing. It books no fill and makes no transition, at whatever times
  -- and from whatever sources the two run. The laws are that a number minus itself does not exceed
  -- 1e-12 and that what compares equal to zero is zero.
  pub sync_row_converges :
      IsSteady F
      → (now now' : ℕ) (source source' : String) (state : BrokerState F)
        (execution : Option (Execution F)) (o : Order F) (b : Books F) (q : Pass F)
      → sync_row now source state execution o b ≡ ok q
      → (r : Pass F) × (sync_row now' source' state execution q.order q.books ≡ ok r)
        × (r.changed ≡ false)
  unfolding sync_row
  sync_row_converges laws now now' source source' state execution o b q e =
      elim (sync_row-cases now source state execution o b q e) [
        | inr (shut, idle) ↦
            (record { order = o; books = b; changed = false }, rw (idle, shut) refl, refl)
        | inl (u, settled) ↦ elim (Bool-cases (is_working q.order.status)) [
          | inl w ↦ settled_again laws now now' source' state execution o b q u settled w
          | inr w ↦ (record { order = q.order; books = q.books; changed = false }, rw w refl, refl)
        ]
      ]
