-- ===== src/Algo/Filling.antt =====
-- A schedule that nobody disturbs fills its order (`run_algo_order`).
use pios_backend.Desk.{BrokerResult}
use pios_backend.Num.{◌⊕◌, ◌⊖◌, le, Num}
use pios_backend.Algo.{
  slice_note, eps, slice_order, slice_price, working_row, slice_booked, run_slices, SliceOrder,
  Venue,
}
use pios_backend.Order.{is_working, Status, Order}
use pios_backend.Store.{fill_row, book_fill, book_snapshot, is_order, Fill, Books, World}
use pios_backend.Prelude.{
  ==_refl, ok, find_first, find_first-passes, find_first-update_if_row, ℕ, ◌+◌, String, ◌≡◌, refl,
  ap, ◌∙◌, true, false, Option, some, List, [], ◌∷◌, ◌++◌, map, foldl,
}
use mathlib.Core.Path.{sym, subst}
use mathlib.Core.List.{append_assoc}
use pios_backend.Algo.Schedule.{quantities, fill_quantities, book_slice_lem}

module _ {F : Type 0} ⦃n : Num F⦄ where
  -- The slices complete the quantity, and no proper part of them does.
  abbrev pub Completes : F → F → List F → Type 0
  Completes qty filled [] = ⊥
  Completes qty filled (q ∷ []) = le (qty ⊖ eps) (filled ⊕ q) ≡ true
  Completes qty filled (q ∷ r ∷ qs) =
      (le (qty ⊖ eps) (filled ⊕ q) ≡ false) × Completes qty (filled ⊕ q) (r ∷ qs)

  -- The same venue, where nobody else touches the tables.
  abbrev pub undisturbed : Venue F → Venue F
  undisturbed v = record v { between = λ j w. w }

  -- The row that is found is the working one.
  working_row-found :
      (i : ℕ) (w : World F) (o : Order F)
      → find_first (is_order i) w.orders ≡ some o
      → is_working o.status ≡ true
      → working_row i w ≡ some o
  unfolding working_row
  working_row-found i w o found working = rw (found, working, working_row) refl

  map-append_one :
      (fs : List (Fill F)) (f : Fill F)
      → map (λ g. g.qty) (fs ++ (f ∷ [])) ≡ map (λ g. g.qty) fs ++ (f.qty ∷ [])
  map-append_one [] f = refl
  map-append_one (g ∷ fs) f = ap (λ xs. g.qty ∷ xs) (map-append_one fs f)

  -- A slice is booked as one fill of its quantity.
  booked-fill_quantities :
      (now : ℕ) (q price : F) (o o' : Order F) (w : World F)
      → fill_quantities
          (slice_booked o' (book_snapshot o.user_id (book_fill now o q price w.books)) w)
        ≡ fill_quantities w ++ (n.numeric q ∷ [])
  unfolding book_snapshot book_fill fill_row
  booked-fill_quantities now q price o o' w = map-append_one w.books.fills (fill_row o q price)

  -- The tables after a slice hold its row, and its fill.
  slice_booked-found :
      (i : ℕ) (w : World F) (o o' : Order F) (b : Books F)
      → find_first (is_order i) w.orders ≡ some o
      → o'.id ≡ o.id
      → find_first (is_order i) (slice_booked o' b w).orders ≡ some o'
  slice_booked-found i w o o' b found same =
      let named = find_first-passes (is_order i) w.orders found in
      find_first-update_if_row (is_order i) (is_order o'.id) w.orders o o' found
        (rw same (==_refl o.id)) (rw same named)

module _ {F : Type 0} ⦃n : Num F⦄ (v : Venue F) (parent : Option String) (i total : ℕ) where
  -- A schedule that is left alone fills its order: where the broker accepts every slice, nobody else
  -- touches the tables, and the slices complete the quantity and no proper part of them does, every
  -- slice goes to the broker, each is booked as one fill of its quantity, as the
  -- column keeps it, and the order ends FILLED at
  -- the sum of the slices.
  pub run_slices_fills :
      ((s : SliceOrder F) → (r : BrokerResult F) × (v.adapter s ≡ ok r))
      → (k : ℕ) (sizes : List F) (w : World F) (o : Order F)
      → find_first (is_order i) w.orders ≡ some o
      → is_working o.status ≡ true
      → Completes o.qty o.filled_qty sizes
      → let final = run_slices (undisturbed v) parent i total k sizes w in
        (o' : Order F) × (find_first (is_order i) final.0.orders ≡ some o')
        × (o'.status ≡ some Status.filled)
        × (o'.filled_qty ≡ foldl ◌⊕◌ o.filled_qty sizes)
        × (quantities final.1 ≡ sizes)
        × (fill_quantities final.0 ≡ fill_quantities w ++ map n.numeric sizes)
  unfolding run_slices slice_order is_working
  run_slices_fills accepts k [] w o found working plan = absurd plan
  run_slices_fills accepts k (q ∷ []) w o found working plan =
      let (r, answered) = accepts (slice_order v.digits parent k q o) in
      let (o', booked, ended, filled, qty, same) =
        book_slice_lem (v.clock k) (slice_note v.digits k total) q r o w.books working in
      rw (working_row-found i w o found working, answered, booked, run_slices)
        (
          o',
          slice_booked-found i w o o' w.books found same,
          ended ∙ rw plan refl,
          filled,
          refl,
          booked-fill_quantities (v.clock k) q (slice_price r o) o o' w,
        )
  run_slices_fills accepts k (q ∷ q' ∷ qs) w o found working plan =
      let (r, answered) = accepts (slice_order v.digits parent k q o) in
      let (o', booked, ended, filled, qty, same) =
        book_slice_lem (v.clock k) (slice_note v.digits k total) q r o w.books working in
      let b = book_snapshot o.user_id (book_fill (v.clock k) o q (slice_price r o) w.books) in
      let (p, located, over, sum, sent, fills) =
        run_slices_fills accepts (k + 1) (q' ∷ qs) (slice_booked o' b w) o'
          (slice_booked-found i w o o' b found same) (rw (ended, plan.0) refl)
          (subst (λ x. Completes x o'.filled_qty (q' ∷ qs)) (sym qty)
            (subst (λ x. Completes o.qty x (q' ∷ qs)) (sym filled) plan.1)) in
      rw (working_row-found i w o found working, answered, booked, run_slices)
        (
          p,
          located,
          over,
          sum ∙ ap (λ x. foldl ◌⊕◌ x (q' ∷ qs)) filled,
          ap (λ xs. q ∷ xs) sent,
          fills
              ∙ ap (λ xs. xs ++ map n.numeric (q' ∷ qs))
                  (booked-fill_quantities (v.clock k) q (slice_price r o) o o' w)
              ∙ append_assoc (fill_quantities w) (n.numeric q ∷ []) (map n.numeric (q' ∷ qs)),
        )
