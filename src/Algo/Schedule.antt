-- ===== src/Algo/Schedule.antt =====
-- What a schedule sends and books (`run_algo_order`), whatever the broker answers and whatever others
-- do to the order between two slices.
use pios_backend.Prelude.{
  if◌then◌else◌, Bool-cases, Option-cases, Result-cases, ok, length, ℕ, zero, suc, ◌+◌, ◌≤◌, ◌<◌,
  String, ◌≡◌, refl, ap, inl, inr, true, Option, none, some, List, [], ◌∷◌, map, arith,
}
use pios_backend.Desk.{BrokerResult}
use pios_backend.Num.{◌⊕◌, ◌⊖◌, le, Num}
use pios_backend.Algo.{
  leb, slice_note, eps, slice_order, slice_price, sliced, book_slice, working_row, slice_booked,
  run_slices, SliceOrder, Venue,
}
use pios_backend.Order.{moved, is_working, Status, Order}
use pios_backend.Store.{book_fill, book_snapshot, Books, World}
use pios_backend.Order.Machine.{transition_working}

abbrev pub take {ℓ} : {A : Type ℓ} → ℕ → List A → List A
take zero xs = []
take (suc m) [] = []
take (suc m) (x ∷ xs) = x ∷ take m xs

module _ {F : Type 0} where
  abbrev pub quantities : List (SliceOrder F) → List F
  quantities ss = map (λ s. s.qty) ss

  abbrev pub fill_quantities : World F → List F
  fill_quantities w = map (λ f. f.qty) w.books.fills

module _ {F : Type 0} ⦃n : Num F⦄ where
  -- The status that a slice leaves.
  abbrev pub slice_status : F → F → Status
  slice_status qty new_filled = if le (qty ⊖ eps) new_filled then Status.filled else Status.partial

  -- A working order's slice is always recorded.
  pub book_slice_lem :
      (now : ℕ) (note : String) (q : F) (r : BrokerResult F) (o : Order F) (b : Books F)
      → is_working o.status ≡ true
      → (o' : Order F) × (book_slice now note q r o b
          ≡ ok (o', book_snapshot o.user_id (book_fill now o q (slice_price r o) b)))
        × (o'.status ≡ some (slice_status o.qty (o.filled_qty ⊕ q)))
        × (o'.filled_qty ≡ o.filled_qty ⊕ q)
        × (o'.qty ≡ o.qty)
        × (o'.id ≡ o.id)
  unfolding book_slice
  book_slice_lem now note q r o b working =
      elim (Bool-cases (le (o.qty ⊖ eps) (o.filled_qty ⊕ q))) [
        | inl all ↦ (
          record (moved Status.filled (some note) now (sliced q r o)) { filled_at = some now },
          rw
              (
                all,
                slice_status,
                transition_working Status.filled (some note) now (sliced q r o) working refl,
                book_slice,
              )
              refl,
          rw all refl,
          refl,
          refl,
          refl,
        )
        | inr part ↦ (
          moved Status.partial (some note) now (sliced q r o),
          rw
              (
                part,
                slice_status,
                transition_working Status.partial (some note) now (sliced q r o) working refl,
                book_slice,
              )
              refl,
          rw part refl,
          refl,
          refl,
          refl,
        )
      ]

module _ {F : Type 0} ⦃n : Num F⦄ (v : Venue F) (parent : Option String) (i total : ℕ) where
  -- A schedule never sends more than its plan: whatever the broker answers and whatever others do
  -- to the order in between, the slices that go to the broker are the first ones of the plan, in its
  -- order, with their quantities, each at most once.
  pub run_slices_bounded :
      (k : ℕ) (sizes : List F) (w : World F)
      → let sent = (run_slices v parent i total k sizes w).1 in
        (length sent ≤ length sizes) × (quantities sent ≡ take (length sent) sizes)
  unfolding run_slices slice_order
  run_slices_bounded k [] w = (ground arith, refl)
  run_slices_bounded k (q ∷ qs) w = elim (Option-cases (working_row i (v.between k w))) [
    | inl gone ↦ rw (gone, run_slices) (ground arith, refl)
    | inr (o, row) ↦ elim (Result-cases (v.adapter (slice_order v.digits parent k q o))) [
      | inr (e, failed) ↦ rw (row, failed, run_slices) (ground arith, refl)
      | inl (r, answered) ↦
          elim (Result-cases
            (book_slice (v.clock k) (slice_note v.digits k total) q r o (v.between k w).books)) [
              | inr (e, failed) ↦ rw (row, answered, failed, run_slices) (ground arith, refl)
              | inl ((o', b), booked) ↦
                  let rest = run_slices_bounded (k + 1) qs (slice_booked o' b (v.between k w)) in
                  rw (row, answered, booked, run_slices)
                    (omega (arith, rest.0), ap (λ xs. q ∷ xs) rest.1)
            ]
    ]
  ]

  -- A cancellation stops a schedule: if from slice `c` on the order is no longer SUBMITTED or
  -- PARTIAL whenever the schedule looks, at most the slices before `c` go to the broker.
  pub run_slices-working_row :
      (c : ℕ)
      → ((j : ℕ) (w : World F) → c ≤ j → working_row i (v.between j w) ≡ none)
      → (k : ℕ) (sizes : List F) (w : World F) → k ≤ c
      → k + length (run_slices v parent i total k sizes w).1 ≤ c
  unfolding run_slices slice_order
  run_slices-working_row c closed k [] w early = omega (arith, early)
  run_slices-working_row c closed k (q ∷ qs) w early =
      elim (Option-cases (working_row i (v.between k w))) [
        | inl gone ↦ rw (gone, run_slices) (omega (arith, early))
        | inr (o, row) ↦
            let before : k < c = elim (Bool-cases (leb c k)) [
              | inl late ↦ absurd (ground (arith, row, closed k w (ground (arith, late))))
              | inr on_time ↦ ground (arith, on_time)
            ] in
            elim (Result-cases (v.adapter (slice_order v.digits parent k q o))) [
              | inr (e, failed) ↦ rw (row, failed, run_slices) (omega (arith, before))
              | inl (r, answered) ↦
                  elim (Result-cases (
                    book_slice (v.clock k) (slice_note v.digits k total) q r o
                      (v.between k w).books)) [
                        | inr (e, failed) ↦
                            rw (row, answered, failed, run_slices) (omega (arith, before))
                        | inl ((o', b), booked) ↦
                            let rest =
                              run_slices-working_row c closed (k + 1) qs
                                (slice_booked o' b (v.between k w)) (omega (arith, before)) in
                            rw (row, answered, booked, run_slices) (omega (arith, rest))
                      ]
            ]
      ]
