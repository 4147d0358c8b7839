-- ===== src/Tests/Slices.antt =====
-- Algorithmic orders.
use pios_backend.Num.Instance.{int_num}
use pios_backend.Num.{◌⊕◌}
use pios_backend.Desk.{BrokerResult}
use pios_backend.Algo.{run_slices, SliceOrder, Venue}
use pios_backend.Order.{is_working, Status, OrderType, Order}
use pios_backend.Store.{is_order}
use pios_backend.Tests.Data.{an_order, world_of}
use pios_backend.Algo.Filling.{undisturbed, run_slices_fills}
use pios_backend.Algo.Schedule.{take, quantities, fill_quantities, run_slices_bounded}
use pios_backend.Num.Ints.{◌+ℤ◌, ◌-ℤ◌, ℤ, pos}
use pios_backend.Prelude.{
  leb, if◌then◌else◌, Result, ok, length, find_first, ◌≤◌, String, ◌≡◌, refl, true, none, some,
  List, [], ◌∷◌, foldl,
}

-- A broker that fills every slice at 4.
abbrev filling : SliceOrder ℤ → Result String (BrokerResult ℤ)
filling s = ok (record {
  broker_order_id = some "B-9";
  is_filled = true;
  avg_price = some (pos 4);
  filled_qty = some s.qty;
})

-- An iceberg of 10 that shows 4, and is cancelled before its third slice.
abbrev iceberg_order : Order ℤ
iceberg_order = record an_order { order_type = OrderType.iceberg }

abbrev cancelling : Venue ℤ
cancelling = record {
  clock = λ k. k;
  digits = λ k. "n";
  adapter = filling;
  between = λ k w. if leb 2 k then record w { orders = [] } else w;
}

abbrev thirds : List ℤ
thirds = pos 4 ∷ pos 4 ∷ pos 2 ∷ []

run_slices_bounded_example :
    (length (run_slices cancelling none 1 3 0 thirds (world_of (iceberg_order ∷ []))).1 ≤ 3)
    × (quantities (run_slices cancelling none 1 3 0 thirds (world_of (iceberg_order ∷ []))).1
        ≡ take
            (length (run_slices cancelling none 1 3 0 thirds (world_of (iceberg_order ∷ []))).1)
            thirds)
run_slices_bounded_example =
    run_slices_bounded cancelling none 1 3 0 thirds (world_of (iceberg_order ∷ []))

run_slices_fills_example :
    (o' : Order ℤ) × (find_first
        (is_order 1)
        (run_slices
          (undisturbed cancelling)
          none
          1
          3
          0
          thirds
          (world_of (iceberg_order ∷ []))).0.orders
      ≡ some o')
    × (o'.status ≡ some Status.filled)
    × (o'.filled_qty ≡ foldl ◌⊕◌ (pos 0) thirds)
    × (quantities
          (run_slices (undisturbed cancelling) none 1 3 0 thirds (world_of (iceberg_order ∷ []))).1
        ≡ thirds)
    × (fill_quantities
          (run_slices (undisturbed cancelling) none 1 3 0 thirds (world_of (iceberg_order ∷ []))).0
        ≡ thirds)
unfolding is_working ◌+ℤ◌ ◌-ℤ◌
run_slices_fills_example =
    run_slices_fills cancelling none 1 3 (λ s. (_, refl)) 0 thirds (world_of (iceberg_order ∷ []))
      iceberg_order refl refl (refl, (refl, refl))
