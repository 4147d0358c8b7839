-- ===== src/Conditional/Oco.antt =====
-- One cancels other: what the housekeeping of a sweep leaves of a group.
use pios_backend.Store.{order_update, is_order, World}
use pios_backend.Desk.Moves.{asked_of, cancel_rows_open, cancelled_row}
use pios_backend.Prelude.{
  keep_if, update_if, length-update_if, count_if-update_if, find_first-update_if_other, some, ◌++◌,
  map, ok, length, find_first, count_if, ℕ, ◌≡◌, refl, true, Option, arith,
}
use pios_backend.Conditional.{oco_sibling, cancel_oco_siblings}
use pios_backend.Order.{is_open, is_working, Status, Order}

is_open_of_working : (s : Option Status) → is_working s ≡ true → is_open s ≡ true
unfolding is_working is_open
is_open_of_working s h = ground arith

module _ {F : Type 0} where
  oco_sibling-is_open :
      (group i : ℕ) (o : Order F) → oco_sibling group i o ≡ true → is_open o.status ≡ true
  oco_sibling-is_open group i o h = is_open_of_working o.status (ground (arith, h))

  abbrev after_oco : F → ℕ → ℕ → ℕ → World F → World F
  after_oco zero_qty now group i w = record w {
    orders = update_if (oco_sibling group i) (cancelled_row "OCO sibling filled" now) w.orders;
    asked = w.asked ++ asked_of (oco_sibling group i) w.orders;
    published =
        w.published
        ++ map (λ o. order_update o.user_id o.id (some Status.cancelled) zero_qty)
            (keep_if (oco_sibling group i) w.orders);
  }

  -- The housekeeping never raises. After it no leg of the group other than `i` is at work; no
  -- order is added or removed, the order `i` is the one of before, and the books are untouched.
  pub cancel_oco_siblings_lem :
      (zero_qty : F) (now group i : ℕ) (w : World F)
      → (w' : World F) × (cancel_oco_siblings zero_qty now group i w ≡ ok w')
        × (count_if (oco_sibling group i) w'.orders ≡ 0)
        × (length w'.orders ≡ length w.orders)
        × (find_first (is_order i) w'.orders ≡ find_first (is_order i) w.orders)
        × (w'.books ≡ w.books)
  unfolding is_working cancel_oco_siblings
  cancel_oco_siblings_lem zero_qty now group i w =
      let all =
        cancel_rows_open (oco_sibling group i) "OCO sibling filled" now w.orders
          (oco_sibling-is_open group i) in
      (
        after_oco zero_qty now group i w,
        rw (all, cancel_oco_siblings) refl,
        count_if-update_if (oco_sibling group i) (oco_sibling group i)
            (cancelled_row "OCO sibling filled" now) w.orders (λ o h. ground arith) (λ o h. h),
        length-update_if (oco_sibling group i) (cancelled_row "OCO sibling filled" now) w.orders,
        find_first-update_if_other (oco_sibling group i) (is_order i)
            (cancelled_row "OCO sibling filled" now) w.orders (λ o h. ground (arith, h))
            (λ o h. ground (arith, h)),
        refl,
      )
