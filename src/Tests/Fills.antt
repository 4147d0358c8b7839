-- ===== src/Tests/Fills.antt =====
-- Fills, positions and candles.
use pios_backend.FillSync.LostFill.{IsFlat}
use pios_backend.Num.Instance.{int_num, ℤ-IsSigned}
use pios_backend.FillSync.{
  fill_price_of, book_delta, apply_delta, apply_status, sync_row, BrokerStatus, BrokerState, Pass,
}
use pios_backend.Num.{◌⊕◌}
use pios_backend.Candles.{ingest_all, Tick}
use pios_backend.Position.{fill_sign, pos_sign, net_fill, PosSide, FillArgs}
use pios_backend.Order.{
  allowed_order_transitions, same_status, status_in, transition, is_working, Side,
}
use pios_backend.Tests.Data.{an_order, no_books, a_position}
use pios_backend.Candles.Counting.{ticks_in, IsKeyed, ingest_all-ticks_in}
use pios_backend.FillSync.Converge.{IsBooked, sync_row-IsBooked, sync_row_converges, IsSteady}
use pios_backend.FillSync.Outcome.{target, or_kept, sync_row_status}
use pios_backend.Num.Ints.{◌*ℤ◌, ◌+ℤ◌, ◌-ℤ◌, div_ℤ, ℤ, pos}
use pios_backend.Position.Netting.{IsNetted, net_fill-IsNetted}
use pios_backend.Prelude.{ok, err, ℕ, ◌+◌, ◌≡◌, refl, false, none, some, List, [], ◌∷◌, arith}

pub ℤ-IsSteady : IsSteady ℤ
unfolding ◌-ℤ◌ ◌+ℤ◌
ℤ-IsSteady = record { sub_self = λ a. ground arith; eq_nought = λ a h. ground arith }

-- Half of the order is filled at the broker.
abbrev half_filled : BrokerState ℤ
half_filled = record {
  status = BrokerStatus.partial;
  filled_qty = some (pos 5);
  avg_price = some (pos 4);
}

-- The pass that sees it.
abbrev first_pass : Pass ℤ
first_pass = elim (sync_row 2 "push" half_filled none an_order no_books) [
  | ok p ↦ p
  | err _ ↦ record { order = an_order; books = no_books; changed = false }
]

first_pass_lem : sync_row 2 "push" half_filled none an_order no_books ≡ ok first_pass
unfolding sync_row is_working apply_status transition allowed_order_transitions status_in
    same_status apply_delta fill_price_of book_delta ◌-ℤ◌ ◌+ℤ◌ ◌*ℤ◌ div_ℤ
first_pass_lem = refl

sync_row_converges_example :
    (r : Pass ℤ) × (sync_row 3 "sweep" half_filled none first_pass.order first_pass.books ≡ ok r)
    × (r.changed ≡ false)
sync_row_converges_example =
    sync_row_converges ℤ-IsSteady 2 3 "push" "sweep" half_filled none an_order no_books first_pass
      first_pass_lem

sync_row-IsBooked_example :
    IsBooked 2 half_filled none an_order no_books first_pass.order first_pass.books
sync_row-IsBooked_example =
    sync_row-IsBooked 2 "push" half_filled none an_order no_books first_pass first_pass_lem

sync_row_status_example :
    (q : Pass ℤ) × (sync_row 2 "push" half_filled none an_order no_books ≡ ok q)
    × (q.order.status
        ≡ or_kept
            (target BrokerStatus.partial (apply_delta 2 half_filled none an_order no_books).changed)
            an_order.status)
unfolding is_working
sync_row_status_example = sync_row_status 2 "push" half_filled none an_order no_books refl refl

-- A sale of 4.
abbrev a_sale : FillArgs ℤ
a_sale = record {
  user_id = 7;
  broker_id = 2;
  strategy_id = none;
  symbol_id = 5;
  side = Side.sell;
  qty = pos 4;
  price = pos 6;
  commission = pos 0;
}

net_fill-IsNetted_example :
    IsNetted ℤ-IsSigned
      (pos_sign PosSide.long (pos 10) ⊕ fill_sign Side.sell (pos 4))
      (net_fill 9 a_sale a_position)
net_fill-IsNetted_example = net_fill-IsNetted ℤ-IsSigned 9 a_sale a_position refl refl refl

abbrev tick_at : ℕ → ℕ → Tick ℤ
tick_at t p = record { symbol_id = 5; price = pos p; volume = pos 1; time = t; has_flags = false }

abbrev three_ticks : List (Tick ℤ)
three_ticks = tick_at 1 10 ∷ tick_at 3 12 ∷ tick_at 7 11 ∷ []

ingest_all-ticks_in_example :
    (ticks_in (ingest_all 5 three_ticks []).0 + ticks_in (ingest_all 5 three_ticks []).1 ≡ 3)
    × IsKeyed (ingest_all 5 three_ticks []).1
ingest_all-ticks_in_example = ingest_all-ticks_in 5 three_ticks [] tt

ℤ-IsFlat : IsFlat ℤ
unfolding ◌-ℤ◌ ◌+ℤ◌ ◌*ℤ◌ div_ℤ
ℤ-IsFlat = record {
  mul_zero = λ a. ground arith;
  sub_zero = refl;
  div_zero = λ a. ground arith;
  lt_zero = refl;
  eq_zero = refl;
}
