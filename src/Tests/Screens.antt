-- ===== src/Tests/Screens.antt =====
-- The marks of open positions.
use pios_backend.Marks.{quote_price, remark, mark_open_positions, Quote}
use pios_backend.Marks.Again.{mark_open_positions-IsRemarked, IsRemarked}
use pios_backend.Tests.Data.{no_books, world_of, a_position}
use pios_backend.Num.Ints.{◌*ℤ◌, ◌-ℤ◌, ℤ, pos}
use pios_backend.Prelude.{ℕ, ◌≡◌, refl, false, Option, none, some, [], ◌∷◌}
use pios_backend.Num.Instance.{int_num}

-- Every symbol at 5.
abbrev at_five : ℕ → Option (Quote ℤ)
at_five i = some (record { has_error = false; last = some (pos 5); bid = none; ask = none })

mark_open_positions-IsRemarked_example :
    IsRemarked at_five
      (record (world_of []) { books = record no_books { positions = a_position ∷ [] } })
      (mark_open_positions at_five
        (record (world_of []) { books = record no_books { positions = a_position ∷ [] } })).1
mark_open_positions-IsRemarked_example =
    mark_open_positions-IsRemarked at_five
      (record (world_of []) { books = record no_books { positions = a_position ∷ [] } })

-- Ten bought at 3 are worth 20 more at 5.
twenty_more : remark at_five a_position ≡ some (pos 20)
unfolding remark quote_price ◌-ℤ◌ ◌*ℤ◌
twenty_more = refl
