-- ===== src/Algo.antt =====
-- Algorithmic execution (app/services/execution_algo.py): the plan of slices, and the schedule that
-- sends them one by one. `math` and `sum` are an argument.
pub mod Iceberg
pub mod Schedule
pub mod Filling
use pios_backend.Desk.{BrokerResult}
use pios_backend.Num.{lt, ◌⊕◌, ◌⊖◌, ◌⊗◌, ◌⊘◌, nought, le, min, Num}
use pios_backend.Order.{
  transition, is_working, Status, Side, OrderType, AlgoConfig, Order, InvalidTransition,
}
use pios_backend.Store.{
  num_or_zero, book_fill, book_snapshot, is_order, Books, World, order_update, position_update,
}
use pios_backend.Desk.Submit.{num_or}
use pios_backend.Desk.Risk.{given_key}
use pios_backend.Strategy.Live.{after}
use pios_backend.Num.Ints.{pos_part, ℤ}
use pios_backend.Prelude.{
  leb, if◌then◌else◌, or_else, Result, ok, err, length, find_first, update_if, ℕ, zero, suc, ◌+◌,
  ◌-◌, String, str_append, Option, none, some, List, [], ◌∷◌, ◌++◌, map,
}

-- `math.pi`, `math.sin`, and `sum`, whose rounding is the interpreter's.
pub record Maths (F : Type 0) : Type 0 where
  pub pi : F
  pub sin : F → F
  pub sum : List F → F

-- `_SliceOrder`: a MARKET order with no stop.
pub record SliceOrder (F : Type 0) : Type 0 where
  pub id : ℕ
  pub client_order_id : String
  pub symbol_id : ℕ
  pub side : Side
  pub qty : F
  pub price : Option F
  pub algo_config : Option (AlgoConfig F)

module _ {F : Type 0} where
  abbrev pub config_slices : Option (AlgoConfig F) → Option ℤ
  config_slices none = none
  config_slices (some cfg) = cfg.slices

  abbrev pub config_interval : Option (AlgoConfig F) → Option F
  config_interval none = none
  config_interval (some cfg) = cfg.interval_seconds

  abbrev pub config_display : Option (AlgoConfig F) → Option F
  config_display none = none
  config_display (some cfg) = cfg.display_qty

-- `max(1, int(cfg.get("slices", 5)))`
abbrev pub slice_count : Option ℤ → ℕ
slice_count none = 5
slice_count (some z) = if leb 1 (pos_part z) then pos_part z else 1

-- The reason of a slice's transition.
abbrev pub slice_note : (ℕ → String) → ℕ → ℕ → String
slice_note digits k total =
    str_append "Algo slice " (str_append (digits (k + 1)) (str_append "/" (digits total)))

-- `range(n)`, from `i` on
abbrev range_from : ℕ → ℕ → List ℕ
range_from i zero = []
range_from i (suc k) = i ∷ range_from (i + 1) k

module _ {F : Type 0} ⦃n : Num F⦄ where
  abbrev replicate : ℕ → F → List F
  replicate zero x = []
  replicate (suc k) x = x ∷ replicate k x

  abbrev pub eps : F
  eps = n.lit 1 9

  abbrev of_count : ℕ → F
  of_count k = n.lit k 0

  -- The loop of an iceberg: `none` when the fuel is spent before the quantity is.
  unfoldable pub iceberg : ℕ → F → F → Option (List F)
  iceberg zero display remaining = if lt eps remaining then none else some []
  iceberg (suc k) display remaining =
      let take = min display remaining in
      let rest = iceberg k display (remaining ⊖ take) in
      if lt eps remaining
      then (elim rest [ none ↦ none | some sizes ↦ some (take ∷ sizes) ])
      else some []

  -- `sizes[-1] += x`
  abbrev add_last : F → List F → List F
  add_last x [] = []
  add_last x (s ∷ []) = (s ⊕ x) ∷ []
  add_last x (s ∷ t ∷ ss) = s ∷ add_last x (t ∷ ss)

  -- The weight of slice `i` of `count`.
  abbrev vwap_weight : Maths F → ℕ → ℕ → F
  vwap_weight ms count i =
      n.lit 12 1
      ⊖ n.lit 4 1
        ⊗ ms.sin (ms.pi ⊗ of_count i ⊘ of_count (if leb 1 (count - 1) then count - 1 else 1))

  unfoldable pub vwap : Maths F → F → ℕ → List F
  vwap ms total count =
      let weights = map (vwap_weight ms count) (range_from 0 count) in
      let sizes = map (λ w. total ⊗ w ⊘ ms.sum weights) weights in
      add_last (total ⊖ ms.sum sizes) sizes

  unfoldable pub twap : F → ℕ → List F
  twap total count =
      let base = total ⊘ of_count count in
      replicate (count - 1) base ++ ((total ⊖ base ⊗ of_count (count - 1)) ∷ [])

  -- `_slice_plan`: the quantities of the slices, and the seconds between them.
  unfoldable pub slice_plan :
      Maths F → ℕ → OrderType → F → Option (AlgoConfig F) → Option (List F × F)
  slice_plan ms fuel order_type total cfg =
      let count = slice_count (config_slices cfg) in
      let interval = or_else (config_interval cfg) (n.lit 5 0) in
      elim order_type [
        | OrderType.iceberg ↦
            elim (iceberg fuel (min (or_else (config_display cfg) (total ⊘ of_count count)) total)
              total) [ none ↦ none | some sizes ↦ some (sizes, interval) ]
        | OrderType.vwap ↦ some (vwap ms total count, interval)
        | _ ↦ some (twap total count, interval)
      ]

  -- The order of slice `k`, counted from zero.
  unfoldable pub slice_order : (ℕ → String) → Option String → ℕ → F → Order F → SliceOrder F
  slice_order digits parent k q o = record {
    id = o.id;
    client_order_id = str_append (or_else parent "None") (str_append "-S" (digits (k + 1)));
    symbol_id = o.symbol_id;
    side = o.side;
    qty = q;
    price = o.price;
    algo_config = o.algo_config;
  }

  -- The price of a slice.
  abbrev pub slice_price : BrokerResult F → Order F → F
  slice_price r o = num_or r.avg_price (num_or o.price nought)

  -- The row's columns after a slice, before its transition.
  abbrev pub sliced : F → BrokerResult F → Order F → Order F
  sliced q r o =
      let new_filled = o.filled_qty ⊕ q in
      record o {
        avg_fill_price =
            some ((o.filled_qty ⊗ num_or_zero o.avg_fill_price ⊕ q ⊗ slice_price r o) ⊘ new_filled);
        filled_qty = new_filled;
        broker_order_id = (elim (given_key r.broker_order_id) [
          | none ↦ o.broker_order_id
          | some b ↦ some b
        ]);
      }

  -- The broker's answer to a slice, booked in full: the fill, the position, the snapshot, the row.
  unfoldable pub book_slice :
      ℕ
      → String
      → F
      → BrokerResult F
      → Order F
      → Books F
      → Result InvalidTransition (Order F × Books F)
  book_slice now note q r o b =
      let row = sliced q r o in
      let booked = book_snapshot o.user_id (book_fill now o q (slice_price r o) b) in
      if le (o.qty ⊖ eps) row.filled_qty
      then elim (transition Status.filled (some note) now row) [
        | err e ↦ err e
        | ok o' ↦ ok (record o' { filled_at = some now }, booked)
      ]
      else elim (transition Status.partial (some note) now row) [
        | err e ↦ err e
        | ok o' ↦ ok (o', booked)
      ]

  -- The row of the order while it is SUBMITTED or PARTIAL.
  unfoldable pub working_row : ℕ → World F → Option (Order F)
  working_row i w = elim (find_first (is_order i) w.orders) [
    | none ↦ none
    | some o ↦ if is_working o.status then some o else none
  ]

  -- A failed slice's audit row.
  abbrev pub slice_failed : Order F → World F → World F
  slice_failed o w = record w {
    audits =
        w.audits
        ++ (record { action = "ALGO_SLICE_FAILED"; resource_id = o.id; actor_id = o.user_id } ∷ []);
  }

  -- The commit of a slice, and its events.
  abbrev pub slice_booked : Order F → Books F → World F → World F
  slice_booked o b w = record w {
    orders = update_if (is_order o.id) (λ _. o) w.orders;
    books = b;
    published =
        w.published
        ++ (order_update o.user_id o.id o.status o.filled_qty ∷ position_update o.user_id ∷ []);
  }

-- What a schedule runs in: the clock, Python's `str` of a whole number, the adapter, and what others
-- do to the tables before each slice.
pub record Venue (F : Type 0) : Type 0 where
  pub clock : ℕ → ℕ
  pub digits : ℕ → String
  pub adapter : SliceOrder F → Result String (BrokerResult F)
  pub between : ℕ → World F → World F

module _ {F : Type 0} ⦃n : Num F⦄ (v : Venue F) (parent : Option String) (i total : ℕ) where
  -- The loop of `run_algo_order` from slice `k` on: the tables after it, and the slices that went to
  -- the broker.
  unfoldable pub run_slices : ℕ → List F → World F → World F × List (SliceOrder F)
  run_slices k [] w = (w, [])
  run_slices k (q ∷ qs) w =
      let w' = v.between k w in
      elim (working_row i w') [
        | none ↦ (w', [])
        | some o ↦ elim (v.adapter (slice_order v.digits parent k q o)) [
          | err _ ↦ (slice_failed o w', slice_order v.digits parent k q o ∷ [])
          | ok r ↦ elim (book_slice (v.clock k) (slice_note v.digits k total) q r o w'.books) [
            | err _ ↦ (w', slice_order v.digits parent k q o ∷ [])
            | ok (o', b) ↦
                let rest = run_slices (k + 1) qs (slice_booked o' b w') in
                (rest.0, slice_order v.digits parent k q o ∷ rest.1)
          ]
        ]
      ]

module _ {F : Type 0} ⦃n : Num F⦄ where
  -- `run_algo_order`: `none` when the plan does not end within the fuel.
  unfoldable pub run_algo_order :
      Maths F → ℕ → Venue F → ℕ → World F → Option (World F × List (SliceOrder F))
  run_algo_order ms fuel v i w = elim (find_first (is_order i) w.orders) [
    | none ↦ some (w, [])
    | some o ↦ elim (slice_plan ms fuel o.order_type o.qty o.algo_config) [
      | none ↦ none
      | some (sizes, _) ↦ some (run_slices v o.client_order_id i (length sizes) 0 sizes w)
    ]
  ]
