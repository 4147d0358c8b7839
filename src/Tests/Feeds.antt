-- ===== src/Tests/Feeds.antt =====
-- The tick writer.
use pios_backend.Ingest.{
  Landing, check, drop, empty_window, remember, spike_of, volume_flags, check_tick, check_all,
  is_usable, is_reported, turns, Checks, Tables, Writer, Item, timeout, popped,
}
use pios_backend.Prelude.{true, keep_if, ℕ, ◌≡◌, refl, false, List, [], ◌∷◌, map, arith}
use pios_backend.Candles.{first_candle, Tick, Candle}
use pios_backend.Ingest.Writes.{ticks_of, stored, reported, turns-check_all}
use pios_backend.Ingest.Bounds.{length-drop, DropsHundred}
use pios_backend.Num.Ints.{◌*ℤ◌, ◌+ℤ◌, ◌-ℤ◌, div_ℤ, ℤ, pos}
use pios_backend.Num.Instance.{int_num}

abbrev checks : Checks ℤ
checks = record {
  mean = λ xs. pos 4;
  round_8 = λ x. x;
  drop_hundred = drop 100;
  price_window = 20;
  spike_threshold = pos 1;
  volume_max_factor = pos 50;
}

checks-DropsHundred : DropsHundred checks
checks-DropsHundred = record { drops = λ ks many. ground (arith, many, length-drop 100 ks) }

abbrev a_tick : ℕ → ℕ → Tick ℤ
a_tick price time = record {
  symbol_id = 5;
  price = pos price;
  volume = pos 1;
  time = time;
  has_flags = false;
}

abbrev idle_writer : Writer ℤ
idle_writer = record {
  dq = λ i. empty_window;
  buckets = [];
  completed = [];
  dq_events = [];
  raw_ticks = [];
  tick_count = 0;
}

abbrev no_tables : Tables ℤ
no_tables = record { candles = []; dq_events = []; ticks = [] }

abbrev all_land : Landing
all_land = record { candles_land = true; events_land = true; ticks_land = true }

-- A tick, the same again, one without a price, a pause, and a tick of the next minute.
abbrev some_items : List (Item ℤ)
some_items =
    popped (a_tick 4 10) all_land
    ∷ popped (a_tick 4 10) all_land
    ∷ popped (a_tick 0 11) all_land
    ∷ timeout all_land
    ∷ popped (a_tick 5 70) all_land
    ∷ []

turns-check_all_example :
    (stored (turns checks 60 2 some_items idle_writer no_tables)
      ≡ keep_if is_usable (check_all checks (ticks_of some_items) (λ i. empty_window)).0)
    × (reported (turns checks 60 2 some_items idle_writer no_tables)
        ≡ keep_if is_reported (check_all checks (ticks_of some_items) (λ i. empty_window)).0)
turns-check_all_example =
    turns-check_all checks 60 2 some_items idle_writer no_tables
      ((refl, refl), ((refl, refl), ((refl, refl), ((refl, refl), ((refl, refl), tt)))))

-- What the writer stores of them: the first and the last.
usable_prices :
    map
      (λ k. k.tick.price)
      (keep_if is_usable (check_all checks (ticks_of some_items) (λ i. empty_window)).0)
    ≡ pos 4 ∷ pos 5 ∷ []
unfolding check_all check_tick check remember spike_of volume_flags ◌-ℤ◌ ◌+ℤ◌ ◌*ℤ◌ div_ℤ
usable_prices = refl

abbrev a_candle : ℕ → Candle ℤ
a_candle price = first_candle 60 (a_tick price 61)
