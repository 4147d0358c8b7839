-- ===== src/Ingest.antt =====
-- The tick writer: the data-quality checks (app/workers/dq_pipeline.py) and the loop that feeds and
-- flushes the candle builder (app/workers/market_db_writer.py, app/workers/db_writer.py). The database
-- accepts every flush; a symbol of 0 stands for a tick with none.
pub mod Bounds
pub mod Writes
pub mod Upsert
use pios_backend.Num.{lt, ◌⊖◌, ◌⊗◌, ◌⊘◌, nought, le, abs, Num}
use pios_backend.Candles.{ingest, Tick, Candle}
use pios_backend.Prelude.{
  ltb, leb, ◌==◌, if◌then◌else◌, length, any_of, ℕ, zero, suc, ◌+◌, ◌-◌, Bool, true, false, not,
  ◌&&◌, List, [], ◌∷◌, ◌++◌,
}

-- `(round(price, 8), round(volume, 8), ts)`
pub record TickKey (F : Type 0) : Type 0 where
  pub price : F
  pub volume : F
  pub ts : ℕ

-- What the pipeline keeps of a symbol.
pub record Window (F : Type 0) : Type 0 where
  pub prices : List F
  pub volumes : List F
  pub seen : List (TickKey F)

pub data Verdict : Type 0 where
  pass flag reject : Verdict

-- The flags, with the ratio that their text shows.
pub data Flag (F : Type 0) : Type 0 where
  zero_price negative_volume duplicate : Flag F
  spike : F → Flag F
  vol_outlier : F → Flag F

-- `np.mean`, `round(x, 8)`, the order in which a set drops a hundred keys, and the settings.
pub record Checks (F : Type 0) : Type 0 where
  pub mean : List F → F
  pub round_8 : F → F
  pub drop_hundred : List (TickKey F) → List (TickKey F)
  pub price_window : ℕ
  pub spike_threshold : F
  pub volume_max_factor : F

-- A tick with its verdict.
pub record Checked (F : Type 0) : Type 0 where
  pub tick : Tick F
  pub verdict : Verdict
  pub flags : List (Flag F)

module _ {ℓ} {A : Type ℓ} where
  abbrev pub drop : ℕ → List A → List A
  drop zero xs = xs
  drop (suc k) [] = []
  drop (suc k) (x ∷ xs) = drop k xs

  -- `xs[-k:]`
  abbrev pub last_n : ℕ → List A → List A
  last_n zero xs = xs
  last_n (suc k) xs = drop (length xs - suc k) xs

  -- The last 200, where there are more.
  abbrev pub trim : List A → List A
  trim xs = if ltb 200 (length xs) then last_n 200 xs else xs

  abbrev pub is_nil : List A → Bool
  is_nil [] = true
  is_nil (_ ∷ _) = false

module _ {F : Type 0} where
  abbrev pub empty_window : Window F
  empty_window = record { prices = []; volumes = []; seen = [] }

module _ {F : Type 0} ⦃n : Num F⦄ (c : Checks F) where
  abbrev pub same_key : TickKey F → TickKey F → Bool
  same_key a b = n.eq a.price b.price && n.eq a.volume b.volume && a.ts == b.ts

  abbrev pub key_of : Tick F → TickKey F
  key_of t = record { price = c.round_8 t.price; volume = c.round_8 t.volume; ts = t.time }

  -- `seen.add(key)`, bounded.
  unfoldable pub remember : TickKey F → List (TickKey F) → List (TickKey F)
  remember k seen =
      let all = seen ++ (k ∷ []) in if ltb 500 (length all) then c.drop_hundred all else all

  -- How far the price is from the mean, where there are five prices.
  unfoldable pub spike_of : F → List F → F
  spike_of price prices =
      let m = c.mean (last_n c.price_window prices) in
      if leb 5 (length prices)
      then (if n.eq m nought then nought else abs (price ⊖ m) ⊘ m)
      else nought

  -- The flag of a volume, where there are ten.
  unfoldable pub volume_flags : F → List F → List (Flag F)
  volume_flags volume volumes =
      let avg = c.mean (last_n 50 volumes) in
      if leb 10 (length volumes) && lt nought avg && lt (avg ⊗ c.volume_max_factor) volume
      then vol_outlier (volume ⊘ avg) ∷ []
      else []

  abbrev pub spike_flags : F → List F → List (Flag F)
  spike_flags price prices =
      if leb 5 (length prices) && lt c.spike_threshold (spike_of price prices)
      then spike (spike_of price prices) ∷ []
      else []

  -- A price that is too far off for the tick to be used.
  abbrev pub is_wild : F → List F → Bool
  is_wild price prices =
      leb 5 (length prices)
      && lt c.spike_threshold (spike_of price prices)
      && lt (c.spike_threshold ⊗ n.lit 3 0) (spike_of price prices)

  -- `DQPipeline.check`: the verdict, the flags, and the symbol's window.
  unfoldable pub check : Tick F → Window F → Verdict × List (Flag F) × Window F
  check t w =
      if le t.price nought
      then (reject, zero_price ∷ [], w)
      else if lt t.volume nought
      then (reject, negative_volume ∷ [], w)
      else if any_of (same_key (key_of t)) w.seen
      then (reject, duplicate ∷ [], w)
      else (let seen = remember (key_of t) w.seen in
          let flags = spike_flags t.price w.prices in
          if is_wild t.price w.prices
          then (reject, flags, record w { prices = w.prices ++ (t.price ∷ []); seen = seen })
          else (let all = flags ++ volume_flags t.volume w.volumes in
              (
                if is_nil all then pass else flag,
                all,
                record {
                  prices = trim (w.prices ++ (t.price ∷ []));
                  volumes = trim (w.volumes ++ (t.volume ∷ []));
                  seen = seen;
                },
              )))

  -- The pipeline: a window for every symbol.
  unfoldable pub check_tick : Tick F → (ℕ → Window F) → Checked F × (ℕ → Window F)
  check_tick t dq =
      let (verdict, flags, w) = check t (dq t.symbol_id) in
      (
        record {
          tick = record t { has_flags = not (is_nil flags) };
          verdict = verdict;
          flags = flags;
        },
        λ i. if i == t.symbol_id then w else dq i,
      )

module _ {F : Type 0} ⦃n : Num F⦄ (c : Checks F) where
  -- A run of ticks: their verdicts, and the pipeline after them.
  unfoldable pub check_all : List (Tick F) → (ℕ → Window F) → List (Checked F) × (ℕ → Window F)
  check_all [] dq = ([], dq)
  check_all (t ∷ ts) dq =
      let rest = check_all ts (check_tick c t dq).1 in ((check_tick c t dq).0 ∷ rest.0, rest.1)

module _ {F : Type 0} where
  abbrev pub is_usable : Checked F → Bool
  is_usable k = elim k.verdict [ reject ↦ false | _ ↦ true ]

  abbrev pub is_reported : Checked F → Bool
  is_reported k = elim k.verdict [ pass ↦ false | _ ↦ true ]

  abbrev pub same_candle : Candle F → Candle F → Bool
  same_candle a b = a.symbol_id == b.symbol_id && a.time == b.time

  -- The upsert of a candle: ON CONFLICT (symbol_id, time) DO NOTHING.
  abbrev pub insert_candle : Candle F → List (Candle F) → List (Candle F)
  insert_candle k rows = if any_of (same_candle k) rows then rows else rows ++ (k ∷ [])

  -- `flush_candles`
  unfoldable pub flush_candles : List (Candle F) → List (Candle F) → List (Candle F)
  flush_candles [] rows = rows
  flush_candles (k ∷ ks) rows = flush_candles ks (insert_candle k rows)

-- The tables that the writer fills.
pub record Tables (F : Type 0) : Type 0 where
  pub candles : List (Candle F)
  pub dq_events : List (Checked F)
  pub ticks : List (Checked F)

-- What the loop holds, with the aggregator and the pipeline, which it shares.
pub record Writer (F : Type 0) : Type 0 where
  pub dq : ℕ → Window F
  pub buckets : List (Candle F)
  pub completed : List (Candle F)
  pub dq_events : List (Checked F)
  pub raw_ticks : List (Checked F)
  pub tick_count : ℕ

-- Whether the transactions of a flush commit. Each of them logs an exception and goes on.
pub record Landing : Type 0 where
  pub candles_land : Bool
  pub events_land : Bool
  pub ticks_land : Bool

-- What BLPOP gives, nothing in time or a tick, and what becomes of a flush after it.
pub data Item (F : Type 0) : Type 0 where
  timeout : Landing → Item F
  popped : Tick F → Landing → Item F

module _ {F : Type 0} where
  -- `_flush`: a transaction that fails writes nothing of its batch.
  unfoldable pub flush : Landing → Writer F → Tables F → Tables F
  flush l s db = record {
    candles = (if l.candles_land then flush_candles s.completed db.candles else db.candles);
    dq_events = (if l.events_land then db.dq_events ++ s.dq_events else db.dq_events);
    ticks = (if l.ticks_land then db.ticks ++ s.raw_ticks else db.ticks);
  }

  -- The buffers, cleared.
  unfoldable pub cleared : Writer F → Writer F
  cleared s = record s { completed = []; dq_events = []; raw_ticks = []; tick_count = 0 }

  -- The shutdown: what is flushed when the task is cancelled.
  unfoldable pub shut_down : Landing → Writer F → Tables F → Tables F
  shut_down l s db = record db {
    candles = (if l.candles_land then flush_candles s.buckets db.candles else db.candles);
    ticks = (if l.ticks_land then db.ticks ++ s.raw_ticks else db.ticks);
  }

module _ {F : Type 0} ⦃n : Num F⦄ (c : Checks F) (interval batch : ℕ) where
  -- A tick into the buffers.
  unfoldable pub take_in : Tick F → Writer F → Writer F
  take_in t s =
      let (k, dq) = check_tick c t s.dq in
      let (done_candles, open_buckets) = ingest interval k.tick s.buckets in
      record {
        dq = dq;
        buckets = (if is_usable k then open_buckets else s.buckets);
        completed = (if is_usable k then s.completed ++ done_candles else s.completed);
        dq_events = (if is_reported k then s.dq_events ++ (k ∷ []) else s.dq_events);
        raw_ticks = (if is_usable k then s.raw_ticks ++ (k ∷ []) else s.raw_ticks);
        tick_count = s.tick_count + 1;
      }

  -- One turn of `market_db_writer`.
  unfoldable pub turn : Item F → Writer F → Tables F → Writer F × Tables F
  turn (timeout l) s db = (cleared s, flush l s db)
  turn (popped t l) s db =
      if t.symbol_id == 0
      then (s, db)
      else (let next_s = take_in t s in
          if leb batch next_s.tick_count then (cleared next_s, flush l next_s db) else (next_s, db))

  unfoldable pub turns : List (Item F) → Writer F → Tables F → Writer F × Tables F
  turns [] s db = (s, db)
  turns (x ∷ xs) s db = let r = turn x s db in turns xs r.0 r.1
