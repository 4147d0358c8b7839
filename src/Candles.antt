-- ===== src/Candles.antt =====
-- The in-memory candle builder (app/workers/candle_aggregator.py). Instants are whole seconds.
pub mod Counting
use pios_backend.Num.{◌⊕◌, min, max, Num}
use pios_backend.Prelude.{
  ltb, ◌==◌, keep_if, find_first, update_if, ℕ, ◌+◌, ◌-◌, ◌*◌, ◌/◌, ◌%◌, Bool, not, ◌&&◌, ◌||◌,
  none, some, List, [], ◌∷◌, ◌++◌,
}

pub record Tick (F : Type 0) : Type 0 where
  pub symbol_id : ℕ
  pub price : F
  pub volume : F
  pub time : ℕ
  pub has_flags : Bool

pub record Candle (F : Type 0) : Type 0 where
  pub symbol_id : ℕ
  pub time : ℕ
  pub open_price : F
  pub high : F
  pub low : F
  pub close : F
  pub volume : F
  pub tick_count : ℕ
  pub has_dq : Bool

-- `_bucket_ts`: the seconds of the minute, floored to the interval.
unfoldable pub bucket_ts : ℕ → ℕ → ℕ
bucket_ts interval t = t - t % 60 + (t % 60) / interval * interval

module _ {F : Type 0} where
  -- The key of a bucket.
  abbrev pub in_bucket : ℕ → ℕ → Candle F → Bool
  in_bucket sym_id bucket c = c.symbol_id == sym_id && c.time == bucket

  -- The buckets of the symbol that are older than the current one.
  abbrev pub is_older : ℕ → ℕ → Candle F → Bool
  is_older sym_id bucket c = c.symbol_id == sym_id && ltb c.time bucket

  abbrev pub first_candle : ℕ → Tick F → Candle F
  first_candle bucket t = record {
    symbol_id = t.symbol_id;
    time = bucket;
    open_price = t.price;
    high = t.price;
    low = t.price;
    close = t.price;
    volume = t.volume;
    tick_count = 1;
    has_dq = t.has_flags;
  }

  -- `flush_all`: what it returns, and the buckets it leaves.
  unfoldable pub flush_all : List (Candle F) → List (Candle F) × List (Candle F)
  flush_all buckets = (buckets, [])

module _ {F : Type 0} ⦃n : Num F⦄ where
  abbrev pub next_candle : Tick F → Candle F → Candle F
  next_candle t c = record c {
    high = max c.high t.price;
    low = min c.low t.price;
    close = t.price;
    volume = c.volume ⊕ t.volume;
    tick_count = c.tick_count + 1;
    has_dq = c.has_dq || t.has_flags;
  }

  -- The bucket of the tick is opened or extended.
  unfoldable pub absorb : ℕ → Tick F → List (Candle F) → List (Candle F)
  absorb bucket t buckets = elim (find_first (in_bucket t.symbol_id bucket) buckets) [
    | none ↦ buckets ++ (first_candle bucket t ∷ [])
    | some _ ↦ update_if (in_bucket t.symbol_id bucket) (next_candle t) buckets
  ]

  -- `ingest`: the completed candles, and the buckets that stay.
  unfoldable pub ingest : ℕ → Tick F → List (Candle F) → List (Candle F) × List (Candle F)
  ingest interval t buckets =
      let bucket = bucket_ts interval t.time in
      let all = absorb bucket t buckets in
      (
        keep_if (is_older t.symbol_id bucket) all,
        keep_if (λ c. not (is_older t.symbol_id bucket c)) all,
      )

  -- A run of ticks: all that has been completed, in order, and the buckets at the end.
  unfoldable pub ingest_all :
      ℕ → List (Tick F) → List (Candle F) → List (Candle F) × List (Candle F)
  ingest_all interval [] buckets = ([], buckets)
  ingest_all interval (t ∷ ts) buckets =
      let (completed, rest) = ingest interval t buckets in
      let (more, last) = ingest_all interval ts rest in (completed ++ more, last)
