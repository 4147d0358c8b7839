-- ===== src/Ingest/Upsert.antt =====
-- The upsert of candles is safe to repeat (`flush_candles` of app/workers/db_writer.py).
use pios_backend.Ingest.{same_candle, insert_candle, flush_candles}
use pios_backend.Candles.{Candle}
use pios_backend.Prelude.{
  ==_refl, Bool-cases, any_of, All, any_of-append, ◌≡◌, refl, inl, inr, true, List, [], ◌∷◌, ◌++◌,
}

module _ {F : Type 0} where
  -- A row is there.
  abbrev Has : Candle F → List (Candle F) → Type 0
  Has k rows = any_of (same_candle k) rows ≡ true

  same_candle_refl : (k : Candle F) → same_candle k k ≡ true
  same_candle_refl k = rw (==_refl k.symbol_id, ==_refl k.time) refl

  insert_candle-keeps :
      (k j : Candle F) (rows : List (Candle F)) → Has j rows → Has j (insert_candle k rows)
  insert_candle-keeps k j rows has = elim (Bool-cases (any_of (same_candle k) rows)) [
    | inl known ↦ rw (known, insert_candle) has
    | inr fresh ↦ rw (fresh, insert_candle) (any_of-append (same_candle j) rows (k ∷ []) has)
  ]

  insert_candle-Has : (k : Candle F) (rows : List (Candle F)) → Has k (insert_candle k rows)
  insert_candle-Has k rows = elim (Bool-cases (any_of (same_candle k) rows)) [
    | inl known ↦ rw (known, insert_candle) known
    | inr fresh ↦ rw (fresh, insert_candle) (last-Has rows)
  ]
    where
      last-Has : (rs : List (Candle F)) → Has k (rs ++ (k ∷ []))
      last-Has [] = rw (same_candle_refl k) refl
      last-Has (r ∷ rs) = elim (Bool-cases (same_candle k r)) [
        | inl hit ↦ rw hit refl
        | inr miss ↦ rw miss (last-Has rs)
      ]

  flush_candles-keeps :
      (ks : List (Candle F)) (j : Candle F) (rows : List (Candle F))
      → Has j rows
      → Has j (flush_candles ks rows)
  unfolding flush_candles
  flush_candles-keeps [] j rows has = has
  flush_candles-keeps (k ∷ ks) j rows has =
      flush_candles-keeps ks j (insert_candle k rows) (insert_candle-keeps k j rows has)

  flush_candles-All : (ks rows : List (Candle F)) → All (λ k. Has k (flush_candles ks rows)) ks
  unfolding flush_candles
  flush_candles-All [] rows = tt
  flush_candles-All (k ∷ ks) rows = (
    flush_candles-keeps ks k (insert_candle k rows) (insert_candle-Has k rows),
    flush_candles-All ks (insert_candle k rows),
  )

  flush_candles-known :
      (ks rows : List (Candle F)) → All (λ k. Has k rows) ks → flush_candles ks rows ≡ rows
  unfolding flush_candles
  flush_candles-known [] rows all = refl
  flush_candles-known (k ∷ ks) rows all = rw (all.0) (flush_candles-known ks rows all.1)

  still_known :
      (js rows ks : List (Candle F))
      → All (λ k. Has k rows) ks
      → All (λ k. Has k (flush_candles js rows)) ks
  still_known js rows [] all = tt
  still_known js rows (k ∷ ks) all =
      (flush_candles-keeps js k rows all.0, still_known js rows ks all.1)

  -- Delivering candles again changes nothing: a second flush of the same candles, whatever else has
  -- been flushed since, leaves the table as it is.
  pub flush_candles_again :
      (ks js rows : List (Candle F))
      → flush_candles ks (flush_candles js (flush_candles ks rows))
        ≡ flush_candles js (flush_candles ks rows)
  flush_candles_again ks js rows =
      flush_candles-known ks (flush_candles js (flush_candles ks rows))
        (still_known js (flush_candles ks rows) ks (flush_candles-All ks rows))
