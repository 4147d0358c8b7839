-- ===== src/Candles/Counting.antt =====
-- No tick is lost: what the candles count.
use pios_backend.Candles.{
  bucket_ts, is_older, ingest, ingest_all, in_bucket, first_candle, next_candle, absorb, Tick,
  Candle,
}
use pios_backend.Prelude.{
  length, ◌∙◌, false, Bool-cases, Option-cases, keep_if, find_first, update_if, ℕ, suc, ◌+◌, ◌≡◌,
  refl, sym, ap, inl, inr, Bool, true, not, none, some, List, [], ◌∷◌, ◌++◌, arith,
}
use pios_backend.Num.{Num}

module _ {F : Type 0} where
  -- The ticks that the candles have taken in.
  abbrev pub ticks_in : List (Candle F) → ℕ
  ticks_in [] = 0
  ticks_in (c ∷ cs) = c.tick_count + ticks_in cs

  ticks_in-append : (cs ds : List (Candle F)) → ticks_in (cs ++ ds) ≡ ticks_in cs + ticks_in ds
  ticks_in-append [] ds = omega arith
  ticks_in-append (c ∷ cs) ds = omega (arith, ticks_in-append cs ds)

  ticks_in-keep_if :
      (p : Candle F → Bool) (cs : List (Candle F))
      → ticks_in (keep_if p cs) + ticks_in (keep_if (λ c. not (p c)) cs) ≡ ticks_in cs
  ticks_in-keep_if p [] = refl
  ticks_in-keep_if p (c ∷ cs) = elim (Bool-cases (p c)) [
    | inl hit ↦ rw hit (omega (arith, ticks_in-keep_if p cs))
    | inr miss ↦ rw miss (omega (arith, ticks_in-keep_if p cs))
  ]

  -- One bucket for each symbol and instant.
  abbrev pub IsKeyed : List (Candle F) → Type 0
  IsKeyed [] = Unit
  IsKeyed (c ∷ cs) = (find_first (in_bucket c.symbol_id c.time) cs ≡ none) × IsKeyed cs

  keep_if-none :
      (p q : Candle F → Bool) (cs : List (Candle F))
      → find_first p cs ≡ none
      → find_first p (keep_if q cs) ≡ none
  keep_if-none p q [] e = refl
  keep_if-none p q (c ∷ cs) e = elim (Bool-cases (p c)) [
    | inl hit ↦ ground (arith, hit, e)
    | inr miss ↦ elim (Bool-cases (q c)) [
      | inl kept ↦ rw (kept, miss) (keep_if-none p q cs (rw miss at e))
      | inr out ↦ rw out (keep_if-none p q cs (rw miss at e))
    ]
  ]

  keep_if-IsKeyed :
      (q : Candle F → Bool) (cs : List (Candle F)) → IsKeyed cs → IsKeyed (keep_if q cs)
  keep_if-IsKeyed q [] k = tt
  keep_if-IsKeyed q (c ∷ cs) k = elim (Bool-cases (q c)) [
    | inl kept ↦
        rw kept (keep_if-none (in_bucket c.symbol_id c.time) q cs k.0, keep_if-IsKeyed q cs k.1)
    | inr out ↦ rw out (keep_if-IsKeyed q cs k.1)
  ]

  append-none :
      (p : Candle F → Bool) (cs : List (Candle F)) (d : Candle F)
      → find_first p cs ≡ none
      → p d ≡ false
      → find_first p (cs ++ (d ∷ [])) ≡ none
  append-none p [] d e h = rw h refl
  append-none p (c ∷ cs) d e h = elim (Bool-cases (p c)) [
    | inl hit ↦ ground (arith, hit, e)
    | inr miss ↦ rw miss (append-none p cs d (rw miss at e) h)
  ]

  -- Two buckets with different keys, seen from either.
  in_bucket-swap :
      (c d : Candle F)
      → in_bucket d.symbol_id d.time c ≡ false
      → in_bucket c.symbol_id c.time d ≡ false
  in_bucket-swap c d h = ground (arith, h)

  append-IsKeyed :
      (cs : List (Candle F)) (d : Candle F)
      → IsKeyed cs
      → find_first (in_bucket d.symbol_id d.time) cs ≡ none
      → IsKeyed (cs ++ (d ∷ []))
  append-IsKeyed [] d k e = (refl, tt)
  append-IsKeyed (c ∷ cs) d k e = elim (Bool-cases (in_bucket d.symbol_id d.time c)) [
    | inl hit ↦ ground (arith, hit, e)
    | inr miss ↦ (
      append-none (in_bucket c.symbol_id c.time) cs d k.0 (in_bucket-swap c d miss),
      append-IsKeyed cs d k.1 (rw miss at e),
    )
  ]

module _ {F : Type 0} ⦃n : Num F⦄ where
  ticks_in-none :
      (i b : ℕ) (t : Tick F) (cs : List (Candle F))
      → find_first (in_bucket i b) cs ≡ none
      → ticks_in (update_if (in_bucket i b) (next_candle t) cs) ≡ ticks_in cs
  ticks_in-none i b t [] e = refl
  ticks_in-none i b t (c ∷ cs) e = elim (Bool-cases (in_bucket i b c)) [
    | inl hit ↦ ground (arith, hit, e)
    | inr miss ↦ rw miss (ap (λ k. c.tick_count + k) (ticks_in-none i b t cs (rw miss at e)))
  ]

  same_bucket : (i b : ℕ) (c : Candle F) → in_bucket i b c ≡ true → (c.symbol_id ≡ i) × (c.time ≡ b)
  same_bucket i b c h = ground (arith, h)

  ticks_in-hit :
      (i b : ℕ) (t : Tick F) (cs : List (Candle F)) {c : Candle F}
      → IsKeyed cs
      → find_first (in_bucket i b) cs ≡ some c
      → ticks_in (update_if (in_bucket i b) (next_candle t) cs) ≡ suc (ticks_in cs)
  ticks_in-hit i b t [] k e = cc
  ticks_in-hit i b t (c ∷ cs) k e = elim (Bool-cases (in_bucket i b c)) [
    | inl hit ↦
        let (same_id, same_time) = same_bucket i b c hit in
        rw (hit, ticks_in-none i b t cs (rw (sym same_id, sym same_time) k.0)) (omega arith)
    | inr miss ↦ rw (miss, ticks_in-hit i b t cs k.1 (rw miss at e)) (omega arith)
  ]

  ticks_in-absorb :
      (b : ℕ) (t : Tick F) (cs : List (Candle F))
      → IsKeyed cs
      → ticks_in (absorb b t cs) ≡ suc (ticks_in cs)
  unfolding absorb
  ticks_in-absorb b t cs k = elim (Option-cases (find_first (in_bucket t.symbol_id b) cs)) [
    | inl e ↦ rw (e, absorb, ticks_in-append cs (first_candle b t ∷ [])) (omega arith)
    | inr (_, e) ↦ rw (e, absorb) (ticks_in-hit t.symbol_id b t cs k e)
  ]

  update-none :
      (p q : Candle F → Bool) (f : Candle F → Candle F) (cs : List (Candle F))
      → ((c : Candle F) → p (f c) ≡ p c)
      → find_first p cs ≡ none
      → find_first p (update_if q f cs) ≡ none
  update-none p q f [] same e = refl
  update-none p q f (c ∷ cs) same e = elim (Bool-cases (p c)) [
    | inl hit ↦ ground (arith, hit, e)
    | inr miss ↦
        let rest = update-none p q f cs same (rw miss at e) in
        elim (Bool-cases (q c)) [
          | inl kept ↦ rw (kept, same c, miss) rest
          | inr out ↦ rw (out, miss) rest
        ]
  ]

  update-IsKeyed :
      (q : Candle F → Bool) (t : Tick F) (cs : List (Candle F))
      → IsKeyed cs
      → IsKeyed (update_if q (next_candle t) cs)
  update-IsKeyed q t [] k = tt
  update-IsKeyed q t (c ∷ cs) k =
      let rest = update-IsKeyed q t cs k.1 in
      let apart = update-none (in_bucket c.symbol_id c.time) q (next_candle t) cs (λ _. refl) k.0 in
      elim (Bool-cases (q c)) [ inl kept ↦ rw kept (apart, rest) | inr out ↦ rw out (apart, rest) ]

  absorb-IsKeyed :
      (b : ℕ) (t : Tick F) (cs : List (Candle F)) → IsKeyed cs → IsKeyed (absorb b t cs)
  unfolding absorb
  absorb-IsKeyed b t cs k = elim (Option-cases (find_first (in_bucket t.symbol_id b) cs)) [
    | inl e ↦ rw (e, absorb) (append-IsKeyed cs (first_candle b t) k e)
    | inr (_, e) ↦ rw (e, absorb) (update-IsKeyed (in_bucket t.symbol_id b) t cs k)
  ]

  -- A tick is counted once: by the candles that it completes or by the buckets that stay; and there
  -- is still one bucket for each symbol and instant.
  ingest-ticks_in :
      (interval : ℕ) (t : Tick F) (cs : List (Candle F))
      → IsKeyed cs
      → (ticks_in (ingest interval t cs).0 + ticks_in (ingest interval t cs).1 ≡ suc (ticks_in cs))
        × IsKeyed (ingest interval t cs).1
  unfolding ingest
  ingest-ticks_in interval t cs k =
      let b = bucket_ts interval t.time in
      (
        ticks_in-keep_if (is_older t.symbol_id b) (absorb b t cs) ∙ ticks_in-absorb b t cs k,
        keep_if-IsKeyed (λ c. not (is_older t.symbol_id b c)) (absorb b t cs)
            (absorb-IsKeyed b t cs k),
      )

  -- Over any run of ticks no tick is lost and none is counted twice: the completed candles and the
  -- open buckets together have counted the ticks of the run and those of the buckets at the start,
  -- when these have one bucket for each symbol and instant; and so have the buckets at the end.
  pub ingest_all-ticks_in :
      (interval : ℕ) (ts : List (Tick F)) (cs : List (Candle F))
      → IsKeyed cs
      → (ticks_in (ingest_all interval ts cs).0 + ticks_in (ingest_all interval ts cs).1
          ≡ length ts + ticks_in cs)
        × IsKeyed (ingest_all interval ts cs).1
  unfolding ingest_all
  ingest_all-ticks_in interval [] cs k = (refl, k)
  ingest_all-ticks_in interval (t ∷ ts) cs k =
      let (one, k') = ingest-ticks_in interval t cs k in
      let (many, k'') = ingest_all-ticks_in interval ts (ingest interval t cs).1 k' in
      (
        omega (
          arith,
          one,
          many,
          ticks_in-append (ingest interval t cs).0
              (ingest_all interval ts (ingest interval t cs).1).0,
        ),
        k'',
      )
