-- ===== src/Ingest/Writes.antt =====
-- Nothing that the writer reads is lost or written twice (app/workers/market_db_writer.py,
-- app/workers/db_writer.py).
use pios_backend.Ingest.{
  Landing, check_tick, check_all, is_usable, is_reported, flush, cleared, take_in, turn, turns,
  Checks, Checked, Tables, Writer, Item, timeout, popped,
}
use pios_backend.Prelude.{
  All, true, ap, leb, ◌==◌, if◌then◌else◌, Bool-cases, keep_if, ℕ, ◌+◌, ◌≡◌, refl, sym, ◌∙◌, inl,
  inr, Bool, false, List, [], ◌∷◌, ◌++◌,
}
use mathlib.Core.List.{append-nil, append_assoc}
use pios_backend.Num.{Num}
use pios_backend.Candles.{Tick}

module _ {F : Type 0} where
  -- The ticks of a run that have a symbol.
  abbrev pub ticks_of : List (Item F) → List (Tick F)
  ticks_of [] = []
  ticks_of (timeout _ ∷ xs) = ticks_of xs
  ticks_of (popped t _ ∷ xs) = if t.symbol_id == 0 then ticks_of xs else t ∷ ticks_of xs

  -- The tick store: what is in the table and what waits in the buffer; the same for events.
  abbrev pub stored : Writer F × Tables F → List (Checked F)
  stored r = r.1.ticks ++ r.0.raw_ticks

  abbrev pub reported : Writer F × Tables F → List (Checked F)
  reported r = r.1.dq_events ++ r.0.dq_events

module _ {F : Type 0} where
  -- The flush after an item commits its ticks and its events.
  abbrev pub landing_of : Item F → Landing
  landing_of (timeout l) = l
  landing_of (popped t l) = l

  abbrev pub IsLanded : Item F → Type 0
  IsLanded x = ((landing_of x).ticks_land ≡ true) × ((landing_of x).events_land ≡ true)

  keep_one :
      (p : Checked F → Bool) (k : Checked F) (rest : List (Checked F))
      → keep_if p (k ∷ []) ++ keep_if p rest ≡ keep_if p (k ∷ rest)
  keep_one p k rest = elim (Bool-cases (p k)) [ inl e ↦ rw e refl | inr e ↦ rw e refl ]

  grow :
      (p : Checked F → Bool) (k : Checked F) (old buffer : List (Checked F))
      → old ++ (if p k then buffer ++ (k ∷ []) else buffer) ≡ (old ++ buffer) ++ keep_if p (k ∷ [])
  grow p k old buffer = elim (Bool-cases (p k)) [
    | inl e ↦ rw e (sym (append_assoc old buffer (k ∷ [])))
    | inr e ↦ rw e (sym (append-nil (old ++ buffer)))
  ]

  chain :
      (p : Checked F → Bool) (k : Checked F) (rest old next : List (Checked F))
      → next ≡ old ++ keep_if p (k ∷ [])
      → next ++ keep_if p rest ≡ old ++ keep_if p (k ∷ rest)
  chain p k rest old next e =
      ap (λ o. o ++ keep_if p rest) e
      ∙ append_assoc old (keep_if p (k ∷ [])) (keep_if p rest)
      ∙ ap (λ o. old ++ o) (keep_one p k rest)

module _ {F : Type 0} ⦃n : Num F⦄ (c : Checks F) (interval batch : ℕ) where
  -- One tick goes to the tick store if it is usable, to the events if it is reported.
  turn-popped :
      (t : Tick F) (l : Landing) (s : Writer F) (db : Tables F)
      → (t.symbol_id == 0) ≡ false
      → IsLanded (popped t l)
      → let k = (check_tick c t s.dq).0 in
        let r = turn c interval batch (popped t l) s db in
        (r.0.dq ≡ (check_tick c t s.dq).1)
        × (stored r ≡ stored (s, db) ++ keep_if is_usable (k ∷ []))
        × (reported r ≡ reported (s, db) ++ keep_if is_reported (k ∷ []))
  unfolding turn take_in flush cleared
  turn-popped t l s db known ok_flush =
      let k = (check_tick c t s.dq).0 in
      elim (Bool-cases (leb batch (s.tick_count + 1))) [
        | inl full ↦
            rw (known, full, ok_flush.0, ok_flush.1, turn, flush)
              (
                refl,
                append-nil (db.ticks ++ _) ∙ grow is_usable k db.ticks s.raw_ticks,
                append-nil (db.dq_events ++ _) ∙ grow is_reported k db.dq_events s.dq_events,
              )
        | inr room ↦
            rw (known, room, turn)
              (
                refl,
                grow is_usable k db.ticks s.raw_ticks,
                grow is_reported k db.dq_events s.dq_events,
              )
      ]

  -- The writer's loop stores every tick once, as long as the database accepts its flushes of ticks and
  -- events: after any sequence of ticks and timeouts in which each such flush commits,
  -- the tick table followed by the buffer holds what it held before and then, in order, each tick with
  -- a symbol that the checks did not reject, once; and the events hold each tick that they flagged or
  -- rejected. A rejected tick is never stored.
  pub turns-check_all :
      (xs : List (Item F)) (s : Writer F) (db : Tables F)
      → All IsLanded xs
      → let verdicts = (check_all c (ticks_of xs) s.dq).0 in
        let r = turns c interval batch xs s db in
        (stored r ≡ stored (s, db) ++ keep_if is_usable verdicts)
        × (reported r ≡ reported (s, db) ++ keep_if is_reported verdicts)
  unfolding turns check_all turn cleared flush
  turns-check_all [] s db ok_flush =
      (sym (append-nil (stored (s, db))), sym (append-nil (reported (s, db))))
  turns-check_all (timeout l ∷ xs) s db ok_flush =
      let rest = turns-check_all xs (cleared s) (flush l s db) ok_flush.1 in
      let verdicts = (check_all c (ticks_of xs) s.dq).0 in
      (
        rest.0
            ∙ ap (λ o. o ++ keep_if is_usable verdicts)
                (rw ok_flush.0.0 (append-nil (stored (s, db)))),
        rest.1
            ∙ ap (λ o. o ++ keep_if is_reported verdicts)
                (rw ok_flush.0.1 (append-nil (reported (s, db)))),
      )
  turns-check_all (popped t l ∷ xs) s db ok_flush = elim (Bool-cases (t.symbol_id == 0)) [
    | inl nameless ↦ rw (nameless, turns, turn) (turns-check_all xs s db ok_flush.1)
    | inr known ↦
        let (moved_on, kept, told) = turn-popped t l s db known ok_flush.0 in
        let r = turn c interval batch (popped t l) s db in
        let rest = turns-check_all xs r.0 r.1 ok_flush.1 in
        let k = (check_tick c t s.dq).0 in
        let verdicts = (check_all c (ticks_of xs) (check_tick c t s.dq).1).0 in
        rw known (
          rest.0
              ∙ ap (λ d. stored r ++ keep_if is_usable (check_all c (ticks_of xs) d).0) moved_on
              ∙ chain is_usable k verdicts (stored (s, db)) (stored r) kept,
          rest.1
              ∙ ap (λ d. reported r ++ keep_if is_reported (check_all c (ticks_of xs) d).0) moved_on
              ∙ chain is_reported k verdicts (reported (s, db)) (reported r) told,
        )
  ]
