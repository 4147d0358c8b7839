-- ===== src/Marks.antt =====
-- Marking open positions to market (app/services/position_marks.py). Tickers are an argument: a pass
-- asks for each symbol once.
pub mod Again
use pios_backend.Num.{lt, ◌⊕◌, ◌⊖◌, ◌⊗◌, ◌⊘◌, nought, le, abs, or_zero, Num}
use pios_backend.Position.{PosSide, Position}
use pios_backend.Store.{num_or_zero, World, position_update}
use pios_backend.Prelude.{
  ◌==◌, if◌then◌else◌, is_some, any_of, count_if, ℕ, Bool, not, ◌&&◌, Option, none, some, List, [],
  ◌∷◌, ◌++◌, map,
}

-- A ticker, or an error that the data service reports; `none` where it raises.
pub record Quote (F : Type 0) : Type 0 where
  pub has_error : Bool
  pub last : Option F
  pub bid : Option F
  pub ask : Option F

-- A user is noted once.
abbrev add_user : ℕ → List ℕ → List ℕ
add_user u us = if any_of (λ v. v == u) us then us else u ∷ us

module _ {F : Type 0} ⦃n : Num F⦄ where
  -- `_mark_price`: the last price, or else the middle of bid and ask.
  unfoldable pub quote_price : Option (Quote F) → Option F
  quote_price none = none
  quote_price (some q) =
      let last = num_or_zero q.last in
      let bid = num_or_zero q.bid in
      let ask = num_or_zero q.ask in
      if q.has_error
      then none
      else if not (n.eq last nought)
      then some last
      else if lt nought bid && lt nought ask
      then some ((bid ⊕ ask) ⊘ n.lit 2 0)
      else none

  -- `1 if pos.side == "LONG" else -1`
  abbrev pub direction : PosSide → F
  direction PosSide.long = n.lit 1 0
  direction PosSide.short = n.neg (n.lit 1 0)

  abbrev pub unrealized_at : F → Position F → F
  unrealized_at mark p = (mark ⊖ p.avg_cost) ⊗ p.qty ⊗ direction p.side

  -- The new unrealized result of a row, where the pass writes one.
  unfoldable pub remark : (ℕ → Option (Quote F)) → Position F → Option F
  unfolding quote_price
  remark quotes p =
      if p.is_open
      then (elim (quote_price (quotes p.symbol_id)) [
        | none ↦ none
        | some mark ↦
            if le mark nought
            then none
            else if lt (abs (unrealized_at mark p ⊖ or_zero p.unrealized_pnl nought)) (n.lit 1 9)
            then none
            else some (unrealized_at mark p)
      ])
      else none

  -- The row after it; the column is NUMERIC(20, 8).
  abbrev pub remarked : (ℕ → Option (Quote F)) → Position F → Position F
  remarked quotes p = elim (remark quotes p) [
    | none ↦ p
    | some u ↦ record p { unrealized_pnl = n.numeric u }
  ]

  -- The users whose rows are written.
  unfoldable pub touched : (ℕ → Option (Quote F)) → List (Position F) → List ℕ
  touched quotes [] = []
  touched quotes (p ∷ ps) =
      let rest = touched quotes ps in
      elim (remark quotes p) [ none ↦ rest | some _ ↦ add_user p.user_id rest ]

  -- The tables after a pass that writes.
  abbrev pub marked : (ℕ → Option (Quote F)) → World F → World F
  marked quotes w = record w {
    books = record w.books { positions = map (remarked quotes) w.books.positions };
    published = w.published ++ map (λ u. position_update u) (touched quotes w.books.positions);
  }

  -- `mark_open_positions`: how many rows it writes, and the tables after it.
  unfoldable pub mark_open_positions : (ℕ → Option (Quote F)) → World F → ℕ × World F
  mark_open_positions quotes w =
      let count = count_if (λ p. is_some (remark quotes p)) w.books.positions in
      (count, if count == 0 then w else marked quotes w)
