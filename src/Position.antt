-- ===== src/Position.antt =====
-- Per-trader positions: `apply_fill_to_position` and `write_pnl_snapshot`
-- (app/services/positions_service.py).
-- The session's flushes are immediate; the rounding of the columns to eight decimals is left out.
pub mod Netting
pub mod Book
use pios_backend.Prelude.{
  ℕ, Bool, true, false, not, ◌&&◌, Option, none, some, List, [], ◌∷◌, ◌++◌, foldl, ◌==◌, find_first,
  keep_if, if◌then◌else◌,
}
use pios_backend.Num.{Num, nought, ◌⊕◌, ◌⊖◌, ◌⊗◌, ◌⊘◌, lt, le, abs, min}
use pios_backend.Order.{Side, buy, sell}

pub data PosSide : Type 0 where
  long short : PosSide

-- The columns of `positions` that the service reads or writes.
pub record Position (F : Type 0) : Type 0 where
  pub user_id : ℕ
  pub broker_id : ℕ
  pub strategy_id : Option ℕ
  pub symbol_id : ℕ
  pub side : PosSide
  pub qty : F
  pub avg_cost : F
  pub realized_pnl : F
  pub unrealized_pnl : F
  pub is_open : Bool
  pub closed_at : Option ℕ

-- The arguments of `apply_fill_to_position`.
pub record FillArgs (F : Type 0) : Type 0 where
  pub user_id : ℕ
  pub broker_id : ℕ
  pub strategy_id : Option ℕ
  pub symbol_id : ℕ
  pub side : Side
  pub qty : F
  pub price : F
  pub commission : F

abbrev pub is_long : PosSide → Bool
is_long PosSide.long = true
is_long PosSide.short = false

module _ {F : Type 0} where
  -- The `where` clause of the locked query.
  abbrev pub is_target : FillArgs F → Position F → Bool
  is_target a p =
      p.user_id == a.user_id
      && (p.symbol_id == a.symbol_id)
      && (p.broker_id == a.broker_id)
      && p.is_open

  -- An update of the first row that passes a test, as `scalars().first()` picks it.
  abbrev pub update_first :
      (Position F → Bool) → (Position F → Position F) → List (Position F) → List (Position F)
  update_first test f [] = []
  update_first test f (p ∷ ps) = if test p then f p ∷ ps else p ∷ update_first test f ps

module _ {F : Type 0} ⦃n : Num F⦄ where
  -- `_apply_side_sign(side) * qty`
  abbrev pub fill_sign : Side → F → F
  fill_sign Side.buy q = q
  fill_sign Side.sell q = n.neg q

  abbrev pub pos_sign : PosSide → F → F
  pos_sign PosSide.long q = q
  pos_sign PosSide.short q = n.neg q

  abbrev pub side_of : F → PosSide
  side_of x = if lt nought x then PosSide.long else PosSide.short

  -- `x * direction`, for a direction of 1 or -1
  abbrev pub times_direction : Bool → F → F
  times_direction up x = if up then x else n.neg x

  -- The branch with no open position.
  unfoldable pub open_position : FillArgs F → Position F
  open_position a =
      let fill_signed = fill_sign a.side a.qty in
      record {
        user_id = a.user_id;
        broker_id = a.broker_id;
        strategy_id = a.strategy_id;
        symbol_id = a.symbol_id;
        side = side_of fill_signed;
        qty = abs fill_signed;
        avg_cost = a.price;
        realized_pnl = n.neg a.commission;
        unrealized_pnl = nought;
        is_open = true;
        closed_at = none;
      }

  -- The same direction: extend, and average the cost.
  unfoldable pub extend : F → F → F → Position F → Position F
  extend pos_signed fill_signed price p =
      let total = abs pos_signed ⊕ abs fill_signed in
      record p {
        avg_cost = (p.avg_cost ⊗ abs pos_signed ⊕ price ⊗ abs fill_signed) ⊘ total;
        qty = total;
      }

  -- The opposite direction: close, reduce, or flip through zero.
  unfoldable pub reduce : ℕ → F → F → F → Position F → Position F
  reduce now pos_signed new_signed price p =
      if lt (abs new_signed) (n.lit 1 9)
      then record p { qty = nought; is_open = false; closed_at = some now; unrealized_pnl = nought }
      else if lt nought (new_signed ⊗ pos_signed)
      then record p { qty = abs new_signed }
      else record p { side = side_of new_signed; qty = abs new_signed; avg_cost = price }

  -- The realised profit after the fill.
  unfoldable pub realized_after : F → F → F → F → Position F → F
  realized_after pos_signed fill_signed price commission p =
      let realized = p.realized_pnl ⊖ commission in
      if le nought (pos_signed ⊗ fill_signed)
      then realized
      else realized
        ⊕ times_direction (lt nought pos_signed)
            ((price ⊖ p.avg_cost) ⊗ min (abs pos_signed) (abs fill_signed))

  -- The unrealised profit at the price of the fill, for a position that is still open.
  unfoldable pub marked : F → Position F → Position F
  marked price p = record p {
    unrealized_pnl =
        if p.is_open
        then times_direction (is_long p.side) ((price ⊖ p.avg_cost) ⊗ p.qty)
        else p.unrealized_pnl;
  }

  -- The branch with an open position.
  unfoldable pub net_fill : ℕ → FillArgs F → Position F → Position F
  unfolding extend reduce realized_after marked
  net_fill now a p =
      let pos_signed = pos_sign p.side p.qty in
      let fill_signed = fill_sign a.side a.qty in
      let new_signed = pos_signed ⊕ fill_signed in
      let netted =
        if le nought (pos_signed ⊗ fill_signed)
        then extend pos_signed fill_signed a.price p
        else reduce now pos_signed new_signed a.price p in
      marked a.price (record netted {
        realized_pnl = realized_after pos_signed fill_signed a.price a.commission p;
      })

  unfoldable pub apply_fill_to_position : ℕ → FillArgs F → List (Position F) → List (Position F)
  unfolding open_position net_fill
  apply_fill_to_position now a ps = elim (find_first (is_target a) ps) [
    | none ↦ ps ++ (open_position a ∷ [])
    | some _ ↦ update_first (is_target a) (net_fill now a) ps
  ]

-- `PnLSnapshot`
pub record Snapshot (F : Type 0) : Type 0 where
  pub user_id : ℕ
  pub total_equity : F
  pub realized_pnl : F
  pub unrealized_pnl : F
  pub cash_balance : F

module _ {F : Type 0} ⦃n : Num F⦄ where
  -- `sum(f(p) for p in ps)`
  abbrev pub sum_of : (Position F → F) → List (Position F) → F
  sum_of f ps = foldl (λ acc p. acc ⊕ f p) nought ps

  -- `write_pnl_snapshot`, with `settings.DEFAULT_STARTING_EQUITY_USD`
  unfoldable pub write_pnl_snapshot : ℕ → List (Position F) → Snapshot F
  write_pnl_snapshot user_id ps =
      let positions = keep_if (λ p. p.user_id == user_id) ps in
      let opened = keep_if (λ (p : Position F). p.is_open) positions in
      let realized = sum_of (λ p. p.realized_pnl) positions in
      let unrealized = sum_of (λ p. p.unrealized_pnl) opened in
      let open_notional = sum_of (λ p. p.qty ⊗ p.avg_cost) opened in
      let starting = n.lit 100000 0 in
      record {
        user_id = user_id;
        total_equity = starting ⊕ realized ⊕ unrealized;
        realized_pnl = realized;
        unrealized_pnl = unrealized;
        cash_balance = starting ⊕ realized ⊖ open_notional;
      }
