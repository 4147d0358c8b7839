-- ===== src/Alpaca/Lost.antt =====
-- A cancellation that overtakes the activity feed (`_sync_order`).
use pios_backend.Alpaca.Passes.{
  stored_print, alpaca_target, prints_in, sum_prints, apply_alpaca_status-IsEnded, booked_prints,
  apply_prints-booked,
}
use pios_backend.Prelude.{
  map, update_if, sym, false, find_first-passes, ltb, ok, find_first-update_if, ◌-◌, refl, ap, ◌∙◌,
  ◌++◌, arith, find_first, ℕ, ◌<◌, String, ◌≡◌, true, Option, none, some, [],
}
use pios_backend.Alpaca.Sweep.{set_lag, alpaca_sync_order, Lagging}
use mathlib.Core.Path.{sym, subst}
use pios_backend.Store.{nudges, Books, num_or_zero, is_order}
use pios_backend.Alpaca.{
  alpaca_row, replay, defer, plan_delta, apply_prints, AlpacaPass, AlpacaStatus, AlpacaState, Feed,
}
use pios_backend.FillSync.Outcome.{or_kept}
use mathlib.Core.List.{append-nil}
use pios_backend.FillSync.{Execution}
use pios_backend.Num.{lt, ◌⊖◌, nought, or_zero, Num}
use pios_backend.Order.{is_working, Status, Order}

-- The feed has nothing to show for the order yet, and is within its grace.
pub record IsBehind {F : Type 0} ⦃n : Num F⦄ (feed : Feed F) (o : Order F) (newly avg : F)
    : Type 0 where
  pub nothing : feed.get_order_fills o.broker_order_id o.created_at ≡ some []
  pub grace_pos : 0 < feed.grace
  pub executed : lt (n.lit 1 12) newly ≡ true
  pub priced : lt nought avg ≡ true
  pub missing : lt (n.lit 1 9) (newly ⊖ feed.sum []) ≡ true

module _ {F : Type 0} ⦃n : Num F⦄ where
  -- Nothing is booked of what the feed does not show.
  booked_prints-IsBehind :
      (feed : Feed F) (now : ℕ) (state : AlpacaState F) (o : Order F)
      → IsBehind feed o
          (num_or_zero state.filled_qty ⊖ or_zero o.filled_qty nought)
          (num_or_zero state.avg_price)
      → booked_prints feed now none state none o ≡ []
  unfolding plan_delta defer replay
  booked_prints-IsBehind feed now state o behind =
      let in_grace : ltb (now - now) feed.grace ≡ true = ground (arith, behind.grace_pos) in
      rw
        (
          behind.executed, behind.priced, behind.nothing, behind.missing, in_grace, plan_delta,
          defer,
        )
        refl

  -- The pass on such a row.
  alpaca_row-IsBehind :
      (feed : Feed F) (now : ℕ) (source : String) (state : AlpacaState F) (o : Order F)
      (b : Books F)
      → is_working o.status ≡ true
      → state.status ≡ AlpacaStatus.canceled
      → IsBehind feed o
          (num_or_zero state.filled_qty ⊖ or_zero o.filled_qty nought)
          (num_or_zero state.avg_price)
      → (q : AlpacaPass F) × (alpaca_row feed now source none state none o b ≡ ok q)
        × (q.order.status ≡ some Status.cancelled)
        × (q.order.filled_qty ≡ o.filled_qty)
        × (q.order.id ≡ o.id)
        × (prints_in q.books ≡ prints_in b)
        × (q.changed ≡ true)
  unfolding alpaca_row
  alpaca_row-IsBehind feed now source state o b working ended behind =
      let p = apply_prints feed now none state none o b in
      let (same, named, summed, shown) = apply_prints-booked feed now none state none o b in
      let nothing = booked_prints-IsBehind feed now state o behind in
      let (q, e, h) = apply_alpaca_status-IsEnded now source state.status p (rw same working) in
      (
        q,
        e,
        h.status
            ∙ ap (λ x. or_kept (alpaca_target x (lt nought p.deferred) p.changed) p.order.status)
                ended,
        h.filled_qty ∙ summed ∙ ap (sum_prints o.filled_qty) nothing,
        h.id ∙ named,
        ap prints_in h.books
            ∙ shown
            ∙ ap (λ es. prints_in b ++ map stored_print es) nothing
            ∙ append-nil (prints_in b),
        h.changed (rw ended refl),
      )

  -- An order that is not working is left alone.
  alpaca_sync_order-closed :
      (feed : Feed F) (now : ℕ) (source : String) (i : ℕ) (injected : Option (AlpacaState F))
      (execution : Option (Execution F)) (l : Lagging F) (o : Order F)
      → find_first (is_order i) l.world.orders ≡ some o
      → is_working o.status ≡ false
      → alpaca_sync_order feed now source i injected execution l ≡ l
  unfolding alpaca_sync_order
  alpaca_sync_order-closed feed now source i injected execution l o found closed =
      rw (found, closed, alpaca_sync_order) refl

  -- The order is cancelled at the quantity it had, nothing is booked, and no later pass changes that.
  abbrev pub IsLost : ℕ → Order F → Lagging F → Lagging F → Type 0
  IsLost i o l latter =
      (o' : Order F) × (find_first (is_order i) latter.world.orders ≡ some o')
      × (o'.status ≡ some Status.cancelled)
      × (o'.filled_qty ≡ o.filled_qty)
      × (prints_in latter.world.books ≡ prints_in l.world.books)
      × ((feed : Feed F) (later : ℕ) (s : String) (injected : Option (AlpacaState F))
            (execution : Option (Execution F))
          → alpaca_sync_order feed later s i injected execution latter ≡ latter)

  -- The tables after a pass that commits.
  abbrev committed_pass : ℕ → AlpacaPass F → Lagging F → Lagging F
  committed_pass i q l = record {
    world = record l.world {
      orders = update_if (is_order i) (λ _. q.order) l.world.orders;
      books = q.books;
      published = l.world.published ++ nudges q.order;
    };
    lags = set_lag i q.lag l.lags;
  }

  -- A cancelled order's deferred fill is lost: when Alpaca reports a working order cancelled with a
  -- filled quantity and an average, of which its activity feed shows nothing yet, and no earlier pass
  -- has waited for the feed, the pass cancels the order and books nothing of that quantity. Every later
  -- pass leaves the tables as they are, whatever the feed, the stream or Alpaca then shows.
  pub alpaca_sync_order-IsLost :
      (feed : Feed F) (now : ℕ) (source : String) (i : ℕ) (state : AlpacaState F) (l : Lagging F)
      (o : Order F)
      → find_first (is_order i) l.world.orders ≡ some o
      → is_working o.status ≡ true
      → state.status ≡ AlpacaStatus.canceled
      → l.lags i ≡ none
      → IsBehind feed o
          (num_or_zero state.filled_qty ⊖ or_zero o.filled_qty nought)
          (num_or_zero state.avg_price)
      → IsLost i o l (alpaca_sync_order feed now source i (some state) none l)
  unfolding alpaca_sync_order is_working
  alpaca_sync_order-IsLost feed now source i state l o found working ended fresh behind =
      let (q, e, status, qty, named, shown, stays) =
        alpaca_row-IsBehind feed now source state o l.world.books working ended behind in
      let stored =
        find_first-update_if (is_order i) l.world.orders o q.order found
          (rw named (find_first-passes (is_order i) l.world.orders found)) in
      let same : alpaca_sync_order feed now source i (some state) none l ≡ committed_pass i q l =
        rw (found, working, fresh, e, stays, alpaca_sync_order) refl in
      subst (IsLost i o l) (sym same) (
        q.order,
        stored,
        status,
        qty,
        shown,
        λ feed2 later s injected execution.
            alpaca_sync_order-closed feed2 later s i injected execution (committed_pass i q l)
              q.order stored (rw status refl),
      )
