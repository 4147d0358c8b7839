-- ===== src/FillSync/Again.antt =====
-- When a pass changes anything, and the whole call delivered again.
use pios_backend.Store.{nudges, is_order, Books, World}
use pios_backend.Prelude.{
  ◌==◌, update_if, find_first-passes, find_first-update_if, ◌++◌, none, if◌then◌else◌, Bool-cases,
  Option-cases, is_some, ok_inj, ok, find_first, ℕ, String, ◌≡◌, refl, sym, ap, ◌∙◌, inl, inr, Bool,
  false, not, ◌||◌, Option, some, arith,
}
use mathlib.Core.Option.{some-injective}
use pios_backend.FillSync.{
  true, is_unplaced, apply_delta, sync_row, or_ask, sync_order_against_broker, BrokerState,
  Execution, Pass,
}
use pios_backend.Num.{Num}
use pios_backend.Order.{is_working, Order}
use pios_backend.FillSync.Converge.{decides, apply_delta_changed, sync_row_converges, IsSteady}
use pios_backend.FillSync.Outcome.{
  target, apply_status_ok, apply_delta_status, apply_delta_broker_order_id,
}

module _ {F : Type 0} ⦃n : Num F⦄ where
  -- Whether a pass over the row changes it, from the row's columns alone.
  abbrev pub changes : BrokerState F → Option (Execution F) → Order F → Bool
  changes state execution o =
      if not (is_working o.status) || is_unplaced state.status
      then false
      else (decides state execution o.filled_qty o.avg_fill_price
          || is_some (target state.status (decides state execution o.filled_qty o.avg_fill_price)))

  -- A pass always ends, and keeps the row's identifiers.
  pub record IsEnd (state : BrokerState F) (execution : Option (Execution F)) (o : Order F)
      (q : Pass F) : Type 0 where
    pub changed : q.changed ≡ changes state execution o
    pub id : q.order.id ≡ o.id
    pub broker_order_id : q.order.broker_order_id ≡ o.broker_order_id

  pub sync_row_ends :
      (now : ℕ) (source : String) (state : BrokerState F) (execution : Option (Execution F))
      (o : Order F) (b : Books F)
      → (q : Pass F) × (sync_row now source state execution o b ≡ ok q) × IsEnd state execution o q
  unfolding sync_row
  sync_row_ends now source state execution o b =
      elim (Bool-cases (not (is_working o.status) || is_unplaced state.status)) [
        | inl shut ↦ (
          record { order = o; books = b; changed = false },
          rw shut refl,
          record { changed = rw shut refl; id = refl; broker_order_id = refl },
        )
        | inr live ↦
            let p = apply_delta now state execution o b in
            let (same, kept) = apply_delta_status now state execution o b in
            let working : is_working o.status ≡ true = ground (arith, live) in
            let (q, e, settled) = apply_status_ok now source state.status p (rw same working) in
            (
              q,
              rw live e,
              record {
                changed =
                    settled.changed ∙ rw (apply_delta_changed now state execution o b, live) refl;
                id = settled.id ∙ kept;
                broker_order_id =
                    settled.broker_order_id ∙ apply_delta_broker_order_id now state execution o b;
              },
            )
      ]

  -- What a pass leaves, no later pass on the same broker state changes.
  changes_again :
      IsSteady F
      → (now : ℕ) (source : String) (state : BrokerState F) (execution : Option (Execution F))
        (o : Order F) (b : Books F) (q : Pass F)
      → sync_row now source state execution o b ≡ ok q
      → changes state execution q.order ≡ false
  changes_again laws now source state execution o b q e =
      let (r, f, still) = sync_row_converges laws now now source source state execution o b q e in
      let (r', f', ended) = sync_row_ends now source state execution q.order q.books in
      sym ended.changed ∙ ap (λ p. p.changed) (ok_inj f' f) ∙ still

  module _ (injected : Option (BrokerState F)) (execution : Option (Execution F))
      (ask : Option String → Option (BrokerState F)) (i : ℕ) where
    -- The order is as the broker's state leaves it.
    pub record IsQuiet (w : World F) : Type 0 where
      pub unchanged :
          (o : Order F) (state : BrokerState F)
          → find_first (is_order i) w.orders ≡ some o
          → or_ask injected (ask o.broker_order_id) ≡ some state
          → changes state execution o ≡ false

    found-IsQuiet :
        (w : World F) (o : Order F) (state : BrokerState F)
        → find_first (is_order i) w.orders ≡ some o
        → or_ask injected (ask o.broker_order_id) ≡ some state
        → changes state execution o ≡ false
        → IsQuiet w
    found-IsQuiet w o state a b calm = record {
      unchanged = λ o' state' f g.
          let same : o ≡ o' = some-injective _ _ (sym a ∙ f) in
          let seen : state ≡ state' =
            some-injective _ _
              (sym b ∙ ap (λ x. or_ask injected (ask x.broker_order_id)) same ∙ g) in
          rw (sym same, sym seen) calm;
    }

    -- A quiet order is left alone.
    pub sync-IsQuiet :
        (now : ℕ) (source : String) (w : World F)
        → IsQuiet w
        → sync_order_against_broker now source ask i injected execution w ≡ w
    unfolding sync_order_against_broker
    sync-IsQuiet now source w quiet = elim (Option-cases (find_first (is_order i) w.orders)) [
      | inl a ↦ rw (a, sync_order_against_broker) refl
      | inr (o, a) ↦ elim (Option-cases (or_ask injected (ask o.broker_order_id))) [
        | inl b ↦ rw (a, b, sync_order_against_broker) refl
        | inr (state, b) ↦
            let (q, e, ended) = sync_row_ends now source state execution o w.books in
            rw (a, b, e, ended.changed, quiet.unchanged o state a b, sync_order_against_broker) refl
      ]
    ]

    -- A call leaves its order quiet.
    pub sync-quiets :
        IsSteady F
        → (now : ℕ) (source : String) (w : World F)
        → IsQuiet (sync_order_against_broker now source ask i injected execution w)
    unfolding sync_order_against_broker
    sync-quiets laws now source w = elim (Option-cases (find_first (is_order i) w.orders)) [
      | inl a ↦ rw (a, sync_order_against_broker) (record { unchanged = λ o state f g. cc })
      | inr (o, a) ↦ elim (Option-cases (or_ask injected (ask o.broker_order_id))) [
        | inl b ↦
            rw (a, b, sync_order_against_broker)
              (record {
                unchanged = λ o' state f g.
                    let same : some o ≡ some o' = sym a ∙ f in
                    let at_o : o ≡ o' = some-injective _ _ same in
                    let none_left : none ≡ some state =
                      sym b ∙ ap (λ x. or_ask injected (ask x.broker_order_id)) at_o ∙ g in
                    cc;
              })
        | inr (state, b) ↦
            let (q, e, ended) = sync_row_ends now source state execution o w.books in
            let calm = changes_again laws now source state execution o w.books q e in
            elim (Bool-cases q.changed) [
              | inr still ↦
                  rw (a, b, e, still, sync_order_against_broker)
                    (found-IsQuiet w o state a b (sym ended.changed ∙ still))
              | inl moves ↦
                  let hit : is_order i q.order ≡ true =
                    ap (λ k. k == i) ended.id ∙ find_first-passes (is_order i) w.orders a in
                  rw (a, b, e, moves, sync_order_against_broker)
                    (found-IsQuiet
                      (record w {
                        orders = update_if (is_order i) (λ _. q.order) w.orders;
                        books = q.books;
                        published = w.published ++ nudges q.order;
                      })
                      q.order state (find_first-update_if (is_order i) w.orders o q.order a hit)
                      (ap (λ k. or_ask injected (ask k)) ended.broker_order_id ∙ b) calm)
            ]
      ]
    ]
