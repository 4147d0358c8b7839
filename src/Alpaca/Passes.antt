-- ===== src/Alpaca/Passes.antt =====
-- What a pass of the Alpaca reconciliation books, and where it leaves the order (`_sync_order`).
use pios_backend.FillSync.{rejected_note, terminal_note, Execution}
use pios_backend.Prelude.{
  is_some, arith, Bool-cases, text_or, str_append, inl, inr, ◌&&◌, if◌then◌else◌, ok, ℕ, String,
  ◌≡◌, refl, sym, ap, ◌∙◌, Bool, true, false, Option, none, some, List, [], ◌∷◌, ◌++◌, map, foldl,
}
use pios_backend.Alpaca.{
  plan_delta, apply_prints, alpaca_row, AlpacaState, Feed, alpaca_end, alpaca_partial, printed,
  book_prints, apply_alpaca_status, AlpacaStatus, AlpacaPass,
}
use pios_backend.Num.{◌⊖◌, or_zero, lt, ◌⊕◌, nought, Num}
use pios_backend.Order.{moved, is_working, Status, Order}
use pios_backend.Store.{num_or_zero, book_snapshot, fill_row, book_fill, Fill, Books}
use pios_backend.Order.Machine.{is_outcome, transition_working}
use mathlib.Core.List.{append-nil, append_assoc}
use pios_backend.FillSync.Outcome.{or_kept}

-- What the broker's word makes of the order, given what is deferred and whether anything was booked:
-- `none` leaves the status as it is.
abbrev pub alpaca_target : AlpacaStatus → Bool → Bool → Option Status
alpaca_target AlpacaStatus.filled true changed = if changed then some Status.partial else none
alpaca_target AlpacaStatus.filled false changed = some Status.filled
alpaca_target AlpacaStatus.partially_filled waits changed =
    if changed then some Status.partial else none
alpaca_target AlpacaStatus.canceled waits changed = some Status.cancelled
alpaca_target AlpacaStatus.expired waits changed = some Status.expired
alpaca_target AlpacaStatus.rejected waits changed = some Status.rejected
alpaca_target AlpacaStatus.other waits changed = none

module _ {F : Type 0} where
  -- A print as a fill row shows it.
  abbrev pub print_of : Fill F → Execution F
  print_of f = record { price = f.price; qty = f.qty }

  abbrev pub prints_in : Books F → List (Execution F)
  prints_in b = map print_of b.fills

module _ {F : Type 0} ⦃n : Num F⦄ where
  abbrev pub sum_prints : F → List (Execution F) → F
  sum_prints q es = foldl (λ x e. x ⊕ e.qty) q es

  -- A print as the columns of a fill keep it.
  abbrev pub stored_print : Execution F → Execution F
  stored_print e = record { price = n.numeric e.price; qty = n.numeric e.qty }

  -- Booking prints changes the order's quantity and average only.
  book_prints-row :
      (now : ℕ) (es : List (Execution F)) (o : Order F) (b : Books F)
      → let r = book_prints now es o b in
        (r.0.status ≡ o.status) × (r.0.id ≡ o.id) × (r.0.filled_qty ≡ sum_prints o.filled_qty es)
  unfolding book_prints
  book_prints-row now [] o b = (refl, refl, refl)
  book_prints-row now (e ∷ es) o b =
      book_prints-row now es (printed e o) (book_fill now o e.qty e.price b)

  map-append_print :
      (fs : List (Fill F)) (f : Fill F)
      → map print_of (fs ++ (f ∷ [])) ≡ map print_of fs ++ (print_of f ∷ [])
  map-append_print [] f = refl
  map-append_print (g ∷ fs) f = ap (λ xs. print_of g ∷ xs) (map-append_print fs f)

  book_prints-prints_in :
      (now : ℕ) (es : List (Execution F)) (o : Order F) (b : Books F)
      → prints_in (book_prints now es o b).1 ≡ prints_in b ++ map stored_print es
  unfolding book_prints book_fill fill_row
  book_prints-prints_in now [] o b = sym (append-nil (prints_in b))
  book_prints-prints_in now (e ∷ es) o b =
      book_prints-prints_in now es (printed e o) (book_fill now o e.qty e.price b)
      ∙ ap (λ xs. xs ++ map stored_print es) (map-append_print b.fills (fill_row o e.qty e.price))
      ∙ append_assoc (prints_in b) (stored_print e ∷ []) (map stored_print es)

  -- What the second half keeps and changes.
  pub record IsEnded (target : Option Status) (p q : AlpacaPass F) : Type 0 where
    pub status : q.order.status ≡ or_kept target p.order.status
    pub filled_qty : q.order.filled_qty ≡ p.order.filled_qty
    pub id : q.order.id ≡ p.order.id
    pub books : q.books ≡ p.books
    pub changed : is_some target ≡ true → q.changed ≡ true

  alpaca_end-IsEnded :
      (s : Status) (reason : String) (now : ℕ) (write : Order F → Order F) (p : AlpacaPass F)
      → is_working p.order.status ≡ true
      → is_outcome s ≡ true
      → alpaca_end s reason now write p
        ≡ ok (record p {
          order = write (moved s (some reason) now p.order);
          lag = none;
          changed = true;
        })
  alpaca_end-IsEnded s reason now write p working h =
      rw (transition_working s (some reason) now p.order working h, alpaca_end)

  alpaca_partial-IsEnded :
      (reason : String) (now : ℕ) (p : AlpacaPass F)
      → is_working p.order.status ≡ true
      → (q : AlpacaPass F) × (alpaca_partial reason now p ≡ ok q)
        × IsEnded (if p.changed then some Status.partial else none) p q
  alpaca_partial-IsEnded reason now p working = elim (Bool-cases p.changed) [
    | inl booked ↦ (
      record p { order = moved Status.partial (some reason) now p.order; changed = true },
      rw
          (
            booked,
            transition_working Status.partial (some reason) now p.order working refl,
            alpaca_partial,
          )
          refl,
      rw booked (record {
        status = refl;
        filled_qty = refl;
        id = refl;
        books = refl;
        changed = λ _. refl;
      }),
    )
    | inr idle ↦ (
      p,
      rw (idle, alpaca_partial) refl,
      rw idle (record {
        status = refl;
        filled_qty = refl;
        id = refl;
        books = refl;
        changed = λ e. absurd (ground (arith, e));
      }),
    )
  ]

  -- The second half on a working order, on every branch.
  pub apply_alpaca_status-IsEnded :
      (now : ℕ) (source : String) (s : AlpacaStatus) (p : AlpacaPass F)
      → is_working p.order.status ≡ true
      → (q : AlpacaPass F) × (apply_alpaca_status now source s p ≡ ok q)
        × IsEnded (alpaca_target s (lt nought p.deferred) p.changed) p q
  unfolding apply_alpaca_status
  apply_alpaca_status-IsEnded now source AlpacaStatus.filled p working =
      elim (Bool-cases (lt nought p.deferred)) [
        | inl waits ↦
            let (q, e, h) =
              alpaca_partial-IsEnded
                (str_append "Broker "
                  (str_append source "; awaiting per-execution activity records"))
                now p working in
            (q, rw (waits, apply_alpaca_status) e, rw waits h)
        | inr all ↦ (
          record p {
            order = record (moved Status.filled (some (str_append "Broker " source)) now p.order) {
              filled_at = some now;
            };
            lag = none;
            changed = true;
          },
          rw (all, apply_alpaca_status)
              (alpaca_end-IsEnded Status.filled (str_append "Broker " source) now
                (λ o. record o { filled_at = some now }) p working refl),
          rw all (record {
            status = refl;
            filled_qty = refl;
            id = refl;
            books = refl;
            changed = λ _. refl;
          }),
        )
      ]
  apply_alpaca_status-IsEnded now source AlpacaStatus.partially_filled p working =
      alpaca_partial-IsEnded (str_append "Broker " source) now p working
  apply_alpaca_status-IsEnded now source AlpacaStatus.canceled p working = (
    _,
    alpaca_end-IsEnded Status.cancelled (terminal_note source) now (λ o. o) p working refl,
    record { status = refl; filled_qty = refl; id = refl; books = refl; changed = λ _. refl },
  )
  apply_alpaca_status-IsEnded now source AlpacaStatus.expired p working = (
    _,
    alpaca_end-IsEnded Status.expired (terminal_note source) now (λ o. o) p working refl,
    record { status = refl; filled_qty = refl; id = refl; books = refl; changed = λ _. refl },
  )
  apply_alpaca_status-IsEnded now source AlpacaStatus.rejected p working = (
    _,
    alpaca_end-IsEnded Status.rejected (terminal_note source) now
        (λ o. record o { reject_reason = some (text_or o.reject_reason (rejected_note source)) }) p
        working refl,
    record { status = refl; filled_qty = refl; id = refl; books = refl; changed = λ _. refl },
  )
  apply_alpaca_status-IsEnded now source AlpacaStatus.other p working = (
    p,
    refl,
    record {
      status = refl;
      filled_qty = refl;
      id = refl;
      books = refl;
      changed = λ e. absurd (ground (arith, e));
    },
  )

  -- The prints that a pass books.
  abbrev pub booked_prints :
      Feed F → ℕ → Option ℕ → AlpacaState F → Option (Execution F) → Order F → List (Execution F)
  booked_prints feed now lag state execution o =
      let newly = num_or_zero state.filled_qty ⊖ or_zero o.filled_qty nought in
      let avg = num_or_zero state.avg_price in
      if lt (n.lit 1 12) newly && lt nought avg
      then (plan_delta feed now lag execution newly avg o).executions
      else []

  -- The first half books them, each as a fill of its own.
  pub apply_prints-booked :
      (feed : Feed F) (now : ℕ) (lag : Option ℕ) (state : AlpacaState F)
      (execution : Option (Execution F)) (o : Order F) (b : Books F)
      → let p = apply_prints feed now lag state execution o b in
        (p.order.status ≡ o.status)
        × (p.order.id ≡ o.id)
        × (p.order.filled_qty
            ≡ sum_prints o.filled_qty (booked_prints feed now lag state execution o))
        × (prints_in p.books
            ≡ prints_in b ++ map stored_print (booked_prints feed now lag state execution o))
  unfolding apply_prints book_snapshot
  apply_prints-booked feed now lag state execution o b =
      let newly = num_or_zero state.filled_qty ⊖ or_zero o.filled_qty nought in
      elim (Bool-cases (lt (n.lit 1 12) newly && lt nought (num_or_zero state.avg_price))) [
        | inl yes_booked ↦
            let es =
              (plan_delta feed now lag execution newly (num_or_zero state.avg_price)
                o).executions in
            let row = book_prints-row now es o b in
            rw (yes_booked, apply_prints) (row.0, row.1, row.2, book_prints-prints_in now es o b)
        | inr not_booked ↦
            rw (not_booked, apply_prints) (refl, refl, refl, sym (append-nil (prints_in b)))
      ]

  -- A pass over a working order always ends, and books each print of its plan as one fill of that
  -- quantity at that price, as the columns keep them, in order: the order's filled quantity grows by their sum, and its status is
  -- what Alpaca's word makes of it, where FILLED waits as PARTIAL as long as a remainder is deferred.
  pub alpaca_row-IsReplayed :
      (feed : Feed F) (now : ℕ) (source : String) (lag : Option ℕ) (state : AlpacaState F)
      (execution : Option (Execution F)) (o : Order F) (b : Books F)
      → is_working o.status ≡ true
      → let p = apply_prints feed now lag state execution o b in
        let prints = booked_prints feed now lag state execution o in
        (q : AlpacaPass F) × (alpaca_row feed now source lag state execution o b ≡ ok q)
        × (prints_in q.books ≡ prints_in b ++ map stored_print prints)
        × (q.order.filled_qty ≡ sum_prints o.filled_qty prints)
        × (q.order.status
            ≡ or_kept (alpaca_target state.status (lt nought p.deferred) p.changed) o.status)
        × (q.order.id ≡ o.id)
  unfolding alpaca_row
  alpaca_row-IsReplayed feed now source lag state execution o b working =
      let p = apply_prints feed now lag state execution o b in
      let (same, named, summed, shown) = apply_prints-booked feed now lag state execution o b in
      let (q, e, h) = apply_alpaca_status-IsEnded now source state.status p (rw same working) in
      (
        q,
        e,
        ap prints_in h.books ∙ shown,
        h.filled_qty ∙ summed,
        h.status ∙ ap (or_kept (alpaca_target state.status (lt nought p.deferred) p.changed)) same,
        h.id ∙ named,
      )
