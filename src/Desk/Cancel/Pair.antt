-- ===== src/Desk/Cancel/Pair.antt =====
-- What a user's cancellation leaves of an order and of the legs that are paired with it.
use pios_backend.Desk.{adapter_unavailable, User}
use pios_backend.Desk.Cancel.{
  reaches, reaches_all, is_closed, sibling, oco_key, cancel_pair, cancel_order,
}
use pios_backend.Prelude.{
  Bool-cases, err, all_of, ◌⊎◌, none, find_first-update_if, List, ==_iff, find_first-passes, Bool,
  false, not, ◌&&◌, Option, [], ◌∷◌, ◌==◌, Option-cases, ok, find_first, update_if, count_if,
  count_if-update_if, find_first-update_if_other, ℕ, ◌≡◌, refl, sym, ◌∙◌, inl, inr, true, ◌||◌,
  some, ◌++◌, arith,
}
use pios_backend.Desk.Moves.{
  cancel_row_open, store, audit_order, cancelled_row, asked_of, cancel_rows_open,
}
use mathlib.Core.Path.{subst, ap}
use mathlib.Core.Option.{some-injective}
use pios_backend.Order.{is_open, is_working, Status, Order}
use pios_backend.Store.{is_order, World}

not_closed : (s : Option Status) → is_open s ≡ true → is_closed s ≡ false
unfolding is_open is_closed
not_closed s h = ground arith

is_allowed : (a b : Bool) → a || b ≡ true → not a && not b ≡ false
is_allowed a b h = ground arith

module _ {F : Type 0} where
  -- The rows of the group but `i` are not at work.
  pub record IsPaired (i : ℕ) (o : Order F) (w w' : World F) : Type 0 where
    pub group : (g : ℕ) → oco_key o ≡ some g → count_if (sibling g i) w'.orders ≡ 0
    pub kept : find_first (is_order i) w'.orders ≡ find_first (is_order i) w.orders
    pub books : w'.books ≡ w.books

  sibling-is_open : (group i : ℕ) (o : Order F) → sibling group i o ≡ true → is_open o.status ≡ true
  unfolding is_open is_working
  sibling-is_open group i o h = ground (arith, h)

  abbrev after_pair : ℕ → ℕ → ℕ → World F → World F
  after_pair now g i w = record w {
    orders = update_if (sibling g i) (cancelled_row "OCO pair cancelled by user" now) w.orders;
    asked = w.asked ++ asked_of (sibling g i) w.orders;
  }

  -- The legs that a cancellation of the row reaches for.
  abbrev pub legs_at : Option ℕ → ℕ → Order F → Bool
  legs_at none i x = false
  legs_at (some g) i x = sibling g i x

  abbrev pub legs_of : Order F → Order F → Bool
  legs_of o = legs_at (oco_key o) o.id

  cancel_pair_group :
      (adapts : ℕ → Bool) (now g : ℕ) (o : Order F) (w : World F)
      → oco_key o ≡ some g
      → reaches_all adapts (sibling g o.id) w.orders ≡ true
      → cancel_pair adapts now o w ≡ ok (after_pair now g o.id w)
  unfolding cancel_pair
  cancel_pair_group adapts now g o w e near =
      let all =
        cancel_rows_open (sibling g o.id) "OCO pair cancelled by user" now w.orders
          (sibling-is_open g o.id) in
      rw (e, near, all, cancel_pair) refl

  after_pair-IsPaired :
      (now g : ℕ) (o : Order F) (w : World F)
      → oco_key o ≡ some g
      → IsPaired o.id o w (after_pair now g o.id w)
  unfolding is_working
  after_pair-IsPaired now g o w e = record {
    group = λ g' e'. rw (some-injective g' g (sym e' ∙ e)) (
        count_if-update_if (sibling g o.id) (sibling g o.id)
          (cancelled_row "OCO pair cancelled by user" now) w.orders (λ x h. ground arith)
          (λ x h. h));
    kept =
        find_first-update_if_other (sibling g o.id) (is_order o.id)
          (cancelled_row "OCO pair cancelled by user" now) w.orders (λ x h. ground (arith, h))
          (λ x h. ground (arith, h));
    books = refl;
  }

  all_of-always : (os : List (Order F)) → all_of (λ (o : Order F). true) os ≡ true
  all_of-always [] = refl
  all_of-always (o ∷ os) = all_of-always os

  -- The tables once the row is cancelled and its broker is asked.
  abbrev asked_for : ℕ → ℕ → Order F → World F → World F
  asked_for now i order w = record (store (cancelled_row "User requested" now order) w) {
    asked = w.asked ++ asked_of (is_order i) (order ∷ []);
  }

  -- The pair cancels when every leg's adapter is there, and else the whole request fails.
  cancel_pair_lem :
      (adapts : ℕ → Bool) (now : ℕ) (o : Order F) (w : World F)
      → ((reaches_all adapts (legs_of o) w.orders ≡ true)
          × (w' : World F) × (cancel_pair adapts now o w ≡ ok w')
          × IsPaired o.id o w w')
        ⊎ ((reaches_all adapts (legs_of o) w.orders ≡ false)
            × (cancel_pair adapts now o w ≡ err adapter_unavailable))
  unfolding cancel_pair
  cancel_pair_lem adapts now o w = elim (Option-cases (oco_key o)) [
    | inl e ↦ inl (
      ap (λ k. reaches_all adapts (legs_at k o.id) w.orders) e ∙ all_of-always w.orders,
      w,
      rw (e, cancel_pair) refl,
      record { group = λ g h. ground (arith, e, h); kept = refl; books = refl },
    )
    | inr (g, e) ↦ elim (Bool-cases (reaches_all adapts (sibling g o.id) w.orders)) [
      | inl near ↦ inl (
        ap (λ k. reaches_all adapts (legs_at k o.id) w.orders) e ∙ near,
        after_pair now g o.id w,
        cancel_pair_group adapts now g o w e near,
        after_pair-IsPaired now g o w e,
      )
      | inr far ↦ inr (
        ap (λ k. reaches_all adapts (legs_at k o.id) w.orders) e ∙ far,
        rw (e, far, cancel_pair) refl,
      )
    ]
  ]

  cancel_order_open :
      (adapts : ℕ → Bool) (now i : ℕ) (user : User) (w : World F) (order : Order F)
      → find_first (is_order i) w.orders ≡ some order
      → user.is_admin || order.user_id == user.id ≡ true
      → is_open order.status ≡ true
      → reaches adapts order ≡ true
      → cancel_order adapts now i user w
        ≡ elim (cancel_pair adapts now
            (cancelled_row "User requested" now order)
            (asked_for now i order w)) [
              | err e ↦ err e
              | ok w' ↦ ok (
                cancelled_row "User requested" now order,
                audit_order "ORDER_CANCELLED" i user w',
              )
            ]
  unfolding cancel_order
  cancel_order_open adapts now i user w order found allowed live near =
      rw
        (
          found,
          is_allowed user.is_admin (order.user_id == user.id) allowed,
          not_closed order.status live,
          near,
          cancel_row_open "User requested" now order live,
          cancel_order,
        )
        refl

  stored_row :
      (i : ℕ) (xs : List (Order F)) (order o : Order F)
      → find_first (is_order i) xs ≡ some order
      → o.id ≡ i
      → find_first (is_order i) (update_if (is_order o.id) (λ _. o) xs) ≡ some o
  stored_row i xs order o found same =
      subst (λ k. find_first (is_order i) (update_if (is_order k) (λ _. o) xs) ≡ some o) (sym same)
        (find_first-update_if (is_order i) xs order o found ((==_iff o.id i).1 same))

  -- What a cancellation does, once it may be made.
  abbrev pub Cancels : (ℕ → Bool) → ℕ → ℕ → User → World F → Order F → Type 0
  Cancels adapts now i user w order =
      let near =
        reaches adapts order
        && reaches_all adapts (legs_of order)
            (store (cancelled_row "User requested" now order) w).orders in
      ((near ≡ true)
        × (o : Order F) × (w' : World F) × (cancel_order adapts now i user w ≡ ok (o, w'))
        × (o.status ≡ some Status.cancelled)
        × (find_first (is_order i) w'.orders ≡ some o)
        × ((g : ℕ) → oco_key o ≡ some g → count_if (sibling g i) w'.orders ≡ 0)
        × (w'.books ≡ w.books))
      ⊎ ((near ≡ false) × (cancel_order adapts now i user w ≡ err adapter_unavailable))

  -- A user who may act on an order cancels it while it is open. If the adapters of its broker and of
  -- its legs' brokers can be made, where these rows have a broker's identifier, then whatever the
  -- brokers answer the stored row is CANCELLED, no other leg of its OCO group is at work, and the books
  -- are untouched. If one of them cannot be made, the request fails and the tables stay as they are.
  pub cancel_order-IsPaired :
      (adapts : ℕ → Bool) (now i : ℕ) (user : User) (w : World F) (order : Order F)
      → find_first (is_order i) w.orders ≡ some order
      → user.is_admin || order.user_id == user.id ≡ true
      → is_open order.status ≡ true
      → Cancels adapts now i user w order
  unfolding cancel_order
  cancel_order-IsPaired adapts now i user w order found allowed live =
      elim (Bool-cases (reaches adapts order)) [
        | inr far ↦ inr (
          rw far refl,
          rw
              (
                found,
                is_allowed user.is_admin (order.user_id == user.id) allowed,
                not_closed order.status live,
                far,
                cancel_order,
              )
              refl,
        )
        | inl near ↦
            let o = cancelled_row "User requested" now order in
            let same = (==_iff order.id i).0 (find_first-passes (is_order i) w.orders found) in
            let opened = cancel_order_open adapts now i user w order found allowed live near in
            elim (cancel_pair_lem adapts now o (asked_for now i order w)) [
              | inr (far, e) ↦ inr (rw (near, far) refl, opened ∙ rw e refl)
              | inl (all, w', e, paired) ↦ inl (
                rw (near, all) refl,
                o,
                audit_order "ORDER_CANCELLED" i user w',
                opened ∙ rw e refl,
                refl,
                subst
                      (λ k.
                        find_first (is_order k) w'.orders
                        ≡ find_first (is_order k) (store o w).orders)
                      same paired.kept
                    ∙ stored_row i w.orders order o found same,
                subst (λ k. (g : ℕ) → oco_key o ≡ some g → count_if (sibling g k) w'.orders ≡ 0)
                    same paired.group,
                paired.books,
              )
            ]
      ]
