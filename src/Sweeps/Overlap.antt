-- ===== src/Sweeps/Overlap.antt =====
-- Sweeps that overlap, and frames that come twice.
use mathlib.Core.Path.{subst}
use pios_backend.Sweeps.{sync_each}
use pios_backend.FillSync.Again.{sync-IsQuiet, sync-quiets, sync_row_ends, IsQuiet}
use pios_backend.Prelude.{
  if◌then◌else◌, ==_iff, any_of, All, All-mono, refl, Bool, ◌&&◌, List, [], ◌∷◌, ◌==◌, Bool-cases,
  Option-cases, find_first, find_first-passes, find_first-update_if_other, ℕ, String, ◌≡◌, sym, ap,
  ◌∙◌, inl, inr, true, false, Option, none, arith,
}
use pios_backend.FillSync.{sync_order_against_broker, BrokerState}
use pios_backend.Num.{Num}
use pios_backend.Store.{is_order, World}
use pios_backend.FillSync.Converge.{IsSteady}

-- A row of the order that is looked at.
abbrev pub is_row : (ℕ → Bool) → ℕ → ℕ × ℕ → Bool
is_row ready j r = (r.0 == j) && ready r.1

module _ {F : Type 0} ⦃n : Num F⦄ where
  -- An order is quiet for what its broker answers.
  abbrev Quiet : (ℕ → Option String → Option (BrokerState F)) → ℕ → World F → Type 0
  Quiet ask i w = IsQuiet none none (ask i) i w

  -- A call for one order keeps another one quiet.
  sync_other-Quiet :
      (ask : ℕ → Option String → Option (BrokerState F)) (now : ℕ) (source : String) (i j : ℕ)
      (w : World F)
      → (j == i) ≡ false
      → Quiet ask j w
      → Quiet ask j (sync_order_against_broker now source (ask i) i none none w)
  unfolding sync_order_against_broker
  sync_other-Quiet ask now source i j w off quiet =
      elim (Option-cases (find_first (is_order i) w.orders)) [
        | inl a ↦ rw (a, sync_order_against_broker) quiet
        | inr (o, a) ↦ elim (Option-cases (ask i o.broker_order_id)) [
          | inl b ↦ rw (a, b, sync_order_against_broker) quiet
          | inr (state, b) ↦
              let (q, e, ended) = sync_row_ends now source state none o w.books in
              elim (Bool-cases q.changed) [
                | inr still ↦ rw (a, b, e, still, sync_order_against_broker) quiet
                | inl moves ↦
                    let hit : is_order i q.order ≡ true =
                      ap (λ k. k == i) ended.id ∙ find_first-passes (is_order i) w.orders a in
                    let same =
                      find_first-update_if_other (is_order i) (is_order j) (λ _. q.order) w.orders
                        (λ x at_i. ground (arith, at_i, off))
                        (λ x at_i. ground (arith, hit, off)) in
                    rw (a, b, e, moves, sync_order_against_broker)
                      (record { unchanged = λ x s f g. quiet.unchanged x s (sym same ∙ f) g })
              ]
        ]
      ]

  sync-Quiet :
      IsSteady F
      → (ask : ℕ → Option String → Option (BrokerState F)) (now : ℕ) (source : String) (i j : ℕ)
        (w : World F)
      → Quiet ask j w
      → Quiet ask j (sync_order_against_broker now source (ask i) i none none w)
  sync-Quiet laws ask now source i j w quiet = elim (Bool-cases (j == i)) [
    | inr off ↦ sync_other-Quiet ask now source i j w off quiet
    | inl at_i ↦
        let same : j ≡ i = (==_iff j i).0 at_i in
        subst (λ k. Quiet ask k (sync_order_against_broker now source (ask i) i none none w))
          (sym same) (sync-quiets none none (ask i) i laws now source w)
  ]

  sync_each-Quiet :
      IsSteady F
      → (ready : ℕ → Bool) (ask : ℕ → Option String → Option (BrokerState F)) (now : ℕ)
        (source : String) (rows : List (ℕ × ℕ)) (j : ℕ) (w : World F)
      → Quiet ask j w
      → Quiet ask j (sync_each ready ask now source rows w)
  unfolding sync_each
  sync_each-Quiet laws ready ask now source [] j w quiet = quiet
  sync_each-Quiet laws ready ask now source ((i, b) ∷ rows) j w quiet =
      elim (Bool-cases (ready b)) [
        | inr off ↦ rw off (sync_each-Quiet laws ready ask now source rows j w quiet)
        | inl on ↦
            let next = sync_order_against_broker now source (ask i) i none none w in
            rw on (
              sync_each-Quiet laws ready ask now source rows j next
                (sync-Quiet laws ask now source i j w quiet))
      ]

  -- After a pass every order that it has looked at is quiet.
  sync_each-quiets :
      IsSteady F
      → (ready : ℕ → Bool) (ask : ℕ → Option String → Option (BrokerState F)) (now : ℕ)
        (source : String) (rows : List (ℕ × ℕ)) (j : ℕ) (w : World F)
      → any_of (is_row ready j) rows ≡ true
      → Quiet ask j (sync_each ready ask now source rows w)
  unfolding sync_each
  sync_each-quiets laws ready ask now source [] j w h = cc
  sync_each-quiets laws ready ask now source ((i, b) ∷ rows) j w h =
      elim (Bool-cases ((i == j) && ready b)) [
        | inr off ↦
            sync_each-quiets laws ready ask now source rows j
              (if ready b then sync_order_against_broker now source (ask i) i none none w else w)
              (rw off at h)
        | inl on ↦
            let same : i ≡ j = (==_iff i j).0 (ground (arith, on)) in
            let looked : ready b ≡ true = ground (arith, on) in
            rw looked (
              sync_each-Quiet laws ready ask now source rows j
                (sync_order_against_broker now source (ask i) i none none w)
                (subst
                  (λ k. Quiet ask k (sync_order_against_broker now source (ask i) i none none w))
                  same (sync-quiets none none (ask i) i laws now source w)))
      ]

  sync_each-idle :
      (ready : ℕ → Bool) (ask : ℕ → Option String → Option (BrokerState F)) (now : ℕ)
      (source : String) (rows : List (ℕ × ℕ)) (w : World F)
      → All (λ r. ready r.1 ≡ true → Quiet ask r.0 w) rows
      → sync_each ready ask now source rows w ≡ w
  unfolding sync_each
  sync_each-idle ready ask now source [] w quiet = refl
  sync_each-idle ready ask now source ((i, b) ∷ rows) w quiet = elim (Bool-cases (ready b)) [
    | inr off ↦ rw off (sync_each-idle ready ask now source rows w quiet.1)
    | inl on ↦
        rw (on, sync-IsQuiet none none (ask i) i now source w (quiet.0 on))
          (sync_each-idle ready ask now source rows w quiet.1)
  ]

  -- Workers that sweep at once agree: when a pass has gone over its rows, passes over rows that it has
  -- looked at change nothing any more, in whatever order and however often the orders come, as long as
  -- the brokers answer the same. This takes the two laws of `IsSteady`.
  pub sync_each_again :
      IsSteady F
      → (ready : ℕ → Bool) (ask : ℕ → Option String → Option (BrokerState F)) (now now' : ℕ)
        (source source' : String) (rows rows' : List (ℕ × ℕ)) (w : World F)
      → All (λ r. ready r.1 ≡ true → any_of (is_row ready r.0) rows ≡ true) rows'
      → sync_each ready ask now' source' rows' (sync_each ready ask now source rows w)
        ≡ sync_each ready ask now source rows w
  sync_each_again laws ready ask now now' source source' rows rows' w seen =
      let after = sync_each ready ask now source rows w in
      sync_each-idle ready ask now' source' rows' after (
        All-mono (λ r. ready r.1 ≡ true → any_of (is_row ready r.0) rows ≡ true)
          (λ r. ready r.1 ≡ true → Quiet ask r.0 after) rows'
          (λ r looked on. sync_each-quiets laws ready ask now source rows r.0 w (looked on)) seen)
