-- ===== src/Brokers/Answers.antt =====
-- What the adapters answer to a submission, and what the desk makes of it.
use pios_backend.Brokers.{
  alpaca_verdict, ticker_price, alpaca_poll, alpaca_request, alpaca_submit_order,
  paper_submit_order, AlpacaOrder, AlpacaRequest, AlpacaClient, Ticker,
}
use pios_backend.Prelude.{
  zero, suc, ◌+◌, ◌∙◌, false, not, Result, if◌then◌else◌, Bool-cases, str_append, refl, ap, inl,
  inr, arith, ok, err, ℕ, String, ◌≡◌, ◌⊎◌, Bool, true, Option, none, some,
}
use pios_backend.Desk.{BrokerResult}
use pios_backend.Desk.Risk.{keyed}
use mathlib.Core.Path.{subst}
use pios_backend.Num.{lt, or_zero, IsSigned, nought, le, Num}
use pios_backend.Store.{num_or_zero, Books}
use pios_backend.Desk.Submit.{num_or, book_instant, place}
use pios_backend.Desk.Submit.Placing.{placed_books, place_lem}
use pios_backend.FillSync.Converge.{IsSteady}
use pios_backend.Order.{Status, Order, InvalidTransition}
use pios_backend.Alpaca.{AlpacaStatus}

abbrev pub is_refused : AlpacaStatus → Bool
is_refused AlpacaStatus.canceled = true
is_refused AlpacaStatus.rejected = true
is_refused AlpacaStatus.expired = true
is_refused _ = false

abbrev pub is_pending : AlpacaStatus → Bool
is_pending AlpacaStatus.filled = false
is_pending s = not (is_refused s)

refused-cases :
    (s : AlpacaStatus)
    → is_refused s ≡ true
    → (s ≡ AlpacaStatus.canceled) ⊎ ((s ≡ AlpacaStatus.rejected) ⊎ (s ≡ AlpacaStatus.expired))
refused-cases AlpacaStatus.canceled h = inl refl
refused-cases AlpacaStatus.rejected h = inr (inl refl)
refused-cases AlpacaStatus.expired h = inr (inr refl)
refused-cases AlpacaStatus.filled h = cc
refused-cases AlpacaStatus.partially_filled h = cc
refused-cases AlpacaStatus.other h = cc

pending-cases :
    (s : AlpacaStatus)
    → is_pending s ≡ true
    → (s ≡ AlpacaStatus.partially_filled) ⊎ (s ≡ AlpacaStatus.other)
pending-cases AlpacaStatus.partially_filled h = inl refl
pending-cases AlpacaStatus.other h = inr refl
pending-cases AlpacaStatus.filled h = cc
pending-cases AlpacaStatus.canceled h = cc
pending-cases AlpacaStatus.rejected h = cc
pending-cases AlpacaStatus.expired h = cc

module _ {F : Type 0} ⦃n : Num F⦄ where
  -- Alpaca's answer to the submission, or one that the poll gets while the order is still at work, says
  -- that the order is cancelled, rejected or expired.
  abbrev pub Refuses : AlpacaClient F → ℕ → ℕ → AlpacaOrder F → Type 0
  Refuses client zero k r = is_refused r.status ≡ true
  Refuses client (suc left) k r =
      (is_refused r.status ≡ true)
      ⊎ ((is_pending r.status ≡ true)
          × (r' : AlpacaOrder F) × (client.get_order_by_id r.id k ≡ ok r')
          × Refuses client left (k + 1) r')

  refused_verdict :
      (qty : F) (r : AlpacaOrder F) (rest : Result String (BrokerResult F))
      → is_refused r.status ≡ true
      → (reason : String) × (alpaca_verdict qty r rest ≡ err reason)
  refused_verdict qty r rest h = elim (refused-cases r.status h) [
    | inl e ↦ (str_append "Alpaca order canceled (broker order " (str_append r.id ")"), rw e refl)
    | inr (inl e) ↦
        (str_append "Alpaca order rejected (broker order " (str_append r.id ")"), rw e refl)
    | inr (inr e) ↦
        (str_append "Alpaca order expired (broker order " (str_append r.id ")"), rw e refl)
  ]

  pending_verdict :
      (qty : F) (r : AlpacaOrder F) (rest : Result String (BrokerResult F))
      → is_pending r.status ≡ true
      → alpaca_verdict qty r rest ≡ rest
  pending_verdict qty r rest h = elim (pending-cases r.status h) [
    | inl e ↦ rw e refl
    | inr e ↦ rw e refl
  ]

  -- Then the adapter raises.
  alpaca_poll-Refuses :
      (client : AlpacaClient F) (qty : F) (left k : ℕ) (r : AlpacaOrder F)
      → Refuses client left k r
      → (reason : String) × (alpaca_poll client qty left k r ≡ err reason)
  unfolding alpaca_poll
  alpaca_poll-Refuses client qty zero k r refused = refused_verdict qty r _ refused
  alpaca_poll-Refuses client qty (suc left) k r (inl refused) = refused_verdict qty r _ refused
  alpaca_poll-Refuses client qty (suc left) k r (inr (waits, r', answered, later)) =
      let (reason, raised) = alpaca_poll-Refuses client qty left (k + 1) r' later in
      (reason, pending_verdict qty r _ waits ∙ rw answered raised)

  -- A refusal during the submission loses what was filled: when Alpaca cancels, rejects or expires an
  -- order, in its first answer or in one that the poll gets while the order is at work, the adapter
  -- raises, however much of the order was filled, and the desk marks it REJECTED and books nothing.
  pub alpaca_submit_order-place :
      (client : AlpacaClient F) (is_pair : Bool) (symbol : String)
      (text : InvalidTransition → String) (now : ℕ) (o : Order F) (b : Books F)
      (req : AlpacaRequest F) (r : AlpacaOrder F)
      → o.status ≡ some Status.submitted
      → alpaca_request is_pair symbol (client.available symbol) o ≡ ok req
      → client.submit req ≡ ok r
      → Refuses client 9 0 r
      → (o' : Order F) × (place text now (alpaca_submit_order client is_pair symbol o) o b
          ≡ ok (o', b))
        × (o'.status ≡ some Status.rejected)
  unfolding alpaca_submit_order
  alpaca_submit_order-place client is_pair symbol text now o b req r fresh asked answered refused =
      let (reason, raised) = alpaca_poll-Refuses client req.qty 9 0 r refused in
      let (o', placed, status, named, owned, keyed) = place_lem text now (err reason) o b fresh in
      (o', rw (asked, answered, raised, alpaca_submit_order) placed, status)

  -- A positive price is not taken for none.
  or_zero-positive :
      IsSigned F → IsSteady F → (price d : F) → lt nought price ≡ true → or_zero price d ≡ price
  or_zero-positive laws steady price d positive = elim (Bool-cases (n.eq price nought)) [
    | inr other_one ↦ rw other_one refl
    | inl yes_zero ↦ absurd (
        ground (
          arith,
          laws.lt_irrefl nought,
          subst (λ x. lt nought x ≡ true) (steady.eq_nought price yes_zero) positive,
        ))
  ]

  -- What the desk makes of a paper order: it is REJECTED and nothing is booked, or it is FILLED and one
  -- fill of the whole quantity at a positive price is booked.
  pub paper_submit_order-place :
      IsSigned F
      → IsSteady F
      → (ticker : Option (Ticker F)) (id : String) (text : InvalidTransition → String) (now : ℕ)
        (o : Order F) (b : Books F)
      → o.status ≡ some Status.submitted
      → (o' : Order F) × (b' : Books F) × (place text now (paper_submit_order ticker id o) o b
          ≡ ok (o', b'))
        × (((o'.status ≡ some Status.rejected) × (b' ≡ b))
            ⊎ ((price : F) × (lt nought price ≡ true)
                × (o'.status ≡ some Status.filled)
                × (b' ≡ book_instant now (record o { broker_order_id = some id }) o.qty price b)))
  unfolding paper_submit_order
  paper_submit_order-place laws steady ticker id text now o b fresh =
      let own = num_or_zero o.price in
      let price = if le own nought then ticker_price ticker else own in
      elim (Bool-cases (lt nought price)) [
        | inr low ↦
            let (o', placed, status, named, owned, keyed) =
              place_lem text now (err "Paper broker: no live market price available") o b fresh in
            (o', b, rw (low, paper_submit_order) placed, inl (status, refl))
        | inl high ↦
            let answer : Result String (BrokerResult F) = ok (record {
              broker_order_id = some id;
              is_filled = true;
              avg_price = some price;
              filled_qty = none;
            }) in
            let (o', placed, status, named, owned, keyed) = place_lem text now answer o b fresh in
            (
              o',
              placed_books now answer o b,
              rw (high, paper_submit_order) placed,
              inr (
                price,
                high,
                status,
                ap (λ p. book_instant now (record o { broker_order_id = some id }) o.qty p b)
                    (or_zero-positive laws steady price (num_or o.price nought) high),
              ),
            )
      ]
