-- ===== src/Backtest/Trades.antt =====
-- The books of a simulated window.
use pios_backend.Backtest.Fold.{
  fee_bps, z_score, net_return, booked, trade_at, trade_from, fresh_sim, position_size, simulate,
  Numpy, CostModel, Regime, Sim,
}
use pios_backend.Num.{lt, ◌⊕◌, ◌⊗◌, ◌⊘◌, nought, abs, min, max, Num, IsSigned}
use pios_backend.Prelude.{
  Bool-cases, length, length-append, count_if, count_if-append, ℕ, zero, suc, ◌+◌, ◌-◌, ◌≤◌, ◌≡◌,
  refl, sym, ap, ◌∙◌, inl, inr, false, List, [], ◌∷◌, ◌++◌, foldl, arith,
}

module _ {F : Type 0} ⦃n : Num F⦄ where
  -- The count, the wins and the equity are those of the returns; the peak is never below the equity,
  -- and the drawdown never positive.
  pub record IsKept (s : Sim F) : Type 0 where
    pub counted : s.n_trades ≡ length s.returns
    pub won : s.wins ≡ count_if (λ r. lt nought r) s.returns
    pub compounded : s.equity ≡ foldl (λ e r. e ⊗ (n.lit 1 0 ⊕ r)) (n.lit 1 0) s.returns
    pub below_peak : lt s.peak s.equity ≡ false
    pub at_a_loss : lt nought s.max_dd ≡ false

  foldl-snoc :
      (f : F → F → F) (e r : F) (rs : List F) → foldl f e (rs ++ (r ∷ [])) ≡ f (foldl f e rs) r
  foldl-snoc f e r [] = refl
  foldl-snoc f e r (x ∷ rs) = foldl-snoc f (f e x) r rs

  min-le : IsSigned F → (a b : F) → lt nought a ≡ false → lt nought (min a b) ≡ false
  min-le laws a b h = elim (Bool-cases (lt b a)) [
    | inr keep ↦ rw keep h
    | inl less ↦ rw less (elim (Bool-cases (lt nought b)) [
      | inr fine ↦ fine
      | inl above ↦ let up = laws.lt_of_lt_of_le nought b a above (laws.lt_asymm b a less) in cc
    ])
  ]

  max-ge : IsSigned F → (a b : F) → lt (max a b) b ≡ false
  max-ge laws a b = elim (Bool-cases (lt a b)) [
    | inl more ↦ rw more (laws.lt_irrefl b)
    | inr less ↦ rw less less
  ]

  booked-IsKept : IsSigned F → (ret : F) (s : Sim F) → IsKept s → IsKept (booked ret s)
  unfolding booked
  booked-IsKept laws ret s k = record {
    counted = omega (arith, k.counted, length-append s.returns (ret ∷ []));
    won = ground (arith, k.won, count_if-append (λ r. lt nought r) s.returns (ret ∷ []));
    compounded =
        ap (λ e. e ⊗ (n.lit 1 0 ⊕ ret)) k.compounded
        ∙ sym (foldl-snoc (λ e r. e ⊗ (n.lit 1 0 ⊕ r)) (n.lit 1 0) ret s.returns);
    below_peak = max-ge laws s.peak (s.equity ⊗ (n.lit 1 0 ⊕ ret));
    at_a_loss = min-le laws s.max_dd _ k.at_a_loss;
  }

  booked_count : (ret : F) (s : Sim F) → (booked ret s).n_trades ≡ s.n_trades + 1
  unfolding booked
  booked_count ret s = refl

  trade_at_count :
      (np : Numpy F) (size fee : F) (arr : List F) (i : ℕ) (s : Sim F)
      → (trade_at np size fee arr i s).n_trades ≤ s.n_trades + 1
  unfolding trade_at
  trade_at_count np size fee arr i s =
      ground (arith, booked_count (net_return size fee (z_score np arr i) arr i) s)

  trade_from_count :
      (np : Numpy F) (size fee : F) (arr : List F) (left i : ℕ) (s : Sim F)
      → (trade_from np size fee arr left i s).n_trades ≤ s.n_trades + left
  unfolding trade_from
  trade_from_count np size fee arr zero i s = omega arith
  trade_from_count np size fee arr (suc left) i s = omega (
    arith,
    trade_at_count np size fee arr i s,
    trade_from_count np size fee arr left (i + 1) (trade_at np size fee arr i s),
  )

  trade_at-IsKept :
      IsSigned F
      → (np : Numpy F) (size fee : F) (arr : List F) (i : ℕ) (s : Sim F) → IsKept s
      → IsKept (trade_at np size fee arr i s)
  unfolding trade_at
  trade_at-IsKept laws np size fee arr i s k =
      elim (Bool-cases (lt (n.lit 18 1) (abs (z_score np arr i)))) [
        | inr quiet ↦ rw quiet k
        | inl trades ↦
            rw trades (booked-IsKept laws (net_return size fee (z_score np arr i) arr i) s k)
      ]

  trade_from-IsKept :
      IsSigned F
      → (np : Numpy F) (size fee : F) (arr : List F) (left i : ℕ) (s : Sim F) → IsKept s
      → IsKept (trade_from np size fee arr left i s)
  unfolding trade_from
  trade_from-IsKept laws np size fee arr zero i s k = k
  trade_from-IsKept laws np size fee arr (suc left) i s k =
      trade_from-IsKept laws np size fee arr left (i + 1) (trade_at np size fee arr i s)
        (trade_at-IsKept laws np size fee arr i s k)

  -- The loop over a window keeps its books: the trades are counted by their returns, the wins are the
  -- positive ones, the equity is the returns compounded from 1, the peak is never below the equity and
  -- the drawdown never positive; a window of k prices has at most k - 11 trades. This takes the laws of
  -- the order.
  pub simulate-IsKept :
      IsSigned F
      → (np : Numpy F) (prices : List F) (regime : Regime) (net_modifier : F) (cost : CostModel)
      → let s = simulate np prices regime net_modifier cost in
        IsKept s × (s.n_trades ≤ length prices - 11)
  unfolding simulate
  simulate-IsKept laws np prices regime net_modifier cost =
      let size = position_size np regime net_modifier in
      let fee = n.lit (fee_bps cost) 0 ⊘ n.lit 10000 0 in
      let left = length prices - 11 in
      (
        trade_from-IsKept laws np size fee prices left 10 fresh_sim (record {
          counted = refl;
          won = refl;
          compounded = refl;
          below_peak = laws.lt_irrefl (n.lit 1 0);
          at_a_loss = laws.lt_irrefl nought;
        }),
        omega (arith, trade_from_count np size fee prices left 10 fresh_sim),
      )
