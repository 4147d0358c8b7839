-- ===== src/Backtest/Outcome.antt =====
-- When the folds of a backtest have results.
use pios_backend.Prelude.{
  ap, ◌∙◌, leb, suc, ◌+◌, ◌-◌, ◌*◌, ◌/◌, refl, false, arith, ℕ, ◌≤◌, ◌<◌, ◌≡◌, true, some, List, [],
  ◌∷◌,
}
use pios_backend.Backtest.Job.{
  recorded, prices_of, fold_result, fold_results, FoldResult, MarketTick, Engine,
}
use pios_backend.Backtest.Fold.{simulate_fold, CostModel, Regime}
use pios_backend.Num.{Num}
use pios_backend.Backtest.{
  window, train_prices, test_prices, n_folds, fold_size, windows_from, Window, windows,
}

-- Every estimator returns.
pub record IsTotal {F : Type 0} (e : Engine F) : Type 0 where
  pub regimes : (ps : List F) → (r : Regime) × (e.detect_regime ps ≡ some r)
  pub volatilities : (ps : List F) → (v : F) × (e.estimate_volatility ps ≡ some v)
  pub modifiers : (ts : List (MarketTick F)) → (m : F) × (e.net_modifier ts ≡ some m)
  pub report : (ps : List F) → e.reports ps ≡ true

n_folds_many : (len : ℕ) → (k : ℕ) × (n_folds len ≡ suc k) × (3 ≤ k)
unfolding n_folds
n_folds_many len = (n_folds len - 1, ground arith, ground arith)

no_window : (size len k : ℕ) → len ≤ size → windows_from size len (suc k) 0 ≡ []
unfolding windows_from
no_window size len k h =
    let one : size * (0 + 1) ≡ size = omega arith in
    let stop : leb (window size len 0).test_end (window size len 0).test_start ≡ true =
      rw one (ground arith) in
    rw stop refl

first_window :
    (size len k : ℕ)
    → 0 < size
    → size < len
    → windows_from size len (suc k) 0 ≡ window size len 0 ∷ windows_from size len k 1
unfolding windows_from
first_window size len k p h =
    let one : size * (0 + 1) ≡ size = omega arith in
    let go : leb (window size len 0).test_end (window size len 0).test_start ≡ false =
      rw one (ground arith) in
    rw go refl

part : (n len : ℕ) → 4 ≤ n → 5 < len → len / n < len
part n len h k = grind arith

pub fold_size_bounds : (len : ℕ) → (5 ≤ fold_size len) × (5 < len → fold_size len < len)
unfolding fold_size
fold_size_bounds len =
    let (k, e, many) = n_folds_many len in
    (
      ground arith,
      λ h. let below = part (n_folds len) len (omega (arith, e)) h in ground (arith, below),
    )

windows_lem : (len : ℕ) → windows len ≡ windows_from (fold_size len) len (n_folds len) 0
unfolding windows
windows_lem len = refl

-- Without more than five prices there is nothing to test.
pub windows-few : (len : ℕ) → len ≤ 5 → windows len ≡ []
windows-few len h =
    let (k, e, _) = n_folds_many len in
    let (low, _) = fold_size_bounds len in
    windows_lem len
    ∙ ap (λ m. windows_from (fold_size len) len m 0) e
    ∙ no_window (fold_size len) len k (omega arith)

pub windows-many : (len : ℕ) → 5 < len → (w : Window) × (ws : List Window) × (windows len ≡ w ∷ ws)
windows-many len h =
    let (k, e, _) = n_folds_many len in
    let (low, below) = fold_size_bounds len in
    (
      window (fold_size len) len 0,
      windows_from (fold_size len) len k 1,
      windows_lem len
          ∙ ap (λ m. windows_from (fold_size len) len m 0) e
          ∙ first_window (fold_size len) len k (omega arith) (below h),
    )

module _ {F : Type 0} ⦃n : Num F⦄ (e : Engine F) (cost : CostModel)
    (ticks : List (MarketTick F)) where
  pub fold_result-some :
      IsTotal e → (w : Window) → (r : FoldResult F) × (fold_result e cost ticks w ≡ some r)
  unfolding fold_result
  fold_result-some t w =
      let train = train_prices (prices_of ticks) w in
      let (regime, a) = t.regimes train in
      let (v, b) = t.volatilities train in
      let (m, c) = t.modifiers (test_prices ticks w) in
      (
        recorded e (simulate_fold e.np (prices_of (test_prices ticks w)) regime m cost),
        rw (a, b, c, fold_result) refl,
      )

  pub fold_results-some :
      IsTotal e
      → (ws : List Window) → (rs : List (FoldResult F)) × (fold_results e cost ticks ws ≡ some rs)
  unfolding fold_results
  fold_results-some t [] = ([], refl)
  fold_results-some t (w ∷ ws) =
      let (r, a) = fold_result-some t w in
      let (rs, b) = fold_results-some t ws in (r ∷ rs, rw (a, b, fold_results) refl)

  pub fold_results-cons :
      (w : Window) (ws : List Window) {r : FoldResult F} {rs : List (FoldResult F)}
      → fold_result e cost ticks w ≡ some r
      → fold_results e cost ticks ws ≡ some rs
      → fold_results e cost ticks (w ∷ ws) ≡ some (r ∷ rs)
  unfolding fold_results
  fold_results-cons w ws a b = rw (a, b, fold_results) refl
