-- ===== src/Backtest/Windows.antt =====
-- What the walk-forward windows test.
use pios_backend.Prelude.{
  ◌/◌, length-drop, drop, take, ltb, leb, length, take_all, drop_all, take-nil, take-add, drop-add,
  ℕ, zero, suc, ◌+◌, ◌-◌, ◌*◌, ◌≤◌, ◌<◌, ◌≡◌, refl, sym, ◌∙◌, List, [], ◌∷◌, ◌++◌, arith, slice,
}
use mathlib.Core.List.{append-nil}
use native.Mathlib.Decide.{dec_lt}
use pios_backend.Backtest.{
  false, true, windows, Window, window, windows_from, test_prices, fold_size, n_folds,
}

mul_step : (a b : ℕ) → a * (b + 1) ≡ a * b + a
mul_step a b = grind arith

mul_suc : (a b : ℕ) → a * suc b ≡ a + a * b
mul_suc a b = grind arith

module _ {A : Type 0} (prices : List A) where
  -- All the prices that some windows test, in order.
  abbrev pub tested : List Window → List A
  tested [] = []
  tested (w ∷ ws) = test_prices prices w ++ tested ws

  -- The window that holds the last price.
  last_window :
      (size n start : ℕ) (rest : List A)
      → length prices < start + size
      → rest ≡ []
      → slice start (length prices) prices ++ rest ≡ take (size + n) (drop start prices)
  last_window size n start rest h e =
      let below : length (drop start prices) ≤ size + n = omega (arith, length-drop start prices) in
      let whole : length (drop start prices) ≤ length prices - start =
        omega (arith, length-drop start prices) in
      rw (e, take_all _ (drop start prices) below, take_all _ (drop start prices) whole)
        (append-nil (drop start prices))

  tested-windows_from :
      (size left fold_i : ℕ)
      → 0 < size
      → tested (windows_from size (length prices) left fold_i)
        ≡ take (size * left) (drop (size * (fold_i + 1)) prices)
  unfolding windows_from
  tested-windows_from size zero fold_i h = let e : size * 0 ≡ 0 = omega arith in rw e refl
  tested-windows_from size (suc left) fold_i h =
      let start = size * (fold_i + 1) in
      let next : size * (fold_i + 1 + 1) ≡ start + size = mul_step size (fold_i + 1) in
      let ih : tested (windows_from size (length prices) left (fold_i + 1))
          ≡ take (size * left) (drop (start + size) prices) =
        rw next at (tested-windows_from size left (fold_i + 1) h) in
      elim (dec_lt start (length prices)) [
        | no beyond ↦
            let stop : leb (window size (length prices) fold_i).test_end start ≡ true =
              ground arith in
            let gone = drop_all start prices (omega arith) in rw (stop, gone, take-nil) refl
        | yes within ↦
            let go : leb (window size (length prices) fold_i).test_end start ≡ false =
              ground arith in
            elim (dec_lt (length prices) (start + size)) [
              | yes short ↦
                  let cut : ltb (length prices) (start + size) ≡ true = ground arith in
                  let gone = drop_all (start + size) prices (omega arith) in
                  rw (go, cut, mul_suc size left)
                    (last_window size (size * left) start _ short (ih ∙ rw (gone, take-nil) refl))
              | no whole ↦
                  let full : ltb (length prices) (start + size) ≡ false = ground arith in
                  let width : start + size - start ≡ size = omega arith in
                  rw (go, full, mul_suc size left, width, ih, sym (drop-add start size prices))
                    (take-add size (size * left) (drop start prices))
            ]
      ]

lt→ltb : {a b : ℕ} → a < b → ltb a b ≡ true
lt→ltb h = ground arith

-- The folds reach the last price, whatever the number of prices.
wide : (n len : ℕ) → 4 < n → n < 12 → n * 50 ≤ len → len ≤ len / n + len / n * n
wide n len low high many = grind arith

broad : (n len : ℕ) → 4 < n → n * 50 ≤ len → 5 < len / n
broad n len low many = grind arith

folds_reach : (len : ℕ) → len ≤ fold_size len + fold_size len * n_folds len
unfolding fold_size n_folds
folds_reach len = elim (dec_lt 4 (len / 50)) [
  | no few ↦ let e : n_folds len ≡ 4 = ground arith in rw e (ground arith)
  | yes some_more ↦ elim (dec_lt (len / 50) 12) [
    | no many ↦ let e : n_folds len ≡ 12 = ground arith in rw e (ground arith)
    | yes middle ↦
        let e : n_folds len ≡ len / 50 = ground arith in
        let reach = wide (len / 50) len some_more middle (omega arith) in
        let large : ltb 5 (len / (len / 50)) ≡ true =
          lt→ltb (broad (len / 50) len some_more (omega arith)) in
        rw (e, large) reach
  ]
]

fold_size_pos : (len : ℕ) → 0 < fold_size len
unfolding fold_size
fold_size_pos len = ground arith

module _ {A : Type 0} (prices : List A) where
  -- Walking forward loses no price and tests none twice: the windows of a backtest, laid end to end,
  -- are the prices from the first `fold_size` on, however many prices there are.
  pub tested-windows :
      tested prices (windows (length prices)) ≡ drop (fold_size (length prices)) prices
  unfolding windows
  tested-windows =
      let size = fold_size (length prices) in
      let n = n_folds (length prices) in
      let one : size * 1 ≡ size = omega arith in
      let all : length (drop size prices) ≤ size * n =
        omega (arith, length-drop size prices, folds_reach (length prices)) in
      tested-windows_from prices size n 0 (fold_size_pos (length prices))
      ∙ rw one (take_all (size * n) (drop size prices) all)
