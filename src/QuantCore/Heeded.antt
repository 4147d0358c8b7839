-- ===== src/QuantCore/Heeded.antt =====
-- Which gates decide.
use pios_backend.QuantCore.{
  decide, regime_label, build_quant_core_gates, Decision, GateName, Readings, Gate,
}
use pios_backend.Prelude.{
  refl, arith, all_of, get_elem?, ℕ, ◌≡◌, ◌↔◌, Bool, true, false, not, ◌||◌, Option, none, some,
  List,
}
use pios_backend.Num.{lt, Num}
use pios_backend.Backtest.Fold.{Regime}

-- The gates that the decision reads.
abbrev pub is_heeded : GateName → Bool
is_heeded GateName.regime = true
is_heeded GateName.ofi = true
is_heeded GateName.signal_conflict = true
is_heeded GateName.risk = true
is_heeded _ = false

module _ {F : Type 0} ⦃n : Num F⦄ where
  abbrev pub pass : (GateName → Bool) → List (Gate F) → Bool
  pass chosen gates = all_of (λ g. not (chosen g.name) || g.passed) gates

  -- Two of the gates decide nothing: the Quant Core answers ALLOW exactly when the gates of the regime,
  -- the order flow, the conflict and the risk pass, whatever those of the data quality and of the
  -- volatility say; and it answers BLOCK exactly when the regime is a crisis.
  pub build_quant_core_gates-allow :
      (round : F → ℕ → F) (r : Readings F) (override : Option Regime) (exposure dq vol : F)
      → let out =
          build_quant_core_gates round
            (record r { dq_score = dq; annualised_vol = vol })
            override
            exposure in
        ((out.decision ≡ Decision.allow) ↔ (pass is_heeded out.gates ≡ true))
        × ((out.decision ≡ Decision.block) ↔ (regime_label override r.regime ≡ Regime.crisis))
        × (get_elem? out.gates 1
            ≡ some (record {
              name = GateName.volatility;
              passed = lt vol (n.lit 150 0);
              confidence = none;
            }))
  unfolding build_quant_core_gates decide
  build_quant_core_gates-allow round r override exposure dq vol =
      (((λ e. ground arith), (λ p. ground arith)), ((λ e. ground arith), (λ c. ground arith)), refl)
