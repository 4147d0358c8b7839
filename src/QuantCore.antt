-- ===== src/QuantCore.antt =====
-- The eight gates of the Quant Core (`build_quant_core_gates` of app/services/quant_engine.py), over the
-- readings of its estimators. Latencies, and the texts of a gate, are left out.
pub mod Heeded
use pios_backend.Num.{lt, ◌⊕◌, ◌⊖◌, ◌⊗◌, ◌⊘◌, nought, le, min, max, Num}
use pios_backend.Backtest.Fold.{regime_size_mult, Regime}
use pios_backend.Prelude.{
  if◌then◌else◌, ℕ, Bool, true, false, not, Option, none, some, List, [], ◌∷◌,
}

pub data OfiDecision : Type 0 where
  allow caution block : OfiDecision

pub data ConflictLevel : Type 0 where
  none_found low medium high : ConflictLevel

pub data Decision : Type 0 where
  allow wait reduce block : Decision

pub data GateName : Type 0 where
  data_quality volatility regime ofi signal_conflict risk size_optimiser final_decision : GateName

-- What the estimators say of the prices, the volumes and the sides.
pub record Readings (F : Type 0) : Type 0 where
  pub dq_score : F
  pub annualised_vol : F
  pub regime : Regime
  pub regime_confidence : F
  pub ofi_decision : OfiDecision
  pub stop_hunt_probability : F
  pub net_modifier : F
  pub conflict : ConflictLevel
  pub confidence_penalty_pct : F

pub record Gate (F : Type 0) : Type 0 where
  pub name : GateName
  pub passed : Bool
  pub confidence : Option F

pub record SizeInfo (F : Type 0) : Type 0 where
  pub base_size_lot : F
  pub final_size_lot : F
  pub regime_mult : F
  pub ofi_mult : F
  pub vol_mult : F

pub record Outcome (F : Type 0) : Type 0 where
  pub decision : Decision
  pub final_conf : F
  pub gates : List (Gate F)
  pub size_info : SizeInfo F

abbrev pub is_crisis : Regime → Bool
is_crisis Regime.crisis = true
is_crisis _ = false

abbrev pub is_block : OfiDecision → Bool
is_block OfiDecision.block = true
is_block _ = false

abbrev pub is_high : ConflictLevel → Bool
is_high ConflictLevel.high = true
is_high _ = false

-- `decision in ("ALLOW", "REDUCE")`
abbrev pub goes_on : Decision → Bool
goes_on Decision.allow = true
goes_on Decision.reduce = true
goes_on _ = false

-- `regime_override or regime_data["regime"]`
abbrev pub regime_label : Option Regime → Regime → Regime
regime_label none detected = detected
regime_label (some r) detected = r

-- The chain of conditions of D3.8.
unfoldable pub decide : Bool → Bool → Bool → Bool → Decision
decide regime_ok ofi_ok conflict_ok risk_ok =
    if not regime_ok
    then Decision.block
    else if not ofi_ok
    then Decision.wait
    else if not conflict_ok
    then Decision.reduce
    else if not risk_ok
    then Decision.reduce
    else Decision.allow

module _ {F : Type 0} ⦃n : Num F⦄ (round : F → ℕ → F) where
  -- D3.7
  unfoldable pub size_of : Readings F → Regime → F → SizeInfo F
  size_of r label exposure =
      let regime_mult = regime_size_mult label in
      let ofi_mult = max (n.lit 4 1) (n.lit 1 0 ⊕ r.net_modifier) in
      let vol_mult =
        max (n.lit 3 1)
          (min (n.lit 15 1) (n.lit 15 2 ⊘ (r.annualised_vol ⊘ n.lit 100 0 ⊕ n.lit 1 6))) in
      let base_lot = round (max (n.lit 1 3) (n.lit 1 1 ⊗ (n.lit 1 0 ⊖ exposure))) 6 in
      record {
        base_size_lot = base_lot;
        final_size_lot = round (base_lot ⊗ regime_mult ⊗ ofi_mult ⊗ min vol_mult (n.lit 12 1)) 6;
        regime_mult = regime_mult;
        ofi_mult = round ofi_mult 4;
        vol_mult = round (min vol_mult (n.lit 12 1)) 4;
      }

  -- The composite confidence.
  unfoldable pub confidence_of : Readings F → Bool → F
  confidence_of r risk_ok =
      let penalty = r.confidence_penalty_pct ⊘ n.lit 100 0 in
      let raw =
        r.regime_confidence ⊘ n.lit 100 0 ⊗ n.lit 30 2
        ⊕ r.dq_score ⊘ n.lit 100 0 ⊗ n.lit 20 2
        ⊕ (n.lit 1 0 ⊖ r.stop_hunt_probability) ⊗ n.lit 20 2
        ⊕ (n.lit 1 0 ⊖ penalty) ⊗ n.lit 15 2
        ⊕ (if risk_ok then n.lit 1 0 else n.lit 5 1) ⊗ n.lit 15 2 in
      round (max nought (min (n.lit 1 0) (raw ⊖ penalty)) ⊗ n.lit 100 0) 2

  -- `build_quant_core_gates`
  unfoldable pub build_quant_core_gates : Readings F → Option Regime → F → Outcome F
  unfolding decide size_of confidence_of
  build_quant_core_gates r override exposure =
      let label = regime_label override r.regime in
      let hundred = n.lit 100 0 in
      let regime_ok = not (is_crisis label) in
      let ofi_ok = not (is_block r.ofi_decision) in
      let conflict_ok = not (is_high r.conflict) in
      let risk_ok = lt exposure (n.lit 8 1) in
      let decision = decide regime_ok ofi_ok conflict_ok risk_ok in
      let conf = confidence_of r risk_ok in
      record {
        decision = decision;
        final_conf = conf;
        gates =
            record {
              name = data_quality;
              passed = le (n.lit 80 0) r.dq_score;
              confidence = some (round (r.dq_score ⊘ hundred) 4);
            }
            ∷ record {
              name = volatility;
              passed = lt r.annualised_vol (n.lit 150 0);
              confidence = none;
            }
            ∷ record {
              name = regime;
              passed = regime_ok;
              confidence = some (round (r.regime_confidence ⊘ hundred) 4);
            }
            ∷ record {
              name = ofi;
              passed = ofi_ok;
              confidence = some (round (n.lit 1 0 ⊖ r.stop_hunt_probability) 4);
            }
            ∷ record {
              name = signal_conflict;
              passed = conflict_ok;
              confidence = some (round (n.lit 1 0 ⊖ r.confidence_penalty_pct ⊘ hundred) 4);
            }
            ∷ record { name = risk; passed = risk_ok; confidence = none }
            ∷ record { name = size_optimiser; passed = true; confidence = none }
            ∷ record {
              name = final_decision;
              passed = goes_on decision;
              confidence = some (round (conf ⊘ hundred) 4);
            }
            ∷ [];
        size_info = size_of r label exposure;
      }
