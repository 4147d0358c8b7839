-- ===== src/Strategy.antt =====
-- The strategy lifecycle (app/services/strategy_service.py, app/api/v1/endpoints/strategies.py).
-- Columns that no rule reads (code hashes, mutation log and the like) are left out.
pub mod Gate
pub mod Service
pub mod Router
pub mod Advance
pub mod Evidence
pub mod Darwin
pub mod Live
pub mod Fifths
pub mod Bred
pub mod Rollback
use pios_backend.Prelude.{
  ℕ, suc, String, Bool, true, false, Option, none, some, List, [], ◌∷◌, ◌==◌, if◌then◌else◌,
}

-- `StageEnum`
pub data Stage : Type 0 where
  idea research backtest paper live_small scaled monitor retired : Stage

-- `LIFECYCLE_ORDER`
unfoldable pub lifecycle_order : List Stage
lifecycle_order =
    Stage.idea ∷ Stage.research ∷ Stage.backtest ∷ Stage.paper ∷ Stage.live_small ∷ Stage.scaled
    ∷ Stage.monitor ∷ Stage.retired ∷ []

unfoldable pub same_stage : Stage → Stage → Bool
same_stage Stage.idea Stage.idea = true
same_stage Stage.research Stage.research = true
same_stage Stage.backtest Stage.backtest = true
same_stage Stage.paper Stage.paper = true
same_stage Stage.live_small Stage.live_small = true
same_stage Stage.scaled Stage.scaled = true
same_stage Stage.monitor Stage.monitor = true
same_stage Stage.retired Stage.retired = true
same_stage _ _ = false

-- `list.index`, counted from `i`; a stage is always found.
unfoldable pub index_from : Stage → ℕ → List Stage → ℕ
unfolding same_stage
index_from s i [] = i
index_from s i (t ∷ ts) = if same_stage s t then i else index_from s (suc i) ts

-- `_stage_index`
unfoldable pub stage_index : Stage → ℕ
unfolding index_from lifecycle_order
stage_index s = index_from s 0 lifecycle_order

-- `BtStatusEnum`
pub data JobStatus : Type 0 where
  queued running complete failed : JobStatus

-- The columns of `backtest_jobs` that the gates read.
pub record BacktestJob (F : Type 0) : Type 0 where
  pub id : ℕ
  pub created_at : ℕ
  pub status : JobStatus
  pub sharpe_ratio : Option F
  pub max_drawdown : Option F
  pub trade_count : Option ℕ

-- Why a gate stays shut, or that it opened.
pub data GateReason (F : Type 0) : Type 0 where
  hypothesis_required : GateReason F
  backtest_required : GateReason F
  backtest_not_complete : ℕ → JobStatus → GateReason F
  sharpe_below_gate : Option F → GateReason F
  drawdown_exceeds_gate : F → GateReason F
  too_few_trades : Option ℕ → GateReason F
  paper_only : GateReason F
  gate_passed : GateReason F
  forced_retirement : String → GateReason F

-- An entry of `gate_history`.
pub record GateEntry (F : Type 0) : Type 0 where
  pub from : Stage
  pub to : Stage
  pub passed : Bool
  pub reason : GateReason F
  pub ts : ℕ
  pub actor : String
  pub notes : Option String

pub record Strategy (F : Type 0) : Type 0 where
  pub id : ℕ
  pub name : String
  pub created_by : ℕ
  pub lifecycle_stage : Stage
  pub hypothesis : Option String
  pub description : Option String
  pub tags : Option (List String)
  pub is_paper_only : Bool
  pub gate_history : List (GateEntry F)
  pub backtest_jobs : List (BacktestJob F)
  pub deployed_at : Option ℕ
  pub retired_at : Option ℕ
  pub retirement_reason : Option String
