-- ===== src/Strategy/Darwin.antt =====
-- The nightly cycle `darwin_evolution_cycle` of app/workers/backtest_worker.py, which retires weak
-- strategies and breeds the fit ones. The columns that only it reads are kept beside the table.
use pios_backend.Num.{lt, nought, or_zero, Num}
use pios_backend.Strategy.{JobStatus, Strategy, Stage}
use pios_backend.Strategy.Service.{has_id, StrategyDb}
use pios_backend.Prelude.{
  drop, take, ltb, if◌then◌else◌, length, keep_if, any_of, update_if, ℕ, ◌+◌, ◌-◌, ◌/◌, String,
  str_append, Bool, true, false, Option, none, some, List, [], ◌∷◌, ◌++◌, map,
}

-- `fitness_score`, `sharpe_last` and `generation`.
pub record Fitness (F : Type 0) : Type 0 where
  pub fitness_score : Option F
  pub sharpe_last : Option F
  pub generation : ℕ

-- What the cycle takes of its surroundings: Python's `sorted` by the negated score, the text of a
-- child's name, the keys of the next child and of its job, and the instant.
pub record Cycle (F : Type 0) : Type 0 where
  pub fitness : ℕ → Fitness F
  pub sorted : List (Strategy F × F) → List (Strategy F × F)
  pub child_name : String → ℕ → String
  pub child_key : ℕ → ℕ
  pub job_key : ℕ → ℕ
  pub now : ℕ

-- The stages that the cycle looks at.
abbrev pub in_play : Stage → Bool
in_play Stage.live_small = true
in_play Stage.scaled = true
in_play Stage.paper = true
in_play Stage.backtest = true
in_play _ = false

-- `max(1, len(scored) // 5)`
abbrev pub a_fifth : ℕ → ℕ
a_fifth len = if ltb 1 (len / 5) then len / 5 else 1

module _ {F : Type 0} ⦃n : Num F⦄ where
  abbrev pub score : Option F → F
  score none = nought
  score (some x) = or_zero x nought

  unfoldable pub scored : Cycle F → List (Strategy F) → List (Strategy F × F)
  scored c rows = c.sorted (
      map (λ s. (s, score (c.fitness s.id).fitness_score))
        (keep_if (λ s. in_play s.lifecycle_stage) rows))

  -- Below the threshold of the cycle.
  abbrev pub is_weak : Cycle F → Strategy F → Bool
  is_weak c s = lt (score (c.fitness s.id).sharpe_last) (n.lit 8 1)

  -- The last `bottom_n` of the scored, as far as they are weak.
  unfoldable pub pruned : Cycle F → List (Strategy F) → List (Strategy F)
  unfolding scored
  pruned c rows =
      let ranked = scored c rows in
      keep_if (is_weak c) (map (λ p. p.0) (drop (length ranked - a_fifth (length ranked)) ranked))

  abbrev pub retired_by_darwin : ℕ → Strategy F → Strategy F
  retired_by_darwin now s = record s {
    lifecycle_stage = Stage.retired;
    retired_at = some now;
    retirement_reason = some "Darwin: below fitness threshold";
  }

  -- A child of `parent`, with its queued backtest; `k` counts the children.
  unfoldable pub child_of : Cycle F → ℕ → Strategy F → Strategy F
  child_of c k parent =
      let generation = (c.fitness parent.id).generation + 1 in
      record {
        id = c.child_key k;
        name = c.child_name parent.name generation;
        created_by = parent.created_by;
        lifecycle_stage = Stage.backtest;
        hypothesis = parent.hypothesis;
        description = some (str_append "Darwin mutation of " parent.name);
        tags = none;
        is_paper_only = true;
        gate_history = [];
        backtest_jobs =
            record {
              id = c.job_key k;
              created_at = c.now;
              status = JobStatus.queued;
              sharpe_ratio = none;
              max_drawdown = none;
              trade_count = none;
            }
            ∷ [];
        deployed_at = none;
        retired_at = none;
        retirement_reason = none;
      }

  unfoldable pub children : Cycle F → ℕ → List (Strategy F × F) → List (Strategy F)
  unfolding child_of
  children c k [] = []
  children c k (p ∷ ps) = child_of c k p.0 ∷ children c (k + 1) ps

  -- `darwin_evolution_cycle`
  unfoldable pub darwin_evolution_cycle : Cycle F → StrategyDb F → StrategyDb F
  unfolding pruned scored children
  darwin_evolution_cycle c db =
      let ranked = scored c db.strategies in
      let weak = pruned c db.strategies in
      record db {
        strategies =
            update_if (λ s. any_of (has_id s.id) weak) (retired_by_darwin c.now) db.strategies
            ++ children c 0 (take (a_fifth (length ranked)) ranked);
      }
