-- ===== src/Tests/Strategies.antt =====
-- Strategies: the gates, and runs of requests.
use pios_backend.Prelude.{
  ℕ, All, ◌+◌, List, ◌++◌, map, length, ◌≡◌, refl, true, none, some, [], ◌∷◌,
}
use pios_backend.Strategy.Darwin.{darwin_evolution_cycle, Cycle}
use pios_backend.Strategy.Bred.{AreSpared, darwin_evolution_cycle-IsBred, IsBred}
use pios_backend.Num.Instance.{int_num}
use pios_backend.Strategy.{Stage, JobStatus, BacktestJob, Strategy}
use pios_backend.Strategy.Service.{StrategyDb, Actor}
use pios_backend.Strategy.Live.{ArePaperBound, live_unreachable, advances, start, after}
use pios_backend.Strategy.Gate.{check_gate}
use pios_backend.Strategy.Evidence.{paper_gate, IsLatest, IsPaperReady}
use pios_backend.Strategy.Fifths.{IsCycled}
use pios_backend.Tests.Ranked.{ranked, placed, ranked-IsSort}
use pios_backend.Strategy.Router.{advance}
use pios_backend.Num.Ints.{ℤ, pos}

abbrev a_job : BacktestJob ℤ
a_job = record {
  id = 1;
  created_at = 5;
  status = JobStatus.complete;
  sharpe_ratio = some (pos 2);
  max_drawdown = some (pos 1);
  trade_count = some 300;
}

abbrev pub a_strategy : Stage → Strategy ℤ
a_strategy stage = record {
  id = 1;
  name = "mean reversion";
  created_by = 7;
  lifecycle_stage = stage;
  hypothesis = none;
  description = none;
  tags = none;
  is_paper_only = true;
  gate_history = [];
  backtest_jobs = a_job ∷ [];
  deployed_at = none;
  retired_at = none;
  retirement_reason = none;
}

abbrev an_actor : Actor
an_actor = record { id = 7; email = "a@b.c"; role = "trader"; now = 3 }

abbrev a_db : Stage → StrategyDb ℤ
a_db stage = record { strategies = a_strategy stage ∷ []; audits = [] }

live_unreachable_example : ArePaperBound (advance 1 none an_actor (a_db Stage.paper)).1
live_unreachable_example =
    live_unreachable {db = a_db Stage.paper} (record { flagged = refl; not_live = refl }, tt)
      (after start (advances 1 none an_actor refl))

paper_gate_example : (j : BacktestJob ℤ) × IsLatest (a_job ∷ []) j × IsPaperReady j
unfolding check_gate
paper_gate_example = paper_gate (a_strategy Stage.backtest) refl

-- A cycle that finds every strategy weak.
abbrev a_cycle : Cycle ℤ
a_cycle = record {
  fitness = λ i. record { fitness_score = some (pos 4); sharpe_last = none; generation = 2 };
  sorted = ranked;
  child_name = λ name generation. "DARWIN";
  child_key = λ k. 50 + k;
  job_key = λ k. 90 + k;
  now = 8;
}

abbrev two_stages : StrategyDb ℤ
two_stages = record {
  strategies = a_strategy Stage.paper ∷ record (a_strategy Stage.idea) { id = 2 } ∷ [];
  audits = [];
}

darwin_evolution_cycle-IsBred_example :
    (kept kids : List (Strategy ℤ)) × ((darwin_evolution_cycle a_cycle two_stages).strategies
      ≡ kept ++ kids)
    × IsCycled a_cycle two_stages.strategies kept (length kids)
    × AreSpared a_cycle two_stages.strategies kept
    × All IsBred kids
darwin_evolution_cycle-IsBred_example =
    darwin_evolution_cycle-IsBred a_cycle two_stages ranked-IsSort ((refl, tt), (tt, tt))

-- A strategy alone is retired and bred in the same night.
retired_and_bred :
    map {B = ℕ × Stage}
      (λ s. (s.id, s.lifecycle_stage))
      (darwin_evolution_cycle a_cycle two_stages).strategies
    ≡ (1, Stage.retired) ∷ (2, Stage.idea) ∷ (50, Stage.backtest) ∷ []
unfolding darwin_evolution_cycle ranked placed
retired_and_bred = refl
