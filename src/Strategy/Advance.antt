-- ===== src/Strategy/Advance.antt =====
-- What `compute_advance_stage` does to a strategy on each of its ways out.
use pios_backend.Prelude.{◌≡◌, String, true, false, Option, none, some, Result, ok, err, arith}
use pios_backend.Num.{Num}
use pios_backend.Strategy.{Stage, Strategy}
use pios_backend.Strategy.Gate.{check_gate}
use pios_backend.Strategy.Service.{
  StrategyError, gate_failed, invalid_transition, Actor, with_entry, entered, advance_row,
}

-- The stage after a stage.
abbrev pub next_of : Stage → Option Stage
next_of Stage.idea = some Stage.research
next_of Stage.research = some Stage.backtest
next_of Stage.backtest = some Stage.paper
next_of Stage.paper = some Stage.live_small
next_of Stage.live_small = some Stage.scaled
next_of Stage.scaled = some Stage.monitor
next_of Stage.monitor = some Stage.retired
next_of Stage.retired = none

module _ {F : Type 0} ⦃n : Num F⦄ where
  -- The code by the table of stages, instead of by positions in a list.
  abbrev pub stepped :
      Option String
      → Actor
      → Strategy F
      → Option Stage
      → Result (StrategyError F) Stage × Strategy F
  stepped notes actor s none = (err (invalid_transition s.lifecycle_stage), s)
  stepped notes actor s (some t) =
      let (can, reason) = check_gate s t in
      let s' = with_entry t notes actor s in
      elim can [
        | true ↦ (ok t, entered t notes actor.now s')
        | false ↦ (err (gate_failed reason), s')
      ]

  -- A strategy advances to the next stage of the table or not at all: at RETIRED the call is
  -- refused and the row unchanged, and elsewhere the gate of the next stage decides, with its
  -- entry in the history either way.
  pub advance_row_lem :
      (notes : Option String) (actor : Actor) (s : Strategy F)
      → advance_row notes actor s ≡ stepped notes actor s (next_of s.lifecycle_stage)
  unfolding advance_row
  advance_row_lem notes actor s = ground arith
