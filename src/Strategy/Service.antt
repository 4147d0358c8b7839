-- ===== src/Strategy/Service.antt =====
-- The functions of the service that change a strategy, and the requests around them.
use pios_backend.Prelude.{
  ℕ, ◌+◌, ◌-◌, String, Bool, true, Option, none, some, List, [], ◌∷◌, ◌++◌, Result, ok, err, leb,
  ◌==◌, length, get_elem?, find_first, update_if, is_blank, strip, text_or, if◌then◌else◌,
}
use pios_backend.Num.{Num}
use pios_backend.Audit.{AuditCall}
use pios_backend.Strategy.{
  GateEntry, Stage, Strategy, GateReason, forced_retirement, lifecycle_order, stage_index,
  same_stage,
}
use pios_backend.Strategy.Gate.{check_gate, is_live_target}

-- The exceptions that reach the router.
pub data StrategyError (F : Type 0) : Type 0 where
  not_found : ℕ → StrategyError F
  gate_failed : GateReason F → StrategyError F
  invalid_transition : Stage → StrategyError F
  value_error : StrategyError F
  forbidden : StrategyError F
  conflict : StrategyError F

-- What the session holds: the table of strategies, and the audit calls so far.
pub record StrategyDb (F : Type 0) : Type 0 where
  pub strategies : List (Strategy F)
  pub audits : List AuditCall

-- Who makes the request, and when.
pub record Actor : Type 0 where
  pub id : ℕ
  pub email : String
  pub role : String
  pub now : ℕ

abbrev pub when_unset : Option ℕ → ℕ → Option ℕ
when_unset none now = some now
when_unset (some t) now = some t

module _ {F : Type 0} where
  abbrev pub has_id : ℕ → Strategy F → Bool
  has_id i s = s.id == i

  -- `compute_get_strategy`
  unfoldable pub compute_get_strategy : ℕ → StrategyDb F → Option (Strategy F)
  compute_get_strategy i db = find_first (has_id i) db.strategies

  -- Write the fields of one row.
  abbrev pub store_row : Strategy F → StrategyDb F → StrategyDb F
  store_row s db = record db { strategies = update_if (has_id s.id) (λ _. s) db.strategies }

  abbrev pub audited : String → Strategy F → Actor → StrategyDb F → StrategyDb F
  audited action s actor db = record db {
    audits =
        db.audits ++ (record { action = action; resource_id = s.id; actor_id = actor.id } ∷ []);
  }

  -- The columns that `compute_advance_stage` writes once the gate has opened.
  unfoldable pub entered : Stage → Option String → ℕ → Strategy F → Strategy F
  unfolding same_stage
  entered next_stage notes now s = record s {
    lifecycle_stage = next_stage;
    deployed_at = if is_live_target next_stage then when_unset s.deployed_at now else s.deployed_at;
    retired_at = if same_stage next_stage Stage.retired then some now else s.retired_at;
    retirement_reason =
        if same_stage next_stage Stage.retired
        then some (text_or notes "Manual retirement via advance_stage")
        else s.retirement_reason;
  }

module _ {F : Type 0} ⦃n : Num F⦄ where
  -- The entry that `compute_advance_stage` appends, whatever the gate says.
  unfoldable pub gate_entry : Stage → Option String → Actor → Strategy F → GateEntry F
  gate_entry next_stage notes actor s =
      let (can, reason) = check_gate s next_stage in
      record {
        from = s.lifecycle_stage;
        to = next_stage;
        passed = can;
        reason = reason;
        ts = actor.now;
        actor = actor.email;
        notes = notes;
      }

  abbrev pub with_entry : Stage → Option String → Actor → Strategy F → Strategy F
  with_entry next_stage notes actor s = record s {
    gate_history = s.gate_history ++ (gate_entry next_stage notes actor s ∷ []);
  }

  -- `compute_advance_stage` on the locked row: how it ends, and the row that is flushed.
  unfoldable pub advance_row :
      Option String → Actor → Strategy F → Result (StrategyError F) Stage × Strategy F
  unfolding stage_index lifecycle_order
  advance_row notes actor s =
      let current_idx = stage_index s.lifecycle_stage in
      if leb (length lifecycle_order - 1) current_idx
      then (err (invalid_transition s.lifecycle_stage), s)
      else elim (get_elem? lifecycle_order (current_idx + 1)) [
        | none ↦ (err value_error, s)
        | some next_stage ↦
            let (can, reason) = check_gate s next_stage in
            let s' = with_entry next_stage notes actor s in
            if can
            then (ok next_stage, entered next_stage notes actor.now s')
            else (err (gate_failed reason), s')
      ]

  -- `compute_advance_stage`: what the session holds when it returns or raises.
  unfoldable pub compute_advance_stage :
      ℕ → Option String → Actor → StrategyDb F → Result (StrategyError F) Stage × StrategyDb F
  unfolding compute_get_strategy
  compute_advance_stage i notes actor db = elim (compute_get_strategy i db) [
    | none ↦ (err (not_found i), db)
    | some s ↦
        let (r, s') = advance_row notes actor s in
        elim r [
          | ok stage ↦ (ok stage, audited "STRATEGY_ADVANCED" s' actor (store_row s' db))
          | err e ↦ (err e, store_row s' db)
        ]
  ]

  -- `retire_strategy` on the locked row.
  unfoldable pub retire_row :
      String → Actor → Strategy F → Result (StrategyError F) Stage × Strategy F
  unfolding same_stage
  retire_row reason actor s =
      if same_stage s.lifecycle_stage Stage.retired
      then (err (invalid_transition s.lifecycle_stage), s)
      else (
        ok Stage.retired,
        record s {
          gate_history =
              s.gate_history
              ++ (record {
                from = s.lifecycle_stage;
                to = Stage.retired;
                passed = true;
                reason = forced_retirement (strip reason);
                ts = actor.now;
                actor = actor.email;
                notes = some (strip reason);
              }
                  ∷ []);
          lifecycle_stage = Stage.retired;
          retired_at = some actor.now;
          retirement_reason = some (strip reason);
        },
      )

  -- `retire_strategy`
  unfoldable pub retire_strategy :
      ℕ → String → Actor → StrategyDb F → Result (StrategyError F) Stage × StrategyDb F
  unfolding compute_get_strategy
  retire_strategy i reason actor db =
      if is_blank (some reason) then (err value_error, db) else elim (compute_get_strategy i db) [
        | none ↦ (err (not_found i), db)
        | some s ↦
            let (r, s') = retire_row reason actor s in
            elim r [
              | ok stage ↦ (ok stage, audited "STRATEGY_RETIRED" s' actor (store_row s' db))
              | err e ↦ (err e, db)
            ]
      ]

-- `get_db` around an endpoint: commit when it returns, roll back when it raises.
abbrev pub in_request {ℓ κ} :
    {E S : Type ℓ} {A : Type κ} → (S → Result E A × S) → S → Result E A × S
in_request handler db =
    let (r, db') = handler db in elim r [ ok a ↦ (ok a, db') | err e ↦ (err e, db) ]
