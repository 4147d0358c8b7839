-- ===== src/Strategy/Router.antt =====
-- The endpoints that change a strategy (app/api/v1/endpoints/strategies.py), each under the session
-- of `get_db` (app/db/session.py). All of them require the role quant or admin.
use pios_backend.Prelude.{
  ℕ, String, Bool, true, false, not, ◌&&◌, Option, none, some, List, [], ◌∷◌, ◌++◌, Result, ok, err,
  ◌==◌, str_eq, keep_if, strip, text_or, is_empty, if◌then◌else◌,
}
use pios_backend.Num.{Num}
use pios_backend.Strategy.{Stage, Strategy}
use pios_backend.Strategy.Service.{
  StrategyError, not_found, forbidden, conflict, StrategyDb, Actor, has_id, store_row, audited,
  compute_get_strategy, compute_advance_stage, retire_strategy, in_request,
}

-- `StrategyCreate`
pub record StrategyCreate : Type 0 where
  pub name : String
  pub hypothesis : Option String
  pub description : Option String
  pub tags : Option (List String)

-- `StrategyUpdate`
pub record StrategyUpdate : Type 0 where
  pub name : Option String
  pub hypothesis : Option String
  pub description : Option String
  pub tags : Option (List String)

-- `StageEnum` in `("LIVE_SMALL", "SCALED", "MONITOR")`
abbrev pub is_live : Stage → Bool
is_live Stage.live_small = true
is_live Stage.scaled = true
is_live Stage.monitor = true
is_live _ = false

-- `current_user.role != "admin" and s.created_by != current_user.id`
abbrev pub is_foreign : ℕ → Actor → Bool
is_foreign owner actor = not (str_eq actor.role "admin") && not (owner == actor.id)

-- `if data.x: s.x = data.x`, at a text
abbrev pub patch_text : Option String → Option String → Option String
patch_text none old = old
patch_text (some t) old = if is_empty t then old else some t

abbrev pub patch_tags : Option (List String) → Option (List String) → Option (List String)
patch_tags (some (t ∷ ts)) old = some (t ∷ ts)
patch_tags _ old = old

module _ {F : Type 0} where
  -- `compute_create_strategy`; `fresh` is the key that the database gives the row.
  unfoldable pub compute_create_strategy :
      ℕ → StrategyCreate → Actor → StrategyDb F → Strategy F × StrategyDb F
  compute_create_strategy fresh fields actor db =
      let s : Strategy F = record {
        id = fresh;
        name = strip fields.name;
        created_by = actor.id;
        lifecycle_stage = Stage.idea;
        hypothesis = fields.hypothesis;
        description = fields.description;
        tags = patch_tags fields.tags (some []);
        is_paper_only = true;
        gate_history = [];
        backtest_jobs = [];
        deployed_at = none;
        retired_at = none;
        retirement_reason = none;
      } in
      (s, audited "STRATEGY_CREATED" s actor (record db { strategies = db.strategies ++ (s ∷ []) }))

  unfoldable pub create :
      ℕ → StrategyCreate → Actor → StrategyDb F → Result (StrategyError F) ℕ × StrategyDb F
  unfolding compute_create_strategy
  create fresh fields actor =
      in_request
        λ db. let (s, db') = compute_create_strategy fresh fields actor db in (ok s.id, db')

  -- The columns that a PATCH writes.
  unfoldable pub patched : StrategyUpdate → Strategy F → Strategy F
  patched fields s = record s {
    name = text_or fields.name s.name;
    hypothesis = patch_text fields.hypothesis s.hypothesis;
    description = patch_text fields.description s.description;
    tags = patch_tags fields.tags s.tags;
  }

  unfoldable pub update_strategy :
      ℕ → StrategyUpdate → Actor → StrategyDb F → Result (StrategyError F) ℕ × StrategyDb F
  unfolding compute_get_strategy patched
  update_strategy i fields actor = in_request λ db. elim (compute_get_strategy i db) [
    | none ↦ (err (not_found i), db)
    | some s ↦
        if is_foreign s.created_by actor
        then (err forbidden, db)
        else (ok i, audited "STRATEGY_UPDATED" s actor (store_row (patched fields s) db))
  ]

  unfoldable pub delete_strategy :
      ℕ → Actor → StrategyDb F → Result (StrategyError F) ℕ × StrategyDb F
  unfolding compute_get_strategy
  delete_strategy i actor = in_request λ db. elim (compute_get_strategy i db) [
    | none ↦ (err (not_found i), db)
    | some s ↦
        if is_foreign s.created_by actor
        then (err forbidden, db)
        else if is_live s.lifecycle_stage
        then (err conflict, db)
        else (ok i, record db { strategies = keep_if (λ t. not (has_id i t)) db.strategies })
  ]

module _ {F : Type 0} ⦃n : Num F⦄ where
  unfoldable pub advance :
      ℕ → Option String → Actor → StrategyDb F → Result (StrategyError F) Stage × StrategyDb F
  advance i notes actor = in_request (compute_advance_stage i notes actor)

  unfoldable pub retire :
      ℕ → Option String → Actor → StrategyDb F → Result (StrategyError F) Stage × StrategyDb F
  retire i notes actor = in_request (retire_strategy i (text_or notes "Manual retirement") actor)
