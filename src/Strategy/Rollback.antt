-- ===== src/Strategy/Rollback.antt =====
-- What a request leaves of the entry that `compute_advance_stage` flushes when a gate fails.
use pios_backend.Prelude.{
  find_first-update_if, find_first-passes, ℕ, suc, ◌≡◌, String, Option, none, some, [], ◌∷◌, err,
  length, length-append, arith,
}
use pios_backend.Num.{Num}
use pios_backend.Strategy.{Stage, Strategy, GateReason}
use pios_backend.Strategy.Service.{
  gate_failed, Actor, StrategyDb, has_id, gate_entry, advance_row, compute_get_strategy,
  compute_advance_stage,
}
use pios_backend.Strategy.Router.{advance}
use pios_backend.Strategy.Advance.{advance_row_lem, next_of, stepped}

module _ {F : Type 0} ⦃n : Num F⦄ where
  -- The row that a failed gate flushes.
  refused_row :
      (notes : Option String) (actor : Actor) (s : Strategy F) (reason : GateReason F)
      → (advance_row notes actor s).0 ≡ err (gate_failed reason)
      → ((advance_row notes actor s).1.id ≡ s.id)
        × (length (advance_row notes actor s).1.gate_history ≡ suc (length s.gate_history))
  refused_row notes actor s reason f =
      rw (advance_row_lem notes actor s)
        (from_table (next_of s.lifecycle_stage) (rw (advance_row_lem notes actor s) at f))
    where
      from_table :
          (t : Option Stage)
          → (stepped notes actor s t).0 ≡ err (gate_failed reason)
          → ((stepped notes actor s t).1.id ≡ s.id)
            × (length (stepped notes actor s t).1.gate_history ≡ suc (length s.gate_history))
      from_table none g = cc
      from_table (some t) g =
          let entry = gate_entry t notes actor s in
          ground (arith, length-append s.gate_history (entry ∷ []))

  -- If the gate fails for a strategy, the service's session holds the strategy with one more entry
  -- in its history, and the database after the request is the one before it: the entry is lost.
  pub failed_gate_entry_lost :
      (i : ℕ) (notes : Option String) (actor : Actor) (db : StrategyDb F) (s : Strategy F)
      {reason : GateReason F}
      → compute_get_strategy i db ≡ some s
      → (advance_row notes actor s).0 ≡ err (gate_failed reason)
      → ((s' : Strategy F) × (compute_get_strategy i (compute_advance_stage i notes actor db).1
            ≡ some s')
          × (length s'.gate_history ≡ suc (length s.gate_history)))
        × (advance i notes actor db ≡ (err (gate_failed reason), db))
  unfolding advance compute_advance_stage
  failed_gate_entry_lost i notes actor db s {reason} e f =
      let (same, longer) = refused_row notes actor s reason f in
      let row = (advance_row notes actor s).1 in
      let is_row = find_first-passes (has_id i) db.strategies e in
      let written = find_first-update_if (has_id i) db.strategies s row e (rw same is_row) in
      (((advance_row notes actor s).1, ground (arith, written), longer), ground arith)
