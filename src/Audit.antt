-- ===== src/Audit.antt =====
-- The audit trail: `write_audit` (app/services/audit_service.py), `compute_record_hash`
-- (app/core/security.py) and `verify_chain` (app/api/v1/endpoints/audit.py).
pub mod Chain
use pios_backend.Prelude.{
  if◌then◌else◌, is_some, or_else, length, last?, ℕ, String, str_append, Bool, not, Option, none,
  some, List, [], ◌∷◌, ◌++◌, str_eq,
}

-- A call of `write_audit` by one of the services.
pub record AuditCall : Type 0 where
  pub action : String
  pub resource_id : ℕ
  pub actor_id : ℕ

-- The arguments of `write_audit`.
pub record AuditRequest : Type 0 where
  pub action : String
  pub resource_type : String
  pub resource_id : Option String
  pub actor_id : Option String
  pub actor_email : Option String
  pub before_state : Option String
  pub after_state : Option String
  pub ip_address : Option String

-- The columns of `audit_log`. The database sets `event_time`.
pub record AuditLog : Type 0 where
  pub id : ℕ
  pub event_time : String
  pub request : AuditRequest
  pub record_hash : String
  pub prev_hash : Option String

-- What `verify_chain` answers.
pub record ChainReport : Type 0 where
  pub chain_intact : Bool
  pub total_entries : ℕ
  pub broken_at_id : Option ℕ

-- `json.dumps` of the five fields with sorted keys, and `sha256(…).hexdigest()[:16]`.
module _ (dumps : String → Option String → Option String → String → String → String)
    (sha256_16 : String → String) where
  abbrev pub data_str : AuditRequest → String → String
  data_str r ts = dumps r.action r.actor_id r.resource_id r.resource_type ts

  -- `compute_record_hash`
  unfoldable pub compute_record_hash : String → Option String → String
  compute_record_hash text prev_hash =
      sha256_16 (str_append text (str_append ":" (or_else prev_hash "")))

  abbrev pub last_hash : List AuditLog → Option String
  last_hash log = elim (last? log) [ none ↦ none | some e ↦ some e.record_hash ]

  -- `write_audit`: `ts` is the clock of the process, `event_time` that of the database.
  unfoldable pub write_audit : ℕ → String → String → AuditRequest → List AuditLog → List AuditLog
  unfolding compute_record_hash
  write_audit i ts event_time r log =
      log
      ++ (record {
        id = i;
        event_time = event_time;
        request = r;
        record_hash = compute_record_hash (data_str r ts) (last_hash log);
        prev_hash = last_hash log;
      }
          ∷ [])

  -- The loop of `verify_chain`: the first entry whose hash is not the expected one.
  unfoldable pub broken_at : Option String → List AuditLog → Option ℕ
  unfolding compute_record_hash
  broken_at prev_hash [] = none
  broken_at prev_hash (e ∷ es) =
      let rest = broken_at (some e.record_hash) es in
      if str_eq (compute_record_hash (data_str e.request e.event_time) prev_hash) e.record_hash
      then rest
      else some e.id

  -- `verify_chain`
  unfoldable pub verify_chain : List AuditLog → ChainReport
  unfolding broken_at
  verify_chain log = record {
    chain_intact = not (is_some (broken_at none log));
    total_entries = length log;
    broken_at_id = broken_at none log;
  }
