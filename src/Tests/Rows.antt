-- ===== src/Tests/Rows.antt =====
-- The audit trail. Texts stand for their own hashes.
use pios_backend.Audit.{broken_at, AuditLog, compute_record_hash, verify_chain, AuditRequest}
use pios_backend.Audit.Chain.{verify_chain_tampered, write_all, verify_chain-write_all, Entry}
use pios_backend.Prelude.{
  refl, arith, str_eq, str_eq_iff, or_else, String, str_append, ◌≡◌, false, Option, none, some,
  List, [], ◌∷◌,
}
use text.Mathlib.TextLemmas.{append_cancel_right}

abbrev a_request : AuditRequest
a_request = record {
  action = "USER_LOGIN";
  resource_type = "user";
  resource_id = none;
  actor_id = some "7";
  actor_email = none;
  before_state = none;
  after_state = none;
  ip_address = none;
}

abbrev a_dump : String → Option String → Option String → String → String → String
a_dump action actor_id resource_id resource_type ts = ts

abbrev two_entries : List Entry
two_entries =
    record { id = 1; ts = "10:00"; event_time = "10:00"; request = a_request }
    ∷ record { id = 2; ts = "10:01"; event_time = "10:02"; request = a_request }
    ∷ []

verify_chain-write_all_example :
    verify_chain a_dump (λ t. t) (write_all a_dump (λ t. t) two_entries [])
    ≡ record { chain_intact = false; total_entries = 2; broken_at_id = some 2 }
unfolding compute_record_hash
verify_chain-write_all_example =
    verify_chain-write_all a_dump (λ t. t)
      (λ r t u prev. append_cancel_right t u (str_append ":" (or_else prev ""))) two_entries

abbrev a_row : AuditLog
a_row = record {
  id = 1;
  event_time = "10:00";
  request = a_request;
  record_hash = "USER_LOGIN:";
  prev_hash = none;
}

abbrev forged_request : AuditRequest
forged_request = record a_request { action = "USER_LOGOUT" }

abbrev action_dump : String → Option String → Option String → String → String → String
action_dump action actor_id resource_id resource_type ts = action

other_action : str_eq "USER_LOGOUT" "USER_LOGIN" ≡ false
other_action = refl

verify_chain_tampered_example :
    (verify_chain action_dump
      (λ t. t)
      (record a_row { request = forged_request } ∷ [])).broken_at_id
    ≡ some 1
unfolding compute_record_hash verify_chain broken_at
verify_chain_tampered_example =
    verify_chain_tampered action_dump (λ t. t) forged_request a_row [] []
      (λ p h. ground (
        arith,
        other_action,
        (str_eq_iff "USER_LOGOUT" "USER_LOGIN").1
            (append_cancel_right "USER_LOGOUT" "USER_LOGIN" (str_append ":" (or_else p "")) h),
      ))
      refl
