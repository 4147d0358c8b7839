-- ===== src/Audit/Chain.antt =====
-- When the chain that `write_audit` builds verifies.
use pios_backend.Prelude.{
  ◌≢◌, is_some, length, suc, ap, arith, Bool-cases, ◌∙◌, inl, inr, none, str_eq_iff, find_first, ℕ,
  String, ◌≡◌, refl, sym, Bool, not, Option, some, List, [], ◌∷◌, ◌++◌, str_eq,
}
use pios_backend.Audit.{
  verify_chain, data_str, compute_record_hash, last_hash, write_audit, broken_at, AuditRequest,
  AuditLog,
}
use mathlib.Core.List.{append-nil, append_assoc}

-- A call of `write_audit`, with the two clocks that it meets.
pub record Entry : Type 0 where
  pub id : ℕ
  pub ts : String
  pub event_time : String
  pub request : AuditRequest

-- The two clocks differ.
abbrev pub is_skewed : Entry → Bool
is_skewed e = not (str_eq e.ts e.event_time)

abbrev id_of : Option Entry → Option ℕ
id_of none = none
id_of (some e) = some e.id

module _ (dumps : String → Option String → Option String → String → String → String)
    (sha256_16 : String → String) where
  -- A run of calls.
  unfoldable pub write_all : List Entry → List AuditLog → List AuditLog
  write_all [] log = log
  write_all (e ∷ es) log =
      write_all es (write_audit dumps sha256_16 e.id e.ts e.event_time e.request log)

  abbrev hash_of : Entry → Option String → String
  hash_of e prev =
      compute_record_hash dumps sha256_16 (data_str dumps sha256_16 e.request e.ts) prev

  abbrev row_of : Entry → Option String → AuditLog
  row_of e prev = record {
    id = e.id;
    event_time = e.event_time;
    request = e.request;
    record_hash = hash_of e prev;
    prev_hash = prev;
  }

  -- The rows of a run, after a row of hash `prev`.
  abbrev rows_after : Option String → List Entry → List AuditLog
  rows_after prev [] = []
  rows_after prev (e ∷ es) = row_of e prev ∷ rows_after (some (hash_of e prev)) es

  last_hash-snoc :
      (log : List AuditLog) (e : AuditLog)
      → last_hash dumps sha256_16 (log ++ (e ∷ [])) ≡ some e.record_hash
  last_hash-snoc [] e = refl
  last_hash-snoc (x ∷ []) e = refl
  last_hash-snoc (x ∷ y ∷ log) e = last_hash-snoc (y ∷ log) e

  write_all-rows_after :
      (es : List Entry) (log : List AuditLog)
      → write_all es log ≡ log ++ rows_after (last_hash dumps sha256_16 log) es
  unfolding write_all write_audit
  write_all-rows_after [] log = sym (append-nil log)
  write_all-rows_after (e ∷ es) log =
      let log' = write_audit dumps sha256_16 e.id e.ts e.event_time e.request log in
      write_all-rows_after es log'
      ∙ rw
          (
            last_hash-snoc log (row_of e (last_hash dumps sha256_16 log)),
            append_assoc log (row_of e (last_hash dumps sha256_16 log) ∷ [])
                (rows_after (some (hash_of e (last_hash dumps sha256_16 log))) es),
          )
          refl

  -- What the verification compares is the two clocks, where the hash keeps them apart.
  broken_at-rows_after :
      ((r : AuditRequest) (t u : String) (prev : Option String)
        → compute_record_hash dumps sha256_16 (data_str dumps sha256_16 r t) prev
          ≡ compute_record_hash dumps sha256_16 (data_str dumps sha256_16 r u) prev
        → t ≡ u)
      → (prev : Option String) (es : List Entry)
      → broken_at dumps sha256_16 prev (rows_after prev es) ≡ id_of (find_first is_skewed es)
  unfolding broken_at
  broken_at-rows_after apart prev [] = refl
  broken_at-rows_after apart prev (e ∷ es) = elim (Bool-cases (str_eq e.ts e.event_time)) [
    | inl same ↦
        rw
          (
            same,
            sym ((str_eq_iff e.ts e.event_time).0 same),
            (str_eq_iff (hash_of e prev) (hash_of e prev)).1 refl,
          )
          (broken_at-rows_after apart (some (hash_of e prev)) es)
    | inr skewed ↦
        elim (Bool-cases (
          str_eq
            (compute_record_hash dumps sha256_16 (data_str dumps sha256_16 e.request e.event_time)
              prev)
            (hash_of e prev))) [
              | inl hit ↦
                  let drift = apart e.request e.event_time e.ts prev ((str_eq_iff _ _).0 hit) in
                  ground (arith, skewed, (str_eq_iff e.ts e.event_time).1 (sym drift))
              | inr miss ↦ rw (skewed, miss) refl
            ]
  ]

  length-rows_after :
      (prev : Option String) (es : List Entry) → length (rows_after prev es) ≡ length es
  length-rows_after prev [] = refl
  length-rows_after prev (e ∷ es) = ap suc (length-rows_after (some (hash_of e prev)) es)

  -- The verification of a log that only `write_audit` has written, when the hash keeps two texts
  -- that differ in their time apart: it reports the first entry for which the clock that was hashed
  -- and the clock of the database differ, and it reports the chain intact only when there is none.
  pub verify_chain-write_all :
      ((r : AuditRequest) (t u : String) (prev : Option String)
        → compute_record_hash dumps sha256_16 (data_str dumps sha256_16 r t) prev
          ≡ compute_record_hash dumps sha256_16 (data_str dumps sha256_16 r u) prev
        → t ≡ u)
      → (es : List Entry)
      → verify_chain dumps sha256_16 (write_all es []) ≡ record {
        chain_intact = not (is_some (id_of (find_first is_skewed es)));
        total_entries = length es;
        broken_at_id = id_of (find_first is_skewed es);
      }
  unfolding verify_chain
  verify_chain-write_all apart es =
      rw (write_all-rows_after es [], broken_at-rows_after apart none es, length-rows_after none es)
        refl

  tampered :
      (r : AuditRequest) (e : AuditLog) (xs ys : List AuditLog) (prev : Option String)
      → ((p : Option String)
          → compute_record_hash dumps sha256_16 (data_str dumps sha256_16 r e.event_time) p
            ≢ compute_record_hash dumps sha256_16
                (data_str dumps sha256_16 e.request e.event_time)
                p)
      → broken_at dumps sha256_16 prev (xs ++ (e ∷ ys)) ≡ none
      → broken_at dumps sha256_16 prev (xs ++ (record e { request = r } ∷ ys)) ≡ some e.id
  unfolding broken_at
  tampered r e [] ys prev apart h =
      let old =
        compute_record_hash dumps sha256_16 (data_str dumps sha256_16 e.request e.event_time)
          prev in
      let forged =
        compute_record_hash dumps sha256_16 (data_str dumps sha256_16 r e.event_time) prev in
      elim (Bool-cases (str_eq old e.record_hash)) [
        | inr bad ↦ ground (arith, bad, h)
        | inl good ↦ elim (Bool-cases (str_eq forged e.record_hash)) [
          | inr miss ↦ rw miss refl
          | inl hit ↦
              let same =
                (str_eq_iff forged e.record_hash).0 hit
                ∙ sym ((str_eq_iff old e.record_hash).0 good) in
              absurd (apart prev same)
        ]
      ]
  tampered r e (x ∷ xs) ys prev apart h =
      elim (Bool-cases (
        str_eq
          (compute_record_hash dumps sha256_16 (data_str dumps sha256_16 x.request x.event_time)
            prev)
          x.record_hash)) [
            | inr bad ↦ ground (arith, bad, h)
            | inl good ↦ rw good (tampered r e xs ys (some x.record_hash) apart (rw good at h))
          ]

  -- In a log that verifies, an entry whose hashed fields are replaced is found, wherever it stands:
  -- when the hash tells the new fields from the old ones, the verification reports that entry.
  pub verify_chain_tampered :
      (r : AuditRequest) (e : AuditLog) (xs ys : List AuditLog)
      → ((p : Option String)
          → compute_record_hash dumps sha256_16 (data_str dumps sha256_16 r e.event_time) p
            ≢ compute_record_hash dumps sha256_16
                (data_str dumps sha256_16 e.request e.event_time)
                p)
      → (verify_chain dumps sha256_16 (xs ++ (e ∷ ys))).broken_at_id ≡ none
      → (verify_chain dumps sha256_16 (xs ++ (record e { request = r } ∷ ys))).broken_at_id
        ≡ some e.id
  unfolding verify_chain
  verify_chain_tampered r e xs ys apart h = tampered r e xs ys none apart h
