-- ===== src/Auth/Spent.antt =====
-- Spent hashes: what the writes of app/api/v1/endpoints/auth.py to the sessions do to them.
use pios_backend.Auth.{
  AuthError, create_refresh_token, TokenPair, UserSession, Crypto, Lifetimes, AuthDb,
}
use pios_backend.Prelude.{
  Result, err, ap, Result-cases, ok_inj, find_first-append-none, any_of-append, any_of-update_if,
  find_first-update_if-none, find_first-update_if_all, refl, ◌∙◌, false, ◌++◌, arith, str_eq,
  str_eq_iff, ok, Bool-cases, find_first, any_of, update_if, ℕ, String, ◌≡◌, inl, inr, Bool, true,
  Option, none, List, [], ◌∷◌,
}
use pios_backend.Auth.Endpoints.{
  new_session, open_session, rotate, insert_session, has_hash, is_live_session, revoke,
}
use mathlib.Core.Path.{subst}

-- The table has the hash, but in no session that is live.
pub record IsSpent (h : String) (ss : List UserSession) : Type 0 where
  pub known : any_of (has_hash h) ss ≡ true
  pub dead : find_first (is_live_session h) ss ≡ none

-- What the unique index lets in.
pub insert_session-ok :
    (s : UserSession) (db : AuthDb) {db' : AuthDb}
    → insert_session s db ≡ ok db'
    → (any_of (has_hash s.refresh_token_hash) db.sessions ≡ false)
      × (record db { sessions = db.sessions ++ (s ∷ []) } ≡ db')
unfolding insert_session
insert_session-ok s db e = elim (Bool-cases (any_of (has_hash s.refresh_token_hash) db.sessions)) [
  | inl taken ↦ absurd (ground (arith, rw (insert_session, taken) at e))
  | inr free ↦ (free, ok_inj (rw (insert_session, free) refl) e)
]

-- A hash that some row has is not one that no row has.
has_hash-free :
    (h k : String) (ss : List UserSession)
    → any_of (has_hash h) ss ≡ true
    → any_of (has_hash k) ss ≡ false
    → str_eq h k ≡ false
has_hash-free h k ss known free = elim (Bool-cases (str_eq h k)) [
  | inl same ↦ absurd (
      ground
        (arith, free, subst (λ x. any_of (has_hash x) ss ≡ true) ((str_eq_iff h k).0 same) known))
  | inr apart ↦ apart
]

-- A session whose hash the unique index accepts does not revive a spent one.
pub insert_session-IsSpent :
    {h : String} (s : UserSession) (db : AuthDb) {db' : AuthDb}
    → insert_session s db ≡ ok db'
    → IsSpent h db.sessions
    → IsSpent h db'.sessions
insert_session-IsSpent {h} s db e spent =
    let added = insert_session-ok s db e in
    let apart = has_hash-free h s.refresh_token_hash db.sessions spent.known added.0 in
    subst (λ d. IsSpent h d.sessions) added.1
      (record {
        known = any_of-append (has_hash h) db.sessions (s ∷ []) spent.known;
        dead =
            find_first-append-none (is_live_session h) db.sessions (s ∷ []) spent.dead
            ∙ (rw apart refl);
      })

-- A session that is revoked is not live.
revoke-is_live : (h : String) (s : UserSession) → is_live_session h (revoke s) ≡ false
revoke-is_live h s = elim (Bool-cases (has_hash h s)) [ inl e ↦ rw e refl | inr e ↦ rw e refl ]

pub live-has_hash :
    (h : String) (s : UserSession) → is_live_session h s ≡ true → has_hash h s ≡ true
live-has_hash h s e = elim (Bool-cases (has_hash h s)) [
  | inl hit ↦ hit
  | inr miss ↦ absurd (ground (arith, rw miss at e))
]

-- Revoking sessions revives none.
pub update_if-IsSpent :
    (h : String) (q : UserSession → Bool) (ss : List UserSession)
    → IsSpent h ss
    → IsSpent h (update_if q revoke ss)
update_if-IsSpent h q ss spent = record {
  known = any_of-update_if (has_hash h) q revoke ss (λ s. refl) ∙ spent.known;
  dead =
      find_first-update_if-none (is_live_session h) q revoke ss (λ s e. revoke-is_live h s)
        spent.dead;
}

-- Revoking all sessions of a known hash spends it.
pub revoke-IsSpent :
    (h : String) (ss : List UserSession)
    → any_of (has_hash h) ss ≡ true
    → IsSpent h (update_if (is_live_session h) revoke ss)
      × IsSpent h (update_if (has_hash h) revoke ss)
revoke-IsSpent h ss known = (
  record {
    known = any_of-update_if (has_hash h) (is_live_session h) revoke ss (λ s. refl) ∙ known;
    dead =
        find_first-update_if_all (is_live_session h) (is_live_session h) revoke ss (λ s e. e)
          (revoke-is_live h);
  },
  record {
    known = any_of-update_if (has_hash h) (has_hash h) revoke ss (λ s. refl) ∙ known;
    dead =
        find_first-update_if_all (is_live_session h) (has_hash h) revoke ss (live-has_hash h)
          (revoke-is_live h);
  },
)

abbrev sessions_of : Result AuthError (TokenPair × AuthDb) → List UserSession
sessions_of (ok r) = r.1.sessions
sessions_of (err _) = []

module _ (c : Crypto) (l : Lifetimes) (h : String) where
  pub open_session-IsSpent :
      (now : ℕ) (jti : String) (ip : Option String) (action : String) (i : ℕ) (db : AuthDb)
      {pair : TokenPair} {db' : AuthDb}
      → open_session c l now jti ip action i db ≡ ok (pair, db')
      → IsSpent h db.sessions
      → IsSpent h db'.sessions
  unfolding open_session
  open_session-IsSpent now jti ip action i db {pair} {db'} e spent =
      elim (Result-cases (
        insert_session (new_session i ip now (c.sha256 (create_refresh_token c l now jti i))) db)) [
          | inl (d, added) ↦
              let same : d.sessions ≡ db'.sessions =
                ap sessions_of (rw (added, open_session) at e) in
              subst (IsSpent h) same (
                insert_session-IsSpent
                  (new_session i ip now (c.sha256 (create_refresh_token c l now jti i))) db added
                  spent)
          | inr (f, refused) ↦ absurd (ground (arith, rw (refused, open_session) at e))
        ]

  pub rotate-IsSpent :
      (now : ℕ) (jti k : String) (s : UserSession) (i : ℕ) (db : AuthDb)
      → IsSpent h db.sessions
      → IsSpent h (rotate c l now jti k s i db).1.sessions
  unfolding rotate
  rotate-IsSpent now jti k s i db spent =
      elim (Result-cases (
        insert_session
          (new_session i s.ip_address now (c.sha256 (create_refresh_token c l now jti i)))
          (record db { sessions = update_if (is_live_session k) revoke db.sessions }))) [
            | inl (d, added) ↦
                rw (added, rotate)
                  (insert_session-IsSpent _ _ added
                    (update_if-IsSpent h (is_live_session k) db.sessions spent))
            | inr (f, refused) ↦ rw (refused, rotate) spent
          ]
