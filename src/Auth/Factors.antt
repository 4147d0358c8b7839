-- ===== src/Auth/Factors.antt =====
-- Whom `login` lets in.
use pios_backend.Auth.{
  create_access_token, create_refresh_token, AuthError, User, has_email, store_user, Crypto,
  Lifetimes, AuthDb, LoginRequest, TokenPair,
}
use pios_backend.Auth.Endpoints.{
  insert_session, new_session, is_locked, mfa_error, signed_in, open_session, login,
}
use pios_backend.Auth.Spent.{insert_session-ok}
use pios_backend.Prelude.{
  Result-cases, Result, err, sym, ap, ◌∙◌, Bool-cases, Option-cases, ok, is_empty, find_first, ℕ,
  String, ◌≡◌, ◌⊎◌, inl, inr, true, false, Option, none, some, List, [], arith,
}

-- The second factor is off, or the code of the request verifies against the secret.
abbrev pub HasFactor : Crypto → ℕ → Option String → User → Type 0
HasFactor c now code u =
    (u.mfa_enabled ≡ false)
    ⊎ ((k : String) × (secret : String) × (code ≡ some k)
        × (u.mfa_secret_enc ≡ some secret)
        × (c.totp_verify now (c.decrypt secret) k ≡ true))

abbrev pair_owner : ℕ → Result AuthError (TokenPair × AuthDb) → ℕ
pair_owner i (ok r) = r.0.user_id
pair_owner i (err _) = i

abbrev pair_access : String → Result AuthError (TokenPair × AuthDb) → String
pair_access t (ok r) = r.0.access_token
pair_access t (err _) = t

abbrev signed_access : String → Result AuthError TokenPair → String
signed_access t (ok r) = r.access_token
signed_access t (err _) = t

abbrev signed_owner : ℕ → Result AuthError TokenPair → ℕ
signed_owner i (ok r) = r.user_id
signed_owner i (err _) = i

abbrev users_of : Result AuthError (TokenPair × AuthDb) → List User
users_of (ok r) = r.1.users
users_of (err _) = []

module _ (c : Crypto) where
  -- The second factor lets in those who have it.
  mfa_error-HasFactor :
      (now : ℕ) (code : Option String) (u : User)
      → mfa_error c now code u ≡ none
      → HasFactor c now code u
  unfolding mfa_error
  mfa_error-HasFactor now code u e = elim (Bool-cases u.mfa_enabled) [
    | inr off ↦ inl off
    | inl on ↦ elim (Option-cases code) [
      | inl bare ↦ absurd (ground (arith, rw (on, bare, mfa_error) at e))
      | inr (k, given) ↦ elim (Bool-cases (is_empty k)) [
        | inl hollow ↦ absurd (ground (arith, rw (on, given, hollow, mfa_error) at e))
        | inr full ↦ elim (Option-cases u.mfa_secret_enc) [
          | inl unset ↦ absurd (ground (arith, rw (on, given, full, unset, mfa_error) at e))
          | inr (secret, kept) ↦ elim (Bool-cases (c.totp_verify now (c.decrypt secret) k)) [
            | inr bad ↦ absurd (ground (arith, rw (on, given, full, kept, bad, mfa_error) at e))
            | inl good ↦ inr (k, secret, given, kept, good)
          ]
        ]
      ]
    ]
  ]

  module _ (l : Lifetimes) where
    -- The tables after a sign-in that is answered: the user's row is written, and nobody else's.
    open_session-users :
        (now : ℕ) (jti : String) (ip : Option String) (action : String) (i : ℕ) (db : AuthDb)
        {pair : TokenPair} {db' : AuthDb}
        → open_session c l now jti ip action i db ≡ ok (pair, db')
        → (pair.user_id ≡ i)
          × (db'.users ≡ db.users)
          × (pair.access_token ≡ create_access_token c l now i)
    unfolding open_session
    open_session-users now jti ip action i db {pair} {db'} e =
        elim (Result-cases (
          insert_session (new_session i ip now (c.sha256 (create_refresh_token c l now jti i)))
            db)) [
              | inr (f, refused) ↦ absurd (ground (arith, rw (refused, open_session) at e))
              | inl (d, added) ↦
                  let same = rw (added, open_session) at e in
                  (
                    sym (ap (pair_owner i) same),
                    sym (ap users_of same)
                        ∙ sym (ap (λ x. x.users) (insert_session-ok _ db added).1),
                    sym (ap (pair_access "") same),
                  )
            ]

    -- Whoever `login` lets in has an account of the request's address that is active and not locked,
    -- gave its password and, where the second factor is on, a code that verifies; the tokens are for
    -- that account, and its row is the one written: the count of failures and the lock are cleared and
    -- the sign-in noted.
    pub login-HasFactor :
        (now : ℕ) (jti : String) (ip : Option String) (req : LoginRequest) (db : AuthDb)
        (pair : TokenPair) (db' : AuthDb)
        → login c l now jti ip req db ≡ (ok pair, db')
        → (u : User) × (find_first (has_email req.email) db.users ≡ some u)
          × (u.is_active ≡ true)
          × (is_locked now u ≡ false)
          × (c.verify_password req.password u.password_hash ≡ true)
          × HasFactor c now req.mfa_code u
          × (pair.user_id ≡ u.id)
          × (db'.users ≡ (store_user (signed_in now ip u) db).users)
          × (pair.access_token ≡ create_access_token c l now u.id)
    unfolding login mfa_error
    login-HasFactor now jti ip req db pair db' e =
        elim (Option-cases (find_first (has_email req.email) db.users)) [
          | inl nobody ↦ absurd (ground (arith, rw (nobody, login) at e))
          | inr (u, found) ↦ elim (Bool-cases u.is_active) [
            | inr off ↦ absurd (ground (arith, rw (found, off, login) at e))
            | inl on ↦ elim (Bool-cases (is_locked now u)) [
              | inl locked ↦ absurd (ground (arith, rw (found, on, locked, login) at e))
              | inr free ↦ elim (Bool-cases (c.verify_password req.password u.password_hash)) [
                | inr wrong ↦ absurd (ground (arith, rw (found, on, free, wrong, login) at e))
                | inl right ↦ elim (Option-cases (mfa_error c now req.mfa_code u)) [
                  | inr (f, factor) ↦
                      absurd (ground (arith, rw (found, on, free, right, factor, login) at e))
                  | inl passed ↦
                      elim (Result-cases (
                        open_session c l now jti ip "USER_LOGIN" u.id
                          (store_user (signed_in now ip u) db))) [
                            | inr (f, refused) ↦ absurd (
                                ground
                                  (arith, rw (found, on, free, right, passed, refused, login) at e))
                            | inl ((p, d), opened) ↦
                                let same =
                                  rw (found, on, free, right, passed, opened, login) at e in
                                let kept =
                                  open_session-users now jti ip "USER_LOGIN" u.id _ opened in
                                (
                                  u,
                                  found,
                                  on,
                                  free,
                                  right,
                                  mfa_error-HasFactor now req.mfa_code u passed,
                                  sym (ap (λ r. signed_owner u.id r.0) same) ∙ kept.0,
                                  sym (ap (λ r. r.1.users) same) ∙ kept.1,
                                  sym (ap (λ r. signed_access "" r.0) same) ∙ kept.2,
                                )
                          ]
                ]
              ]
            ]
          ]
        ]
