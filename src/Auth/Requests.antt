-- ===== src/Auth/Requests.antt =====
-- Every request of app/api/v1/endpoints/auth.py leaves a spent hash spent.
-- A request, with what it draws: the instant, the fresh identifier or secret, the address.
use pios_backend.Auth.{
  has_email, has_user_id, get_current_user, store_user, Crypto, Lifetimes, AuthDb, LoginRequest,
  RegisterRequest,
}
use pios_backend.Auth.Endpoints.{
  has_hash, is_locked, mfa_error, signed_in, open_session, login, new_user, register,
  is_live_session, is_refresh, refresh, logout, mfa_setup, mfa_verify,
}
use pios_backend.Auth.Spent.{update_if-IsSpent, open_session-IsSpent, rotate-IsSpent, IsSpent}
use pios_backend.Prelude.{
  Bool-cases, Option-cases, Result-cases, find_first, any_of, ℕ, String, inl, inr, Option, List, [],
  ◌∷◌, ◌++◌,
}

pub data Request : Type 0 where
  login_request : ℕ → String → Option String → LoginRequest → Request
  register_request : ℕ → String → Option String → ℕ → RegisterRequest → Request
  refresh_request : ℕ → String → String → Request
  logout_request : ℕ → String → String → Request
  mfa_setup_request : ℕ → String → String → Request
  mfa_verify_request : ℕ → String → String → Request

-- The tables after a request.
unfoldable pub serve : Crypto → Lifetimes → Request → AuthDb → AuthDb
serve c l (login_request now jti ip req) db = (login c l now jti ip req db).1
serve c l (register_request now jti ip i req) db = (register c l now jti ip i req db).1
serve c l (refresh_request now jti token) db = (refresh c l now jti token db).1
serve c l (logout_request now credentials token) db = (logout c now credentials token db).1
serve c l (mfa_setup_request now credentials secret) db = (mfa_setup c now credentials secret db).1
serve c l (mfa_verify_request now credentials code) db = (mfa_verify c now credentials code db).1

unfoldable pub serve_all : Crypto → Lifetimes → List Request → AuthDb → AuthDb
serve_all c l [] db = db
serve_all c l (r ∷ rs) db = serve_all c l rs (serve c l r db)

module _ (c : Crypto) (l : Lifetimes) (h : String) where
  login-IsSpent :
      (now : ℕ) (jti : String) (ip : Option String) (req : LoginRequest) (db : AuthDb)
      → IsSpent h db.sessions
      → IsSpent h (login c l now jti ip req db).1.sessions
  unfolding login mfa_error
  login-IsSpent now jti ip req db spent =
      elim (Option-cases (find_first (has_email req.email) db.users)) [
        | inl none_found ↦ rw (none_found, login) spent
        | inr (u, found) ↦ elim (Bool-cases u.is_active) [
          | inr off ↦ rw (found, off, login) spent
          | inl on ↦ elim (Bool-cases (is_locked now u)) [
            | inl locked ↦ rw (found, on, locked, login) spent
            | inr free ↦ elim (Bool-cases (c.verify_password req.password u.password_hash)) [
              | inr wrong ↦ rw (found, on, free, wrong, login) spent
              | inl right ↦ elim (Option-cases (mfa_error c now req.mfa_code u)) [
                | inr (f, factor) ↦ rw (found, on, free, right, factor, login) spent
                | inl passed ↦
                    elim (Result-cases (
                      open_session c l now jti ip "USER_LOGIN" u.id
                        (store_user (signed_in now ip u) db))) [
                          | inr (f, refused) ↦
                              rw (found, on, free, right, passed, refused, login) spent
                          | inl ((pair, db'), opened) ↦
                              rw (found, on, free, right, passed, opened, login)
                                (open_session-IsSpent c l h now jti ip "USER_LOGIN" u.id _ opened
                                  spent)
                        ]
              ]
            ]
          ]
        ]
      ]

  register-IsSpent :
      (now : ℕ) (jti : String) (ip : Option String) (i : ℕ) (req : RegisterRequest) (db : AuthDb)
      → IsSpent h db.sessions
      → IsSpent h (register c l now jti ip i req db).1.sessions
  unfolding register
  register-IsSpent now jti ip i req db spent =
      elim (Bool-cases (any_of (has_email req.email) db.users)) [
        | inl taken ↦ rw (taken, register) spent
        | inr free ↦
            elim (Result-cases (
              open_session c l now jti ip "USER_REGISTER" i
                (record db { users = db.users ++ (new_user c now ip i req ∷ []) }))) [
                  | inr (f, refused) ↦ rw (free, refused, register) spent
                  | inl ((pair, db'), opened) ↦
                      rw (free, opened, register)
                        (open_session-IsSpent c l h now jti ip "USER_REGISTER" i _ opened spent)
                ]
      ]

  refresh-IsSpent :
      (now : ℕ) (jti token : String) (db : AuthDb)
      → IsSpent h db.sessions
      → IsSpent h (refresh c l now jti token db).1.sessions
  unfolding refresh
  refresh-IsSpent now jti token db spent = elim (Option-cases (c.decode_token now token)) [
    | inl e ↦ rw (e, refresh) spent
    | inr (claims, e) ↦ elim (Bool-cases (is_refresh claims.kind)) [
      | inr k ↦ rw (e, k, refresh) spent
      | inl k ↦ elim (Option-cases claims.sub) [
        | inl b ↦ rw (e, k, b, refresh) spent
        | inr (i, b) ↦
            elim (Option-cases (find_first (is_live_session (c.sha256 token)) db.sessions)) [
              | inl f ↦ rw (e, k, b, f, refresh) spent
              | inr (s, f) ↦ elim (Option-cases (find_first (has_user_id i) db.users)) [
                | inl g ↦ rw (e, k, b, f, g, refresh) spent
                | inr (u, g) ↦ elim (Bool-cases u.is_active) [
                  | inr a ↦ rw (e, k, b, f, g, a, refresh) spent
                  | inl a ↦
                      rw (e, k, b, f, g, a, refresh)
                        (rotate-IsSpent c l h now jti (c.sha256 token) s u.id db spent)
                ]
              ]
            ]
      ]
    ]
  ]

  logout-IsSpent :
      (now : ℕ) (credentials token : String) (db : AuthDb)
      → IsSpent h db.sessions
      → IsSpent h (logout c now credentials token db).1.sessions
  unfolding logout
  logout-IsSpent now credentials token db spent =
      elim (Result-cases (get_current_user c now credentials db)) [
        | inr (f, e) ↦ rw (e, logout) spent
        | inl (u, e) ↦
            rw (e, logout) (update_if-IsSpent h (has_hash (c.sha256 token)) db.sessions spent)
      ]

  mfa_setup-IsSpent :
      (now : ℕ) (credentials secret : String) (db : AuthDb)
      → IsSpent h db.sessions
      → IsSpent h (mfa_setup c now credentials secret db).1.sessions
  unfolding mfa_setup
  mfa_setup-IsSpent now credentials secret db spent =
      elim (Result-cases (get_current_user c now credentials db)) [
        | inr (f, e) ↦ rw (e, mfa_setup) spent
        | inl (u, e) ↦ elim (Bool-cases u.mfa_enabled) [
          | inl on ↦ rw (e, on, mfa_setup) spent
          | inr off ↦ rw (e, off, mfa_setup) spent
        ]
      ]

  mfa_verify-IsSpent :
      (now : ℕ) (credentials code : String) (db : AuthDb)
      → IsSpent h db.sessions
      → IsSpent h (mfa_verify c now credentials code db).1.sessions
  unfolding mfa_verify
  mfa_verify-IsSpent now credentials code db spent =
      elim (Result-cases (get_current_user c now credentials db)) [
        | inr (f, e) ↦ rw (e, mfa_verify) spent
        | inl (u, e) ↦ elim (Option-cases u.mfa_secret_enc) [
          | inl bare ↦ rw (e, bare, mfa_verify) spent
          | inr (secret, kept) ↦ elim (Bool-cases (c.totp_verify now (c.decrypt secret) code)) [
            | inl good ↦ rw (e, kept, good, mfa_verify) spent
            | inr bad ↦ rw (e, kept, bad, mfa_verify) spent
          ]
        ]
      ]

  serve-IsSpent :
      (r : Request) (db : AuthDb) → IsSpent h db.sessions → IsSpent h (serve c l r db).sessions
  unfolding serve
  serve-IsSpent (login_request now jti ip req) db s = login-IsSpent now jti ip req db s
  serve-IsSpent (register_request now jti ip i req) db s = register-IsSpent now jti ip i req db s
  serve-IsSpent (refresh_request now jti token) db s = refresh-IsSpent now jti token db s
  serve-IsSpent (logout_request now cred token) db s = logout-IsSpent now cred token db s
  serve-IsSpent (mfa_setup_request now cred secret) db s = mfa_setup-IsSpent now cred secret db s
  serve-IsSpent (mfa_verify_request now cred code) db s = mfa_verify-IsSpent now cred code db s

  pub serve_all-IsSpent :
      (rs : List Request) (db : AuthDb)
      → IsSpent h db.sessions
      → IsSpent h (serve_all c l rs db).sessions
  unfolding serve_all
  serve_all-IsSpent [] db s = s
  serve_all-IsSpent (r ∷ rs) db s = serve_all-IsSpent rs (serve c l r db) (serve-IsSpent r db s)
