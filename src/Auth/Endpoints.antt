-- ===== src/Auth/Endpoints.antt =====
-- The endpoints of app/api/v1/endpoints/auth.py. Each returns the answer and the tables after the
-- request.
use pios_backend.Auth.{
  User, max_failed, lock_seconds, seven_days, has_email, has_user_id, create_access_token,
  create_refresh_token, get_current_user, store_user, audit_user, UserSession, TokenType, Crypto,
  Lifetimes, AuthDb, AuthError, LoginRequest, RegisterRequest, TokenPair, invalid_credentials,
  account_locked, mfa_code_required, invalid_mfa_code, already_registered, invalid_token_type,
  invalid_refresh_token, session_not_found, user_not_found, mfa_already_enabled, mfa_not_set_up,
  invalid_code, server_error,
}
use pios_backend.Prelude.{
  ltb, leb, if◌then◌else◌, Result, ok, err, is_empty, find_first, any_of, update_if, ℕ, ◌+◌, String,
  Bool, true, false, not, ◌&&◌, Option, none, some, [], ◌∷◌, ◌++◌, str_eq,
}

abbrev pub has_hash : String → UserSession → Bool
has_hash h s = str_eq h s.refresh_token_hash

-- The INSERT of a session, under the unique index on its hash.
unfoldable pub insert_session : UserSession → AuthDb → Result AuthError AuthDb
insert_session s db =
    if any_of (has_hash s.refresh_token_hash) db.sessions
    then err server_error
    else ok (record db { sessions = db.sessions ++ (s ∷ []) })

-- A session as it is issued.
abbrev pub new_session : ℕ → Option String → ℕ → String → UserSession
new_session i ip now h = record {
  user_id = i;
  refresh_token_hash = h;
  ip_address = ip;
  expires_at = now + seven_days;
  revoked = false;
}

-- `user.locked_until and datetime.now(timezone.utc) < user.locked_until`
abbrev pub is_locked : ℕ → User → Bool
is_locked now u = elim u.locked_until [ none ↦ false | some t ↦ ltb now t ]

-- A wrong password.
unfoldable pub count_failure : ℕ → User → User
count_failure now u = record u {
  failed_logins = u.failed_logins + 1;
  locked_until =
      if leb max_failed (u.failed_logins + 1) then some (now + lock_seconds) else u.locked_until;
}

-- The second factor: `none` lets the user in.
unfoldable pub mfa_error : Crypto → ℕ → Option String → User → Option AuthError
mfa_error c now code u =
    if u.mfa_enabled
    then (elim code [
      | none ↦ some mfa_code_required
      | some k ↦ if is_empty k then some mfa_code_required else elim u.mfa_secret_enc [
        | none ↦ some server_error
        | some secret ↦
            if c.totp_verify now (c.decrypt secret) k then none else some invalid_mfa_code
      ]
    ])
    else none

-- The row of a user who has been let in.
unfoldable pub signed_in : ℕ → Option String → User → User
signed_in now ip u = record u {
  failed_logins = 0;
  locked_until = none;
  last_login_at = some now;
  last_login_ip = ip;
}

-- The tokens of a user, with their session and the audit call.
unfoldable pub open_session :
    Crypto
    → Lifetimes
    → ℕ
    → String
    → Option String
    → String
    → ℕ
    → AuthDb
    → Result AuthError (TokenPair × AuthDb)
unfolding create_access_token create_refresh_token
open_session c l now jti ip action i db =
    let token = create_refresh_token c l now jti i in
    elim (insert_session (new_session i ip now (c.sha256 token)) db) [
      | err e ↦ err e
      | ok db' ↦ ok (
        record { access_token = create_access_token c l now i; refresh_token = token; user_id = i },
        audit_user action i db',
      )
    ]

-- `login`. A wrong password is committed; all other refusals are rolled back.
unfoldable pub login :
    Crypto
    → Lifetimes
    → ℕ
    → String
    → Option String
    → LoginRequest
    → AuthDb
    → Result AuthError TokenPair × AuthDb
login c l now jti ip req db = elim (find_first (has_email req.email) db.users) [
  | none ↦ (err invalid_credentials, db)
  | some u ↦
      if not u.is_active
      then (err invalid_credentials, db)
      else if is_locked now u
      then (err account_locked, db)
      else if not (c.verify_password req.password u.password_hash)
      then (err invalid_credentials, store_user (count_failure now u) db)
      else elim (mfa_error c now req.mfa_code u) [
        | some e ↦ (err e, db)
        | none ↦
            elim (open_session c l now jti ip "USER_LOGIN" u.id
              (store_user (signed_in now ip u) db)) [
                | err e ↦ (err e, db)
                | ok (pair, db') ↦ (ok pair, db')
              ]
      ]
]

-- A user as registration creates it.
abbrev pub new_user : Crypto → ℕ → Option String → ℕ → RegisterRequest → User
new_user c now ip i req = record {
  id = i;
  email = req.email;
  password_hash = c.hash_password req.password;
  full_name = req.full_name;
  role = "trader";
  is_active = true;
  mfa_enabled = false;
  mfa_secret_enc = none;
  last_login_at = some now;
  last_login_ip = ip;
  failed_logins = 0;
  locked_until = none;
}

-- `register`: a trader, who is signed in at once. `i` is the new row's identifier.
unfoldable pub register :
    Crypto
    → Lifetimes
    → ℕ
    → String
    → Option String
    → ℕ
    → RegisterRequest
    → AuthDb
    → Result AuthError TokenPair × AuthDb
register c l now jti ip i req db =
    if any_of (has_email req.email) db.users
    then (err already_registered, db)
    else elim (open_session c l now jti ip "USER_REGISTER" i
        (record db { users = db.users ++ (new_user c now ip i req ∷ []) })) [
          | err e ↦ (err e, db)
          | ok (pair, db') ↦ (ok pair, db')
        ]

-- A session of the hash that is not revoked.
abbrev pub is_live_session : String → UserSession → Bool
is_live_session h s = has_hash h s && not s.revoked

abbrev pub revoke : UserSession → UserSession
revoke s = record s { revoked = true }

abbrev pub is_refresh : TokenType → Bool
is_refresh TokenType.refresh_token_type = true
is_refresh _ = false

-- The rotation of a session: the old one is revoked, and a new one issued.
unfoldable pub rotate :
    Crypto
    → Lifetimes
    → ℕ
    → String
    → String
    → UserSession
    → ℕ
    → AuthDb
    → Result AuthError TokenPair × AuthDb
rotate c l now jti h s i db =
    let token = create_refresh_token c l now jti i in
    elim (insert_session (new_session i s.ip_address now (c.sha256 token))
      (record db { sessions = update_if (is_live_session h) revoke db.sessions })) [
        | err e ↦ (err e, db)
        | ok db' ↦ (
          ok (record {
            access_token = create_access_token c l now i;
            refresh_token = token;
            user_id = i;
          }),
          db',
        )
      ]

-- `refresh`
unfoldable pub refresh :
    Crypto → Lifetimes → ℕ → String → String → AuthDb → Result AuthError TokenPair × AuthDb
refresh c l now jti token db = elim (c.decode_token now token) [
  | none ↦ (err invalid_refresh_token, db)
  | some claims ↦
      if not (is_refresh claims.kind) then (err invalid_token_type, db) else elim claims.sub [
        | none ↦ (err server_error, db)
        | some i ↦ elim (find_first (is_live_session (c.sha256 token)) db.sessions) [
          | none ↦ (err session_not_found, db)
          | some s ↦ elim (find_first (has_user_id i) db.users) [
            | none ↦ (err user_not_found, db)
            | some u ↦
                if u.is_active
                then rotate c l now jti (c.sha256 token) s u.id db
                else (err user_not_found, db)
          ]
        ]
      ]
]

-- `logout`: the session of the token, whoever asks.
unfoldable pub logout : Crypto → ℕ → String → String → AuthDb → Result AuthError (Unit {0}) × AuthDb
logout c now credentials token db = elim (get_current_user c now credentials db) [
  | err e ↦ (err e, db)
  | ok _ ↦
      (ok tt, record db { sessions = update_if (has_hash (c.sha256 token)) revoke db.sessions })
]

-- `mfa_setup`, with the fresh secret.
unfoldable pub mfa_setup : Crypto → ℕ → String → String → AuthDb → Result AuthError String × AuthDb
mfa_setup c now credentials secret db = elim (get_current_user c now credentials db) [
  | err e ↦ (err e, db)
  | ok u ↦
      if u.mfa_enabled
      then (err mfa_already_enabled, db)
      else (ok secret, store_user (record u { mfa_secret_enc = some (c.encrypt secret) }) db)
]

-- `mfa_verify`
unfoldable pub mfa_verify :
    Crypto → ℕ → String → String → AuthDb → Result AuthError (Unit {0}) × AuthDb
mfa_verify c now credentials code db = elim (get_current_user c now credentials db) [
  | err e ↦ (err e, db)
  | ok u ↦ elim u.mfa_secret_enc [
    | none ↦ (err mfa_not_set_up, db)
    | some secret ↦
        if c.totp_verify now (c.decrypt secret) code
        then (
          ok tt,
          audit_user "MFA_ENABLED" u.id (store_user (record u { mfa_enabled = true }) db),
        )
        else (err invalid_code, db)
  ]
]
