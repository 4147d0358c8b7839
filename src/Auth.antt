-- ===== src/Auth.antt =====
-- Users, their sessions and tokens (app/models/all_models.py, app/core/security.py). Instants are
-- seconds.
pub mod Endpoints
pub mod Spent
pub mod Requests
pub mod Rotation
pub mod Factors
pub mod Lockout
pub mod Tokens
use pios_backend.Audit.{AuditCall}
use pios_backend.Prelude.{
  ◌==◌, if◌then◌else◌, Result, ok, err, find_first, any_of, update_if, ℕ, ◌+◌, ◌*◌, String, Bool,
  Option, none, some, List, [], ◌∷◌, ◌++◌, str_eq,
}

-- `User`, the columns that signing in reads and writes.
pub record User : Type 0 where
  pub id : ℕ
  pub email : String
  pub password_hash : String
  pub full_name : String
  pub role : String
  pub is_active : Bool
  pub mfa_enabled : Bool
  pub mfa_secret_enc : Option String
  pub last_login_at : Option ℕ
  pub last_login_ip : Option String
  pub failed_logins : ℕ
  pub locked_until : Option ℕ

-- `UserSession`
pub record UserSession : Type 0 where
  pub user_id : ℕ
  pub refresh_token_hash : String
  pub ip_address : Option String
  pub expires_at : ℕ
  pub revoked : Bool

-- The claim `type` of a token.
pub data TokenType : Type 0 where
  access refresh_token_type other_type : TokenType

-- The claims of a token that the code reads; the role and the address, which nothing reads, are left
-- out. `jti` is in a refresh token.
pub record Claims : Type 0 where
  pub sub : Option ℕ
  pub exp : ℕ
  pub kind : TokenType
  pub jti : Option String

-- passlib, jose, hashlib, Fernet and pyotp. `decode_token` fails on a bad signature and on a token
-- that has expired at the given instant.
pub record Crypto : Type 0 where
  pub hash_password : String → String
  pub verify_password : String → String → Bool
  pub encode : Claims → String
  pub decode_token : ℕ → String → Option Claims
  pub sha256 : String → String
  pub encrypt : String → String
  pub decrypt : String → String
  pub totp_verify : ℕ → String → String → Bool

-- The lifetimes of app/core/config.py, in seconds.
pub record Lifetimes : Type 0 where
  pub access_token_expire : ℕ
  pub refresh_token_expire : ℕ

-- The tables.
pub record AuthDb : Type 0 where
  pub users : List User
  pub sessions : List UserSession
  pub audits : List AuditCall

-- How a request is refused.
pub data AuthError : Type 0 where
  invalid_credentials account_locked mfa_code_required invalid_mfa_code : AuthError
  already_registered invalid_token_type invalid_refresh_token session_not_found : AuthError
  user_not_found not_validated mfa_already_enabled mfa_not_set_up invalid_code : AuthError
  wrong_role : AuthError
  -- An exception that the endpoint does not expect.
  server_error : AuthError

-- `LoginRequest`
pub record LoginRequest : Type 0 where
  pub email : String
  pub password : String
  pub mfa_code : Option String

-- `RegisterRequest`, without the role, which is not read.
pub record RegisterRequest : Type 0 where
  pub full_name : String
  pub email : String
  pub password : String

-- `TokenPair`, with the user that it is for.
pub record TokenPair : Type 0 where
  pub access_token : String
  pub refresh_token : String
  pub user_id : ℕ

abbrev pub max_failed : ℕ
max_failed = 5

abbrev pub lock_seconds : ℕ
lock_seconds = 30 * 60

abbrev pub seven_days : ℕ
seven_days = 7 * 86400

abbrev pub has_email : String → User → Bool
has_email e u = str_eq e u.email

abbrev pub has_user_id : ℕ → User → Bool
has_user_id i u = u.id == i

abbrev pub access_claims : Lifetimes → ℕ → ℕ → Claims
access_claims l now i = record {
  sub = some i;
  exp = now + l.access_token_expire;
  kind = TokenType.access;
  jti = none;
}

-- `create_access_token`
unfoldable pub create_access_token : Crypto → Lifetimes → ℕ → ℕ → String
create_access_token c l now i = c.encode (access_claims l now i)

-- `create_refresh_token`, with its fresh identifier.
unfoldable pub create_refresh_token : Crypto → Lifetimes → ℕ → String → ℕ → String
create_refresh_token c l now jti i = c.encode (record {
  sub = some i;
  exp = now + l.refresh_token_expire;
  kind = TokenType.refresh_token_type;
  jti = some jti;
})

-- `get_current_user` (app/core/deps.py)
unfoldable pub get_current_user : Crypto → ℕ → String → AuthDb → Result AuthError User
get_current_user c now token db = elim (c.decode_token now token) [
  | none ↦ err not_validated
  | some claims ↦ elim claims.sub [
    | none ↦ err not_validated
    | some i ↦ elim (find_first (has_user_id i) db.users) [
      | none ↦ err not_validated
      | some u ↦ if u.is_active then ok u else err not_validated
    ]
  ]
]

-- `current_user.role in roles`
abbrev pub has_role : List String → String → Bool
has_role roles role = any_of (str_eq role) roles

-- `require_roles`
unfoldable pub require_roles : List String → Crypto → ℕ → String → AuthDb → Result AuthError User
require_roles roles c now token db = elim (get_current_user c now token db) [
  | err e ↦ err e
  | ok u ↦ if has_role roles u.role then ok u else err wrong_role
]

-- The rows that a request writes.
abbrev pub store_user : User → AuthDb → AuthDb
store_user u db = record db { users = update_if (has_user_id u.id) (λ _. u) db.users }

abbrev pub audit_user : String → ℕ → AuthDb → AuthDb
audit_user action i db = record db {
  audits = db.audits ++ (record { action = action; resource_id = i; actor_id = i } ∷ []);
}
