-- ===== src/Tests/Users.antt =====
-- Users: signing in, the lock, the tokens.
use pios_backend.Auth.Tokens.{login-get_current_user}
use pios_backend.Auth.{
  User, has_email, access_claims, create_access_token, create_refresh_token, get_current_user,
  store_user, UserSession, Crypto, Lifetimes, AuthDb, AuthError, LoginRequest, TokenPair,
  refresh_token_type, account_locked,
}
use pios_backend.Auth.Rotation.{refresh-serve_all, logout-serve_all}
use pios_backend.Auth.Requests.{Request, serve_all, login_request, refresh_request}
use pios_backend.Auth.Endpoints.{
  insert_session, new_session, is_locked, mfa_error, signed_in, open_session, login, rotate,
  refresh, logout,
}
use pios_backend.Auth.Factors.{HasFactor, login-HasFactor}
use pios_backend.Auth.Lockout.{attempt_all-is_locked, attempt_all, Attempt}
use pios_backend.Prelude.{
  ltb, if◌then◌else◌, or_else, ok, err, find_first, ℕ, String, ◌≡◌, refl, Bool, true, false, Option,
  none, some, List, [], ◌∷◌, arith, str_eq,
}

abbrev hours : Lifetimes
hours = record { access_token_expire = 900; refresh_token_expire = 9000 }

-- A toy for the packages: a hash is the text itself, and two tokens decode.
abbrev toy : Crypto
toy = record {
  hash_password = λ p. p;
  verify_password = str_eq;
  encode = λ k. or_else k.jti "access";
  decode_token = λ t s.
      if str_eq s "access"
      then (if ltb t 950 then some (access_claims hours 50 7) else none)
      else some (record { sub = some 7; exp = 9000; kind = refresh_token_type; jti = some s });
  sha256 = λ s. s;
  encrypt = λ s. s;
  decrypt = λ s. s;
  totp_verify = λ t secret code. str_eq secret code;
}

abbrev ann : ℕ → Option ℕ → User
ann failures lock = record {
  id = 7;
  email = "ann@x";
  password_hash = "pw";
  full_name = "Ann";
  role = "trader";
  is_active = true;
  mfa_enabled = true;
  mfa_secret_enc = some "otp";
  last_login_at = none;
  last_login_ip = none;
  failed_logins = failures;
  locked_until = lock;
}

-- The tables of Ann, with the sessions of some hashes.
abbrev ann_db : List UserSession → AuthDb
ann_db ss = record { users = ann 3 none ∷ []; sessions = ss; audits = [] }

abbrev by_password : String → Option String → LoginRequest
by_password p code = record { email = "ann@x"; password = p; mfa_code = code }

abbrev attempt : ℕ → String → Attempt
attempt t p = record { at = t; jti = "j"; ip = none; request = by_password p none }

abbrev pair_of : String → TokenPair
pair_of r = record { access_token = "access"; refresh_token = r; user_id = 7 }

-- A session of Ann's.
abbrev session_of : String → Bool → UserSession
session_of h dead = record {
  user_id = 7;
  refresh_token_hash = h;
  ip_address = none;
  expires_at = 9000;
  revoked = dead;
}

abbrev between : List Request
between =
    login_request 61 "r3" none (by_password "pw" (some "otp")) ∷ refresh_request 62 "r4" "r3" ∷ []

refresh-serve_all_example :
    (e : AuthError) × (refresh toy hours 70 "r9" "r1" (
        serve_all toy hours between
          (refresh toy hours 60 "r2" "r1" (ann_db (session_of "r1" false ∷ []))).1)
      ≡ (
        err e,
        serve_all toy hours between
            (refresh toy hours 60 "r2" "r1" (ann_db (session_of "r1" false ∷ []))).1,
      ))
unfolding refresh rotate insert_session create_refresh_token create_access_token
refresh-serve_all_example =
    refresh-serve_all toy hours 60 "r2" "r1" (ann_db (session_of "r1" false ∷ [])) (pair_of "r2")
      refl between 70 "r9"

logout-serve_all_example :
    ((e : AuthError) × (refresh toy hours 70 "r9" "r1" (
          serve_all toy hours between
            (logout toy 60 "access" "r1" (ann_db (session_of "r1" false ∷ []))).1)
        ≡ (
          err e,
          serve_all toy hours between
              (logout toy 60 "access" "r1" (ann_db (session_of "r1" false ∷ []))).1,
        )))
    × ((instant : ℕ) (t : String)
        → get_current_user toy instant t
            (logout toy 60 "access" "r1" (ann_db (session_of "r1" false ∷ []))).1
          ≡ get_current_user toy instant t (ann_db (session_of "r1" false ∷ [])))
unfolding logout get_current_user
logout-serve_all_example =
    logout-serve_all toy hours 60 "access" "r1" (ann_db (session_of "r1" false ∷ [])) refl refl
      between 70 "r9"

abbrev after_login : AuthDb
after_login = record {
  users = signed_in 50 none (ann 3 none) ∷ [];
  sessions = new_session 7 none 50 "r1" ∷ [];
  audits = record { action = "USER_LOGIN"; resource_id = 7; actor_id = 7 } ∷ [];
}

login-HasFactor_example :
    (u : User) × (find_first (has_email "ann@x") (ann_db []).users ≡ some u)
    × (u.is_active ≡ true)
    × (is_locked 50 u ≡ false)
    × (str_eq "pw" u.password_hash ≡ true)
    × HasFactor toy 50 (some "otp") u
    × (7 ≡ u.id)
    × (after_login.users ≡ (store_user (signed_in 50 none u) (ann_db [])).users)
    × ("access" ≡ create_access_token toy hours 50 u.id)
unfolding login mfa_error open_session insert_session create_refresh_token create_access_token
    signed_in
login-HasFactor_example =
    login-HasFactor toy hours 50 "r1" none (by_password "pw" (some "otp")) (ann_db [])
      (pair_of "r1") after_login refl

login-get_current_user_example :
    get_current_user toy 949 "access" after_login ≡ ok (signed_in 50 none (ann 3 none))
unfolding login mfa_error open_session insert_session create_refresh_token create_access_token
    signed_in
login-get_current_user_example =
    login-get_current_user toy hours 50 "r1" none (by_password "pw" (some "otp")) (ann_db [])
      (pair_of "r1") after_login (ann 3 none) 949
      (record { decode-encode = λ t early. ground (arith, early) }) refl refl refl (ground arith)

attempt_all-is_locked_example :
    login toy hours 1819 "j" none
      (by_password "pw" (some "otp"))
      (login toy hours 20 "j" none
        (by_password "no" none)
        (attempt_all toy hours (attempt 10 "x" ∷ []) (ann_db []))).1
    ≡ (
      err account_locked,
      (login toy hours 20 "j" none
          (by_password "no" none)
          (attempt_all toy hours (attempt 10 "x" ∷ []) (ann_db []))).1,
    )
attempt_all-is_locked_example =
    attempt_all-is_locked toy hours "ann@x" (attempt 10 "x" ∷ []) (attempt 20 "no") (ann 3 none)
      (ann_db []) refl refl refl refl (record { address = refl; mismatch = refl }, tt)
      (record { address = refl; mismatch = refl }) 1819 "j" none "pw" (some "otp") (ground arith)
