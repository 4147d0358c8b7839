-- ===== src/Auth/Lockout.antt =====
-- How a run of wrong passwords locks an account (`login`).
use mathlib.Core.Path.{subst}
use pios_backend.Auth.{
  User, lock_seconds, has_email, has_user_id, store_user, Crypto, Lifetimes, AuthDb, LoginRequest,
  invalid_credentials, account_locked,
}
use pios_backend.Auth.Endpoints.{is_locked, count_failure, login}
use pios_backend.Prelude.{
  arith, ==_refl, err, length, find_first, All, find_first-passes, find_first-update_if_row, ℕ, ◌+◌,
  ◌<◌, String, ◌≡◌, refl, sym, true, false, Option, none, some, List, [], ◌∷◌,
}

-- An attempt to sign in, with what it draws.
pub record Attempt : Type 0 where
  pub at : ℕ
  pub jti : String
  pub ip : Option String
  pub request : LoginRequest

-- Sign-in attempts in sequence.
unfoldable pub attempt_all : Crypto → Lifetimes → List Attempt → AuthDb → AuthDb
attempt_all c l [] db = db
attempt_all c l (a ∷ rest) db = attempt_all c l rest (login c l a.at a.jti a.ip a.request db).1

-- An attempt with the account's address and a password that its hash does not verify.
pub record IsWrong (c : Crypto) (email hash : String) (a : Attempt) : Type 0 where
  pub address : a.request.email ≡ email
  pub mismatch : c.verify_password a.request.password hash ≡ false

module _ (c : Crypto) (l : Lifetimes) (email : String) where
  -- A wrong password is counted on the account's row.
  login-count_failure :
      (a : Attempt) (u : User) (db : AuthDb)
      → find_first (has_email email) db.users ≡ some u
      → u.is_active ≡ true
      → u.locked_until ≡ none
      → IsWrong c email u.password_hash a
      → login c l a.at a.jti a.ip a.request db
        ≡ (err invalid_credentials, store_user (count_failure a.at u) db)
  unfolding login
  login-count_failure a u db found on free wrong =
      let located =
        subst (λ x. find_first (has_email x) db.users ≡ some u) (sym wrong.address) found in
      rw (located, on, free, wrong.mismatch, login) refl

  -- The row that counts the failure is the one that the next attempt finds.
  count_failure-find_first :
      (now : ℕ) (u : User) (db : AuthDb)
      → find_first (has_email email) db.users ≡ some u
      → find_first (has_email email) (store_user (count_failure now u) db).users
        ≡ some (count_failure now u)
  unfolding count_failure
  count_failure-find_first now u db found =
      find_first-update_if_row (has_email email) (has_user_id u.id) db.users u (count_failure now u)
        found (==_refl u.id) (find_first-passes (has_email email) db.users found)

  -- A locked account lets nobody in.
  login-is_locked :
      (now : ℕ) (jti : String) (ip : Option String) (req : LoginRequest) (u : User) (db : AuthDb)
      → find_first (has_email req.email) db.users ≡ some u
      → u.is_active ≡ true
      → is_locked now u ≡ true
      → login c l now jti ip req db ≡ (err account_locked, db)
  unfolding login
  login-is_locked now jti ip req u db found on locked = rw (found, on, locked, login) refl

  -- A run of wrong passwords that ends with the fifth leaves the row locked.
  attempt_all-lock :
      (run : List Attempt) (last : Attempt) (u : User) (db : AuthDb)
      → find_first (has_email email) db.users ≡ some u
      → u.is_active ≡ true
      → u.locked_until ≡ none
      → u.failed_logins + length run ≡ 4
      → All (IsWrong c email u.password_hash) run
      → IsWrong c email u.password_hash last
      → (locked : User) × (find_first
            (has_email email)
            (login c l last.at last.jti last.ip last.request (attempt_all c l run db)).1.users
          ≡ some locked)
        × (locked.is_active ≡ true)
        × (locked.locked_until ≡ some (last.at + lock_seconds))
  unfolding attempt_all count_failure
  attempt_all-lock [] last u db found on free count wrong final = (
    count_failure last.at u,
    rw (login-count_failure last u db found on free final)
        (count_failure-find_first last.at u db found),
    on,
    ground (arith, count),
  )
  attempt_all-lock (a ∷ run) last u db found on free count wrong final =
      rw (login-count_failure a u db found on free wrong.0) (
        attempt_all-lock run last (count_failure a.at u) _
          (count_failure-find_first a.at u db found) on (ground (arith, count, free))
          (omega (arith, count)) wrong.1 final)

  -- Five wrong passwords lock an account: from an active account with no lock, a run of attempts with
  -- its address and wrong passwords that brings the count of failures to five has the effect that any
  -- `login` with that address, the right password included, is refused as locked until 1,800 seconds
  -- after the last of them, and writes nothing.
  pub attempt_all-is_locked :
      (run : List Attempt) (last : Attempt) (u : User) (db : AuthDb)
      → find_first (has_email email) db.users ≡ some u
      → u.is_active ≡ true
      → u.locked_until ≡ none
      → u.failed_logins + length run ≡ 4
      → All (IsWrong c email u.password_hash) run
      → IsWrong c email u.password_hash last
      → (now : ℕ) (jti : String) (ip : Option String) (password : String) (code : Option String)
      → now < last.at + lock_seconds
      → let after = (login c l last.at last.jti last.ip last.request (attempt_all c l run db)).1 in
        login c l now jti ip (record { email = email; password = password; mfa_code = code }) after
        ≡ (err account_locked, after)
  attempt_all-is_locked run last u db found on free count wrong final now jti ip password code
        early =
      let (locked, located, active, until) =
        attempt_all-lock run last u db found on free count wrong final in
      login-is_locked now jti ip (record { email = email; password = password; mfa_code = code })
        locked _ located active (rw (until, is_locked) (ground (arith, early)))
