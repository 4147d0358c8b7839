-- ===== src/Auth/Tokens.antt =====
-- Access tokens: what `create_access_token` issues, `get_current_user` accepts.
use pios_backend.Auth.{
  access_claims, store_user, User, has_email, has_user_id, create_access_token, get_current_user,
  Claims, Crypto, Lifetimes, AuthDb, LoginRequest, TokenPair,
}
use pios_backend.Prelude.{
  ==_refl, find_first-update_if, ap, ok, find_first, ℕ, ◌+◌, ◌<◌, String, ◌≡◌, refl, sym, ◌∙◌, true,
  Option, some,
}
use mathlib.Core.Path.{subst}
use mathlib.Core.Option.{some-injective}
use pios_backend.Auth.Endpoints.{signed_in, login}
use pios_backend.Auth.Factors.{login-HasFactor}

-- jose: the token of these claims is decoded to them until it expires.
pub record IsFaithful (c : Crypto) (k : Claims) : Type 0 where
  pub decode-encode : (t : ℕ) → t < k.exp → c.decode_token t (c.encode k) ≡ some k

module _ (c : Crypto) (l : Lifetimes) where
  -- An access token names its user.
  get_current_user-create_access_token :
      (now later i : ℕ) (u : User) (db : AuthDb)
      → IsFaithful c (access_claims l now i)
      → later < now + l.access_token_expire
      → find_first (has_user_id i) db.users ≡ some u
      → u.is_active ≡ true
      → get_current_user c later (create_access_token c l now i) db ≡ ok u
  unfolding get_current_user create_access_token
  get_current_user-create_access_token now later i u db law early found on =
      rw (law.decode-encode later early, found, on, get_current_user, create_access_token) refl

  -- Signing in works: the access token of a `login` that is answered opens, until it expires, the
  -- account that signed in, with its failures cleared and its sign-in noted. This takes jose to decode
  -- the token it has encoded until that expires, and the account's identifier to be no earlier row's.
  pub login-get_current_user :
      (now : ℕ) (jti : String) (ip : Option String) (req : LoginRequest) (db : AuthDb)
      (pair : TokenPair) (db' : AuthDb) (u : User) (later : ℕ)
      → IsFaithful c (access_claims l now u.id)
      → login c l now jti ip req db ≡ (ok pair, db')
      → find_first (has_email req.email) db.users ≡ some u
      → find_first (has_user_id u.id) db.users ≡ some u
      → later < now + l.access_token_expire
      → get_current_user c later pair.access_token db' ≡ ok (signed_in now ip u)
  unfolding signed_in
  login-get_current_user now jti ip req db pair db' u later law e found own early =
      let (v, located, on, free, right, factor, owner, users, token) =
        login-HasFactor c l now jti ip req db pair db' e in
      let same : v ≡ u = some-injective _ _ (sym located ∙ found) in
      let written : db'.users ≡ (store_user (signed_in now ip u) db).users =
        subst (λ x. db'.users ≡ (store_user (signed_in now ip x) db).users) same users in
      rw (subst (λ x. pair.access_token ≡ create_access_token c l now x.id) same token) (
        get_current_user-create_access_token now later u.id (signed_in now ip u) db' law early
          (ap (find_first (has_user_id u.id)) written
            ∙ find_first-update_if (has_user_id u.id) db.users u (signed_in now ip u) own
                (==_refl u.id))
          (subst (λ x. x.is_active ≡ true) same on))
