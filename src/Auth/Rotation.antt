-- ===== src/Auth/Rotation.antt =====
-- Refresh tokens are spent once (`refresh`, `logout`).
use pios_backend.Auth.{
  has_user_id, create_refresh_token, get_current_user, UserSession, Crypto, Lifetimes, AuthDb,
  AuthError, TokenPair, invalid_token_type, invalid_refresh_token, session_not_found, server_error,
}
use pios_backend.Auth.Requests.{Request, serve_all, serve_all-IsSpent}
use pios_backend.Auth.Endpoints.{
  has_hash, insert_session, new_session, is_live_session, revoke, is_refresh, rotate, refresh,
  logout,
}
use pios_backend.Auth.Spent.{insert_session-IsSpent, revoke-IsSpent, IsSpent}
use pios_backend.Prelude.{
  Bool-cases, Option-cases, Result-cases, ok, err, find_first, any_of, update_if, ℕ, String, ◌≡◌,
  refl, inl, inr, true, false, some, List, [], ◌∷◌, arith,
}

module _ (c : Crypto) (l : Lifetimes) where
  -- A refresh that is answered is the rotation of a live session.
  refresh-rotate :
      (now : ℕ) (jti token : String) (db : AuthDb) {pair : TokenPair}
      → (refresh c l now jti token db).0 ≡ ok pair
      → (s : UserSession) × (i : ℕ) × (find_first (is_live_session (c.sha256 token)) db.sessions
          ≡ some s)
        × (refresh c l now jti token db ≡ rotate c l now jti (c.sha256 token) s i db)
  unfolding refresh
  refresh-rotate now jti token db e = elim (Option-cases (c.decode_token now token)) [
    | inl d ↦ absurd (ground (arith, rw (d, refresh) at e))
    | inr (claims, d) ↦ elim (Bool-cases (is_refresh claims.kind)) [
      | inr k ↦ absurd (ground (arith, rw (d, k, refresh) at e))
      | inl k ↦ elim (Option-cases claims.sub) [
        | inl b ↦ absurd (ground (arith, rw (d, k, b, refresh) at e))
        | inr (i, b) ↦
            elim (Option-cases (find_first (is_live_session (c.sha256 token)) db.sessions)) [
              | inl f ↦ absurd (ground (arith, rw (d, k, b, f, refresh) at e))
              | inr (s, f) ↦ elim (Option-cases (find_first (has_user_id i) db.users)) [
                | inl g ↦ absurd (ground (arith, rw (d, k, b, f, g, refresh) at e))
                | inr (u, g) ↦ elim (Bool-cases u.is_active) [
                  | inr a ↦ absurd (ground (arith, rw (d, k, b, f, g, a, refresh) at e))
                  | inl a ↦ (s, u.id, f, rw (d, k, b, f, g, a, refresh) refl)
                ]
              ]
            ]
      ]
    ]
  ]

  -- A rotation that is answered spends the hash that it was asked with.
  rotate-spends :
      (now : ℕ) (jti k : String) (s : UserSession) (i : ℕ) (db : AuthDb) {pair : TokenPair}
      → (rotate c l now jti k s i db).0 ≡ ok pair
      → any_of (has_hash k) db.sessions ≡ true
      → IsSpent k (rotate c l now jti k s i db).1.sessions
  unfolding rotate
  rotate-spends now jti k s i db e known =
      elim (Result-cases (
        insert_session
          (new_session i s.ip_address now (c.sha256 (create_refresh_token c l now jti i)))
          (record db { sessions = update_if (is_live_session k) revoke db.sessions }))) [
            | inl (d, added) ↦
                rw (added, rotate)
                  (insert_session-IsSpent _ _ added (revoke-IsSpent k db.sessions known).0)
            | inr (f, refused) ↦ absurd (ground (arith, rw (refused, rotate) at e))
          ]

  -- A session that has not the hash is not live for it.
  live-not : (h : String) (s : UserSession) → has_hash h s ≡ false → is_live_session h s ≡ false
  live-not h s e = rw e refl

  -- A live session is a row of the table.
  live-known :
      (h : String) (ss : List UserSession) {s : UserSession}
      → find_first (is_live_session h) ss ≡ some s
      → any_of (has_hash h) ss ≡ true
  live-known h [] e = cc
  live-known h (x ∷ ss) e = elim (Bool-cases (has_hash h x)) [
    | inl hit ↦ rw hit refl
    | inr miss ↦ rw miss (live-known h ss (rw (live-not h x miss) at e))
  ]

  -- A token of a spent hash is refused, and nothing is written.
  refresh-IsSpent_err :
      (now : ℕ) (jti token : String) (db : AuthDb)
      → IsSpent (c.sha256 token) db.sessions
      → (e : AuthError) × (refresh c l now jti token db ≡ (err e, db))
  unfolding refresh
  refresh-IsSpent_err now jti token db spent = elim (Option-cases (c.decode_token now token)) [
    | inl d ↦ (invalid_refresh_token, rw (d, refresh) refl)
    | inr (claims, d) ↦ elim (Bool-cases (is_refresh claims.kind)) [
      | inr k ↦ (invalid_token_type, rw (d, k, refresh) refl)
      | inl k ↦ elim (Option-cases claims.sub) [
        | inl b ↦ (server_error, rw (d, k, b, refresh) refl)
        | inr (i, b) ↦ (session_not_found, rw (d, k, b, spent.dead, refresh) refl)
      ]
    ]
  ]

  -- A refresh token is good for one refresh: once `refresh` has answered with a pair, every later
  -- `refresh` with the same token is refused and writes nothing, whatever requests are served in
  -- between.
  pub refresh-serve_all :
      (now : ℕ) (jti token : String) (db : AuthDb) (pair : TokenPair)
      → (refresh c l now jti token db).0 ≡ ok pair
      → (rs : List Request) (later : ℕ) (fresh : String)
      → (e : AuthError) × (refresh c l later fresh token
            (serve_all c l rs (refresh c l now jti token db).1)
          ≡ (err e, serve_all c l rs (refresh c l now jti token db).1))
  refresh-serve_all now jti token db pair answered rs later fresh =
      let (s, i, found, same) = refresh-rotate now jti token db answered in
      refresh-IsSpent_err later fresh token _ (
        serve_all-IsSpent c l (c.sha256 token) rs _ (
          rw same (
            rotate-spends now jti (c.sha256 token) s i db (rw same at answered)
              (live-known (c.sha256 token) db.sessions found))))

  -- A logout ends refreshing, but not access: when `logout` is answered, on a token that some session
  -- has, every later `refresh` with that token is refused and writes nothing, whatever requests are
  -- served in between, while each token opens the same account straight after the logout as before it.
  pub logout-serve_all :
      (now : ℕ) (credentials token : String) (db : AuthDb)
      → (logout c now credentials token db).0 ≡ ok tt
      → any_of (has_hash (c.sha256 token)) db.sessions ≡ true
      → (rs : List Request) (later : ℕ) (fresh : String)
      → ((e : AuthError) × (refresh c l later fresh token
              (serve_all c l rs (logout c now credentials token db).1)
            ≡ (err e, serve_all c l rs (logout c now credentials token db).1)))
        × ((instant : ℕ) (t : String)
            → get_current_user c instant t (logout c now credentials token db).1
              ≡ get_current_user c instant t db)
  unfolding logout get_current_user
  logout-serve_all now credentials token db answered known rs later fresh =
      elim (Result-cases (get_current_user c now credentials db)) [
        | inr (f, e) ↦ absurd (ground (arith, rw (e, logout) at answered))
        | inl (u, e) ↦ (
          refresh-IsSpent_err later fresh token _ (
              serve_all-IsSpent c l (c.sha256 token) rs _
                (rw (e, logout) (revoke-IsSpent (c.sha256 token) db.sessions known).1)),
          λ instant t. rw (e, logout) refl,
        )
      ]
