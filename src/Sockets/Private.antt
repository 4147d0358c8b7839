-- ===== src/Sockets/Private.antt =====
-- Who reads a message that names a user.
use pios_backend.Sockets.Server.{
  door_of, set_door, sign_in, Handshake, Step, Request, owner, get_ws_user, finish, answer,
  serve_frame, step, run, started, Server, subscribe, ping, malformed, opened, arrives, receives,
  leaves, publishes,
}
use pios_backend.Prelude.{
  Option, none, ◌==◌, ==_iff, Bool-cases, opt_eq, any_of, All, All-mono, ℕ, String, ◌≡◌, refl, sym,
  ap, ◌∙◌, ◌⊎◌, inl, inr, Bool, true, false, ◌&&◌, some, List, [], ◌∷◌, arith,
}
use pios_backend.Sockets.{subscription, connect, Frame, subscribed, pong}
use pios_backend.Auth.{Crypto}
use pios_backend.Sockets.Owners.{Door-cases, meant_for, IsFor, run-IsOwned, started-IsOwned}

owner-door_of : (o : Option ℕ) → owner (door_of o) ≡ o
owner-door_of none = refl
owner-door_of (some u) = refl

module _ {B : Type 0} where
  -- A step by which a user signs in on a socket.
  abbrev pub signs_in : Crypto → ℕ → ℕ → Step B → Bool
  signs_in c ws u (arrives w now shake) = (w == ws) && opt_eq (get_ws_user c now shake) (some u)
  signs_in c ws u (receives _ _ _) = false
  signs_in c ws u (leaves _) = false
  signs_in c ws u (publishes _ _ _) = false

  finish-owner :
      (ws w u : ℕ) (v : Server B)
      → v.doors w ≡ opened u
      → owner ((finish w u v).doors ws) ≡ owner (v.doors ws)
  unfolding finish
  finish-owner ws w u v e = elim (Bool-cases (ws == w)) [
    | inr other_ws ↦ rw other_ws refl
    | inl at_w ↦
        let same : ws ≡ w = (==_iff ws w).0 at_w in
        rw at_w (sym (ap owner e) ∙ ap (λ j. owner (v.doors j)) (sym same))
  ]

  answer-owner :
      (ws w u : ℕ) (alive : ℕ → Bool) (f : Frame B) (v : Server B)
      → v.doors w ≡ opened u
      → owner ((answer w u alive f v).doors ws) ≡ owner (v.doors ws)
  unfolding answer
  answer-owner ws w u alive f v e = elim (Bool-cases (alive w)) [
    | inl there ↦ rw there refl
    | inr gone ↦ rw gone (finish-owner ws w u v e)
  ]

  serve_frame-owner :
      (upper : String → String) (ws w u : ℕ) (r : Request) (alive : ℕ → Bool) (v : Server B)
      → v.doors w ≡ opened u
      → owner ((serve_frame upper w u r alive v).doors ws) ≡ owner (v.doors ws)
  unfolding serve_frame
  serve_frame-owner upper ws w u (subscribe channel symbol) alive v e =
      answer-owner ws w u alive (subscribed channel symbol)
        (record v { hub = connect (subscription upper w u channel symbol) v.hub }) e
  serve_frame-owner upper ws w u ping alive v e = answer-owner ws w u alive pong v e
  serve_frame-owner upper ws w u Request.other alive v e = refl
  serve_frame-owner upper ws w u malformed alive v e = finish-owner ws w u v e

  opens-owner :
      (c : Crypto) (ws u w now : ℕ) (shake : Handshake) (v : Server B)
      → owner (set_door w (sign_in c now shake) v.doors ws) ≡ some u
      → (owner (v.doors ws) ≡ some u) ⊎ (signs_in c ws u (arrives w now shake) ≡ true)
  opens-owner c ws u w now shake v h = elim (Bool-cases (ws == w)) [
    | inr elsewhere ↦ inl (rw elsewhere at h)
    | inl at_w ↦
        let user : get_ws_user c now shake ≡ some u =
          sym (owner-door_of (get_ws_user c now shake)) ∙ (rw at_w at h) in
        inr (rw user (ground (arith, at_w)))
  ]

  -- A socket has the owner that it had, or one who signs in now.
  step-owner :
      (upper : String → String) (c : Crypto) (ws u : ℕ) (s : Step B) (v : Server B)
      → owner ((step upper c s v).doors ws) ≡ some u
      → (owner (v.doors ws) ≡ some u) ⊎ (signs_in c ws u s ≡ true)
  unfolding step
  step-owner upper c ws u (arrives w now shake) v h = elim (Door-cases (v.doors w)) [
    | inl e ↦ opens-owner c ws u w now shake v (rw (e, step) at h)
    | inr (inl (x, e)) ↦ inl (rw (e, step) at h)
    | inr (inr (x, e)) ↦ inl (rw (e, step) at h)
  ]
  step-owner upper c ws u (receives w r alive) v h = elim (Door-cases (v.doors w)) [
    | inl e ↦ inl (rw (e, step) at h)
    | inr (inl (x, e)) ↦
        inl (sym (serve_frame-owner upper ws w x r alive v e) ∙ (rw (e, step) at h))
    | inr (inr (x, e)) ↦ inl (rw (e, step) at h)
  ]
  step-owner upper c ws u (leaves w) v h = elim (Door-cases (v.doors w)) [
    | inl e ↦ inl (rw (e, step) at h)
    | inr (inl (x, e)) ↦ inl (sym (finish-owner ws w x v e) ∙ (rw (e, step) at h))
    | inr (inr (x, e)) ↦ inl (rw (e, step) at h)
  ]
  step-owner upper c ws u (publishes m alive cut) v h = inl h

  run-owner :
      (upper : String → String) (c : Crypto) (ws u : ℕ) (ss : List (Step B)) (v : Server B)
      → owner ((run upper c ss v).doors ws) ≡ some u
      → (owner (v.doors ws) ≡ some u) ⊎ (any_of (signs_in c ws u) ss ≡ true)
  unfolding run
  run-owner upper c ws u [] v h = inl h
  run-owner upper c ws u (s ∷ ss) v h = elim (run-owner upper c ws u ss (step upper c s v) h) [
    | inr later ↦ ground (arith, later)
    | inl now ↦ ground (arith, step-owner upper c ws u s v now)
  ]

  -- A message that names a user reaches no one else: whatever a process that has just started goes
  -- through, a message that names a user, where it is sent to a socket at all, is sent to one on which
  -- this user has signed in with a token.
  pub run_private :
      (upper : String → String) (c : Crypto) (ss : List (Step B))
      → All
          (λ d. (u : ℕ) → meant_for d.frame ≡ some u → any_of (signs_in c d.ws u) ss ≡ true)
          (run upper c ss started).hub.sent
  run_private upper c ss =
      let v = run upper c ss started in
      All-mono (IsFor v.doors)
        (λ d. (u : ℕ) → meant_for d.frame ≡ some u → any_of (signs_in c d.ws u) ss ≡ true)
        v.hub.sent
        (λ d own u e. elim (run-owner upper c d.ws u ss started (own u e)) [
          | inl born ↦ cc
          | inr signed ↦ signed
        ])
        (run-IsOwned upper c ss started started-IsOwned).private_sent
