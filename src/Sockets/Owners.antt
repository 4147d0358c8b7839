-- ===== src/Sockets/Owners.antt =====
-- Whose sockets a message reaches: what every step of a process keeps.
use pios_backend.Sockets.{
  Hub, dispatch, Message, Frame, plain, tick, candle, subscribed, pong, Subscription, Sending,
  connect, disconnect, relay, send_each, routed, same_subscription, subscription, in_bucket,
  of_user, normalize,
}
use pios_backend.Prelude.{
  if◌then◌else◌, false, All-keep_if_mono, All-mono, ℕ, String, ◌≡◌, refl, sym, ◌∙◌, ap, ◌⊎◌, inl,
  inr, Bool, true, not, ◌&&◌, ◌||◌, Option, none, some, List, [], ◌∷◌, ◌==◌, ==_iff, arith,
  Bool-cases, All, All-map, All-append, All-keep_if, any_of, keep_if,
}
use pios_backend.Sockets.Sets.{Distinct, Distinct-keep_if, Distinct-snoc}
use mathlib.Core.Path.{subst}
use pios_backend.Auth.{Crypto}
use pios_backend.Sockets.Server.{
  Door, unopened, opened, closed, owner, set_door, Server, Step, Request, subscribe, ping, other,
  malformed, arrives, receives, leaves, publishes, finish, answer, serve_frame, step, run, started,
  sign_in,
}

pub Door-cases :
    (d : Door) → (d ≡ unopened) ⊎ (((u : ℕ) × (d ≡ opened u)) ⊎ ((u : Option ℕ) × (d ≡ closed u)))
Door-cases unopened = inl refl
Door-cases (opened u) = inr (inl (u, refl))
Door-cases (closed u) = inr (inr (u, refl))

-- A door that signs someone in, or that keeps its owner, takes nothing from anyone.
owner-set_door :
    (ws : ℕ) (d : Door) (doors : ℕ → Door) (i u : ℕ)
    → (owner (doors ws) ≡ none) ⊎ (owner d ≡ owner (doors ws))
    → owner (doors i) ≡ some u
    → owner (set_door ws d doors i) ≡ some u
owner-set_door ws d doors i u keeps e = elim (Bool-cases (i == ws)) [
  | inr other_ws ↦ rw other_ws e
  | inl at_ws ↦
      let same : i ≡ ws = (==_iff i ws).0 at_ws in
      rw at_ws
        (elim keeps [ inl free ↦ cc | inr kept ↦ kept ∙ ap (λ j. owner (doors j)) (sym same) ∙ e ])
]

module _ {B : Type 0} where
  -- The user that a frame is meant for: that of its message, if the message names one.
  abbrev pub meant_for : Frame B → Option ℕ
  meant_for (plain m) = m.user_id
  meant_for (tick m) = m.user_id
  meant_for (candle m) = m.user_id
  meant_for (subscribed _ _) = none
  meant_for pong = none

  -- What is sent to a socket is for everyone, or for the user whose socket it is.
  abbrev pub IsFor : (ℕ → Door) → Sending B → Type 0
  IsFor doors d = (u : ℕ) → meant_for d.frame ≡ some u → owner (doors d.ws) ≡ some u

  pub record IsOwned (v : Server B) : Type 0 where
    pub listed : All (λ s. v.doors s.ws ≡ opened s.user_id) v.hub.connections
    pub distinct : Distinct v.hub.connections
    pub private_sent : All (IsFor v.doors) v.hub.sent

  set_door-sent :
      (ws : ℕ) (d : Door) (doors : ℕ → Door) (sent : List (Sending B))
      → (owner (doors ws) ≡ none) ⊎ (owner d ≡ owner (doors ws))
      → All (IsFor doors) sent
      → All (IsFor (set_door ws d doors)) sent
  set_door-sent ws d doors sent keeps h =
      All-mono (IsFor doors) (IsFor (set_door ws d doors)) sent
        (λ x own u e. owner-set_door ws d doors x.ws u keeps (own u e)) h

  -- A door opens.
  opens-IsOwned :
      (ws : ℕ) (d : Door) (v : Server B)
      → v.doors ws ≡ unopened
      → IsOwned v
      → IsOwned (record v { doors = set_door ws d v.doors })
  opens-IsOwned ws d v e o = record {
    listed =
        All-mono (λ s. v.doors s.ws ≡ opened s.user_id)
          (λ s. set_door ws d v.doors s.ws ≡ opened s.user_id) v.hub.connections
          (λ s at. elim (Bool-cases (s.ws == ws)) [
            | inr elsewhere ↦ rw elsewhere at
            | inl here ↦ let same : s.ws ≡ ws = (==_iff s.ws ws).0 here in cc
          ])
          o.listed;
    distinct = o.distinct;
    private_sent = set_door-sent ws d v.doors v.hub.sent (inl (ap owner e)) o.private_sent;
  }

  -- The endpoint is through.
  finish-IsOwned :
      (ws u : ℕ) (v : Server B) → v.doors ws ≡ opened u → IsOwned v → IsOwned (finish ws u v)
  unfolding finish disconnect
  finish-IsOwned ws u v e o = record {
    listed =
        All-keep_if_mono (λ s. v.doors s.ws ≡ opened s.user_id)
          (λ s. set_door ws (closed (some u)) v.doors s.ws ≡ opened s.user_id)
          (λ s. not (s.ws == ws)) v.hub.connections (λ s off at. ground (arith, off, at)) o.listed;
    distinct = Distinct-keep_if (λ s. not (s.ws == ws)) v.hub.connections o.distinct;
    private_sent =
        set_door-sent ws (closed (some u)) v.doors v.hub.sent (inr (sym (ap owner e)))
          o.private_sent;
  }

  answer-IsOwned :
      (ws u : ℕ) (alive : ℕ → Bool) (f : Frame B) (v : Server B)
      → meant_for f ≡ none
      → v.doors ws ≡ opened u
      → IsOwned v
      → IsOwned (answer ws u alive f v)
  unfolding answer
  answer-IsOwned ws u alive f v open_frame e o = elim (Bool-cases (alive ws)) [
    | inr gone ↦ rw gone (finish-IsOwned ws u v e o)
    | inl there ↦ rw there (record {
      listed = o.listed;
      distinct = o.distinct;
      private_sent = All-append (IsFor v.doors) v.hub.sent _ o.private_sent ((λ w private. cc), tt);
    })
  ]

  connect-IsOwned :
      (a : Subscription) (v : Server B)
      → v.doors a.ws ≡ opened a.user_id
      → IsOwned v
      → IsOwned (record v { hub = connect a v.hub })
  unfolding connect
  connect-IsOwned a v e o = elim (Bool-cases (any_of (same_subscription a) v.hub.connections)) [
    | inl old ↦ rw old o
    | inr new ↦ rw new (record {
      listed =
          All-append (λ s. v.doors s.ws ≡ opened s.user_id) v.hub.connections (a ∷ []) o.listed
            (e, tt);
      distinct = Distinct-snoc a v.hub.connections new o.distinct;
      private_sent = o.private_sent;
    })
  ]

  send_each-IsOwned :
      (chosen : Subscription → Bool) (alive : ℕ → Bool) (cut : Bool) (f : Frame B) (v : Server B)
      → ((s : Subscription) (u : ℕ) → chosen s ≡ true → meant_for f ≡ some u → s.user_id ≡ u)
      → IsOwned v
      → IsOwned (record v { hub = send_each chosen alive cut f v.hub })
  unfolding send_each
  send_each-IsOwned chosen alive cut f v only o = record {
    listed =
        All-keep_if (λ s. v.doors s.ws ≡ opened s.user_id)
          (λ s. cut || not (chosen s) || alive s.ws) v.hub.connections o.listed;
    distinct =
        Distinct-keep_if (λ s. cut || not (chosen s) || alive s.ws) v.hub.connections o.distinct;
    private_sent = All-append (IsFor v.doors) v.hub.sent _ o.private_sent (
        All-map (IsFor v.doors) (λ s. record { ws = s.ws; frame = f })
          (keep_if (λ s. chosen s && alive s.ws) v.hub.connections)
          (All-keep_if_mono (λ s. v.doors s.ws ≡ opened s.user_id)
            (λ s. (u : ℕ) → meant_for f ≡ some u → owner (v.doors s.ws) ≡ some u)
            (λ s. chosen s && alive s.ws) v.hub.connections
            (λ s both at u e. ap owner at ∙ ap some (only s u (ground (arith, both)) e)) o.listed));
  }

  meant_for-routed : (m : Message B) → meant_for (routed m).1 ≡ m.user_id
  meant_for-routed m = ground arith

  dispatch-IsOwned :
      (upper : String → String) (alive : ℕ → Bool) (cut : Bool) (target : Option ℕ)
      (channel : String) (symbol : Option String) (f : Frame B) (v : Server B)
      → meant_for f ≡ target
      → IsOwned v
      → IsOwned (record v { hub = dispatch upper alive cut target channel symbol f v.hub })
  unfolding dispatch
  dispatch-IsOwned upper alive cut none channel symbol f v e o =
      send_each-IsOwned (in_bucket channel (normalize upper symbol)) alive cut f v
        (λ s u c private. cc) o
  dispatch-IsOwned upper alive cut (some w) channel symbol f v e o =
      send_each-IsOwned (of_user channel (normalize upper symbol) w) alive cut f v
        (λ s u c private. let same : some w ≡ some u = sym e ∙ private in ground (arith, c, same)) o

  serve_frame-IsOwned :
      (upper : String → String) (ws u : ℕ) (r : Request) (alive : ℕ → Bool) (v : Server B)
      → v.doors ws ≡ opened u
      → IsOwned v
      → IsOwned (serve_frame upper ws u r alive v)
  unfolding serve_frame
  serve_frame-IsOwned upper ws u (subscribe channel symbol) alive v e o =
      let a = subscription upper ws u channel symbol in
      answer-IsOwned ws u alive (subscribed channel symbol) (record v { hub = connect a v.hub })
        refl e (connect-IsOwned a v e o)
  serve_frame-IsOwned upper ws u ping alive v e o = answer-IsOwned ws u alive pong v refl e o
  serve_frame-IsOwned upper ws u other alive v e o = o
  serve_frame-IsOwned upper ws u malformed alive v e o = finish-IsOwned ws u v e o

  -- A message while the listener runs, and after its end.
  pub relay-runs :
      (upper : String → String) (alive : ℕ → Bool) (cut : Bool) (m : Message B) (h : Hub B)
      → h.listening ≡ true
      → relay upper alive cut m h
        ≡ dispatch upper alive cut m.user_id
            (routed m).0
            (some (normalize upper m.symbol))
            (routed m).1
            h
  unfolding relay
  relay-runs upper alive cut m h e =
      ap
        (λ (b : Bool).
          if b
          then dispatch upper alive cut m.user_id (routed m).0 (some (normalize upper m.symbol))
              (routed m).1 h
          else h)
        e

  pub relay-ended :
      (upper : String → String) (alive : ℕ → Bool) (cut : Bool) (m : Message B) (h : Hub B)
      → h.listening ≡ false
      → relay upper alive cut m h ≡ h
  unfolding relay
  relay-ended upper alive cut m h e =
      ap
        (λ (b : Bool).
          if b
          then dispatch upper alive cut m.user_id (routed m).0 (some (normalize upper m.symbol))
              (routed m).1 h
          else h)
        e

  pub step-IsOwned :
      (upper : String → String) (c : Crypto) (s : Step B) (v : Server B)
      → IsOwned v
      → IsOwned (step upper c s v)
  unfolding step relay
  step-IsOwned upper c (arrives ws now shake) v o = elim (Door-cases (v.doors ws)) [
    | inl e ↦ rw (e, step) (opens-IsOwned ws (sign_in c now shake) v e o)
    | inr (inl (u, e)) ↦ rw (e, step) o
    | inr (inr (u, e)) ↦ rw (e, step) o
  ]
  step-IsOwned upper c (receives ws r alive) v o = elim (Door-cases (v.doors ws)) [
    | inl e ↦ rw (e, step) o
    | inr (inl (u, e)) ↦ rw (e, step) (serve_frame-IsOwned upper ws u r alive v e o)
    | inr (inr (u, e)) ↦ rw (e, step) o
  ]
  step-IsOwned upper c (leaves ws) v o = elim (Door-cases (v.doors ws)) [
    | inl e ↦ rw (e, step) o
    | inr (inl (u, e)) ↦ rw (e, step) (finish-IsOwned ws u v e o)
    | inr (inr (u, e)) ↦ rw (e, step) o
  ]
  step-IsOwned upper c (publishes m alive cut) v o = elim (Bool-cases v.hub.listening) [
    | inr ended ↦
        subst (λ h. IsOwned (record v { hub = h }))
          (sym (relay-ended upper alive cut m v.hub ended)) o
    | inl runs ↦
        subst (λ h. IsOwned (record v { hub = h })) (sym (relay-runs upper alive cut m v.hub runs))
          (dispatch-IsOwned upper alive cut m.user_id (routed m).0 (some (normalize upper m.symbol))
            (routed m).1 v (meant_for-routed m) o)
  ]

  pub run-IsOwned :
      (upper : String → String) (c : Crypto) (ss : List (Step B)) (v : Server B)
      → IsOwned v
      → IsOwned (run upper c ss v)
  unfolding run
  run-IsOwned upper c [] v o = o
  run-IsOwned upper c (s ∷ ss) v o =
      run-IsOwned upper c ss (step upper c s v) (step-IsOwned upper c s v o)

  pub started-IsOwned : IsOwned (started {B = B})
  started-IsOwned = record { listed = tt; distinct = tt; private_sent = tt }
