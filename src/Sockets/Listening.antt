-- ===== src/Sockets/Listening.antt =====
-- A subscription lasts.
use pios_backend.Sockets.{
  Hub, normalize, in_bucket, of_user, same_subscription, subscription, connect, disconnect,
  send_each, routed, dispatch, relay, Frame, Subscription, subscribed, pong, Message,
}
use pios_backend.Sockets.Owners.{
  relay-runs, relay-ended, Door-cases, step-IsOwned, run-IsOwned, started-IsOwned,
}
use mathlib.Core.Path.{subst}
use pios_backend.Auth.{Crypto}
use pios_backend.Sockets.Delivery.{sends_to, relay-sends_to, IsUpper, Listens, Concerns}
use pios_backend.Sockets.Server.{
  unopened, Step, Request, finish, answer, serve_frame, step, run, started, Server, subscribe, ping,
  malformed, opened, arrives, receives, leaves, publishes,
}
use pios_backend.Prelude.{
  sym, ◌==◌, if◌then◌else◌, ==_iff, Bool-cases, keep_if, any_of, All, any_of-append, ℕ, String, ◌≡◌,
  refl, ap, ◌∙◌, inl, inr, Bool, true, false, not, ◌||◌, Option, none, some, List, [], ◌∷◌, ◌++◌,
  arith, str_eq_iff,
}

-- Steps in which a socket neither leaves nor fails.
abbrev pub is_quiet : {B : Type 0} → ℕ → Step B → Bool
is_quiet ws (arrives _ _ _) = true
is_quiet ws (receives w Request.malformed alive) = not (w == ws)
is_quiet ws (receives w _ alive) = if w == ws then alive ws else true
is_quiet ws (leaves w) = not (w == ws)
is_quiet ws (publishes _ alive _) = alive ws

-- A message during whose send no socket comes or goes.
abbrev pub IsWhole : {B : Type 0} → Step B → Type 0
IsWhole (publishes _ _ cut) = cut ≡ false
IsWhole _ = Unit {0}

any_of-keep :
    (p q : Subscription → Bool) (s : List Subscription)
    → ((b : Subscription) → q b ≡ true → p b ≡ true)
    → any_of q s ≡ true
    → any_of q (keep_if p s) ≡ true
any_of-keep p q [] f h = h
any_of-keep p q (b ∷ s) f h = elim (Bool-cases (q b)) [
  | inl hit ↦ rw (f b hit, hit) refl
  | inr miss ↦ let rest = any_of-keep p q s f (rw miss at h) in ground (arith, miss, rest)
]

same-ws : (a b : Subscription) → same_subscription a b ≡ true → b.ws ≡ a.ws
same-ws a b h = (==_iff b.ws a.ws).0 (ground (arith, h))

any_of-push :
    (q : Subscription → Bool) (s : List Subscription) (a : Subscription)
    → q a ≡ true
    → any_of q (s ++ (a ∷ [])) ≡ true
any_of-push q [] a h = rw h refl
any_of-push q (b ∷ s) a h = ground (arith, any_of-push q s a h)

same_refl : (a : Subscription) → same_subscription a a ≡ true
same_refl a = ground (arith, str_eq_iff a.channel a.channel, str_eq_iff a.symbol a.symbol)

module _ {B : Type 0} (upper : String → String) where
  answer-listening :
      (w x : ℕ) (alive : ℕ → Bool) (f : Frame B) (v : Server B)
      → (answer w x alive f v).hub.listening ≡ v.hub.listening
  unfolding answer finish disconnect
  answer-listening w x alive f v = elim (Bool-cases (alive w)) [
    | inl there ↦ rw (there, answer) refl
    | inr gone ↦ rw (gone, answer) refl
  ]

  connect-listening : (a : Subscription) (h : Hub B) → (connect a h).listening ≡ h.listening
  unfolding connect
  connect-listening a h = elim (Bool-cases (any_of (same_subscription a) h.connections)) [
    | inl old ↦ rw (old, connect) refl
    | inr new ↦ rw (new, connect) refl
  ]

  serve_frame-listening :
      (w x : ℕ) (r : Request) (alive : ℕ → Bool) (v : Server B)
      → (serve_frame upper w x r alive v).hub.listening ≡ v.hub.listening
  unfolding serve_frame finish disconnect
  serve_frame-listening w x (subscribe c key) alive v =
      let a = subscription upper w x c key in
      answer-listening w x alive (subscribed c key) (record v { hub = connect a v.hub })
      ∙ connect-listening a v.hub
  serve_frame-listening w x ping alive v = answer-listening w x alive pong v
  serve_frame-listening w x Request.other alive v = refl
  serve_frame-listening w x malformed alive v = refl

  dispatch-listening :
      (alive : ℕ → Bool) (target : Option ℕ) (c : String) (key : Option String) (f : Frame B)
      (h : Hub B)
      → h.listening ≡ true
      → (dispatch upper alive false target c key f h).listening ≡ true
  unfolding dispatch send_each
  dispatch-listening alive none c key f h e = rw e refl
  dispatch-listening alive (some w) c key f h e = rw e refl

  -- Only a send that is cut ends the listener.
  step-listening :
      (c : Crypto) (s : Step B) (v : Server B)
      → v.hub.listening ≡ true
      → IsWhole s
      → (step upper c s v).hub.listening ≡ true
  unfolding step finish disconnect
  step-listening c (arrives w now shake) v e whole = elim (Door-cases (v.doors w)) [
    | inl d ↦ rw (d, step) e
    | inr (inl (x, d)) ↦ rw (d, step) e
    | inr (inr (x, d)) ↦ rw (d, step) e
  ]
  step-listening c (receives w r alive) v e whole = elim (Door-cases (v.doors w)) [
    | inl d ↦ rw (d, step) e
    | inr (inl (x, d)) ↦ rw (d, step) (serve_frame-listening w x r alive v ∙ e)
    | inr (inr (x, d)) ↦ rw (d, step) e
  ]
  step-listening c (leaves w) v e whole = elim (Door-cases (v.doors w)) [
    | inl d ↦ rw (d, step) e
    | inr (inl (x, d)) ↦ rw (d, step, finish) e
    | inr (inr (x, d)) ↦ rw (d, step) e
  ]
  step-listening c (publishes m alive cut) v e whole = rw whole (
      ap (λ (h : Hub B). h.listening) (relay-runs upper alive false m v.hub e)
      ∙ dispatch-listening alive m.user_id (routed m).0 (some (normalize upper m.symbol))
          (routed m).1 v.hub e)

  run-listening :
      (c : Crypto) (ss : List (Step B)) (v : Server B)
      → v.hub.listening ≡ true
      → All IsWhole ss
      → (run upper c ss v).hub.listening ≡ true
  unfolding run
  run-listening c [] v e whole = e
  run-listening c (s ∷ ss) v e whole =
      run-listening c ss (step upper c s v) (step-listening c s v e whole.0) whole.1

module _ {B : Type 0} (upper : String → String) (ws u : ℕ) (channel : String)
    (symbol : Option String) where
  abbrev Here : Server B → Type 0
  Here v = Listens upper ws u channel symbol v

  finish-Listens : (w x : ℕ) (v : Server B) → (w == ws) ≡ false → Here v → Here (finish w x v)
  unfolding finish disconnect
  finish-Listens w x v off l = record {
    served = ground (arith, off, l.served);
    subscribed_to =
        any_of-keep (λ s. not (s.ws == w))
          (same_subscription (subscription upper ws u channel symbol)) v.hub.connections
          (λ b same. ground (arith, same-ws (subscription upper ws u channel symbol) b same, off))
          l.subscribed_to;
  }

  answer-Listens :
      (w x : ℕ) (alive : ℕ → Bool) (f : Frame B) (v : Server B)
      → (if w == ws then alive ws else true) ≡ true
      → Here v
      → Here (answer w x alive f v)
  unfolding answer
  answer-Listens w x alive f v quiet l = elim (Bool-cases (alive w)) [
    | inl there ↦ rw there (record { served = l.served; subscribed_to = l.subscribed_to })
    | inr gone ↦ elim (Bool-cases (w == ws)) [
      | inl at_w ↦
          let same : w ≡ ws = (==_iff w ws).0 at_w in
          let there : alive w ≡ true = ap alive same ∙ (rw at_w at quiet) in cc
      | inr off ↦ rw gone (finish-Listens w x v off l)
    ]
  ]

  connect-Listens :
      (a : Subscription) (v : Server B) → Here v → Here (record v { hub = connect a v.hub })
  unfolding connect
  connect-Listens a v l = elim (Bool-cases (any_of (same_subscription a) v.hub.connections)) [
    | inl old ↦ rw old l
    | inr new ↦ rw new (record {
      served = l.served;
      subscribed_to =
          any_of-append (same_subscription (subscription upper ws u channel symbol))
            v.hub.connections (a ∷ []) l.subscribed_to;
    })
  ]

  send_each-Listens :
      (chosen : Subscription → Bool) (alive : ℕ → Bool) (cut : Bool) (f : Frame B) (v : Server B)
      → alive ws ≡ true
      → Here v
      → Here (record v { hub = send_each chosen alive cut f v.hub })
  unfolding send_each
  send_each-Listens chosen alive cut f v there l = record {
    served = l.served;
    subscribed_to =
        any_of-keep (λ s. cut || not (chosen s) || alive s.ws)
          (same_subscription (subscription upper ws u channel symbol)) v.hub.connections
          (λ b same.
            let ok_there : alive b.ws ≡ true =
              ap alive (same-ws (subscription upper ws u channel symbol) b same) ∙ there in
            ground (arith, ok_there))
          l.subscribed_to;
  }

  dispatch-Listens :
      (alive : ℕ → Bool) (cut : Bool) (target : Option ℕ) (c : String) (key : Option String)
      (f : Frame B) (v : Server B)
      → alive ws ≡ true
      → Here v
      → Here (record v { hub = dispatch upper alive cut target c key f v.hub })
  unfolding dispatch
  dispatch-Listens alive cut none c key f v there l =
      send_each-Listens (in_bucket c (normalize upper key)) alive cut f v there l
  dispatch-Listens alive cut (some w) c key f v there l =
      send_each-Listens (of_user c (normalize upper key) w) alive cut f v there l

  serve_frame-Listens :
      (w x : ℕ) (r : Request) (alive : ℕ → Bool) (v : Server B)
      → is_quiet {B = B} ws (receives w r alive) ≡ true
      → Here v
      → Here (serve_frame upper w x r alive v)
  unfolding serve_frame
  serve_frame-Listens w x (subscribe c key) alive v q l =
      let a = subscription upper w x c key in
      answer-Listens w x alive (subscribed c key) (record v { hub = connect a v.hub }) q
        (connect-Listens a v l)
  serve_frame-Listens w x ping alive v q l = answer-Listens w x alive pong v q l
  serve_frame-Listens w x Request.other alive v q l = l
  serve_frame-Listens w x malformed alive v q l = finish-Listens w x v (ground (arith, q)) l

  step-Listens :
      (c : Crypto) (s : Step B) (v : Server B)
      → is_quiet ws s ≡ true
      → Here v
      → Here (step upper c s v)
  unfolding step relay
  step-Listens c (arrives w now shake) v q l = elim (Door-cases (v.doors w)) [
    | inr (inl (x, e)) ↦ rw (e, step) l
    | inr (inr (x, e)) ↦ rw (e, step) l
    | inl e ↦ elim (Bool-cases (ws == w)) [
      | inl at_w ↦
          let same : ws ≡ w = (==_iff ws w).0 at_w in
          let clash : unopened ≡ opened u = sym e ∙ ap v.doors (sym same) ∙ l.served in cc
      | inr off ↦
          rw (e, step) (record { served = rw off l.served; subscribed_to = l.subscribed_to })
    ]
  ]
  step-Listens c (receives w r alive) v q l = elim (Door-cases (v.doors w)) [
    | inl e ↦ rw (e, step) l
    | inr (inl (x, e)) ↦ rw (e, step) (serve_frame-Listens w x r alive v q l)
    | inr (inr (x, e)) ↦ rw (e, step) l
  ]
  step-Listens c (leaves w) v q l = elim (Door-cases (v.doors w)) [
    | inl e ↦ rw (e, step) l
    | inr (inl (x, e)) ↦ rw (e, step) (finish-Listens w x v (ground (arith, q)) l)
    | inr (inr (x, e)) ↦ rw (e, step) l
  ]
  step-Listens c (publishes m alive cut) v q l = elim (Bool-cases v.hub.listening) [
    | inr ended ↦
        subst (λ h. Here (record v { hub = h })) (sym (relay-ended upper alive cut m v.hub ended)) l
    | inl runs ↦
        subst (λ h. Here (record v { hub = h })) (sym (relay-runs upper alive cut m v.hub runs))
          (dispatch-Listens alive cut m.user_id (routed m).0 (some (normalize upper m.symbol))
            (routed m).1 v q l)
  ]

  run-Listens :
      (c : Crypto) (ss : List (Step B)) (v : Server B)
      → All (λ s. is_quiet ws s ≡ true) ss
      → Here v
      → Here (run upper c ss v)
  unfolding run
  run-Listens c [] v q l = l
  run-Listens c (s ∷ ss) v q l = run-Listens c ss (step upper c s v) q.1 (step-Listens c s v q.0 l)

  -- The request that subscribes.
  subscribe-Listens :
      (c : Crypto) (alive : ℕ → Bool) (v : Server B)
      → v.doors ws ≡ opened u
      → alive ws ≡ true
      → Here (step upper c (receives ws (subscribe channel symbol) alive) v)
  unfolding step serve_frame answer connect
  subscribe-Listens c alive v e there =
      elim (Bool-cases
        (any_of (same_subscription (subscription upper ws u channel symbol)) v.hub.connections)) [
          | inl old ↦ rw (e, step, there, old) (record { served = e; subscribed_to = old })
          | inr new ↦
              rw (e, step, there, new)
                (record {
                  served = e;
                  subscribed_to =
                      any_of-push (same_subscription (subscription upper ws u channel symbol))
                        v.hub.connections (subscription upper ws u channel symbol)
                        (same_refl (subscription upper ws u channel symbol));
                })
        ]

  -- A screen gets its messages while the listener runs: a socket that is served and has subscribed to a
  -- channel and a symbol, and has neither left nor failed since, is sent each message on that channel
  -- whose symbol reads the same and that is for everyone or for its user, exactly once and after all
  -- that it was sent before, provided that no socket has come or gone during a send of this or of an
  -- earlier message, which ends the listener. The laws are those of `str.upper`.
  pub run_delivers :
      (c : Crypto) (before after : List (Step B)) (m : Message B) (alive alive' : ℕ → Bool)
      → IsUpper upper
      → (run upper c before started).doors ws ≡ opened u
      → alive ws ≡ true
      → All (λ s. is_quiet ws s ≡ true) after
      → Concerns upper ws u channel symbol m
      → alive' ws ≡ true
      → All IsWhole before
      → All IsWhole after
      → let v = run upper c before started in
        let w = run upper c after (step upper c (receives ws (subscribe channel symbol) alive) v) in
        sends_to ws (step upper c (publishes m alive' false) w).hub.sent
        ≡ sends_to ws w.hub.sent ++ (record { ws = ws; frame = (routed m).1 } ∷ [])
  unfolding step
  run_delivers c before after m alive alive' law e there quiet concerns there' whole whole' =
      let v = run upper c before started in
      let own = run-IsOwned upper c before started started-IsOwned in
      let one = receives ws (subscribe channel symbol) alive in
      let w = run upper c after (step upper c one v) in
      relay-sends_to upper ws u channel symbol alive' m w law concerns
        (run-IsOwned upper c after (step upper c one v) (step-IsOwned upper c one v own))
        (run-Listens c after (step upper c one v) quiet (subscribe-Listens c alive v e there))
        (run-listening upper c after (step upper c one v)
          (step-listening upper c one v (run-listening upper c before started refl whole) tt)
          whole')
        there'
