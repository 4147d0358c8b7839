-- ===== src/Tests/Fanout.antt =====
-- The sockets of the screens.
use pios_backend.Prelude.{
  false, if◌then◌else◌, any_of, All, ℕ, String, ◌≡◌, refl, inr, Bool, true, none, some, List, [],
  ◌∷◌, ◌++◌, map, str_eq,
}
use pios_backend.Sockets.{strip_slashes, normalize, trade_message, plain}
use pios_backend.Auth.{Crypto, access}
use pios_backend.Order.{Status}
use pios_backend.Store.{Event, order_update, position_update}
use pios_backend.Sockets.Owners.{meant_for}
use pios_backend.Sockets.Delivery.{sends_to, IsUpper}
use pios_backend.Sockets.Server.{
  Step, extract_token, get_ws_user, step, run, started, Handshake, subscribe, arrives, receives,
  leaves, publishes,
}
use pios_backend.Sockets.Listening.{run_delivers}
use pios_backend.Sockets.Private.{signs_in, run_private}
use pios_backend.Num.Ints.{ℤ, pos}

-- Two tokens decode, each to its own user, until instant 900.
abbrev two_tokens : Crypto
two_tokens = record {
  hash_password = λ p. p;
  verify_password = str_eq;
  encode = λ k. "access";
  decode_token = λ t s.
      if str_eq s "ann"
      then some (record { sub = some 7; exp = 900; kind = access; jti = none })
      else if str_eq s "bob"
      then some (record { sub = some 8; exp = 900; kind = access; jti = none })
      else none;
  sha256 = λ s. s;
  encrypt = λ s. s;
  decrypt = λ s. s;
  totp_verify = λ t secret code. str_eq secret code;
}

abbrev with_token : String → Handshake
with_token t = record { query = some t; bearer = none }

-- The symbols of the examples have no lower case.
abbrev as_is : String → String
as_is s = s

as_is-IsUpper : IsUpper as_is
as_is-IsUpper = record { again = λ s. refl; slashes = λ s. refl }

-- Ann on socket 1 and Bob on socket 2; Ann's orders screen subscribes.
abbrev both_arrive : List (Step (Event ℤ))
both_arrive = arrives 1 100 (with_token "ann") ∷ arrives 2 100 (with_token "bob") ∷ []

abbrev up : ℕ → Bool
up ws = true

-- Bob subscribes too, and is gone when a message for him is sent.
abbrev bob_goes : List (Step (Event ℤ))
bob_goes =
    receives 2 (subscribe "orders" (some "")) up
    ∷ publishes (trade_message (position_update 8)) up false
    ∷ leaves 2
    ∷ []

abbrev filled_event : Event ℤ
filled_event = order_update 7 12 (some Status.filled) (pos 3)

run_delivers_example :
    sends_to 1
      (step as_is two_tokens (publishes (trade_message filled_event) up false) (
        run as_is two_tokens bob_goes (
          step as_is two_tokens
            (receives 1 (subscribe "orders" (some "")) up)
            (run as_is two_tokens both_arrive started)))).hub.sent
    ≡ sends_to 1
        (run as_is two_tokens bob_goes (
          step as_is two_tokens
            (receives 1 (subscribe "orders" (some "")) up)
            (run as_is two_tokens both_arrive started))).hub.sent
      ++ (record { ws = 1; frame = plain (trade_message filled_event) } ∷ [])
unfolding run step get_ws_user extract_token trade_message normalize strip_slashes
run_delivers_example =
    run_delivers as_is 1 7 "orders" (some "") two_tokens both_arrive bob_goes
      (trade_message filled_event) up up as_is-IsUpper refl refl (refl, (refl, (refl, tt)))
      (record { public_or_own = inr refl; same_channel = refl; same_symbol = refl }) refl
      (tt, (tt, tt)) (tt, (refl, (tt, tt)))

run_private_example :
    All
      (λ d.
        (u : ℕ)
        → meant_for d.frame ≡ some u
        → any_of (signs_in two_tokens d.ws u) (
            both_arrive
            ++ (receives 1 (subscribe "orders" none) up
                ∷ publishes (trade_message filled_event) up false
                ∷ []))
          ≡ true)
      (run as_is two_tokens
        (both_arrive
          ++ (receives 1 (subscribe "orders" none) up
              ∷ publishes (trade_message filled_event) up false
              ∷ []))
        started).hub.sent
run_private_example = run_private as_is two_tokens (
    both_arrive
    ++ (receives 1 (subscribe "orders" none) up
        ∷ publishes (trade_message filled_event) up false
        ∷ []))

-- Of two screens only that of the order's trader is sent its update.
to_ann_alone :
    map
      (λ d. d.ws)
      (run as_is two_tokens
        (both_arrive
          ++ (receives 1 (subscribe "orders" none) up
              ∷ receives 2 (subscribe "orders" none) up
              ∷ publishes (trade_message filled_event) up false
              ∷ []))
        started).hub.sent
    ≡ 1 ∷ 2 ∷ 1 ∷ []
unfolding run step get_ws_user extract_token trade_message normalize strip_slashes
to_ann_alone = refl
