-- ===== src/Sockets/Server.antt =====
-- The endpoint of a socket (app/api/v1/endpoints/websocket.py) with its sign-in (app/core/ws_auth.py),
-- and the steps of a process that serves several.
use pios_backend.Prelude.{
  ℕ, String, Bool, true, Option, none, some, List, [], ◌∷◌, ◌++◌, ◌==◌, ltb, if◌then◌else◌,
  is_empty,
}
use pios_backend.Auth.{Crypto}
use pios_backend.Sockets.{
  Message, Frame, subscribed, pong, Hub, subscription, connect, disconnect, relay,
}

-- The query parameter `token`, and the token of an Authorization header with the scheme "bearer".
pub record Handshake : Type 0 where
  pub query : Option String
  pub bearer : Option String

-- What a client sends: `malformed` is a frame without the keys that are read, or not JSON.
pub data Request : Type 0 where
  subscribe : String → Option String → Request
  ping other malformed : Request

-- One call of the endpoint: its local `user_id`, while it runs and after it.
pub data Door : Type 0 where
  unopened : Door
  opened : ℕ → Door
  closed : Option ℕ → Door

abbrev pub owner : Door → Option ℕ
owner unopened = none
owner (opened u) = some u
owner (closed u) = u

pub record Server (B : Type 0) : Type 0 where
  pub doors : ℕ → Door
  pub hub : Hub B

-- `_extract_token`
unfoldable pub extract_token : Handshake → Option String
extract_token h = elim h.query [
  | none ↦ h.bearer
  | some t ↦ if is_empty t then h.bearer else some t
]

-- `get_ws_user`; `none` is the exception that closes the socket.
unfoldable pub get_ws_user : Crypto → ℕ → Handshake → Option ℕ
unfolding extract_token
get_ws_user c now h = elim (extract_token h) [
  | none ↦ none
  | some token ↦ if is_empty token then none else elim (c.decode_token now token) [
    | none ↦ none
    | some claims ↦ if ltb claims.exp now then none else claims.sub
  ]
]

-- What happens to a process: a socket arrives, a client sends a frame, a client is gone, Redis
-- delivers a message. The tests say on which sockets a send succeeds, and the truth value of a message whether a
-- socket comes or goes while it is sent.
pub data Step (B : Type 0) : Type 0 where
  arrives : ℕ → ℕ → Handshake → Step B
  receives : ℕ → Request → (ℕ → Bool) → Step B
  leaves : ℕ → Step B
  publishes : Message B → (ℕ → Bool) → Bool → Step B

abbrev pub set_door : ℕ → Door → (ℕ → Door) → ℕ → Door
set_door ws d doors i = if i == ws then d else doors i

abbrev pub door_of : Option ℕ → Door
door_of none = closed none
door_of (some u) = opened u

abbrev pub sign_in : Crypto → ℕ → Handshake → Door
sign_in c now shake = door_of (get_ws_user c now shake)

module _ {B : Type 0} where
  -- The endpoint's `finally`.
  unfoldable pub finish : ℕ → ℕ → Server B → Server B
  unfolding disconnect
  finish ws u v = record {
    doors = set_door ws (closed (some u)) v.doors;
    hub = disconnect ws v.hub;
  }

  -- An answer, after which the endpoint goes on, or is through when it cannot be sent.
  unfoldable pub answer : ℕ → ℕ → (ℕ → Bool) → Frame B → Server B → Server B
  unfolding finish
  answer ws u alive frame v =
      if alive ws
      then record v {
        hub = record v.hub { sent = v.hub.sent ++ (record { ws = ws; frame = frame } ∷ []) };
      }
      else finish ws u v

  unfoldable pub serve_frame :
      (String → String) → ℕ → ℕ → Request → (ℕ → Bool) → Server B → Server B
  unfolding answer connect finish
  serve_frame upper ws u (subscribe channel symbol) alive v =
      answer ws u alive (subscribed channel symbol)
        (record v { hub = connect (subscription upper ws u channel symbol) v.hub })
  serve_frame upper ws u ping alive v = answer ws u alive pong v
  serve_frame upper ws u other alive v = v
  serve_frame upper ws u malformed alive v = finish ws u v

  -- `websocket_endpoint` and `start_redis_listener`, one step at a time. A socket is served once.
  unfoldable pub step : (String → String) → Crypto → Step B → Server B → Server B
  unfolding serve_frame finish relay
  step upper c (arrives ws now shake) v = elim (v.doors ws) [
    | unopened ↦ record v { doors = set_door ws (sign_in c now shake) v.doors }
    | opened _ ↦ v
    | closed _ ↦ v
  ]
  step upper c (receives ws request alive) v = elim (v.doors ws) [
    | unopened ↦ v
    | opened u ↦ serve_frame upper ws u request alive v
    | closed _ ↦ v
  ]
  step upper c (leaves ws) v = elim (v.doors ws) [
    | unopened ↦ v
    | opened u ↦ finish ws u v
    | closed _ ↦ v
  ]
  step upper c (publishes m alive cut) v = record v { hub = relay upper alive cut m v.hub }

  unfoldable pub run : (String → String) → Crypto → List (Step B) → Server B → Server B
  run upper c [] v = v
  run upper c (s ∷ ss) v = run upper c ss (step upper c s v)

  -- A process that has just started.
  abbrev pub started : Server B
  started = record {
    doors = λ _. unopened;
    hub = record { connections = []; sent = []; listening = true };
  }
