-- ===== src/Sockets.antt =====
-- The sockets of the screens: the hub (app/services/websocket/manager.py), the endpoint that serves one
-- socket (app/api/v1/endpoints/websocket.py, app/core/ws_auth.py), the listener that relays messages to
-- the hub (app/core/pubsub.py) and the messages of app/services/trade_events.py. A send to some sets is
-- one step, which is told whether a socket comes or goes meanwhile: the loop over the sets then raises.
pub mod Server
pub mod Sets
pub mod Owners
pub mod Private
pub mod Delivery
pub mod Listening
use pios_backend.Prelude.{
  ℕ, String, Bool, false, not, ◌&&◌, ◌||◌, Option, none, some, List, [], ◌∷◌, ◌++◌, ◌==◌,
  if◌then◌else◌, str_eq, or_else, any_of, keep_if, map,
}
use pios_backend.Store.{Event, order_update, position_update}
use Prim.Native.Char.{code}

-- What is published to Redis; `body` stands for the keys that no one routes by.
pub record Message (B : Type 0) : Type 0 where
  pub channel : String
  pub symbol : Option String
  pub user_id : Option ℕ
  pub body : B

-- What a socket is sent: a message, one with the keys of a tick or of a candle before its own, or an
-- answer of the endpoint.
pub data Frame (B : Type 0) : Type 0 where
  plain tick candle : Message B → Frame B
  subscribed : String → Option String → Frame B
  pong : Frame B

-- One socket in one of the sets `connections[channel][symbol][user_id]`.
pub record Subscription : Type 0 where
  pub channel : String
  pub symbol : String
  pub user_id : ℕ
  pub ws : ℕ

pub record Sending (B : Type 0) : Type 0 where
  pub ws : ℕ
  pub frame : Frame B

-- `connections`, what has been sent, and whether the listener of Redis is running.
pub record Hub (B : Type 0) : Type 0 where
  pub connections : List Subscription
  pub sent : List (Sending B)
  pub listening : Bool

-- `replace("/", "")`
unfoldable pub strip_slashes : String → String
strip_slashes String.[] = String.[]
strip_slashes (String.◌∷◌ c s) =
    if code c == b'/' then strip_slashes s else String.◌∷◌ c (strip_slashes s)

-- `_normalize`; `upper` is `str.upper`.
unfoldable pub normalize : (String → String) → Option String → String
normalize upper symbol = upper (strip_slashes (or_else symbol ""))

abbrev pub in_bucket : String → String → Subscription → Bool
in_bucket channel symbol s = str_eq s.channel channel && str_eq s.symbol symbol

abbrev pub of_user : String → String → ℕ → Subscription → Bool
of_user channel symbol user_id s = in_bucket channel symbol s && (s.user_id == user_id)

abbrev pub same_subscription : Subscription → Subscription → Bool
same_subscription a s = of_user a.channel a.symbol a.user_id s && (s.ws == a.ws)

abbrev pub subscription : (String → String) → ℕ → ℕ → String → Option String → Subscription
subscription upper ws user_id channel symbol = record {
  channel = channel;
  symbol = normalize upper symbol;
  user_id = user_id;
  ws = ws;
}

module _ {B : Type 0} where
  -- `WSManager.connect`
  unfoldable pub connect : Subscription → Hub B → Hub B
  connect a h =
      if any_of (same_subscription a) h.connections
      then h
      else record h { connections = h.connections ++ (a ∷ []) }

  -- `WSManager.disconnect`
  unfoldable pub disconnect : ℕ → Hub B → Hub B
  disconnect ws h = record h { connections = keep_if (λ s. not (s.ws == ws)) h.connections }

  -- A send to each socket of some sets, given those on which it succeeds. The sockets on which it fails
  -- leave these sets. Where one of the sets changes during the loop (`cut`), the loop raises at its next
  -- turn: `alive` then names the sockets that it has reached, none leaves, and the listener ends.
  unfoldable pub send_each : (Subscription → Bool) → (ℕ → Bool) → Bool → Frame B → Hub B → Hub B
  send_each chosen alive cut frame h = record {
    connections = keep_if (λ s. cut || not (chosen s) || alive s.ws) h.connections;
    listening = h.listening && not cut;
    sent =
        h.sent
        ++ map (λ s. record { ws = s.ws; frame = frame })
            (keep_if (λ s. chosen s && alive s.ws) h.connections);
  }

  -- `WSManager.send_to_user` and `WSManager.broadcast_symbol`, given on which sockets a send succeeds and whether it is cut.
  unfoldable pub send_to_user :
      (String → String) → (ℕ → Bool) → Bool → ℕ → String → Option String → Frame B → Hub B → Hub B
  unfolding send_each normalize
  send_to_user upper alive cut user_id channel symbol frame h =
      send_each (of_user channel (normalize upper symbol) user_id) alive cut frame h

  unfoldable pub broadcast_symbol :
      (String → String) → (ℕ → Bool) → Bool → String → Option String → Frame B → Hub B → Hub B
  unfolding send_each normalize
  broadcast_symbol upper alive cut channel symbol frame h =
      send_each (in_bucket channel (normalize upper symbol)) alive cut frame h

  -- The hub's channel and the frame of a message.
  abbrev pub routed : Message B → String × Frame B
  routed m =
      if str_eq m.channel "market_ticks"
      then ("ticks", tick m)
      else if str_eq m.channel "market_candles"
      then ("candles", candle m)
      else (m.channel, plain m)

  -- To the user whom a message names, or to everyone.
  unfoldable pub dispatch :
      (String → String)
      → (ℕ → Bool)
      → Bool
      → Option ℕ
      → String
      → Option String
      → Frame B
      → Hub B
      → Hub B
  unfolding send_to_user broadcast_symbol
  dispatch upper alive cut (some u) channel symbol frame h =
      send_to_user upper alive cut u channel symbol frame h
  dispatch upper alive cut none channel symbol frame h =
      broadcast_symbol upper alive cut channel symbol frame h

  -- A message of `start_redis_listener`, which is not started again once it has ended.
  unfoldable pub relay : (String → String) → (ℕ → Bool) → Bool → Message B → Hub B → Hub B
  unfolding dispatch
  relay upper alive cut m h =
      if h.listening
      then dispatch upper alive cut m.user_id (routed m).0 (some (normalize upper m.symbol))
          (routed m).1 h
      else h

-- `publish_order_event` and `publish_position_event`: a message for one trader, with no symbol.
unfoldable pub trade_message : {F : Type 0} → Event F → Message (Event F)
trade_message (order_update u i status filled) = record {
  channel = "orders";
  symbol = none;
  user_id = some u;
  body = order_update u i status filled;
}
trade_message (position_update u) = record {
  channel = "positions";
  symbol = none;
  user_id = some u;
  body = position_update u;
}
