-- ===== src/Sockets/Delivery.antt =====
-- What a socket that has subscribed is sent.
use pios_backend.Sockets.Owners.{relay-runs, IsOwned}
use mathlib.Core.Path.{subst}
use pios_backend.Sockets.{
  Hub, of_user, code, strip_slashes, normalize, subscription, send_each, routed, dispatch, relay,
  Frame, Sending, in_bucket, same_subscription, Subscription, Message,
}
use pios_backend.Prelude.{
  sym, or_else, ◌∙◌, ◌⊎◌, Option, none, some, false, keep_if, ◌++◌, map, if◌then◌else◌, Bool,
  ==_iff, refl, ap, str_eq_iff, ◌==◌, Bool-cases, any_of, All, ℕ, String, ◌≡◌, inl, inr, true, ◌&&◌,
  List, [], ◌∷◌, arith,
}
use pios_backend.Sockets.Sets.{Distinct}
use pios_backend.Sockets.Server.{Server, Door, opened}

-- The same socket in the same bucket is the same subscription.
same_of_bucket :
    (doors : ℕ → Door) (channel symbol : String) (a b : Subscription)
    → in_bucket channel symbol a ≡ true
    → in_bucket channel symbol b ≡ true
    → (b.ws == a.ws) ≡ true
    → doors a.ws ≡ opened a.user_id
    → doors b.ws ≡ opened b.user_id
    → same_subscription a b ≡ true
same_of_bucket doors channel symbol a b i j w at_a at_b =
    let ws : b.ws ≡ a.ws = (==_iff b.ws a.ws).0 w in
    let door : doors b.ws ≡ doors a.ws = ap doors ws in
    let user : b.user_id ≡ a.user_id = cc in
    ground (
      arith,
      str_eq_iff a.channel channel,
      str_eq_iff b.channel channel,
      str_eq_iff b.channel a.channel,
      str_eq_iff a.symbol symbol,
      str_eq_iff b.symbol symbol,
      str_eq_iff b.symbol a.symbol,
    )

module _ (doors : ℕ → Door) (ws : ℕ) (channel symbol : String) (chosen : Subscription → Bool)
    (within : (b : Subscription) → chosen b ≡ true → in_bucket channel symbol b ≡ true) where
  -- In the sets of one bucket a socket stands at most once.
  any_of-same :
      (a : Subscription) (s : List Subscription)
      → in_bucket channel symbol a ≡ true
      → (a.ws == ws) ≡ true
      → doors a.ws ≡ opened a.user_id
      → All (λ b. doors b.ws ≡ opened b.user_id) s
      → any_of (λ b. chosen b && (b.ws == ws)) s ≡ true
      → any_of (same_subscription a) s ≡ true
  any_of-same a [] i w at listed h = h
  any_of-same a (b ∷ s) i w at listed h = elim (Bool-cases (chosen b && (b.ws == ws))) [
    | inr miss ↦ ground (arith, any_of-same a s i w at listed.1 (rw miss at h))
    | inl hit ↦
        let picked : in_bucket channel symbol b ≡ true = within b (ground (arith, hit)) in
        let same_ws : (b.ws == a.ws) ≡ true = ground (arith, hit, w) in
        rw (same_of_bucket doors channel symbol a b i picked same_ws at listed.0) refl
  ]

  chosen_once :
      (a : Subscription) (s : List Subscription)
      → (chosen a && (a.ws == ws)) ≡ true
      → doors a.ws ≡ opened a.user_id
      → All (λ b. doors b.ws ≡ opened b.user_id) s
      → any_of (same_subscription a) s ≡ false
      → any_of (λ b. chosen b && (b.ws == ws)) s ≡ false
  chosen_once a s hit at listed alone =
      elim (Bool-cases (any_of (λ b. chosen b && (b.ws == ws)) s)) [
        | inr nowhere ↦ nowhere
        | inl again ↦
            let picked : in_bucket channel symbol a ≡ true = within a (ground (arith, hit)) in
            let twice = any_of-same a s picked (ground (arith, hit)) at listed again in cc
      ]

-- What is sent to one socket.
abbrev pub sends_to : {B : Type 0} → ℕ → List (Sending B) → List (Sending B)
sends_to ws sent = keep_if (λ d. d.ws == ws) sent

module _ {B : Type 0} where
  sends_to-append :
      (ws : ℕ) (xs ys : List (Sending B))
      → sends_to ws (xs ++ ys) ≡ sends_to ws xs ++ sends_to ws ys
  sends_to-append ws [] ys = refl
  sends_to-append ws (x ∷ xs) ys = ground (arith, sends_to-append ws xs ys)

  -- A send to some sets within a bucket goes to a socket once, where it is in one of them and the
  -- send succeeds.
  sends_to-chosen :
      (ws : ℕ) (channel symbol : String) (chosen : Subscription → Bool) (alive : ℕ → Bool)
      (f : Frame B) (doors : ℕ → Door) (s : List Subscription)
      → ((b : Subscription) → chosen b ≡ true → in_bucket channel symbol b ≡ true)
      → Distinct s
      → All (λ b. doors b.ws ≡ opened b.user_id) s
      → sends_to ws
          (map (λ b. record { ws = b.ws; frame = f }) (keep_if (λ b. chosen b && alive b.ws) s))
        ≡ (if any_of (λ b. chosen b && (b.ws == ws)) s && alive ws
            then record { ws = ws; frame = f } ∷ []
            else [])
  sends_to-chosen ws channel symbol chosen alive f doors [] within distinct listed = refl
  sends_to-chosen ws channel symbol chosen alive f doors (a ∷ s) within distinct listed =
      let rest =
        sends_to-chosen ws channel symbol chosen alive f doors s within distinct.1 listed.1 in
      elim (Bool-cases (chosen a && (a.ws == ws))) [
        | inr miss ↦ ground (arith, rest, miss)
        | inl hit ↦
            let alone =
              chosen_once doors ws channel symbol chosen within a s hit listed.0 listed.1
                distinct.0 in
            let w : a.ws ≡ ws = (==_iff a.ws ws).0 (ground (arith, hit)) in
            let picked : chosen a ≡ true = ground (arith, hit) in
            ground (arith, rest, alone, picked, w, hit, ap alive w)
      ]

-- `str.upper` changes nothing of its own result, and neither makes nor removes a slash.
pub record IsUpper (upper : String → String) : Type 0 where
  pub again : (s : String) → upper (upper s) ≡ upper s
  pub slashes : (s : String) → strip_slashes (upper s) ≡ upper (strip_slashes s)

strip_slashes_again : (s : String) → strip_slashes (strip_slashes s) ≡ strip_slashes s
unfolding strip_slashes
strip_slashes_again String.[] = refl
strip_slashes_again (String.◌∷◌ c s) = elim (Bool-cases (code c == b'/')) [
  | inl slash ↦ rw slash (strip_slashes_again s)
  | inr kept ↦ rw (kept, kept, strip_slashes_again s) refl
]

normalize_again :
    (upper : String → String) (symbol : Option String)
    → IsUpper upper
    → normalize upper (some (normalize upper symbol)) ≡ normalize upper symbol
unfolding normalize
normalize_again upper symbol law =
    rw (law.slashes (strip_slashes (or_else symbol "")), strip_slashes_again, law.again) refl

any_of_mono :
    (p q : Subscription → Bool) (s : List Subscription)
    → ((b : Subscription) → p b ≡ true → q b ≡ true)
    → any_of p s ≡ true
    → any_of q s ≡ true
any_of_mono p q [] f h = h
any_of_mono p q (b ∷ s) f h = elim (Bool-cases (p b)) [
  | inl hit ↦ rw (f b hit) refl
  | inr miss ↦ ground (arith, any_of_mono p q s f (rw miss at h))
]

module _ {B : Type 0} (upper : String → String) (ws u : ℕ) (channel : String)
    (symbol : Option String) where
  -- The socket is served for the user, and is in the set of its subscription.
  pub record Listens (v : Server B) : Type 0 where
    pub served : v.doors ws ≡ opened u
    pub subscribed_to :
        any_of (same_subscription (subscription upper ws u channel symbol)) v.hub.connections ≡ true

  -- A message for everyone or for the user, on the channel and the symbol of the subscription.
  pub record Concerns (m : Message B) : Type 0 where
    pub public_or_own : (m.user_id ≡ none) ⊎ (m.user_id ≡ some u)
    pub same_channel : (routed m).0 ≡ channel
    pub same_symbol : normalize upper m.symbol ≡ normalize upper symbol

  send_each-sends_to :
      (chosen : Subscription → Bool) (alive : ℕ → Bool) (f : Frame B) (v : Server B)
      → ((b : Subscription) → chosen b ≡ true → in_bucket channel (normalize upper symbol) b ≡ true)
      → ((b : Subscription)
          → same_subscription (subscription upper ws u channel symbol) b ≡ true
          → (chosen b && (b.ws == ws)) ≡ true)
      → IsOwned v
      → Listens v
      → alive ws ≡ true
      → sends_to ws (send_each chosen alive false f v.hub).sent
        ≡ sends_to ws v.hub.sent ++ (record { ws = ws; frame = f } ∷ [])
  unfolding send_each
  send_each-sends_to chosen alive f v within covers o l there =
      let a = subscription upper ws u channel symbol in
      let found =
        any_of_mono (same_subscription a) (λ b. chosen b && (b.ws == ws)) v.hub.connections covers
          l.subscribed_to in
      sends_to-append ws v.hub.sent _
      ∙ ap (λ x. sends_to ws v.hub.sent ++ x)
          (sends_to-chosen ws channel (normalize upper symbol) chosen alive f v.doors
              v.hub.connections within o.distinct o.listed
            ∙ rw (found, there) refl)

  dispatch-sends_to :
      (alive : ℕ → Bool) (target : Option ℕ) (key : Option String) (f : Frame B) (v : Server B)
      → (target ≡ none) ⊎ (target ≡ some u)
      → normalize upper key ≡ normalize upper symbol
      → IsOwned v
      → Listens v
      → alive ws ≡ true
      → sends_to ws (dispatch upper alive false target channel key f v.hub).sent
        ≡ sends_to ws v.hub.sent ++ (record { ws = ws; frame = f } ∷ [])
  unfolding dispatch
  dispatch-sends_to alive none key f v t k o l there = rw k (
      send_each-sends_to (in_bucket channel (normalize upper symbol)) alive f v (λ b c. c)
        (λ b same. ground (arith, same)) o l there)
  dispatch-sends_to alive (some w) key f v t k o l there =
      let own : w ≡ u = elim t [ inl public ↦ cc | inr own ↦ cc ] in
      rw (k, own)
        (send_each-sends_to (of_user channel (normalize upper symbol) u) alive f v
          (λ b c. ground (arith, c)) (λ b same. ground (arith, same)) o l there)

  pub relay-sends_to :
      (alive : ℕ → Bool) (m : Message B) (v : Server B)
      → IsUpper upper
      → Concerns m
      → IsOwned v
      → Listens v
      → v.hub.listening ≡ true
      → alive ws ≡ true
      → sends_to ws (relay upper alive false m v.hub).sent
        ≡ sends_to ws v.hub.sent ++ (record { ws = ws; frame = (routed m).1 } ∷ [])
  unfolding relay
  relay-sends_to alive m v law k o l runs there =
      ap (λ h. sends_to ws (Hub.sent h)) (relay-runs upper alive false m v.hub runs)
      ∙ (subst
          (λ c.
            sends_to ws (
              Hub.sent (
                dispatch upper alive false m.user_id c (some (normalize upper m.symbol))
                  (routed m).1 v.hub))
            ≡ sends_to ws v.hub.sent ++ (record { ws = ws; frame = (routed m).1 } ∷ []))
          (sym k.same_channel)
          (dispatch-sends_to alive m.user_id (some (normalize upper m.symbol)) (routed m).1 v
            k.public_or_own (normalize_again upper m.symbol law ∙ k.same_symbol) o l there))
