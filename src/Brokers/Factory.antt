-- ===== src/Brokers/Factory.antt =====
-- Only who asked for simulated fills gets them (`create_broker`, `get_adapter`).
use pios_backend.Prelude.{
  is_some, ok_inj, not, ◌&&◌, [], ◌∷◌, ◌++◌, Bool-cases, Option-cases, Result, ok, err, ℕ, ◌≡◌,
  refl, sym, ap, ◌⊎◌, inl, inr, Bool, true, false, Option, some, List, arith,
}
use mathlib.Core.Path.{sym, subst}
use mathlib.Core.Option.{none}
use pios_backend.Brokers.{
  adapter_map, get_adapter, create_broker, BrokerType, Adapter, UnsupportedBroker, Connection,
  BrokerCreate, alpaca, binance, ccxt, mt5, oanda, paper_type, unmapped, paper_adapter,
}

-- Simulated fills were asked for: the connection is a paper one, or of the type PAPER.
abbrev pub AsksPaper : Connection → Type 0
AsksPaper b = (b.is_paper ≡ true) ⊎ (b.broker_type ≡ paper_type)

abbrev pub is_simulated : Adapter → Bool
is_simulated paper_adapter = true
is_simulated _ = false

abbrev simulated_of : Option Adapter → Bool
simulated_of none = false
simulated_of (some a) = is_simulated a

adapter_map-is_simulated :
    (t : BrokerType) (a : Adapter)
    → adapter_map t ≡ some a
    → (is_simulated a ≡ false) ⊎ (t ≡ paper_type)
unfolding adapter_map
adapter_map-is_simulated alpaca a e = inl (sym (ap simulated_of e))
adapter_map-is_simulated binance a e = inl (sym (ap simulated_of e))
adapter_map-is_simulated ccxt a e = inl (sym (ap simulated_of e))
adapter_map-is_simulated mt5 a e = inl (sym (ap simulated_of e))
adapter_map-is_simulated oanda a e = inl (sym (ap simulated_of e))
adapter_map-is_simulated paper_type a e = inr refl
adapter_map-is_simulated (unmapped s) a e = inl (sym (ap simulated_of e))

-- What `get_adapter` makes of a connection.
abbrev IsServed : Connection → Type 0
IsServed b = (a : Adapter) × (get_adapter b ≡ ok a) × ((is_simulated a ≡ false) ⊎ AsksPaper b)

abbrev row_of : Result UnsupportedBroker (Connection × List Connection) → Connection → Connection
row_of (ok r) d = r.0
row_of (err _) d = d

-- A connection that `create_broker` stores always gets an adapter from `get_adapter`, and a simulated
-- one only where it is a paper connection or of the type PAPER.
pub create_broker-get_adapter :
    (asked : BrokerCreate) (owner : ℕ) (rows rows' : List Connection) (b : Connection)
    → create_broker asked owner rows ≡ ok (b, rows')
    → (a : Adapter) × (get_adapter b ≡ ok a) × ((is_simulated a ≡ false) ⊎ AsksPaper b)
unfolding create_broker get_adapter
create_broker-get_adapter asked owner rows rows' b e =
    let row : Connection = record {
      owner_id = owner;
      name = asked.name;
      broker_type = asked.broker_type;
      exchange_id = asked.exchange_id;
      is_paper = asked.is_paper;
    } in
    elim (Option-cases (adapter_map asked.broker_type)) [
      | inr (a, mapped) ↦
          let same : row ≡ b = ap (λ r. row_of r b) (rw (mapped, create_broker) at e) in
          subst IsServed same (
            a,
            rw (mapped, get_adapter) refl,
            elim (adapter_map-is_simulated asked.broker_type a mapped) [
              | inl real ↦ inl real
              | inr papered ↦ inr (inr papered)
            ],
          )
      | inl no_adapter ↦ elim (Bool-cases asked.is_paper) [
        | inl on_paper ↦
            let guard : (not (is_some (adapter_map asked.broker_type)) && not asked.is_paper)
                ≡ false =
              rw (no_adapter, on_paper) refl in
            let created : create_broker asked owner rows ≡ ok (row, rows ++ (row ∷ [])) =
              rw (guard, create_broker) refl in
            let same : row ≡ b = ap (λ r. r.0) (ok_inj created e) in
            subst IsServed same
              (paper_adapter, rw (no_adapter, on_paper, get_adapter) refl, inr (inl on_paper))
        | inr live ↦ absurd (ground (arith, rw (no_adapter, live, create_broker) at e))
      ]
    ]
