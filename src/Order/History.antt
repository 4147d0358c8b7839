-- ===== src/Order/History.antt =====
-- `state_history` and the cascaded events of an order.
use pios_backend.Prelude.{
  ℕ, ◌≡◌, refl, ap, sym, ◌∙◌, true, Option, none, some, String, List, [], ◌∷◌, ◌++◌, map, ok,
}
use pios_backend.Order.{
  Status, HistoryEntry, Order, transition, allowed_order_transitions, status_in,
}
use pios_backend.Order.Machine.{move, Reach, here, next, transition_ok}

-- The entries lead from one status to another, each an accepted move from where the last one ended.
abbrev pub Leads : Option Status → List HistoryEntry → Option Status → Type 0
Leads a [] b = a ≡ b
Leads a (e ∷ es) b =
    (e.from ≡ a) × (status_in e.to (allowed_order_transitions a) ≡ true) × Leads (some e.to) es b

-- The history tells how the order came from its creation to its status, and the events are the
-- statuses of the history.
pub record IsTracked {F : Type 0} (o : Order F) : Type 0 where
  pub leads : Leads none o.state_history o.status
  pub events : o.events ≡ map (λ e. e.to) o.state_history

Leads-snoc :
    (a : Option Status) (es : List HistoryEntry) (b : Option Status) (e : HistoryEntry)
    → Leads a es b
    → e.from ≡ b
    → status_in e.to (allowed_order_transitions b) ≡ true
    → Leads a (es ++ (e ∷ [])) (some e.to)
Leads-snoc a [] b e h f m = (f ∙ sym h, rw h m, refl)
Leads-snoc a (x ∷ es) b e h f m = (h.0, h.1, Leads-snoc (some x.to) es b e h.2 f m)

map-snoc :
    (es : List HistoryEntry) (e : HistoryEntry)
    → map (λ e. e.to) (es ++ (e ∷ [])) ≡ map (λ e. e.to) es ++ (e.to ∷ [])
map-snoc [] e = refl
map-snoc (x ∷ es) e = ap (◌∷◌ x.to) (map-snoc es e)

module _ {F : Type 0} where
  -- An accepted call of `transition` keeps the history faithful.
  pub transition-IsTracked :
      (s : Status) (reason : Option String) (now : ℕ) (o : Order F) {o' : Order F}
      → IsTracked o
      → transition s reason now o ≡ ok o'
      → IsTracked o'
  transition-IsTracked s reason now o t e =
      let (written, in_table) = transition_ok s reason now o e in
      rw written (record {
        leads = Leads-snoc none o.state_history o.status _ t.leads refl in_table;
        events = rw (map-snoc, t.events);
      })

  -- Whatever calls an order goes through, its history is a run of the state machine from its
  -- creation to its status, and its events are the statuses of that run.
  pub Reach-IsTracked : {o o' : Order F} → IsTracked o → Reach o o' → IsTracked o'
  Reach-IsTracked t here = t
  Reach-IsTracked t (next {p} r (move s reason now e)) =
      transition-IsTracked s reason now p (Reach-IsTracked t r) e
