-- ===== src/Order/Machine.antt =====
-- The graph of `ALLOWED_ORDER_TRANSITIONS`: which statuses an order can go through.
use pios_backend.Prelude.{
  ℕ, ◌<◌, ◌↔◌, ◌⊎◌, refl, ◌≡◌, inl, inr, Bool, true, false, Option, none, some, String, ok, err,
  arith, Bool-cases,
}
use pios_backend.Order.{
  is_working, is_open, Status, Order, transition, allowed_order_transitions, status_in, moved,
}

-- One accepted call of `transition`.
pub data Step {F : Type 0} (o : Order F) (o' : Order F) : Type 0 where
  move :
      (s : Status) (reason : Option String) (now : ℕ)
      → transition s reason now o ≡ ok o'
      → Step o o'

-- Any number of accepted calls.
pub data Reach {F : Type 0} (o : Order F) : Order F → Type 0 where
  here : Reach o o
  next : {p q : Order F} → Reach o p → Step p q → Reach o q

-- The statuses with no way out.
abbrev pub is_terminal : Option Status → Bool
is_terminal (some Status.filled) = true
is_terminal (some Status.cancelled) = true
is_terminal (some Status.rejected) = true
is_terminal (some Status.expired) = true
is_terminal _ = false

-- How far along its life an order is.
abbrev pub progress : Option Status → ℕ
progress none = 0
progress (some Status.new) = 1
progress (some Status.submitted) = 2
progress (some Status.partial) = 3
progress _ = 4

module _ {F : Type 0} where
  -- An accepted call writes the status that it asks for, which the table lists.
  pub transition_ok :
      (s : Status) (reason : Option String) (now : ℕ) (o : Order F) {o' : Order F}
      → transition s reason now o ≡ ok o'
      → (o' ≡ moved s reason now o) × (status_in s (allowed_order_transitions o.status) ≡ true)
  unfolding transition
  transition_ok s reason now o e =
      elim (Bool-cases (status_in s (allowed_order_transitions o.status))) [
        | inl yes_in ↦ (ground arith, yes_in)
        | inr not_in ↦ ground arith
      ]

  -- From a terminal status every call is refused.
  pub transition_terminal :
      (s : Status) (reason : Option String) (now : ℕ) (o : Order F)
      → is_terminal o.status ≡ true
      → transition s reason now o
        ≡ err (record { current_status = o.status; new_status = s; order_id = o.id })
  unfolding transition
  transition_terminal s reason now o h = rw (no_way_out o.status s h)
    where
      no_way_out :
          (a : Option Status) (b : Status)
          → is_terminal a ≡ true
          → status_in b (allowed_order_transitions a) ≡ false
      no_way_out none b h = cc
      no_way_out (some Status.new) b h = cc
      no_way_out (some Status.submitted) b h = cc
      no_way_out (some Status.partial) b h = cc
      no_way_out (some Status.filled) b h = refl
      no_way_out (some Status.cancelled) b h = refl
      no_way_out (some Status.rejected) b h = refl
      no_way_out (some Status.expired) b h = refl

-- The same status, or one further along.
abbrev pub Later : Option Status → Option Status → Type 0
Later a b = (a ≡ b) ⊎ (progress a < progress b)

Later-trans : (a b c : Option Status) → Later a b → Later b c → Later a c
Later-trans a b c h k = ground arith

abbrev pub CanBecome : Option Status → Status → Type 0
CanBecome a s = Later a (some s)

abbrev listed : Option Status → Status → Bool
listed a s = status_in s (allowed_order_transitions a)

listed-CanBecome : (a : Option Status) (s : Status) → listed a s ≡ true → CanBecome a s
unfolding status_in allowed_order_transitions
listed-CanBecome none s h = ground arith
listed-CanBecome (some Status.new) s h = ground arith
listed-CanBecome (some a) s h = ground arith

-- What lies further along is listed, or listed from SUBMITTED, which is.
hop :
    (a : Option Status) (s : Status)
    → progress a < progress (some s)
    → (listed a s ≡ true)
      ⊎ ((listed a Status.submitted ≡ true) × (listed (some Status.submitted) s ≡ true))
unfolding status_in allowed_order_transitions
hop none s h = ground arith
hop (some Status.new) s h = ground arith
hop (some a) s h = ground arith

module _ {F : Type 0} where
  move_to :
      (s : Status) (o : Order F)
      → listed o.status s ≡ true
      → (o' : Order F) × Step o o' × (o'.status ≡ some s)
  unfolding transition
  move_to s o h = (moved s none 0 o, move s none 0 (rw h), refl)

  Step-Later : {o o' : Order F} → Step o o' → Later o.status o'.status
  Step-Later {o} (move s reason now e) =
      let (written, in_table) = transition_ok s reason now o e in
      rw written (listed-CanBecome o.status s in_table)

  -- An order's status is never an earlier one again.
  pub Reach-Later : {o o' : Order F} → Reach o o' → Later o.status o'.status
  Reach-Later here = inl refl
  Reach-Later (next r st) = Later-trans _ _ _ (Reach-Later r) (Step-Later st)

  -- The statuses that an order can reach by accepted calls are the one that it has, and all those
  -- with more progress (none, NEW, SUBMITTED, PARTIAL, then the four terminal ones).
  pub Reach-iff :
      (o : Order F) (s : Status)
      → ((o' : Order F) × Reach o o' × (o'.status ≡ some s)) ↔ CanBecome o.status s
  Reach-iff o s = (
    λ (o', r, e). rw e at (Reach-Later r),
    elim [
      | inl same ↦ (o, here, same)
      | inr further ↦ elim (hop o.status s further) [
        | inl direct ↦ let (o', st, e) = move_to s o direct in (o', next here st, e)
        | inr (first, second) ↦
            let (p, st, e) = move_to Status.submitted o first in
            let (o', st', e') = move_to s p (rw e second) in (o', next (next here st) st', e')
      ]
    ],
  )

-- What a working order (SUBMITTED or PARTIAL) can be told to become.
abbrev pub is_outcome : Status → Bool
is_outcome Status.new = false
is_outcome Status.submitted = false
is_outcome _ = true

outcome_listed :
    (a : Option Status) (s : Status) → is_working a ≡ true → is_outcome s ≡ true → listed a s ≡ true
unfolding is_working status_in allowed_order_transitions
outcome_listed none s w h = cc
outcome_listed (some a) s w h = ground arith

cancel_listed : (a : Option Status) → is_open a ≡ true → listed a Status.cancelled ≡ true
unfolding is_open status_in allowed_order_transitions
cancel_listed none w = cc
cancel_listed (some a) w = ground arith

module _ {F : Type 0} where
  -- A working order accepts every outcome.
  pub transition_working :
      (s : Status) (reason : Option String) (now : ℕ) (o : Order F)
      → is_working o.status ≡ true
      → is_outcome s ≡ true
      → transition s reason now o ≡ ok (moved s reason now o)
  unfolding transition
  transition_working s reason now o w h = ground (arith, outcome_listed o.status s w h)

  -- An open order can be cancelled.
  pub transition_cancel :
      (reason : Option String) (now : ℕ) (o : Order F)
      → is_open o.status ≡ true
      → transition Status.cancelled reason now o ≡ ok (moved Status.cancelled reason now o)
  unfolding transition
  transition_cancel reason now o w = ground (arith, cancel_listed o.status w)
