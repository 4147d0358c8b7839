-- ===== src/Sockets/Sets.antt =====
-- The sets of sockets of the manager.
use pios_backend.Sockets.{same_subscription, Subscription}
use pios_backend.Prelude.{
  ◌==◌, Bool-cases, keep_if, any_of, ℕ, String, ◌≡◌, refl, ◌∙◌, inl, inr, Bool, false, List, [],
  ◌∷◌, ◌++◌, arith, str_eq, str_eq_iff,
}

-- No socket is twice in one set.
abbrev pub Distinct : List Subscription → Type 0
Distinct [] = Unit {0}
Distinct (a ∷ s) = (any_of (same_subscription a) s ≡ false) × Distinct s

str_eq_sym : (s t : String) → str_eq s t ≡ str_eq t s
str_eq_sym s t = ground (arith, str_eq_iff s t, str_eq_iff t s)

nat_eq_sym : (a b : ℕ) → (a == b) ≡ (b == a)
nat_eq_sym a b = ground arith

same_sym : (a b : Subscription) → same_subscription a b ≡ same_subscription b a
same_sym a b =
    rw
      (
        str_eq_sym a.channel b.channel,
        str_eq_sym a.symbol b.symbol,
        nat_eq_sym a.user_id b.user_id,
        nat_eq_sym a.ws b.ws,
      )
      refl

any_of-keep_if :
    (p q : Subscription → Bool) (s : List Subscription)
    → any_of q s ≡ false
    → any_of q (keep_if p s) ≡ false
any_of-keep_if p q [] e = refl
any_of-keep_if p q (a ∷ s) e = ground (arith, any_of-keep_if p q s)

any_of-snoc :
    (q : Subscription → Bool) (s : List Subscription) (a : Subscription)
    → any_of q s ≡ false
    → q a ≡ false
    → any_of q (s ++ (a ∷ [])) ≡ false
any_of-snoc q [] a e f = rw f refl
any_of-snoc q (b ∷ s) a e f = ground (arith, any_of-snoc q s a)

pub Distinct-keep_if :
    (p : Subscription → Bool) (s : List Subscription) → Distinct s → Distinct (keep_if p s)
Distinct-keep_if p [] h = tt
Distinct-keep_if p (a ∷ s) h = elim (Bool-cases (p a)) [
  | inl hit ↦ rw hit (any_of-keep_if p (same_subscription a) s h.0, Distinct-keep_if p s h.1)
  | inr miss ↦ rw miss (Distinct-keep_if p s h.1)
]

pub Distinct-snoc :
    (a : Subscription) (s : List Subscription)
    → any_of (same_subscription a) s ≡ false
    → Distinct s
    → Distinct (s ++ (a ∷ []))
Distinct-snoc a [] e h = (refl, tt)
Distinct-snoc a (b ∷ s) e h =
    let off : same_subscription a b ≡ false = ground (arith, e) in
    let rest : any_of (same_subscription a) s ≡ false = ground (arith, e) in
    (any_of-snoc (same_subscription b) s a h.0 (same_sym b a ∙ off), Distinct-snoc a s rest h.1)
