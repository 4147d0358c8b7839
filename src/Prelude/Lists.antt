-- ===== src/Prelude/Lists.antt =====
-- Lists measured by native numbers, and searched, counted and updated by Boolean tests.
use Prim.Native.Nat.{ℕ, zero, suc, ◌+◌}
use mathlib.Core.Path.{◌≡◌, refl, ap, subst}
use mathlib.Core.Logic.{inl, inr}
use mathlib.Core.Bool.{Bool, true, false}
use mathlib.Core.List.{List, [], ◌∷◌, ◌++◌, map}
use mathlib.Core.Option.{Option, none, some, some-injective}
use native.Mathlib.Omega.{arith}
use pios_backend.Prelude.Tests.{if◌then◌else◌, Bool-cases}

module _ {ℓ} {A : Type ℓ} where
  abbrev pub length : List A → ℕ
  length [] = 0
  length (x ∷ xs) = suc (length xs)

  pub length-append : (xs ys : List A) → length (xs ++ ys) ≡ length xs + length ys
  length-append [] ys = omega arith
  length-append (x ∷ xs) ys = omega (arith, length-append xs ys)

  -- The rows that pass a test, in order.
  abbrev pub keep_if : (A → Bool) → List A → List A
  keep_if p [] = []
  keep_if p (x ∷ xs) = if p x then x ∷ keep_if p xs else keep_if p xs

  -- The first row that passes a test.
  abbrev pub find_first : (A → Bool) → List A → Option A
  find_first p [] = none
  find_first p (x ∷ xs) = if p x then some x else find_first p xs

  abbrev pub any_of : (A → Bool) → List A → Bool
  any_of p [] = false
  any_of p (x ∷ xs) = if p x then true else any_of p xs

  abbrev pub all_of : (A → Bool) → List A → Bool
  all_of p [] = true
  all_of p (x ∷ xs) = if p x then all_of p xs else false

  -- An update of the rows that pass a test; the others stay.
  abbrev pub update_if : (A → Bool) → (A → A) → List A → List A
  update_if p f [] = []
  update_if p f (x ∷ xs) = (if p x then f x else x) ∷ update_if p f xs

  pub length-update_if :
      (p : A → Bool) (f : A → A) (xs : List A) → length (update_if p f xs) ≡ length xs
  length-update_if p f [] = refl
  length-update_if p f (x ∷ xs) = ap suc (length-update_if p f xs)

  -- Every item satisfies a predicate.
  abbrev pub All {κ} : (A → Type κ) → List A → Type κ
  All P [] = Unit
  All P (x ∷ xs) = P x × All P xs

  pub All-append {κ} : (P : A → Type κ) (xs ys : List A) → All P xs → All P ys → All P (xs ++ ys)
  All-append P [] ys p q = q
  All-append P (x ∷ xs) ys p q = (p.0, All-append P xs ys p.1 q)

  abbrev pub get_elem? : List A → ℕ → Option A
  get_elem? [] i = none
  get_elem? (x ∷ xs) zero = some x
  get_elem? (x ∷ xs) (suc i) = get_elem? xs i

  abbrev pub last? : List A → Option A
  last? [] = none
  last? (x ∷ []) = some x
  last? (x ∷ y ∷ xs) = last? (y ∷ xs)

module _ {ℓ κ} {A : Type ℓ} (P : A → Type κ) (p : A → Bool) where
  pub All-find_first :
      (xs : List A) {a : A} → All P xs → find_first p xs ≡ some a → P a × (p a ≡ true)
  All-find_first [] h e = cc
  All-find_first (x ∷ xs) {a} h e = elim (Bool-cases (p x)) [
    | inl hit ↦
        let same : x ≡ a = some-injective _ _ (rw hit at e) in
        (subst P same h.0, subst (λ y. p y ≡ true) same hit)
    | inr miss ↦ All-find_first xs h.1 (rw miss at e)
  ]

  pub All-update_if :
      (f : A → A) (xs : List A)
      → ((x : A) → p x ≡ true → P x → P (f x))
      → All P xs
      → All P (update_if p f xs)
  All-update_if f [] keep h = tt
  All-update_if f (x ∷ xs) keep h = elim (Bool-cases (p x)) [
    | inl hit ↦ rw hit (keep x hit h.0, All-update_if f xs keep h.1)
    | inr miss ↦ rw miss (h.0, All-update_if f xs keep h.1)
  ]

  pub All-keep_if : (xs : List A) → All P xs → All P (keep_if p xs)
  All-keep_if [] h = tt
  All-keep_if (x ∷ xs) h = elim (Bool-cases (p x)) [
    | inl hit ↦ rw hit (h.0, All-keep_if xs h.1)
    | inr miss ↦ rw miss (All-keep_if xs h.1)
  ]

pub All-map {ℓ κ μ} :
    {A : Type ℓ} {B : Type κ} (P : B → Type μ) (f : A → B) (xs : List A)
    → All (λ x. P (f x)) xs
    → All P (map f xs)
All-map P f [] h = tt
All-map P f (x ∷ xs) h = (h.0, All-map P f xs h.1)

module _ {ℓ κ} {A : Type ℓ} (P Q : A → Type κ) where
  pub All-mono : (xs : List A) → ((x : A) → P x → Q x) → All P xs → All Q xs
  All-mono [] f h = tt
  All-mono (x ∷ xs) f h = (f x h.0, All-mono xs f h.1)

  -- One row takes the place of those that pass a test.
  pub All-replace :
      (p : A → Bool) (y : A) (xs : List A)
      → Q y
      → ((x : A) → p x ≡ false → P x → Q x)
      → All P xs
      → All Q (update_if p (λ _. y) xs)
  All-replace p y [] q f h = tt
  All-replace p y (x ∷ xs) q f h = elim (Bool-cases (p x)) [
    | inl hit ↦ rw hit (q, All-replace p y xs q f h.1)
    | inr miss ↦ rw miss (f x miss h.0, All-replace p y xs q f h.1)
  ]

  -- The rows that a test keeps pass it.
  pub All-keep_if_mono :
      (p : A → Bool) (xs : List A)
      → ((x : A) → p x ≡ true → P x → Q x)
      → All P xs
      → All Q (keep_if p xs)
  All-keep_if_mono p [] f h = tt
  All-keep_if_mono p (x ∷ xs) f h = elim (Bool-cases (p x)) [
    | inl hit ↦ rw hit (f x hit h.0, All-keep_if_mono p xs f h.1)
    | inr miss ↦ rw miss (All-keep_if_mono p xs f h.1)
  ]

module _ {ℓ} {A : Type ℓ} (p : A → Bool) where
  pub find_first-passes : (xs : List A) {a : A} → find_first p xs ≡ some a → p a ≡ true
  find_first-passes [] e = cc
  find_first-passes (x ∷ xs) e = elim (Bool-cases (p x)) [
    | inl hit ↦ subst (λ y. p y ≡ true) (some-injective _ _ (rw hit at e)) hit
    | inr miss ↦ find_first-passes xs (rw miss at e)
  ]

  -- A row that is written is the one that is found.
  pub find_first-update_if :
      (xs : List A) (a b : A)
      → find_first p xs ≡ some a
      → p b ≡ true
      → find_first p (update_if p (λ _. b) xs) ≡ some b
  find_first-update_if [] a b e h = cc
  find_first-update_if (x ∷ xs) a b e h = ground (arith, find_first-update_if xs a b)

-- How many rows pass a test.
abbrev pub count_if {ℓ} : {A : Type ℓ} → (A → Bool) → List A → ℕ
count_if p [] = 0
count_if p (x ∷ xs) = (if p x then 1 else 0) + count_if p xs

module _ {ℓ} {A : Type ℓ} (p : A → Bool) where
  pub count_if-append : (xs ys : List A) → count_if p (xs ++ ys) ≡ count_if p xs + count_if p ys
  count_if-append [] ys = omega arith
  count_if-append (x ∷ xs) ys = omega (arith, count_if-append xs ys)

  pub count_if-none : (xs : List A) → find_first p xs ≡ none → count_if p xs ≡ 0
  count_if-none [] e = refl
  count_if-none (x ∷ xs) e = ground (arith, count_if-none xs)

module _ {ℓ} {A : Type ℓ} (p q : A → Bool) (f : A → A) where
  -- What an update of all rows with `q` leaves without `q`.
  pub count_if-update_if :
      (xs : List A)
      → ((x : A) → p x ≡ true → q (f x) ≡ false)
      → ((x : A) → p x ≡ false → q x ≡ false)
      → count_if q (update_if p f xs) ≡ 0
  count_if-update_if [] h k = refl
  count_if-update_if (x ∷ xs) h k = elim (Bool-cases (p x)) [
    | inl hit ↦ rw (hit, h x hit, count_if-update_if xs h k) refl
    | inr miss ↦ rw (miss, k x miss, count_if-update_if xs h k) refl
  ]

  -- An update of rows that fail `q`, before and after, keeps the rows that pass it.
  pub keep_if-update_if :
      (xs : List A)
      → ((x : A) → p x ≡ true → q x ≡ false)
      → ((x : A) → p x ≡ true → q (f x) ≡ false)
      → keep_if q (update_if p f xs) ≡ keep_if q xs
  keep_if-update_if [] h k = refl
  keep_if-update_if (x ∷ xs) h k = elim (Bool-cases (p x)) [
    | inl hit ↦ rw (hit, h x hit, k x hit) (keep_if-update_if xs h k)
    | inr miss ↦ rw (miss, keep_if-update_if xs h k) refl
  ]

  -- An update of rows that fail `q`, before and after, does not change what `q` finds.
  pub find_first-update_if_other :
      (xs : List A)
      → ((x : A) → p x ≡ true → q x ≡ false)
      → ((x : A) → p x ≡ true → q (f x) ≡ false)
      → find_first q (update_if p f xs) ≡ find_first q xs
  find_first-update_if_other [] h k = refl
  find_first-update_if_other (x ∷ xs) h k = elim (Bool-cases (p x)) [
    | inl hit ↦ rw (hit, h x hit, k x hit) (find_first-update_if_other xs h k)
    | inr miss ↦ rw (miss, find_first-update_if_other xs h k) refl
  ]

module _ {ℓ} {A : Type ℓ} (p : A → Bool) where
  -- Where a filter keeps nothing, a search finds nothing.
  pub keep_if-nil : (xs : List A) → keep_if p xs ≡ [] → find_first p xs ≡ none
  keep_if-nil [] e = refl
  keep_if-nil (x ∷ xs) e = elim (Bool-cases (p x)) [
    | inl hit ↦ ground (arith, hit, e)
    | inr miss ↦ rw miss (keep_if-nil xs (rw miss at e))
  ]
