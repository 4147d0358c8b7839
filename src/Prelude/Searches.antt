-- ===== src/Prelude/Searches.antt =====
-- What the searches find after an update or an insertion.
use mathlib.Core.Path.{◌≡◌, refl, sym, subst}
use mathlib.Core.Logic.{inl, inr}
use mathlib.Core.Bool.{Bool, true, false}
use mathlib.Core.List.{List, [], ◌∷◌, ◌++◌}
use mathlib.Core.Option.{none, some, some-injective}
use native.Mathlib.Omega.{arith}
use pios_backend.Prelude.Lists.{find_first, any_of, update_if}
use pios_backend.Prelude.Tests.{Bool-cases}

module _ {ℓ} {A : Type ℓ} (p : A → Bool) where
  pub find_first-any_of : (xs : List A) {a : A} → find_first p xs ≡ some a → any_of p xs ≡ true
  find_first-any_of [] e = cc
  find_first-any_of (x ∷ xs) {a} e = ground (arith, find_first-any_of xs {a = a})

  -- An insertion at the end keeps what is found.
  pub find_first-append :
      (xs ys : List A) {a : A} → find_first p xs ≡ some a → find_first p (xs ++ ys) ≡ some a
  find_first-append [] ys e = cc
  find_first-append (x ∷ xs) ys {a} e = ground (arith, find_first-append xs ys {a = a})

  pub find_first-append-none :
      (xs ys : List A) → find_first p xs ≡ none → find_first p (xs ++ ys) ≡ find_first p ys
  find_first-append-none [] ys e = refl
  find_first-append-none (x ∷ xs) ys e = ground (arith, e, find_first-append-none xs ys)

  pub any_of-append : (xs ys : List A) → any_of p xs ≡ true → any_of p (xs ++ ys) ≡ true
  any_of-append [] ys e = cc
  any_of-append (x ∷ xs) ys e = ground (arith, e, any_of-append xs ys)

module _ {ℓ} {A : Type ℓ} (p q : A → Bool) (f : A → A) where
  pub any_of-update_if :
      (xs : List A) → ((x : A) → p (f x) ≡ p x) → any_of p (update_if q f xs) ≡ any_of p xs
  any_of-update_if [] same = refl
  any_of-update_if (x ∷ xs) same = elim (Bool-cases (q x)) [
    | inl hit ↦ rw (hit, same x, any_of-update_if xs same) refl
    | inr miss ↦ rw (miss, any_of-update_if xs same) refl
  ]

  -- An update that makes no row pass leaves nothing to find.
  pub find_first-update_if-none :
      (xs : List A)
      → ((x : A) → p x ≡ false → p (f x) ≡ false)
      → find_first p xs ≡ none
      → find_first p (update_if q f xs) ≡ none
  find_first-update_if-none [] kept e = refl
  find_first-update_if-none (x ∷ xs) kept e = elim (Bool-cases (p x)) [
    | inl hit ↦ ground (arith, rw hit at e)
    | inr miss ↦ elim (Bool-cases (q x)) [
      | inl at_q ↦ rw (at_q, kept x miss) (find_first-update_if-none xs kept (rw miss at e))
      | inr off_q ↦ rw (off_q, miss) (find_first-update_if-none xs kept (rw miss at e))
    ]
  ]

  -- An update of all rows that pass, to rows that do not, leaves nothing to find.
  pub find_first-update_if_all :
      (xs : List A)
      → ((x : A) → p x ≡ true → q x ≡ true)
      → ((x : A) → p (f x) ≡ false)
      → find_first p (update_if q f xs) ≡ none
  find_first-update_if_all [] hits gone = refl
  find_first-update_if_all (x ∷ xs) hits gone = elim (Bool-cases (p x)) [
    | inl hit ↦ rw (hits x hit, gone x) (find_first-update_if_all xs hits gone)
    | inr miss ↦ elim (Bool-cases (q x)) [
      | inl at_q ↦ rw (at_q, gone x) (find_first-update_if_all xs hits gone)
      | inr off_q ↦ rw (off_q, miss) (find_first-update_if_all xs hits gone)
    ]
  ]

module _ {ℓ} {A : Type ℓ} (p q : A → Bool) where
  -- A row that is found by one test, written by another and still passes the first, is found again.
  pub find_first-update_if_row :
      (xs : List A) (a b : A)
      → find_first p xs ≡ some a
      → q a ≡ true
      → p b ≡ true
      → find_first p (update_if q (λ _. b) xs) ≡ some b
  find_first-update_if_row [] a b e at_a at_b = cc
  find_first-update_if_row (x ∷ xs) a b e at_a at_b = elim (Bool-cases (q x)) [
    | inl hit ↦ rw (hit, at_b) refl
    | inr miss ↦ elim (Bool-cases (p x)) [
      | inl found ↦
          let same : a ≡ x = sym (some-injective _ _ (rw found at e)) in
          ground (arith, miss, subst (λ y. q y ≡ true) same at_a)
      | inr other ↦ rw (miss, other) (find_first-update_if_row xs a b (rw other at e) at_a at_b)
    ]
  ]
