-- ===== src/Num.antt =====
-- Python's `float`, as far as the services use it. The operations are the interpreter's, so they are
-- an argument of every definition that computes with them; `lit m e` is the literal m * 10 ** -e and
-- `show` is the text that an f-string prints, and
-- `numeric` what a NUMERIC(20, 8) column keeps of a value.
pub mod Ints
pub mod Instance
use pios_backend.Prelude.{ℕ, String, Bool, true, false, not, ◌≡◌, if◌then◌else◌}

pub record Num (F : Type 0) : Type 0 where
  pub add : F → F → F
  pub sub : F → F → F
  pub mul : F → F → F
  pub div : F → F → F
  pub neg : F → F
  pub lt : F → F → Bool
  pub eq : F → F → Bool
  pub lit : ℕ → ℕ → F
  pub show : F → String
  pub numeric : F → F

infixl 65 ◌⊕◌ ◌⊖◌
infixl 70 ◌⊗◌ ◌⊘◌
module _ {F : Type 0} ⦃n : Num F⦄ where
  abbrev pub ◌⊕◌ : F → F → F
  ◌⊕◌ = n.add

  abbrev pub ◌⊖◌ : F → F → F
  ◌⊖◌ = n.sub

  abbrev pub ◌⊗◌ : F → F → F
  ◌⊗◌ = n.mul

  abbrev pub ◌⊘◌ : F → F → F
  ◌⊘◌ = n.div

  abbrev pub nought : F
  nought = n.lit 0 0

  -- `a < b` and `a <= b`, away from NaN
  abbrev pub lt : F → F → Bool
  lt = n.lt

  abbrev pub le : F → F → Bool
  le a b = not (n.lt b a)

  -- `abs`, `min` and `max`, which return their first argument on a tie
  abbrev pub abs : F → F
  abs a = if n.lt a nought then n.neg a else a

  abbrev pub min : F → F → F
  min a b = if n.lt b a then b else a

  abbrev pub max : F → F → F
  max a b = if n.lt a b then b else a

  -- `x or y`: zero is false
  abbrev pub or_zero : F → F → F
  or_zero a b = if n.eq a nought then b else a

-- Laws of the order and of the signs, which finite doubles have when the two zeros are taken for one
-- and no product of two nonzero values underflows to zero.
pub record IsSigned (F : Type 0) ⦃n : Num F⦄ : Type 0 where
  pub lt_irrefl : (a : F) → lt a a ≡ false
  pub lt_asymm : (a b : F) → lt a b ≡ true → lt b a ≡ false
  pub neg_neg : (a : F) → n.neg (n.neg a) ≡ a
  pub neg-pos : (a : F) → lt nought a ≡ true → lt (n.neg a) nought ≡ true
  pub neg-neg_pos : (a : F) → lt a nought ≡ true → lt nought (n.neg a) ≡ true
  pub neg-add : (a b : F) → n.neg (a ⊕ b) ≡ n.neg a ⊕ n.neg b
  pub neg-nought : n.neg nought ≡ nought
  pub eq_of_not_lt : (a : F) → lt a nought ≡ false → lt nought a ≡ false → a ≡ nought
  pub mul-pos : (a b : F) → lt nought a ≡ true → lt nought b ≡ true → lt nought (a ⊗ b) ≡ true
  pub mul-pos_neg : (a b : F) → lt nought a ≡ true → lt b nought ≡ true → lt (a ⊗ b) nought ≡ true
  pub mul-neg_pos : (a b : F) → lt a nought ≡ true → lt nought b ≡ true → lt (a ⊗ b) nought ≡ true
  pub mul-neg : (a b : F) → lt a nought ≡ true → lt b nought ≡ true → lt nought (a ⊗ b) ≡ true
  pub mul-nought : (b : F) → nought ⊗ b ≡ nought
  pub add-pos : (a b : F) → lt nought a ≡ true → lt b nought ≡ false → lt nought (a ⊕ b) ≡ true
  pub lt_of_lt_of_le : (a b c : F) → lt a b ≡ true → lt c b ≡ false → lt a c ≡ true
  pub eps_pos : lt nought (n.lit 1 9) ≡ true
