-- ===== src/Algo/Iceberg.antt =====
-- The loop of an iceberg (`_slice_plan`): when it cannot end.
use pios_backend.Prelude.{ℕ, zero, suc, ◌≡◌, refl, true, false, none}
use pios_backend.Num.{lt, ◌⊖◌, nought, Num}
use pios_backend.Algo.{iceberg, eps}

-- Laws of subtraction and order that finite doubles have: taking away nothing, or less than nothing,
-- does not make a number smaller.
pub record IsMonotone (F : Type 0) ⦃n : Num F⦄ : Type 0 where
  pub sub-keeps : (a d : F) → lt nought d ≡ false → lt eps a ≡ true → lt eps (a ⊖ d) ≡ true
  pub lt_of_nonpos : (a d : F) → lt nought d ≡ false → lt eps a ≡ true → lt a d ≡ false

module _ {F : Type 0} ⦃n : Num F⦄ where
  -- An iceberg that displays nothing, or a negative quantity, never ends: whatever the fuel, the loop
  -- that plans its slices runs out of it. This takes subtraction and the order to be monotone.
  pub iceberg_endless :
      IsMonotone F
      → (fuel : ℕ) (display remaining : F) → lt nought display ≡ false
      → lt eps remaining ≡ true
      → iceberg fuel display remaining ≡ none
  unfolding iceberg
  iceberg_endless laws zero display remaining low more = rw more refl
  iceberg_endless laws (suc k) display remaining low more =
      rw
        (
          laws.lt_of_nonpos remaining display low more,
          more,
          iceberg_endless laws k display (remaining ⊖ display) low
              (laws.sub-keeps remaining display low more),
        )
        refl
