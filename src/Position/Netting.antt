-- ===== src/Position/Netting.antt =====
-- The quantity that a fill leaves, against the signed sum of the position and the fill.
use pios_backend.Prelude.{refl, if◌then◌else◌, ◌⊎◌, ◌≡◌, false, arith}
use pios_backend.Num.{le, ◌⊕◌, ◌⊗◌, Num, IsSigned, nought, lt, abs}
use pios_backend.Position.{
  FillArgs, fill_sign, net_fill, Side, true, PosSide, ℕ, reduce, marked, extend, Position, pos_sign,
  side_of,
}

-- The side of a position that a fill of this side extends.
abbrev matching : Side → PosSide
matching Side.buy = PosSide.long
matching Side.sell = PosSide.short

module _ {F : Type 0} ⦃n : Num F⦄ (laws : IsSigned F) where
  open laws use {
    lt_irrefl, lt_asymm, neg_neg, neg-pos, neg-neg_pos, neg-add, neg-nought, eq_of_not_lt, mul-pos,
    mul-pos_neg, mul-neg_pos, mul-neg, mul-nought, add-pos, eps_pos, lt_of_lt_of_le,
  }

  -- A nonzero number is rebuilt from its side and its magnitude.
  pos_sign-side_of : (x : F) → lt (abs x) (n.lit 1 9) ≡ false → pos_sign (side_of x) (abs x) ≡ x
  pos_sign-side_of x h = ground (arith, neg_neg x, lt_asymm x nought, eq_of_not_lt x, eps_pos)

  -- What netting must leave: a signed quantity of `x`, or, where `x` is next to nothing, no position.
  abbrev pub IsNetted : F → Position F → Type 0
  IsNetted x p =
      ((p.is_open ≡ true) × (lt nought p.qty ≡ true) × (pos_sign p.side p.qty ≡ x))
      ⊎ ((lt (abs x) (n.lit 1 9) ≡ true) × (p.is_open ≡ false) × (p.qty ≡ nought))

  marked-IsNetted : (price x : F) (p : Position F) → IsNetted x p → IsNetted x (marked price p)
  unfolding marked
  marked-IsNetted price x p h = h

  extend-IsNetted :
      (s : PosSide) (q f price : F) (p : Position F)
      → p.is_open ≡ true
      → p.side ≡ s
      → lt nought q ≡ true
      → lt nought f ≡ true
      → IsNetted (pos_sign s q ⊕ pos_sign s f) (extend (pos_sign s q) (pos_sign s f) price p)
  unfolding extend
  extend-IsNetted PosSide.long q f price p o e hq hf =
      ground (arith, lt_asymm nought q, lt_asymm nought f, add-pos q f)
  extend-IsNetted PosSide.short q f price p o e hq hf = ground (
    arith,
    neg-pos q,
    neg-pos f,
    neg_neg q,
    neg_neg f,
    neg-add q f,
    add-pos q f,
    lt_asymm nought f,
  )

  reduce-IsNetted :
      (now : ℕ) (s : PosSide) (q x price : F) (p : Position F)
      → p.is_open ≡ true
      → p.side ≡ s
      → lt nought q ≡ true
      → IsNetted x (reduce now (pos_sign s q) x price p)
  unfolding reduce
  reduce-IsNetted now PosSide.long q x price p o e hq = ground (
    arith,
    pos_sign-side_of x,
    mul-neg_pos x q,
    lt_asymm nought (x ⊗ q),
    lt_of_lt_of_le nought (n.lit 1 9) (abs x) eps_pos,
  )
  reduce-IsNetted now PosSide.short q x price p o e hq = ground (
    arith,
    pos_sign-side_of x,
    neg-pos q,
    neg_neg x,
    mul-pos_neg x (n.neg q),
    lt_asymm nought (x ⊗ n.neg q),
    mul-nought (n.neg q),
    lt_irrefl nought,
    eq_of_not_lt x,
    lt_of_lt_of_le nought (n.lit 1 9) (abs x) eps_pos,
  )

  fill_sign-pos_sign : (s : Side) (f : F) → fill_sign s f ≡ pos_sign (matching s) f
  fill_sign-pos_sign Side.buy f = refl
  fill_sign-pos_sign Side.sell f = refl

  IsNetted-by_side :
      (now : ℕ) (s t : PosSide) (q f price : F) (p : Position F)
      → p.is_open ≡ true
      → p.side ≡ s
      → lt nought q ≡ true
      → lt nought f ≡ true
      → IsNetted (pos_sign s q ⊕ pos_sign t f) (
          if le nought (pos_sign s q ⊗ pos_sign t f)
          then extend (pos_sign s q) (pos_sign t f) price p
          else reduce now (pos_sign s q) (pos_sign s q ⊕ pos_sign t f) price p)
  IsNetted-by_side now PosSide.long PosSide.long q f price p o e hq hf =
      rw (lt_asymm _ _ (mul-pos q f hq hf)) (extend-IsNetted PosSide.long q f price p o e hq hf)
  IsNetted-by_side now PosSide.short PosSide.short q f price p o e hq hf =
      rw (lt_asymm _ _ (mul-neg _ _ (neg-pos q hq) (neg-pos f hf)))
        (extend-IsNetted PosSide.short q f price p o e hq hf)
  IsNetted-by_side now PosSide.long PosSide.short q f price p o e hq hf =
      rw (mul-pos_neg _ _ hq (neg-pos f hf))
        (reduce-IsNetted now PosSide.long q (q ⊕ n.neg f) price p o e hq)
  IsNetted-by_side now PosSide.short PosSide.long q f price p o e hq hf =
      rw (mul-neg_pos _ _ (neg-pos q hq) hf)
        (reduce-IsNetted now PosSide.short q (n.neg q ⊕ f) price p o e hq)

  -- Under the laws of the order and of signs, netting a fill of positive size into an open
  -- position of positive size leaves an open position of positive size whose signed quantity is
  -- the old one plus the signed fill, or, only where that sum is below 1e-9 in magnitude, a closed
  -- position of size zero.
  pub net_fill-IsNetted :
      (now : ℕ) (a : FillArgs F) (p : Position F)
      → p.is_open ≡ true
      → lt nought p.qty ≡ true
      → lt nought a.qty ≡ true
      → IsNetted (pos_sign p.side p.qty ⊕ fill_sign a.side a.qty) (net_fill now a p)
  unfolding net_fill
  net_fill-IsNetted now a p o hq hf =
      rw (fill_sign-pos_sign a.side a.qty)
        (IsNetted-by_side now p.side (matching a.side) p.qty a.qty a.price p o refl hq hf)
