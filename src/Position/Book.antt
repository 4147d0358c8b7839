-- ===== src/Position/Book.antt =====
-- The table of positions as a whole: one open row for a key, and nobody else's rows touched.
use pios_backend.Prelude.{
  ℕ, ◌≤◌, ◌≡◌, ◌≢◌, refl, Bool, true, false, inl, inr, none, some, List, [], ◌∷◌, ◌++◌, arith, ◌==◌,
  Bool-cases, Option-cases, find_first, keep_if, count_if, count_if-append, count_if-none,
}
use native.Mathlib.Nat.{le_trans}
use pios_backend.Num.{Num}
use pios_backend.Position.{
  Position, FillArgs, is_target, update_first, net_fill, open_position, apply_fill_to_position,
}

module _ {F : Type 0} where
  -- No user has two open rows for one symbol at one broker.
  abbrev pub IsNettedBook : List (Position F) → Type 0
  IsNettedBook ps = (a : FillArgs F) → count_if (is_target a) ps ≤ 1

  count-update_first :
      (b : FillArgs F) (t : Position F → Bool) (f : Position F → Position F)
      (ps : List (Position F))
      → ((p : Position F) → is_target b (f p) ≡ true → is_target b p ≡ true)
      → count_if (is_target b) (update_first t f ps) ≤ count_if (is_target b) ps
  count-update_first b t f [] h = omega arith
  count-update_first b t f (p ∷ ps) h = ground (arith, h p, count-update_first b t f ps h)

  same_key :
      (a b : FillArgs F) (p : Position F)
      → a.user_id ≡ b.user_id
      → a.symbol_id ≡ b.symbol_id
      → a.broker_id ≡ b.broker_id
      → is_target a p ≡ is_target b p
  same_key a b p u s k = rw (u, s, k)

  count-same_key :
      (a b : FillArgs F) (ps : List (Position F))
      → a.user_id ≡ b.user_id
      → a.symbol_id ≡ b.symbol_id
      → a.broker_id ≡ b.broker_id
      → count_if (is_target a) ps ≡ count_if (is_target b) ps
  count-same_key a b [] u s k = refl
  count-same_key a b (p ∷ ps) u s k =
      ground (arith, same_key a b p u s k, count-same_key a b ps u s k)

  keep-update_first :
      (u : ℕ) (t : Position F → Bool) (f : Position F → Position F) (ps : List (Position F))
      → ((p : Position F) → t p ≡ true → (p.user_id == u) ≡ false)
      → ((p : Position F) → (f p).user_id ≡ p.user_id)
      → keep_if (λ p. p.user_id == u) (update_first t f ps) ≡ keep_if (λ p. p.user_id == u) ps
  keep-update_first u t f [] h g = refl
  keep-update_first u t f (p ∷ ps) h g = ground (arith, h p, g p, keep-update_first u t f ps h g)

module _ {F : Type 0} ⦃n : Num F⦄ where
  net_fill_key :
      (now : ℕ) (a : FillArgs F) (p : Position F)
      → ((net_fill now a p).user_id ≡ p.user_id)
        × ((net_fill now a p).symbol_id ≡ p.symbol_id)
        × ((net_fill now a p).broker_id ≡ p.broker_id)
        × ((net_fill now a p).is_open ≡ true → p.is_open ≡ true)
  unfolding net_fill
  net_fill_key now a p = ground arith

  net_fill-is_target :
      (now : ℕ) (a b : FillArgs F) (p : Position F)
      → is_target b (net_fill now a p) ≡ true
      → is_target b p ≡ true
  net_fill-is_target now a b p h = ground (arith, net_fill_key now a p)

  open_position_key :
      (a b : FillArgs F)
      → is_target b (open_position a) ≡ true
      → (b.user_id ≡ a.user_id) × (b.symbol_id ≡ a.symbol_id) × (b.broker_id ≡ a.broker_id)
  unfolding open_position
  open_position_key a b h = ground arith

  count-opened :
      (a b : FillArgs F) (ps : List (Position F))
      → IsNettedBook ps
      → find_first (is_target a) ps ≡ none
      → count_if (is_target b) (ps ++ (open_position a ∷ [])) ≤ 1
  count-opened a b ps h absent =
      let split = count_if-append (is_target b) ps (open_position a ∷ []) in
      elim (Bool-cases (is_target b (open_position a))) [
        | inl same ↦
            let (u, s, k) = open_position_key a b same in
            ground
              (arith, split, count-same_key b a ps u s k, count_if-none (is_target a) ps absent)
        | inr other ↦ ground (arith, split, h b)
      ]

  apply_absent :
      (now : ℕ) (a : FillArgs F) (ps : List (Position F))
      → find_first (is_target a) ps ≡ none
      → apply_fill_to_position now a ps ≡ ps ++ (open_position a ∷ [])
  unfolding apply_fill_to_position
  apply_absent now a ps e = rw (e, apply_fill_to_position)

  apply_present :
      (now : ℕ) (a : FillArgs F) (ps : List (Position F)) {p : Position F}
      → find_first (is_target a) ps ≡ some p
      → apply_fill_to_position now a ps ≡ update_first (is_target a) (net_fill now a) ps
  unfolding apply_fill_to_position
  apply_present now a ps e = rw (e, apply_fill_to_position)

  -- A fill keeps the table netted: one open row at most for each user, symbol and broker.
  pub apply_fill-IsNettedBook :
      (now : ℕ) (a : FillArgs F) (ps : List (Position F))
      → IsNettedBook ps
      → IsNettedBook (apply_fill_to_position now a ps)
  apply_fill-IsNettedBook now a ps h b = elim (Option-cases (find_first (is_target a) ps)) [
    | inl absent ↦ rw (apply_absent now a ps absent) (count-opened a b ps h absent)
    | inr (p, e) ↦ rw (apply_present now a ps e) (
        le_trans
          (count-update_first b (is_target a) (net_fill now a) ps (net_fill-is_target now a b))
          (h b))
  ]

  -- A fill leaves the positions of every other user as they are, in their order.
  pub apply_fill_others :
      (now : ℕ) (a : FillArgs F) (ps : List (Position F)) (u : ℕ)
      → u ≢ a.user_id
      → keep_if (λ p. p.user_id == u) (apply_fill_to_position now a ps)
        ≡ keep_if (λ p. p.user_id == u) ps
  unfolding open_position
  apply_fill_others now a ps u ne = elim (Option-cases (find_first (is_target a) ps)) [
    | inl absent ↦ rw (apply_absent now a ps absent) (keep-opened ps)
    | inr (p, e) ↦ rw (apply_present now a ps e) (
        keep-update_first u (is_target a) (net_fill now a) ps (λ p h. ground arith)
          (λ p. (net_fill_key now a p).0))
  ]
    where
      keep-opened :
          (ps : List (Position F))
          → keep_if (λ p. p.user_id == u) (ps ++ (open_position a ∷ []))
            ≡ keep_if (λ p. p.user_id == u) ps
      keep-opened [] = ground arith
      keep-opened (p ∷ ps) = ground (arith, keep-opened ps)
