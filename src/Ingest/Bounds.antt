-- ===== src/Ingest/Bounds.antt =====
-- The memory of the data-quality pipeline (app/workers/dq_pipeline.py) is bounded, but for prices.
use pios_backend.Num.{lt, nought, le, Num}
use pios_backend.Ingest.{
  drop, trim, same_key, key_of, remember, is_wild, check, check_tick, check_all, TickKey, Window,
  Checks,
}
use pios_backend.Candles.{Tick}
use pios_backend.Prelude.{
  ltb, ◌==◌, Bool-cases, length, length-append, any_of, ℕ, zero, suc, ◌+◌, ◌-◌, ◌≤◌, ◌<◌, ◌≡◌, inl,
  inr, List, [], ◌∷◌, ◌++◌, arith,
}

-- Dropping a hundred keys of a set that has more than 500 leaves the others.
pub record DropsHundred {F : Type 0} (c : Checks F) : Type 0 where
  pub drops :
      (ks : List (TickKey F)) → 500 < length ks → length (c.drop_hundred ks) + 100 ≡ length ks

pub record IsBounded {F : Type 0} (w : Window F) : Type 0 where
  pub seen_bound : length w.seen ≤ 500
  pub volumes_bound : length w.volumes ≤ 200

pub length-drop {ℓ} : {A : Type ℓ} (k : ℕ) (xs : List A) → length (drop k xs) ≡ length xs - k
length-drop zero xs = ground arith
length-drop (suc k) [] = ground arith
length-drop (suc k) (x ∷ xs) = omega (arith, length-drop k xs)

length-trim {ℓ} : {A : Type ℓ} (xs : List A) → length (trim xs) ≤ 200
length-trim xs = elim (Bool-cases (ltb 200 (length xs))) [
  | inl longer ↦ rw longer (ground (arith, longer, length-drop (length xs - 200) xs))
  | inr short ↦ rw short (ground (arith, short))
]

module _ {F : Type 0} ⦃n : Num F⦄ (c : Checks F) (law : DropsHundred c) where
  length-remember :
      (k : TickKey F) (seen : List (TickKey F))
      → length seen ≤ 500
      → length (remember c k seen) ≤ 500
  unfolding remember
  length-remember k seen bound = elim (Bool-cases (ltb 500 (length (seen ++ (k ∷ []))))) [
    | inl longer ↦
        rw longer
          (ground (arith, bound, longer, law.drops (seen ++ (k ∷ [])), length-append seen (k ∷ [])))
    | inr short ↦ rw short (ground (arith, short))
  ]

  -- A tick keeps the keys and the volumes of its symbol bounded.
  check-IsBounded : (t : Tick F) (w : Window F) → IsBounded w → IsBounded (check c t w).2
  unfolding check
  check-IsBounded t w bound = elim (Bool-cases (le t.price nought)) [
    | inl low ↦ rw (low, check) bound
    | inr fine ↦ elim (Bool-cases (lt t.volume nought)) [
      | inl negative ↦ rw (fine, negative, check) bound
      | inr whole ↦ elim (Bool-cases (any_of (same_key c (key_of c t)) w.seen)) [
        | inl known ↦ rw (fine, whole, known, check) bound
        | inr fresh ↦ elim (Bool-cases (is_wild c t.price w.prices)) [
          | inl wild ↦
              rw (fine, whole, fresh, wild, check)
                (record {
                  seen_bound = length-remember (key_of c t) w.seen bound.seen_bound;
                  volumes_bound = bound.volumes_bound;
                })
          | inr tame ↦
              rw (fine, whole, fresh, tame, check)
                (record {
                  seen_bound = length-remember (key_of c t) w.seen bound.seen_bound;
                  volumes_bound = length-trim (w.volumes ++ (t.volume ∷ []));
                })
        ]
      ]
    ]
  ]

  -- However many ticks come, and of whatever symbols, the pipeline keeps at most 500 keys and 200
  -- volumes of each symbol, if it does so to begin with. This takes the drop of a hundred keys to
  -- leave the others.
  pub check_all-IsBounded :
      (ts : List (Tick F)) (dq : ℕ → Window F)
      → ((i : ℕ) → IsBounded (dq i))
      → (i : ℕ) → IsBounded ((check_all c ts dq).1 i)
  unfolding check_all check_tick
  check_all-IsBounded [] dq bound i = bound i
  check_all-IsBounded (t ∷ ts) dq bound i =
      check_all-IsBounded ts (check_tick c t dq).1
        (λ j. elim (Bool-cases (j == t.symbol_id)) [
          | inl own ↦ rw own (check-IsBounded t (dq t.symbol_id) (bound t.symbol_id))
          | inr other_one ↦ rw other_one (bound j)
        ])
        i
