-- ===== src/Strategy/Fifths.antt =====
-- The best and the worst fifth of the strategies in play.
use pios_backend.Num.{lt, Num}
use pios_backend.Strategy.{Strategy}
use pios_backend.Strategy.Service.{has_id}
use pios_backend.Strategy.Darwin.{
  a_fifth, score, scored, in_play, is_weak, retired_by_darwin, Cycle,
}
use pios_backend.Prelude.{
  take, drop, any_of, update_if, ℕ, zero, suc, ◌-◌, ◌≤◌, ap, ◌∙◌, ◌++◌, if◌then◌else◌, Bool-cases,
  keep_if, All, refl, inl, inr, false, [], ◌∷◌, map, arith, length, all_of, count_if, ◌≡◌, Bool,
  ◌&&◌, true, List,
}

module _ {F : Type 0} ⦃n : Num F⦄ where
  -- No score is below a later one.
  abbrev pub IsDescending : List (Strategy F × F) → Type 0
  IsDescending [] = Unit {0}
  IsDescending (p ∷ ps) = All (λ q. lt p.1 q.1 ≡ false) ps × IsDescending ps

  -- What the cycle takes of `sorted(..., key=lambda x: -x[1])`: it makes nothing up, loses nothing, and
  -- no score stands before a higher one.
  pub record IsSort (sorted : List (Strategy F × F) → List (Strategy F × F)) : Type 0 where
    pub kept :
        (p : Strategy F × F → Bool) (xs : List (Strategy F × F))
        → all_of p xs ≡ true
        → all_of p (sorted xs) ≡ true
    pub length_same : (xs : List (Strategy F × F)) → length (sorted xs) ≡ length xs
    pub descending : (xs : List (Strategy F × F)) → IsDescending (sorted xs)

  pub take-drop : (k : ℕ) (ps : List (Strategy F × F)) → take k ps ++ drop k ps ≡ ps
  take-drop zero ps = refl
  take-drop (suc k) [] = refl
  take-drop (suc k) (p ∷ ps) = ap (λ qs. p ∷ qs) (take-drop k ps)

  All-drop :
      (P : Strategy F × F → Type 0) (k : ℕ) (ps : List (Strategy F × F))
      → All P ps
      → All P (drop k ps)
  All-drop P zero ps h = h
  All-drop P (suc k) [] h = tt
  All-drop P (suc k) (p ∷ ps) h = All-drop P k ps h.1

  -- None of the first is below one of the others.
  pub take-IsAbove :
      (k : ℕ) (ps : List (Strategy F × F))
      → IsDescending ps
      → All (λ p. All (λ q. lt p.1 q.1 ≡ false) (drop k ps)) (take k ps)
  take-IsAbove zero ps h = tt
  take-IsAbove (suc k) [] h = tt
  take-IsAbove (suc k) (p ∷ ps) h =
      (All-drop (λ q. lt p.1 q.1 ≡ false) k ps h.0, take-IsAbove k ps h.1)

  -- A strategy is among the weak ones of a list.
  abbrev pub is_weak_in : Cycle F → List (Strategy F × F) → Strategy F → Bool
  is_weak_in c worst s = any_of (λ p. has_id s.id p.0 && is_weak c p.0) worst

  any_of-weak :
      (c : Cycle F) (worst : List (Strategy F × F)) (s : Strategy F)
      → any_of (has_id s.id) (keep_if (is_weak c) (map (λ p. p.0) worst)) ≡ is_weak_in c worst s
  any_of-weak c [] s = refl
  any_of-weak c (p ∷ worst) s = elim (Bool-cases (is_weak c p.0)) [
    | inl weak ↦ rw (weak, any_of-weak c worst s) (ground arith)
    | inr strong ↦ rw (strong, any_of-weak c worst s) (ground arith)
  ]

  -- The weak of the worst are retired, and no one else.
  pub update_if-weak :
      (c : Cycle F) (worst : List (Strategy F × F)) (rows : List (Strategy F))
      → update_if
          (λ s. any_of (has_id s.id) (keep_if (is_weak c) (map (λ p. p.0) worst)))
          (retired_by_darwin c.now)
          rows
        ≡ map (λ s. if is_weak_in c worst s then retired_by_darwin c.now s else s) rows
  update_if-weak c worst [] = refl
  update_if-weak c worst (s ∷ rows) =
      let rest = update_if-weak c worst rows in
      let same = any_of-weak c worst s in
      elim (Bool-cases (is_weak_in c worst s)) [
        | inl hit ↦
            let there : any_of (has_id s.id) (keep_if (is_weak c) (map (λ p. p.0) worst)) ≡ true =
              same ∙ hit in
            rw (there, hit) (ap (λ xs. retired_by_darwin c.now s ∷ xs) rest)
        | inr miss ↦
            let gone : any_of (has_id s.id) (keep_if (is_weak c) (map (λ p. p.0) worst)) ≡ false =
              same ∙ miss in
            rw (gone, miss) (ap (λ xs. s ∷ xs) rest)
      ]

  abbrev pub count_in_play : List (Strategy F) → ℕ
  count_in_play rows = count_if (λ s. in_play s.lifecycle_stage) rows

  length-candidates :
      (f : Strategy F → F) (rows : List (Strategy F))
      → length
          (map {B = Strategy F × F} (λ s. (s, f s)) (keep_if (λ s. in_play s.lifecycle_stage) rows))
        ≡ count_in_play rows
  length-candidates f [] = refl
  length-candidates f (s ∷ rows) = elim (Bool-cases (in_play s.lifecycle_stage)) [
    | inl plays ↦ rw plays (omega (arith, length-candidates f rows))
    | inr rests ↦ rw rests (omega (arith, length-candidates f rows))
  ]

  pub length-scored :
      (c : Cycle F) (rows : List (Strategy F))
      → IsSort c.sorted
      → length (scored c rows) ≡ count_in_play rows
  unfolding scored
  length-scored c rows sort =
      sort.length_same _ ∙ length-candidates (λ s. score (c.fitness s.id).fitness_score) rows

  -- How the cycle sorts the strategies in play, and what it makes of the table.
  pub record IsCycled (c : Cycle F) (old kept : List (Strategy F)) (kids : ℕ) : Type 0 where
    pub best : List (Strategy F × F)
    pub worst : List (Strategy F × F)
    pub ranking : scored c old ≡ best ++ worst
    pub above : All (λ p. All (λ q. lt p.1 q.1 ≡ false) worst) best
    pub counts :
        (length worst ≡ count_in_play old - (count_in_play old - a_fifth (count_in_play old)))
        × (length worst ≤ a_fifth (count_in_play old))
    pub retired :
        kept ≡ map (λ s. if is_weak_in c worst s then retired_by_darwin c.now s else s) old
    pub bred : kids ≤ a_fifth (count_in_play old)
