-- ===== src/Strategy/Bred.antt =====
-- What the nightly cycle does to the table of strategies.
use pios_backend.Num.{lt, Num}
use pios_backend.Strategy.{JobStatus, BacktestJob, Strategy, Stage}
use mathlib.Core.Path.{subst}
use pios_backend.Strategy.Fifths.{
  IsSort, IsCycled, take-drop, take-IsAbove, update_if-weak, length-scored,
}
use pios_backend.Desk.Risk.{keyed}
use pios_backend.Strategy.Service.{has_id, StrategyDb}
use pios_backend.Strategy.Darwin.{
  a_fifth, score, scored, pruned, children, darwin_evolution_cycle, in_play, is_weak,
  retired_by_darwin, Cycle,
}
use pios_backend.Prelude.{
  length-drop, take, drop, ==_iff, any_of, update_if, ℕ, zero, suc, ◌+◌, ◌-◌, ◌≤◌, sym, ap, ◌∙◌,
  ◌++◌, ◌==◌, if◌then◌else◌, ==_refl, Bool-cases, keep_if, All, refl, inl, inr, false, [], ◌∷◌, map,
  arith, length, all_of, ◌≡◌, ◌⊎◌, Bool, true, List,
}

module _ {F : Type 0} ⦃n : Num F⦄ where
  -- A row of the table after the cycle: unchanged, or retired, which takes a stage in play and a Sharpe
  -- ratio below 0.8.
  abbrev pub IsSpared : Cycle F → Strategy F → Strategy F → Type 0
  IsSpared c s t =
      (t ≡ s)
      ⊎ ((in_play s.lifecycle_stage ≡ true)
          × (is_weak c s ≡ true)
          × (t ≡ retired_by_darwin c.now s))

  -- Every row of the list under the key of `x` is in play.
  abbrev all_in_play : List (Strategy F) → Strategy F → Bool
  all_in_play old x = all_of (λ t. if t.id == x.id then in_play t.lifecycle_stage else true) old

  -- No two rows have one key.
  abbrev pub AreKeyed : List (Strategy F) → Type 0
  AreKeyed [] = Unit {0}
  AreKeyed (s ∷ rows) = All (λ t. (t.id == s.id) ≡ false) rows × AreKeyed rows

  all_in_play-other :
      (rows : List (Strategy F)) (x : Strategy F)
      → All (λ t. (t.id == x.id) ≡ false) rows
      → all_in_play rows x ≡ true
  all_in_play-other [] x h = refl
  all_in_play-other (t ∷ rows) x h = rw h.0 (all_in_play-other rows x h.1)

  -- The candidates of the cycle, with their scores.
  keyed_in_play :
      (old rows : List (Strategy F)) (f : Strategy F → F)
      → All (λ x. in_play x.lifecycle_stage ≡ true → all_in_play old x ≡ true) rows
      → all_of
          (λ (p : Strategy F × F). all_in_play old p.0)
          (map {B = Strategy F × F} (λ s. (s, f s)) (keep_if (λ s. in_play s.lifecycle_stage) rows))
        ≡ true
  keyed_in_play old [] f h = refl
  keyed_in_play old (x ∷ rows) f h = elim (Bool-cases (in_play x.lifecycle_stage)) [
    | inl plays ↦ rw (plays, h.0 plays) (keyed_in_play old rows f h.1)
    | inr rests ↦ rw rests (keyed_in_play old rows f h.1)
  ]

  keyed_all :
      (rows : List (Strategy F))
      → AreKeyed rows
      → All (λ x. in_play x.lifecycle_stage ≡ true → all_in_play rows x ≡ true) rows
  keyed_all [] h = tt
  keyed_all (s ∷ rows) h = (
    (λ plays. rw (==_refl s.id, plays) (all_in_play-other rows s h.0)),
    keyed_rest s rows rows h.0 (keyed_all rows h.1),
  )
    where
      keyed_rest :
          (s : Strategy F) (old rows : List (Strategy F))
          → All (λ t. (t.id == s.id) ≡ false) rows
          → All (λ x. in_play x.lifecycle_stage ≡ true → all_in_play old x ≡ true) rows
          → All (λ x. in_play x.lifecycle_stage ≡ true → all_in_play (s ∷ old) x ≡ true) rows
      keyed_rest s old [] off h = tt
      keyed_rest s old (x ∷ rows) off h =
          ((λ plays. ground (arith, off.0, h.0 plays)), keyed_rest s old rows off.1 h.1)

  all_of-drop :
      (p : Strategy F × F → Bool) (k : ℕ) (xs : List (Strategy F × F))
      → all_of p xs ≡ true
      → all_of p (drop k xs) ≡ true
  all_of-drop p zero xs h = h
  all_of-drop p (suc k) [] h = refl
  all_of-drop p (suc k) (x ∷ xs) h = all_of-drop p k xs (ground (arith, h))

  -- Who is pruned, by its key.
  pub record IsPruned (c : Cycle F) (old : List (Strategy F)) (i : ℕ) : Type 0 where
    pub row : Strategy F
    pub key : row.id ≡ i
    pub weak : is_weak c row ≡ true
    pub plays : all_in_play old row ≡ true

  picked :
      (c : Cycle F) (old : List (Strategy F)) (i : ℕ) (xs : List (Strategy F × F))
      → all_of (λ (p : Strategy F × F). all_in_play old p.0) xs ≡ true
      → any_of (has_id i) (keep_if (is_weak c) (map (λ p. p.0) xs)) ≡ true
      → IsPruned c old i
  picked c old i [] h a = cc
  picked c old i (x ∷ xs) h a = elim (Bool-cases (all_in_play old x.0)) [
    | inr off ↦ absurd (cc (rw off at h))
    | inl on ↦ elim (Bool-cases (is_weak c x.0)) [
      | inr strong ↦ picked c old i xs (rw on at h) (rw strong at a)
      | inl weak ↦ elim (Bool-cases (has_id i x.0)) [
        | inr other_key ↦ picked c old i xs (rw on at h) (rw (weak, other_key) at a)
        | inl key ↦ record { row = x.0; key = (==_iff x.0.id i).0 key; weak = weak; plays = on }
      ]
    ]
  ]

  -- The table row by row.
  abbrev pub AreSpared : Cycle F → List (Strategy F) → List (Strategy F) → Type 0
  AreSpared c [] [] = Unit {0}
  AreSpared c (s ∷ ss) (t ∷ ts) = IsSpared c s t × AreSpared c ss ts
  AreSpared c _ _ = ⊥

  prunes-AreSpared :
      (c : Cycle F) (weak rows : List (Strategy F))
      → ((i : ℕ) → any_of (has_id i) weak ≡ true → IsPruned c rows i)
      → AreSpared c rows (update_if (λ s. any_of (has_id s.id) weak) (retired_by_darwin c.now) rows)
  prunes-AreSpared c weak [] h = tt
  prunes-AreSpared c weak (s ∷ rows) h = (
    elim (Bool-cases (any_of (has_id s.id) weak)) [
      | inr spared ↦ rw spared (inl refl)
      | inl hit ↦
          let w = h s.id hit in
          let plays : in_play s.lifecycle_stage ≡ true = ground (arith, w.plays, w.key) in
          rw hit (
            inr (
              plays,
              ap (λ k. lt (score (c.fitness k).sharpe_last) (n.lit 8 1)) (sym w.key) ∙ w.weak,
              refl,
            ))
    ],
    prunes-AreSpared c weak rows (λ i hit.
        let w = h i hit in
        record { row = w.row; key = w.key; weak = w.weak; plays = ground (arith, w.plays) }),
  )

  -- A strategy that the cycle has bred.
  pub record IsBred (t : Strategy F) : Type 0 where
    pub in_backtest : t.lifecycle_stage ≡ Stage.backtest
    pub on_paper : t.is_paper_only ≡ true
    pub untested : (j : BacktestJob F) × (t.backtest_jobs ≡ j ∷ []) × (j.status ≡ JobStatus.queued)

  children-IsBred :
      (c : Cycle F) (k : ℕ) (ps : List (Strategy F × F))
      → All IsBred (children c k ps) × (length (children c k ps) ≡ length ps)
  unfolding children
  children-IsBred c k [] = (tt, refl)
  children-IsBred c k (p ∷ ps) =
      let rest = children-IsBred c (k + 1) ps in
      (
        (record { in_backtest = refl; on_paper = refl; untested = (_, refl, refl) }, rest.0),
        ap suc rest.1,
      )

  length-take : (k : ℕ) (xs : List (Strategy F × F)) → length (take k xs) ≤ k
  length-take zero xs = omega arith
  length-take (suc k) [] = omega arith
  length-take (suc k) (x ∷ xs) = omega (arith, length-take k xs)

  -- The cycle retires exactly the weak ones of the worst fifth: of the strategies in play, ranked by
  -- fitness, it retires those of the last fifth (of one strategy, where there are fewer than five) whose
  -- Sharpe ratio is below 0.8, and no other row of the table, whose keys are unique, changes. What it
  -- adds, at most as many, is in BACKTEST, on paper only and with one queued backtest. Of `sorted` it
  -- takes that it makes nothing up, loses nothing, and puts no score before a higher one.
  pub darwin_evolution_cycle-IsBred :
      (c : Cycle F) (db : StrategyDb F)
      → IsSort c.sorted
      → AreKeyed db.strategies
      → (kept kids : List (Strategy F)) × ((darwin_evolution_cycle c db).strategies ≡ kept ++ kids)
        × IsCycled c db.strategies kept (length kids)
        × AreSpared c db.strategies kept
        × All IsBred kids
  unfolding darwin_evolution_cycle pruned scored
  darwin_evolution_cycle-IsBred c db sort keyed =
      let old = db.strategies in
      let ranked = scored c old in
      let top = take (a_fifth (length ranked)) ranked in
      let plays =
        sort.kept (λ p. all_in_play old p.0) _
          (keyed_in_play old old (λ s. score (c.fitness s.id).fitness_score)
            (keyed_all old keyed)) in
      let bred = children-IsBred c 0 top in
      let cut = length ranked - a_fifth (length ranked) in
      let all = length-scored c old sort in
      (
        update_if (λ s. any_of (has_id s.id) (pruned c old)) (retired_by_darwin c.now) old,
        children c 0 top,
        refl,
        record {
          best = take cut ranked;
          worst = drop cut ranked;
          ranking = sym (take-drop cut ranked);
          above = take-IsAbove cut ranked (sort.descending _);
          counts =
              rw (sym all)
                (omega (arith, length-drop cut ranked), omega (arith, length-drop cut ranked));
          retired = update_if-weak c (drop cut ranked) old;
          bred =
              subst (λ k. length (children c 0 top) ≤ a_fifth k) all
                (omega (arith, bred.1, length-take (a_fifth (length ranked)) ranked));
        },
        prunes-AreSpared c (pruned c old) old (λ i hit.
            picked c old i (drop cut ranked) (all_of-drop (λ p. all_in_play old p.0) _ ranked plays)
              hit),
        bred.0,
      )
