-- ===== src/Strategy/Live.antt =====
-- Where the requests of the router can bring a strategy.
use pios_backend.Strategy.Darwin.{
  pruned, retired_by_darwin, children, darwin_evolution_cycle, Cycle,
}
use pios_backend.Prelude.{
  any_of, ◌+◌, List, [], ◌∷◌, ℕ, ◌≡◌, refl, inl, inr, String, true, false, not, Option, some, arith,
  Option-cases, All, All-append, text_or, update_if, All-find_first, All-update_if, All-keep_if,
}
use pios_backend.Num.{Num}
use pios_backend.Strategy.{Stage, Strategy}
use pios_backend.Strategy.Gate.{check_gate, is_live_target}
use pios_backend.Strategy.Service.{
  Actor, StrategyDb, has_id, entered, advance_row, retire_row, compute_get_strategy,
  compute_advance_stage, retire_strategy,
}
use pios_backend.Strategy.Router.{
  StrategyCreate, StrategyUpdate, is_live, compute_create_strategy, create, patched,
  update_strategy, delete_strategy, advance, retire,
}
use pios_backend.Strategy.Advance.{advance_row_lem}

module _ {F : Type 0} ⦃n : Num F⦄ where
  -- A request to one of the endpoints that change a strategy, or a nightly cycle, and the table that
  -- it leaves.
  pub data Request (db : StrategyDb F) (db' : StrategyDb F) : Type 0 where
    creates :
        (fresh : ℕ) (fields : StrategyCreate) (actor : Actor)
        → db' ≡ (create fresh fields actor db).1
        → Request db db'
    updates :
        (i : ℕ) (fields : StrategyUpdate) (actor : Actor)
        → db' ≡ (update_strategy i fields actor db).1
        → Request db db'
    deletes : (i : ℕ) (actor : Actor) → db' ≡ (delete_strategy i actor db).1 → Request db db'
    advances :
        (i : ℕ) (notes : Option String) (actor : Actor)
        → db' ≡ (advance i notes actor db).1
        → Request db db'
    retires :
        (i : ℕ) (notes : Option String) (actor : Actor)
        → db' ≡ (retire i notes actor db).1
        → Request db db'
    evolves : (c : Cycle F) → db' ≡ darwin_evolution_cycle c db → Request db db'

  pub data Requests (db : StrategyDb F) : StrategyDb F → Type 0 where
    start : Requests db db
    after : {db' db'' : StrategyDb F} → Requests db db' → Request db' db'' → Requests db db''

module _ {F : Type 0} where
  -- The flag is set, and the strategy trades no live capital.
  pub record IsPaperBound (s : Strategy F) : Type 0 where
    pub flagged : s.is_paper_only ≡ true
    pub not_live : is_live s.lifecycle_stage ≡ false

  abbrev pub ArePaperBound : StrategyDb F → Type 0
  ArePaperBound db = All IsPaperBound db.strategies

  patched-IsPaperBound :
      (fields : StrategyUpdate) (s : Strategy F) → IsPaperBound s → IsPaperBound (patched fields s)
  unfolding patched
  patched-IsPaperBound fields s b = record { flagged = b.flagged; not_live = b.not_live }

module _ {F : Type 0} ⦃n : Num F⦄ where
  -- With the flag set the gates of LIVE_SMALL and SCALED are shut.
  live_gate_shut :
      (s : Strategy F) (t : Stage)
      → s.is_paper_only ≡ true
      → is_live_target t ≡ true
      → (check_gate s t).0 ≡ false
  unfolding check_gate
  live_gate_shut s t f l = ground arith

  advance_row-IsPaperBound :
      (notes : Option String) (actor : Actor) (s : Strategy F)
      → IsPaperBound s
      → IsPaperBound (advance_row notes actor s).1
  unfolding entered
  advance_row-IsPaperBound notes actor s b = rw (advance_row_lem notes actor s) (record {
    flagged = ground (arith, b.flagged);
    not_live = ground (arith, b.not_live, live_gate_shut s Stage.live_small b.flagged refl);
  })

  retire_row-IsPaperBound :
      (reason : String) (actor : Actor) (s : Strategy F)
      → IsPaperBound s
      → IsPaperBound (retire_row {F = F} reason actor s).1
  unfolding retire_row
  retire_row-IsPaperBound reason actor s b = record {
    flagged = ground (arith, b.flagged);
    not_live = ground (arith, b.not_live);
  }

  store-ArePaperBound :
      (s : Strategy F) (db : StrategyDb F)
      → IsPaperBound s
      → ArePaperBound db
      → All IsPaperBound (update_if (has_id s.id) (λ _. s) db.strategies)
  store-ArePaperBound s db b a =
      All-update_if IsPaperBound (has_id s.id) (λ _. s) db.strategies (λ _ _ _. b) a

  found-IsPaperBound :
      (i : ℕ) (db : StrategyDb F) {s : Strategy F}
      → ArePaperBound db
      → compute_get_strategy i db ≡ some s
      → IsPaperBound s
  unfolding compute_get_strategy
  found-IsPaperBound i db a e = (All-find_first IsPaperBound (has_id i) db.strategies a e).0

  advance-ArePaperBound :
      (i : ℕ) (notes : Option String) (actor : Actor) (db : StrategyDb F)
      → ArePaperBound db
      → ArePaperBound (advance i notes actor db).1
  unfolding advance compute_advance_stage
  advance-ArePaperBound i notes actor db a = elim (Option-cases (compute_get_strategy i db)) [
    | inl missing ↦ ground arith
    | inr (s, e) ↦
        let kept =
          store-ArePaperBound (advance_row notes actor s).1 db
            (advance_row-IsPaperBound notes actor s (found-IsPaperBound i db a e)) a in
        ground (arith, kept)
  ]

  retire-ArePaperBound :
      (i : ℕ) (notes : Option String) (actor : Actor) (db : StrategyDb F)
      → ArePaperBound db
      → ArePaperBound (retire i notes actor db).1
  unfolding retire retire_strategy
  retire-ArePaperBound i notes actor db a = elim (Option-cases (compute_get_strategy i db)) [
    | inl missing ↦ ground arith
    | inr (s, e) ↦
        let reason = text_or notes "Manual retirement" in
        let kept =
          store-ArePaperBound (retire_row reason actor s).1 db
            (retire_row-IsPaperBound reason actor s (found-IsPaperBound i db a e)) a in
        ground (arith, kept)
  ]

  update-ArePaperBound :
      (i : ℕ) (fields : StrategyUpdate) (actor : Actor) (db : StrategyDb F)
      → ArePaperBound db
      → ArePaperBound (update_strategy i fields actor db).1
  unfolding update_strategy
  update-ArePaperBound i fields actor db a = elim (Option-cases (compute_get_strategy i db)) [
    | inl missing ↦ ground arith
    | inr (s, e) ↦
        let kept =
          store-ArePaperBound (patched fields s) db
            (patched-IsPaperBound fields s (found-IsPaperBound i db a e)) a in
        ground (arith, kept)
  ]

  children-IsPaperBound :
      (c : Cycle F) (k : ℕ) (ps : List (Strategy F × F)) → All IsPaperBound (children c k ps)
  unfolding children
  children-IsPaperBound c k [] = tt
  children-IsPaperBound c k (p ∷ ps) =
      (record { flagged = refl; not_live = refl }, children-IsPaperBound c (k + 1) ps)

  darwin-ArePaperBound :
      (c : Cycle F) (db : StrategyDb F)
      → ArePaperBound db
      → ArePaperBound (darwin_evolution_cycle c db)
  unfolding darwin_evolution_cycle
  darwin-ArePaperBound c db a =
      All-append IsPaperBound _ _
        (All-update_if IsPaperBound (λ s. any_of (has_id s.id) (pruned c db.strategies))
          (retired_by_darwin c.now) db.strategies
          (λ s _ b. record { flagged = b.flagged; not_live = refl }) a)
        (children-IsPaperBound c 0 _)

  Request-ArePaperBound :
      {db db' : StrategyDb F} → Request db db' → ArePaperBound db → ArePaperBound db'
  unfolding create compute_create_strategy delete_strategy
  Request-ArePaperBound {db} (creates fresh fields actor e) a =
      rw e
        (All-append IsPaperBound db.strategies _ a (record { flagged = refl; not_live = refl }, tt))
  Request-ArePaperBound {db} (updates i fields actor e) a =
      rw e (update-ArePaperBound i fields actor db a)
  Request-ArePaperBound {db} (deletes i actor e) a =
      let kept = All-keep_if IsPaperBound (λ t. not (has_id i t)) db.strategies a in
      rw e (ground (arith, kept, a))
  Request-ArePaperBound {db} (advances i notes actor e) a =
      rw e (advance-ArePaperBound i notes actor db a)
  Request-ArePaperBound {db} (retires i notes actor e) a =
      rw e (retire-ArePaperBound i notes actor db a)
  Request-ArePaperBound {db} (evolves c e) a = rw e (darwin-ArePaperBound c db a)

  -- From a table in which every strategy has `is_paper_only` set and is not live, no sequence of
  -- requests to the five endpoints and of nightly cycles brings any strategy, old or bred, to
  -- LIVE_SMALL, SCALED or MONITOR, or clears the flag of one.
  pub live_unreachable :
      {db db' : StrategyDb F} → ArePaperBound db → Requests db db' → ArePaperBound db'
  live_unreachable a start = a
  live_unreachable a (after rs r) = Request-ArePaperBound r (live_unreachable a rs)
