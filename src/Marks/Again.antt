-- ===== src/Marks/Again.antt =====
-- A pass of the marks changes one column, and need not be repeated (`mark_open_positions`).
use pios_backend.Prelude.{
  some, ◌∙◌, ==_iff, arith, ◌==◌, Bool-cases, Option-cases, is_some, count_if, ℕ, ◌≡◌, refl, ap,
  inl, inr, Option, List, [], ◌∷◌, map,
}
use pios_backend.Marks.{quote_price, remark, remarked, mark_open_positions, Quote}
use mathlib.Core.Path.{sym}
use pios_backend.Num.{nought, Num}
use pios_backend.Position.{Position}
use pios_backend.Store.{World, Books}

module _ {F : Type 0} ⦃n : Num F⦄ where
  -- The row without its mark.
  abbrev pub unmarked : Position F → Position F
  unmarked p = record p { unrealized_pnl = nought }

  -- A mark is that of the quotes, whatever the column had before.
  mark-same :
      (quotes : ℕ → Option (Quote F)) (p : Position F) (x u v : F)
      → remark quotes p ≡ some u
      → remark quotes (record p { unrealized_pnl = x }) ≡ some v
      → v ≡ u
  unfolding remark
  mark-same quotes p x u v first second = elim (Bool-cases p.is_open) [
    | inr closed_row ↦ absurd (ground (arith, rw (closed_row, remark) at first))
    | inl open_row ↦ elim (Option-cases (quote_price (quotes p.symbol_id))) [
      | inl silent ↦ absurd (ground (arith, rw (open_row, silent, remark) at first))
      | inr (mark, quoted) ↦
          let one = rw (open_row, quoted, remark) at first in
          let two = rw (open_row, quoted, remark) at second in ground (arith, one, two)
    ]
  ]

  -- A row that has been marked is marked the same again, or left alone.
  remarked-again :
      (quotes : ℕ → Option (Quote F)) (p : Position F)
      → remarked quotes (remarked quotes p) ≡ remarked quotes p
  unfolding remark
  remarked-again quotes p = elim (Option-cases (remark quotes p)) [
    | inl idle ↦
        let row : remarked quotes p ≡ p = rw (idle, remarked) refl in ap (remarked quotes) row
    | inr (u, written) ↦
        let row : remarked quotes p ≡ record p { unrealized_pnl = n.numeric u } =
          rw (written, remarked) refl in
        elim (Option-cases (remark quotes (remarked quotes p))) [
          | inl idle ↦ rw (idle, remarked) refl
          | inr (v, again) ↦
              let same : v ≡ u =
                mark-same quotes p (n.numeric u) u v written
                  (sym (ap (remark quotes) row) ∙ again) in
              rw (again, remarked) (rw (same, written, remarked) refl)
        ]
  ]

  map-unmarked :
      (quotes : ℕ → Option (Quote F)) (ps : List (Position F))
      → map unmarked (map (remarked quotes) ps) ≡ map unmarked ps
  map-unmarked quotes [] = refl
  map-unmarked quotes (p ∷ ps) = elim (Option-cases (remark quotes p)) [
    | inl idle ↦ rw (idle, remarked) (ap (λ xs. unmarked p ∷ xs) (map-unmarked quotes ps))
    | inr (u, written) ↦
        rw (written, remarked) (ap (λ xs. unmarked p ∷ xs) (map-unmarked quotes ps))
  ]

  map-remarked :
      (quotes : ℕ → Option (Quote F)) (ps : List (Position F))
      → map (remarked quotes) (map (remarked quotes) ps) ≡ map (remarked quotes) ps
  map-remarked quotes [] = refl
  map-remarked quotes (p ∷ ps) =
      ap (λ q. q ∷ map (remarked quotes) (map (remarked quotes) ps)) (remarked-again quotes p)
      ∙ ap (λ qs. remarked quotes p ∷ qs) (map-remarked quotes ps)

  -- Where no row is to be written, marking is idle.
  map-idle :
      (quotes : ℕ → Option (Quote F)) (ps : List (Position F))
      → count_if (λ p. is_some (remark quotes p)) ps ≡ 0
      → map (remarked quotes) ps ≡ ps
  map-idle quotes [] h = refl
  map-idle quotes (p ∷ ps) h = elim (Option-cases (remark quotes p)) [
    | inl idle ↦
        rw (idle, remarked) (ap (λ qs. p ∷ qs) (map-idle quotes ps (omega (arith, rw idle at h))))
    | inr (u, written) ↦ absurd (ground (arith, rw written at h))
  ]

  -- A pass is the marking of every row.
  mark_open_positions-map :
      (quotes : ℕ → Option (Quote F)) (w : World F)
      → (mark_open_positions quotes w).1.books
        ≡ record w.books { positions = map (remarked quotes) w.books.positions }
  unfolding mark_open_positions
  mark_open_positions-map quotes w =
      let count = count_if (λ p. is_some (remark quotes p)) w.books.positions in
      elim (Bool-cases (count == 0)) [
        | inr busy ↦ rw (busy, mark_open_positions) refl
        | inl idle ↦
            let same = map-idle quotes w.books.positions ((==_iff count 0).0 idle) in
            rw (idle, mark_open_positions) (ap (λ ps. record w.books { positions = ps }) (sym same))
      ]

  -- A pass and the next one over the same quotes.
  abbrev pub IsRemarked : (ℕ → Option (Quote F)) → World F → World F → Type 0
  IsRemarked quotes w w' =
      ((mark_open_positions quotes w').1.books ≡ w'.books)
      × (map unmarked w'.books.positions ≡ map unmarked w.books.positions)
      × (w'.books.fills ≡ w.books.fills)
      × (w'.books.snapshots ≡ w.books.snapshots)

  -- A pass of the marks changes nothing of a position but its unrealized result, keeps the fills and
  -- the snapshots, and a second pass over the same quotes leaves the stored marks as they are, however
  -- the column rounds them.
  pub mark_open_positions-IsRemarked :
      (quotes : ℕ → Option (Quote F)) (w : World F)
      → IsRemarked quotes w (mark_open_positions quotes w).1
  mark_open_positions-IsRemarked quotes w =
      let once = mark_open_positions-map quotes w in
      let twice = mark_open_positions-map quotes (mark_open_positions quotes w).1 in
      (
        twice
            ∙ ap (λ (b : Books F). record b { positions = map (remarked quotes) b.positions }) once
            ∙ ap (λ ps. record w.books { positions = ps }) (map-remarked quotes w.books.positions)
            ∙ sym once,
        ap (λ b. map unmarked b.positions) once ∙ map-unmarked quotes w.books.positions,
        ap (λ b. b.fills) once,
        ap (λ b. b.snapshots) once,
      )
