-- ===== src/Tests/Ranked.antt =====
-- A stable sort by descending score, for the tests of the nightly cycle.
use pios_backend.Prelude.{
  suc, All, if◌then◌else◌, Bool, Bool-cases, List, [], ◌∷◌, all_of, length, ◌≡◌, refl, inl, inr,
  true, false, arith, ap, ◌∙◌,
}
use pios_backend.Num.{lt}
use pios_backend.Num.Ints.{ℤ, ltb_ℤ}
use pios_backend.Num.Instance.{int_num}
use pios_backend.Strategy.{Strategy}
use pios_backend.Strategy.Fifths.{IsSort, IsDescending}

unfoldable pub placed : Strategy ℤ × ℤ → List (Strategy ℤ × ℤ) → List (Strategy ℤ × ℤ)
placed p [] = p ∷ []
placed p (q ∷ qs) = let rest = placed p qs in if lt p.1 q.1 then q ∷ rest else p ∷ q ∷ qs

unfoldable pub ranked : List (Strategy ℤ × ℤ) → List (Strategy ℤ × ℤ)
ranked [] = []
ranked (p ∷ ps) = placed p (ranked ps)

length-placed :
    (p : Strategy ℤ × ℤ) (qs : List (Strategy ℤ × ℤ)) → length (placed p qs) ≡ suc (length qs)
unfolding placed
length-placed p [] = refl
length-placed p (q ∷ qs) = elim (Bool-cases (lt p.1 q.1)) [
  | inl below ↦ rw below (ap suc (length-placed p qs))
  | inr above ↦ rw above refl
]

placed-kept :
    (f : Strategy ℤ × ℤ → Bool) (p : Strategy ℤ × ℤ) (qs : List (Strategy ℤ × ℤ))
    → f p ≡ true
    → all_of f qs ≡ true
    → all_of f (placed p qs) ≡ true
unfolding placed
placed-kept f p [] here there = ground (arith, here)
placed-kept f p (q ∷ qs) here there =
    let head : f q ≡ true = ground (arith, there) in
    let tail : all_of f qs ≡ true = ground (arith, there) in
    elim (Bool-cases (lt p.1 q.1)) [
      | inl below ↦ rw (below, head) (placed-kept f p qs here tail)
      | inr above ↦ rw (above, here) there
    ]

not_below_trans : (a b c : ℤ) → ltb_ℤ a b ≡ false → ltb_ℤ b c ≡ false → ltb_ℤ a c ≡ false
not_below_trans a b c h k = ground arith

not_below_all :
    (a b : ℤ) (qs : List (Strategy ℤ × ℤ))
    → ltb_ℤ a b ≡ false
    → All (λ q. lt b q.1 ≡ false) qs
    → All (λ q. lt a q.1 ≡ false) qs
not_below_all a b [] h all = tt
not_below_all a b (q ∷ qs) h all = (not_below_trans a b q.1 h all.0, not_below_all a b qs h all.1)

placed-all :
    (a : ℤ) (p : Strategy ℤ × ℤ) (qs : List (Strategy ℤ × ℤ))
    → lt a p.1 ≡ false
    → All (λ q. lt a q.1 ≡ false) qs
    → All (λ q. lt a q.1 ≡ false) (placed p qs)
unfolding placed
placed-all a p [] here there = (here, tt)
placed-all a p (q ∷ qs) here there = elim (Bool-cases (lt p.1 q.1)) [
  | inl below ↦ rw below (there.0, placed-all a p qs here there.1)
  | inr above ↦ rw above (here, there)
]

not_above : (a b : ℤ) → ltb_ℤ a b ≡ true → ltb_ℤ b a ≡ false
not_above a b h = ground arith

placed-IsDescending :
    (p : Strategy ℤ × ℤ) (qs : List (Strategy ℤ × ℤ)) → IsDescending qs → IsDescending (placed p qs)
unfolding placed
placed-IsDescending p [] down = (tt, tt)
placed-IsDescending p (q ∷ qs) down = elim (Bool-cases (lt p.1 q.1)) [
  | inl below ↦
      rw below
        (placed-all q.1 p qs (not_above p.1 q.1 below) down.0, placed-IsDescending p qs down.1)
  | inr above ↦ rw above ((above, not_below_all p.1 q.1 qs above down.0), down)
]

ranked-kept :
    (f : Strategy ℤ × ℤ → Bool) (ps : List (Strategy ℤ × ℤ))
    → all_of f ps ≡ true
    → all_of f (ranked ps) ≡ true
unfolding ranked
ranked-kept f [] h = refl
ranked-kept f (p ∷ ps) h =
    placed-kept f p (ranked ps) (ground (arith, h)) (ranked-kept f ps (ground (arith, h)))

length-ranked : (ps : List (Strategy ℤ × ℤ)) → length (ranked ps) ≡ length ps
unfolding ranked
length-ranked [] = refl
length-ranked (p ∷ ps) = length-placed p (ranked ps) ∙ ap suc (length-ranked ps)

ranked-IsDescending : (ps : List (Strategy ℤ × ℤ)) → IsDescending (ranked ps)
unfolding ranked
ranked-IsDescending [] = tt
ranked-IsDescending (p ∷ ps) = placed-IsDescending p (ranked ps) (ranked-IsDescending ps)

pub ranked-IsSort : IsSort ranked
ranked-IsSort = record {
  kept = ranked-kept;
  length_same = length-ranked;
  descending = ranked-IsDescending;
}
