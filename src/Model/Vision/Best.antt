-- ===== src/Model/Vision/Best.antt =====
-- `select_best_resolution` chooses a grid that shows the most pixels and, among those, wastes the least.
use attacc_simulator_vlm.Prelude.{
  ℕ, zero, suc, ◌<◌, ◌≤◌, ◌≡◌, refl, sym, subst, Bool, true, false, List, [], ◌∷◌, All, get_elem?,
  ◌==◌, arith, Bool-cases, inl, inr, ◌⊎◌, some, ok,
}
use attacc_simulator_vlm.Model.Vision.{
  Floats, effective, wasted, is_better, best_from, select_best_resolution,
}

module _ (fl : Floats) (image : ℕ × ℕ) where
  -- The grid `r` is no better than `best`.
  abbrev pub NoBetter : ℕ × ℕ → ℕ × ℕ → Type 0
  NoBetter best r =
      (effective fl image r < effective fl image best)
      ⊎ ((effective fl image r ≡ effective fl image best)
          × (wasted fl image best ≤ wasted fl image r))

  -- The grid `r` is worse than `best`.
  abbrev pub Worse : ℕ × ℕ → ℕ × ℕ → Type 0
  Worse best r =
      (effective fl image r < effective fl image best)
      ⊎ ((effective fl image r ≡ effective fl image best)
          × (wasted fl image best < wasted fl image r))

  abbrev improves : ℕ × ℕ → ℕ × ℕ → Bool
  improves b r =
      is_better fl (effective fl image r) (wasted fl image r)
        (some (effective fl image b, wasted fl image b))

  improves-Worse : (b r : ℕ × ℕ) → improves b r ≡ true → Worse r b
  improves-Worse b r h = ground arith

  not_improves-NoBetter : (b r : ℕ × ℕ) → improves b r ≡ false → NoBetter b r
  not_improves-NoBetter b r h = ground arith

  NoBetter-trans : (a b c : ℕ × ℕ) → NoBetter a b → NoBetter b c → NoBetter a c
  NoBetter-trans a b c h k = ground arith

  Worse-NoBetter : (a b : ℕ × ℕ) → Worse a b → NoBetter a b
  Worse-NoBetter a b h = ground arith

  abbrev pub Member : ℕ × ℕ → List (ℕ × ℕ) → Type 0
  Member r rs = (i : ℕ) × (get_elem? rs i ≡ some r)

  loop_from : List (ℕ × ℕ) → ℕ × ℕ → ℕ × ℕ
  unfolding best_from
  loop_from rs b = best_from fl image rs (some (effective fl image b, wasted fl image b)) b

  Member-insert : (x b r : ℕ × ℕ) (rs : List (ℕ × ℕ)) → Member x (b ∷ rs) → Member x (b ∷ r ∷ rs)
  Member-insert x b r rs (zero, at) = (0, at)
  Member-insert x b r rs (suc i, at) = (suc (suc i), at)

  abbrev IsBest : ℕ × ℕ → List (ℕ × ℕ) → Type 0
  IsBest best rs = Member best rs × All (NoBetter best) rs

  IsBest-skip :
      (best b r : ℕ × ℕ) (rs : List (ℕ × ℕ))
      → NoBetter b r
      → IsBest best (b ∷ rs)
      → IsBest best (b ∷ r ∷ rs)
  IsBest-skip best b r rs same (at, (no_better, rest)) =
      (Member-insert best b r rs at, (no_better, (NoBetter-trans best b r no_better same, rest)))

  IsBest-next :
      (best b r : ℕ × ℕ) (rs : List (ℕ × ℕ))
      → Worse r b
      → IsBest best (r ∷ rs)
      → IsBest best (b ∷ r ∷ rs)
  IsBest-next best b r rs worse ((i, at), (no_better, rest)) = (
    (suc i, at),
    (NoBetter-trans best r b no_better (Worse-NoBetter r b worse), (no_better, rest)),
  )

  loop_from-IsBest : (rs : List (ℕ × ℕ)) (b : ℕ × ℕ) → IsBest (loop_from rs b) (b ∷ rs)
  unfolding loop_from
  loop_from-IsBest [] b = ((0, refl), (inr (refl, omega arith), tt))
  loop_from-IsBest (r ∷ rs) b = elim (Bool-cases (improves b r)) [
    | inl better ↦
        let step : loop_from (r ∷ rs) b ≡ loop_from rs r = rw better in
        subst (λ x. IsBest x (b ∷ r ∷ rs)) (sym step)
          (IsBest-next (loop_from rs r) b r rs (improves-Worse b r better) (loop_from-IsBest rs r))
    | inr same ↦
        let step : loop_from (r ∷ rs) b ≡ loop_from rs b = rw same in
        subst (λ x. IsBest x (b ∷ r ∷ rs)) (sym step)
          (IsBest-skip (loop_from rs b) b r rs (not_improves-NoBetter b r same)
            (loop_from-IsBest rs b))
  ]

-- For an image with pixels and a list of grids that is not empty, the chosen grid is one of the list,
-- and no grid of the list shows more pixels, or as many with less waste.
pub select_best_resolution-NoBetter :
    (fl : Floats) (w h : ℕ) (r : ℕ × ℕ) (rs : List (ℕ × ℕ))
    → 0 < w
    → 0 < h
    → (best : ℕ × ℕ) × (select_best_resolution fl (w, h) (r ∷ rs) ≡ ok best)
      × Member fl (w, h) best (r ∷ rs)
      × All (NoBetter fl (w, h) best) (r ∷ rs)
unfolding select_best_resolution loop_from
select_best_resolution-NoBetter fl w h r rs some_width some_height =
    let no_w : (w == 0) ≡ false = ground arith in
    let no_h : (h == 0) ≡ false = ground arith in
    let (at, best) = loop_from-IsBest fl (w, h) rs r in
    (loop_from fl (w, h) rs r, rw (no_w, no_h), at, best)
