-- ===== src/Devices/Search.antt =====
-- The tiles that the search finds, and the table of tiles.
use attacc_simulator_vlm.Prelude.{
  ℕ, ◌*◌, ◌/◌, ◌≤◌, ◌<◌, ◌≡◌, refl, ap, subst, ◌∙◌, min, true, false, ltb, ◌==◌, List, [], ◌∷◌,
  ◌++◌, map, All, All-append, none, some, arith, Option-cases, ==_refl, inl, inr, ok, raise,
  zero_division, ◌⊎◌, range_from, zero, suc,
}
use attacc_simulator_vlm.Model.Layer.{Layer}
use attacc_simulator_vlm.Devices.Minimum.{
  best_of, NoBetter, IsStrict, best_of-found, best_of-NoBetter,
}
use attacc_simulator_vlm.Devices.{
  Costs, Xpu, Tiles, trange, clipped, fits_l1, fits_l2, access_of, cost_at, multiples, l1_tile,
  l2_tile, search,
}

pub ltb-IsStrict : IsStrict ltb
ltb-IsStrict = record { irreflexive = λ c. ground arith; transitive = λ a b c h k. ground arith }

abbrev IsWithin : Layer → ℕ × ℕ → Type 0
IsWithin layer (tm, tn) = (0 < tm) × (tm ≤ layer.m) × (0 < tn) × (tn ≤ layer.n)

module _ (layer : Layer) (some_rows : 0 < layer.m) (some_columns : 0 < layer.n) where
  row-IsWithin :
      (tm : ℕ) (tns : List ℕ)
      → 0 < tm
      → All (λ x. 0 < x) tns
      → All (IsWithin layer) (map (λ tn. (min tm layer.m, min tn layer.n)) tns)
  row-IsWithin tm [] h k = tt
  row-IsWithin tm (tn ∷ tns) h k =
      ((omega arith, omega arith, omega (arith, k.0), omega arith), row-IsWithin tm tns h k.1)

  clipped-IsWithin :
      (tms tns : List ℕ)
      → All (λ x. 0 < x) tms
      → All (λ x. 0 < x) tns
      → All (IsWithin layer) (clipped layer tms tns)
  clipped-IsWithin [] tns h k = tt
  clipped-IsWithin (tm ∷ tms) tns h k =
      All-append (IsWithin layer) (map (λ tn. (min tm layer.m, min tn layer.n)) tns)
        (clipped layer tms tns) (row-IsWithin tm tns h.0 k) (clipped-IsWithin tms tns h.1 k)

  trange-positive : All (λ x. 0 < x) trange
  trange-positive = ground arith

multiples_from-positive :
    (size i n bound : ℕ)
    → 0 < size
    → 0 < i
    → 0 < bound
    → All (λ x. 0 < x) (map (λ j. size * j) (range_from i n) ++ bound ∷ [])
multiples_from-positive size i zero bound h k b = (b, tt)
multiples_from-positive size i (suc n) bound h k b =
    (grind arith, multiples_from-positive size (suc i) n bound h (omega arith) b)

-- The first multiple of a size that is in bounds.
multiples_from-first :
    (size n bound : ℕ)
    → 0 < n
    → (rest : List ℕ) × (map (λ j. size * j) (range_from 1 n) ++ bound ∷ [] ≡ size ∷ rest)
multiples_from-first size zero bound h = absurd (omega arith)
multiples_from-first size (suc n) bound h =
    let once : size * 1 ≡ size = omega arith in
    (_, ap (λ x. x ∷ map (λ j. size * j) (range_from 2 n) ++ bound ∷ []) once)

multiples-first :
    (size bound : ℕ)
    → 0 < size
    → size ≤ bound
    → (rest : List ℕ) × (multiples size bound ≡ size ∷ rest)
multiples-first size bound h k = multiples_from-first size (bound / size) bound (grind arith)

module _ (cs : Costs) (strict : IsStrict cs.less) (xpu : Xpu) (layer : Layer) where
  -- A first-level tile that fits, and that no tile of the loops that fits costs less than.
  pub record IsBestL1 (l1 : ℕ × ℕ) : Type 0 where
    pub fits : fits_l1 xpu layer l1 ≡ true
    pub within : IsWithin layer l1
    pub least :
        All
          (NoBetter cs.less (fits_l1 xpu layer) (cost_at cs xpu layer) (some l1))
          (clipped layer trange trange)

  -- A second-level tile that fits or is that of the first level, and that no such tile of the loops has
  -- fewer accesses than.
  pub record IsBestL2 (l1 l2 : ℕ × ℕ) : Type 0 where
    pub fits : fits_l2 xpu layer l1 l2 ≡ true
    pub within : IsWithin layer l2
    pub least :
        All
          (NoBetter ltb (fits_l2 xpu layer l1) (access_of layer) (some l2))
          (clipped layer (multiples l1.0 layer.m) (multiples l1.1 layer.n))

  module _ (some_rows : 0 < layer.m) (some_columns : 0 < layer.n) where
    l1_tile-IsBestL1 : (l1 : ℕ × ℕ) → l1_tile cs xpu layer ≡ some l1 → IsBestL1 l1
    unfolding l1_tile
    l1_tile-IsBestL1 l1 found =
        let positive = trange-positive layer some_rows some_columns in
        let (within, fits, least) =
          best_of-found cs.less (fits_l1 xpu layer) (cost_at cs xpu layer) strict (IsWithin layer)
            (clipped layer trange trange) l1
            (clipped-IsWithin layer some_rows some_columns trange trange positive positive) found in
        record { fits = fits; within = within; least = least }

    l1_tile-none :
        l1_tile cs xpu layer ≡ none
        → All
            (NoBetter cs.less (fits_l1 xpu layer) (cost_at cs xpu layer) none)
            (clipped layer trange trange)
    unfolding l1_tile
    l1_tile-none missing =
        let candidates = clipped layer trange trange in
        subst (λ o. All (NoBetter cs.less (fits_l1 xpu layer) (cost_at cs xpu layer) o) candidates)
          missing
          (best_of-NoBetter cs.less (fits_l1 xpu layer) (cost_at cs xpu layer) strict candidates
            none)

    -- The first-level tile is the first candidate of the second level.
    clipped-first :
        (l1 : ℕ × ℕ)
        → IsWithin layer l1
        → (rest : List (ℕ × ℕ)) × (clipped layer (multiples l1.0 layer.m) (multiples l1.1 layer.n)
            ≡ l1 ∷ rest)
    clipped-first (tm, tn) w =
        let (tms, rows) = multiples-first tm layer.m w.0 w.1 in
        let (tns, columns) = multiples-first tn layer.n w.2 w.3 in
        let same_tm : min tm layer.m ≡ tm = omega (arith, w.1) in
        let same_tn : min tn layer.n ≡ tn = omega (arith, w.3) in
        let rest = map (λ y. (min tm layer.m, min y layer.n)) tns ++ clipped layer tms (tn ∷ tns) in
        (
          rest,
          ap (λ xs. clipped layer xs (multiples tn layer.n)) rows
              ∙ ap (λ ys. clipped layer (tm ∷ tms) ys) columns
              ∙ ap (λ (x : ℕ × ℕ). x ∷ rest) (λ i. (same_tm i, same_tn i)),
        )

    -- The tile of the first level is allowed at the second.
    own-fits_l2 : (l1 : ℕ × ℕ) → fits_l2 xpu layer l1 l1 ≡ true
    own-fits_l2 (tm, tn) = grind (arith, ==_refl tm, ==_refl tn)

    l2_tile-IsBestL2 :
        (l1 : ℕ × ℕ)
        → IsWithin layer l1
        → (l2 : ℕ × ℕ) × (l2_tile cs xpu layer l1 ≡ some l2) × IsBestL2 l1 l2
    unfolding l2_tile
    l2_tile-IsBestL2 l1 w =
        let candidates = clipped layer (multiples l1.0 layer.m) (multiples l1.1 layer.n) in
        elim (Option-cases (best_of ltb (fits_l2 xpu layer l1) (access_of layer) candidates none)) [
          | inl missing ↦
              let nothing =
                subst
                  (λ o. All (NoBetter ltb (fits_l2 xpu layer l1) (access_of layer) o) candidates)
                  missing
                  (best_of-NoBetter ltb (fits_l2 xpu layer l1) (access_of layer) ltb-IsStrict
                    candidates none) in
              let (rest, first) = clipped-first l1 w in
              let none_first =
                subst (All (NoBetter ltb (fits_l2 xpu layer l1) (access_of layer) none)) first
                  nothing in
              let own = own-fits_l2 l1 in let refused = none_first.0 in grind arith
          | inr (l2, found) ↦
              let (within, fits, least) =
                best_of-found ltb (fits_l2 xpu layer l1) (access_of layer) ltb-IsStrict
                  (IsWithin layer) candidates l2
                  (clipped-IsWithin layer some_rows some_columns _ _
                    (multiples_from-positive l1.0 1 (layer.m / l1.0) layer.m w.0 (omega arith)
                      some_rows)
                    (multiples_from-positive l1.1 1 (layer.n / l1.1) layer.n w.2 (omega arith)
                      some_columns))
                  found in
              (l2, found, record { fits = fits; within = within; least = least })
        ]

    -- For costs that compare as numbers and for a layer and a device whose sizes are not 0, either no tile of
    -- the first-level loops fits, and the search raises ZeroDivisionError, or it returns tiles that fit their
    -- caches, of least cost at the first level and of fewest accesses at the second, where the tile of the
    -- first level is always allowed.
    pub search-IsBestL1 :
        0 < layer.num_op
        → 0 < xpu.num_core
        → ((search cs xpu layer ≡ raise zero_division)
            × All
                (NoBetter cs.less (fits_l1 xpu layer) (cost_at cs xpu layer) none)
                (clipped layer trange trange))
          ⊎ ((tiles : Tiles) × (search cs xpu layer ≡ ok tiles)
              × IsBestL1 tiles.l1
              × IsBestL2 tiles.l1 tiles.l2)
    unfolding search
    search-IsBestL1 some_ops some_cores =
        let has_rows : (layer.m == 0) ≡ false = ground arith in
        let has_columns : (layer.n == 0) ≡ false = ground arith in
        let has_ops : (layer.num_op == 0) ≡ false = ground arith in
        let has_cores : (xpu.num_core == 0) ≡ false = ground arith in
        elim (Option-cases (l1_tile cs xpu layer)) [
          | inl missing ↦ inl (
            rw has_rows (rw has_columns (rw has_ops (rw has_cores (rw missing refl)))),
            l1_tile-none missing,
          )
          | inr (l1, found) ↦
              let first = l1_tile-IsBestL1 l1 found in
              let (l2, second, best) = l2_tile-IsBestL2 l1 first.within in
              inr (
                record { l1 = l1; l1_tk = 32; l2 = l2; l2_tk = layer.k },
                rw has_rows
                    (rw has_columns (rw has_ops (rw has_cores (rw found (rw second refl))))),
                first,
                best,
              )
        ]
