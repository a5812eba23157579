-- ===== src/Devices/Minimum.antt =====
-- The first element of least cost among those that pass a test: the loops of the tile search.
use attacc_simulator_vlm.Prelude.{
  ◌≡◌, refl, subst, Bool, true, false, ◌&&◌, List, [], ◌∷◌, All, Option, none, some, if◌then◌else◌,
  Bool-cases, inl, inr, arith,
}

-- Costs as `<` compares floats that are numbers.
pub record IsStrict {C : Type 0} (less : C → C → Bool) : Type 0 where
  pub irreflexive : (c : C) → less c c ≡ false
  pub transitive : (a b c : C) → less a b ≡ true → less b c ≡ true → less a c ≡ true

module _ {A C : Type 0} (less : C → C → Bool) (fits : A → Bool) (cost : A → C) where
  -- Whether an element replaces the best one so far.
  abbrev pub is_better_than : Option A → A → Bool
  is_better_than none a = true
  is_better_than (some best) a = less (cost a) (cost best)

  -- `best` is the best element of the rounds before; where there is none its cost is infinite.
  abbrev pub best_of : List A → Option A → Option A
  best_of [] best = best
  best_of (a ∷ rest) best = best_of rest (if fits a && is_better_than best a then some a else best)

  abbrev pub IfSome : (A → Type 0) → Option A → Type 0
  IfSome P none = Unit
  IfSome P (some a) = P a

  -- What holds of every element that fits holds of the best one.
  pub best_of-IfSome :
      (P : A → Type 0) (xs : List A) (best : Option A)
      → All P xs
      → IfSome (λ a. P a × (fits a ≡ true)) best
      → IfSome (λ a. P a × (fits a ≡ true)) (best_of xs best)
  best_of-IfSome P [] best h k = k
  best_of-IfSome P (a ∷ rest) best h k = elim (Bool-cases (fits a && is_better_than best a)) [
    | inr worse ↦ rw worse (best_of-IfSome P rest best h.1 k)
    | inl better ↦ rw better (best_of-IfSome P rest (some a) h.1 (h.0, grind arith))
  ]

  -- No element that fits has less cost than the best one.
  abbrev pub NoBetter : Option A → A → Type 0
  NoBetter best a = (fits a && is_better_than best a) ≡ false

  module _ (strict : IsStrict less) where
    step-improves :
        (best : Option A) (a x : A)
        → is_better_than best a ≡ true
        → less (cost x) (cost a) ≡ true
        → is_better_than best x ≡ true
    step-improves none a x h k = refl
    step-improves (some b) a x h k = strict.transitive (cost x) (cost a) (cost b) k h

    round-improves :
        (b : Bool) (best : Option A) (a x : A)
        → fits a && is_better_than best a ≡ b
        → is_better_than (if b then some a else best) x ≡ true
        → is_better_than best x ≡ true
    round-improves true best a x h k = step-improves best a x (grind arith) k
    round-improves false best a x h k = k

    best_of-improves :
        (xs : List A) (best : Option A) (x : A)
        → is_better_than (best_of xs best) x ≡ true
        → is_better_than best x ≡ true
    best_of-improves [] best x h = h
    best_of-improves (a ∷ rest) best x h =
        round-improves (fits a && is_better_than best a) best a x refl (best_of-improves rest _ x h)

    -- A round leaves nothing better than what it had to choose from.
    round-NoBetter :
        (b : Bool) (best : Option A) (a : A) (rest : List A)
        → fits a && is_better_than best a ≡ b
        → NoBetter (best_of rest (if b then some a else best)) a
    round-NoBetter true best a rest h =
        elim (Bool-cases (is_better_than (best_of rest (some a)) a)) [
          | inl better ↦
              let less_than_itself = best_of-improves rest (some a) a better in
              let irreflexive = strict.irreflexive (cost a) in cc
          | inr worse ↦ grind arith
        ]
    round-NoBetter false best a rest h = elim (Bool-cases (is_better_than (best_of rest best) a)) [
      | inl better ↦ let before = best_of-improves rest best a better in grind arith
      | inr worse ↦ grind arith
    ]

    -- No element of the list that fits has less cost than the best one.
    pub best_of-NoBetter : (xs : List A) (best : Option A) → All (NoBetter (best_of xs best)) xs
    best_of-NoBetter [] best = tt
    best_of-NoBetter (a ∷ rest) best =
        (round-NoBetter (fits a && is_better_than best a) best a rest refl, best_of-NoBetter rest _)

    -- What is found from nothing is of the list, fits, and is least.
    pub best_of-found :
        (P : A → Type 0) (xs : List A) (a : A)
        → All P xs
        → best_of xs none ≡ some a
        → P a × (fits a ≡ true) × All (NoBetter (some a)) xs
    best_of-found P xs a h found =
        let kept =
          subst (IfSome (λ x. P x × (fits x ≡ true))) found (best_of-IfSome P xs none h tt) in
        (kept.0, kept.1, subst (λ o. All (NoBetter o) xs) found (best_of-NoBetter xs none))
