-- ===== src/Model/Routing/Asked.antt =====
-- Which layers a list asks for: the numbers in the list, or those of the default list.
use attacc_simulator_vlm.Prelude.{
  ℕ, zero, suc, ◌≤◌, ◌<◌, ◌≡◌, refl, ap, ◌∙◌, Bool, true, false, ◌&&◌, not, List, [], ◌∷◌,
  get_elem?, ltb, ◌==◌, arith, Bool-cases, Option, none, some, ◌⊎◌, inl, inr,
}
use mathlib.Core.Option.{some-injective}
use attacc_simulator_vlm.Model.Routing.{contains, layer_set, default_layer_list, list_or_default}

-- A number stands in a list.
abbrev pub Names : List ℕ → ℕ → Type 0
Names xs x = (i : ℕ) × (get_elem? xs i ≡ some x)

-- 0, 8, 12 to 29, 31 and 33
abbrev pub IsDefault : ℕ → Type 0
IsDefault x = (x ≡ 0) ⊎ ((x ≡ 8) ⊎ (((12 ≤ x) × (x ≤ 29)) ⊎ ((x ≡ 31) ⊎ (x ≡ 33))))

-- The layers that are asked for: those of a list that is not empty, or the default ones.
abbrev pub IsAsked : Option (List ℕ) → ℕ → Type 0
IsAsked (some (y ∷ ys)) x = Names (y ∷ ys) x
IsAsked _ x = IsDefault x

-- A test with what it tests.
abbrev pub Tests : Bool → Type 0 → Type 0
Tests b P = ((b ≡ true) × P) ⊎ ((b ≡ false) × ¬ P)

tail-Names : (x y : ℕ) (ys : List ℕ) → (x == y) ≡ false → ¬ Names ys x → ¬ Names (y ∷ ys) x
tail-Names x y ys apart missing (zero, h) =
    let same : y ≡ x = some-injective y x h in ground (arith, same)
tail-Names x y ys apart missing (suc i, h) = missing (i, h)

contains-Names : (x : ℕ) (xs : List ℕ) → Tests (contains x xs) (Names xs x)
contains-Names x [] = inr (refl, (λ (i, h). cc))
contains-Names x (y ∷ ys) = elim (Bool-cases (x == y)) [
  | inl here ↦ let same : y ≡ x = ground arith in inl (rw here refl, (0, ap some same))
  | inr apart ↦ elim (contains-Names x ys) [
    | inl (found, (i, at)) ↦ inl (rw apart found, (suc i, at))
    | inr (missing, none_at) ↦ inr (rw apart missing, tail-Names x y ys apart none_at)
  ]
]

contains-IsDefault : (x : ℕ) → Tests (contains x default_layer_list) (IsDefault x)
contains-IsDefault x = ground arith

pub contains-IsAsked :
    (x : ℕ) (layers : Option (List ℕ))
    → Tests (contains x (list_or_default layers)) (IsAsked layers x)
contains-IsAsked x none = contains-IsDefault x
contains-IsAsked x (some []) = contains-IsDefault x
contains-IsAsked x (some (y ∷ ys)) = contains-Names x (y ∷ ys)

-- The set of a list has the numbers of the list that name a layer.
pub contains-layer_set :
    (x : ℕ) (xs : List ℕ) (ndec : ℕ) → x < ndec → contains x (layer_set xs ndec) ≡ contains x xs
unfolding layer_set
contains-layer_set x [] ndec h = refl
contains-layer_set x (y ∷ ys) ndec h =
    let others = contains-layer_set x ys ndec h in
    elim (Bool-cases (ltb y ndec && not (contains y (layer_set ys ndec)))) [
      | inl new ↦ rw (new, others) refl
      | inr old ↦ elim (Bool-cases (x == y)) [
        | inl here ↦
            let same : x ≡ y = ground arith in
            let kept : contains y (layer_set ys ndec) ≡ true = ground arith in
            rw old (rw here (ap (λ z. contains z (layer_set ys ndec)) same ∙ kept))
        | inr apart ↦ rw old (rw apart others)
      ]
    ]
