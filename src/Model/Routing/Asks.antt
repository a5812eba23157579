-- ===== src/Model/Routing/Asks.antt =====
-- The layers that a mode and a list ask for, apart from the entries of `to_groups`, and how many they are.
use attacc_simulator_vlm.Prelude.{
  ℕ, zero, suc, ◌+◌, ◌<◌, ◌≤◌, ◌≡◌, refl, ap, ◌∙◌, Bool, true, false, ◌&&◌, ◌||◌, List, [], ◌∷◌,
  range_from, length, leb, ◌==◌, Option, none, some, if◌then◌else◌, Bool-cases, inl, inr, arith,
}
use attacc_simulator_vlm.Model.Routing.{
  Mode, conservative, optimistic, list, layer_set, contains, default_layer_list, list_or_default,
}
use attacc_simulator_vlm.Model.Routing.Counts.{count_in, length-layer_set}
use attacc_simulator_vlm.Model.Routing.Asked.{contains-layer_set}

-- How many of the numbers `i`, …, `i + n - 1` pass a test.
unfoldable pub count_from : (ℕ → Bool) → ℕ → ℕ → ℕ
count_from p i zero = 0
count_from p i (suc n) = let rest = count_from p (suc i) n in if p i then suc rest else rest

pub count_from-same :
    (p q : ℕ → Bool) (i n : ℕ)
    → ((j : ℕ) → j < i + n → p j ≡ q j)
    → count_from p i n ≡ count_from q i n
unfolding count_from
count_from-same p q i zero h = refl
count_from-same p q i (suc n) h =
    rw (h i (omega arith)) (rw (count_from-same p q (suc i) n (λ j k. h j (omega arith))) refl)

pub count_from-all : (i n : ℕ) → count_from (λ j. true) i n ≡ n
unfolding count_from
count_from-all i zero = refl
count_from-all i (suc n) = ap suc (count_from-all (suc i) n)

count_from-count_in :
    (xs : List ℕ) (i n : ℕ) → count_in xs i n ≡ count_from (λ j. contains j xs) i n
unfolding count_from count_in
count_from-count_in xs i zero = refl
count_from-count_in xs i (suc n) = rw (count_from-count_in xs (suc i) n) refl

-- The layers that a list sends to the accelerator.
pub length-layer_set-count_from :
    (xs : List ℕ) (ndec : ℕ) → length (layer_set xs ndec) ≡ count_from (λ j. contains j xs) 0 ndec
length-layer_set-count_from xs ndec =
    length-layer_set xs ndec
    ∙ count_from-count_in (layer_set xs ndec) 0 ndec
    ∙ count_from-same _ _ 0 ndec (λ j h. contains-layer_set j xs ndec (omega arith))

-- 0, 8, 12 to 29, 31 and 33
abbrev pub is_default : ℕ → Bool
is_default x = (x == 0) || (x == 8) || (leb 12 x && leb x 29) || (x == 31) || (x == 33)

-- What a list asks for, where none or an empty one stands for what `absent` tells.
abbrev pub named_or : (absent : ℕ → Bool) → Option (List ℕ) → ℕ → Bool
named_or absent (some (y ∷ ys)) x = contains x (y ∷ ys)
named_or absent _ x = absent x

-- Whether a layer shall run its attention on the accelerator, where there is one.
abbrev pub asks : Option Mode → (has_deepstack : Bool) → Option (List ℕ) → ℕ → Bool
asks (some _) true layers x = named_or is_default layers x
asks none true layers x = named_or (λ x. true) layers x
asks (some conservative) false layers x = true
asks (some optimistic) false layers x = named_or is_default layers x
asks (some list) false layers x = named_or is_default layers x
asks none false layers x = true

contains-is_default : (x : ℕ) → contains x default_layer_list ≡ is_default x
contains-is_default x = ground arith

pub contains-named_or :
    (layers : Option (List ℕ)) (x : ℕ)
    → contains x (list_or_default layers) ≡ named_or is_default layers x
contains-named_or none x = contains-is_default x
contains-named_or (some []) x = contains-is_default x
contains-named_or (some (y ∷ ys)) x = refl

-- The layers that are asked for, where there is an accelerator.
abbrev pub wanted : (hetero : Bool) → (ℕ → Bool) → ℕ → ℕ
wanted hetero p ndec = if hetero then count_from p 0 ndec else 0

pub contains-range_from : (j i n : ℕ) → i ≤ j → j < i + n → contains j (range_from i n) ≡ true
contains-range_from j i zero h k = absurd (omega arith)
contains-range_from j i (suc n) h k = elim (Bool-cases (j == i)) [
  | inl here ↦ rw here refl
  | inr later ↦ rw later (contains-range_from j (suc i) n (ground arith) (omega arith))
]
