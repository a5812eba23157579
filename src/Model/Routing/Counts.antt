-- ===== src/Model/Routing/Counts.antt =====
-- The layers that a routing covers: every mode accounts for each decoder layer once, and the modes
-- 'optimistic' and 'list' send as many layers to the accelerator.
use attacc_simulator_vlm.Prelude.{
  ℕ, zero, suc, ◌+◌, ◌≤◌, ◌<◌, ◌≡◌, refl, sym, ◌∙◌, Bool, true, false, ◌&&◌, not, List, [], ◌∷◌,
  map, range_from, length, ltb, ◌==◌, if◌then◌else◌, arith, Bool-cases, inl, inr, some,
}
use attacc_simulator_vlm.Model.Routing.{
  Mode, conservative, optimistic, list, Place, Entry, Routing, contains, layer_set, groups_for,
  to_groups, l,
}

-- The layers that the entries stand for.
abbrev pub total_count : List Entry → ℕ
total_count [] = 0
total_count (e ∷ es) = e.count + total_count es

abbrev pub is_gpu : Place → Bool
is_gpu Place.gpu = true
is_gpu _ = false

-- The layers that run off the GPU.
abbrev pub offloaded : List Entry → ℕ
offloaded [] = 0
offloaded (e ∷ es) = if is_gpu e.device then offloaded es else e.count + offloaded es

-- How many of the numbers `i`, …, `i + n - 1` the list holds.
unfoldable pub count_in : List ℕ → ℕ → ℕ → ℕ
count_in xs i zero = 0
count_in xs i (suc n) = let rest = count_in xs (suc i) n in if contains i xs then suc rest else rest

count_in-le : (xs : List ℕ) (i n : ℕ) → count_in xs i n ≤ n
unfolding count_in
count_in-le xs i zero = omega arith
count_in-le xs i (suc n) = ground (arith, count_in-le xs (suc i) n)

count_in-nil : (i n : ℕ) → count_in [] i n ≡ 0
unfolding count_in
count_in-nil i zero = refl
count_in-nil i (suc n) = count_in-nil (suc i) n

count_in-below : (x : ℕ) (xs : List ℕ) (i n : ℕ) → x < i → count_in (x ∷ xs) i n ≡ count_in xs i n
unfolding count_in
count_in-below x xs i zero h = refl
count_in-below x xs i (suc n) h = ground (arith, count_in-below x xs (suc i) n)

count_in-cons :
    (x : ℕ) (xs : List ℕ) (i n : ℕ)
    → contains x xs ≡ false
    → i ≤ x
    → x < i + n
    → count_in (x ∷ xs) i n ≡ suc (count_in xs i n)
unfolding count_in
count_in-cons x xs i zero h lo hi = absurd (omega arith)
count_in-cons x xs i (suc n) h lo hi = elim (Bool-cases (i == x)) [
  | inl here ↦
      let e : i ≡ x = ground arith in
      let gone : contains i xs ≡ false = rw e h in
      rw (here, gone) (ground (arith, count_in-below x xs (suc i) n))
  | inr later ↦ rw later (ground (arith, count_in-cons x xs (suc i) n h))
]

-- No index occurs twice, so the set is as large as its part of `range(ndec)`.
pub length-layer_set :
    (xs : List ℕ) (ndec : ℕ) → length (layer_set xs ndec) ≡ count_in (layer_set xs ndec) 0 ndec
unfolding layer_set
length-layer_set [] ndec = sym (count_in-nil 0 ndec)
length-layer_set (x ∷ xs) ndec =
    elim (Bool-cases (ltb x ndec && not (contains x (layer_set xs ndec)))) [
      | inl new ↦
          rw new
            (ground (arith, length-layer_set xs ndec, count_in-cons x (layer_set xs ndec) 0 ndec))
      | inr old ↦ rw old (length-layer_set xs ndec)
    ]

module _ (r : Routing) where
  abbrev entry_of : List ℕ → ℕ → Entry
  entry_of chosen idx = record {
    group_name = l idx;
    device = if contains idx chosen then r.acc_device else Place.gpu;
    count = 1;
    indices = some (idx ∷ []);
  }

  total_count-map :
      (chosen : List ℕ) (i n : ℕ) → total_count (map (entry_of chosen) (range_from i n)) ≡ n
  total_count-map chosen i zero = refl
  total_count-map chosen i (suc n) = omega (arith, total_count-map chosen (suc i) n)

  offloaded-map :
      is_gpu r.acc_device ≡ false
      → (chosen : List ℕ) (i n : ℕ)
      → offloaded (map (entry_of chosen) (range_from i n)) ≡ count_in chosen i n
  unfolding count_in
  offloaded-map h chosen i zero = refl
  offloaded-map h chosen i (suc n) = elim (Bool-cases (contains i chosen)) [
    | inl in_set ↦ rw (in_set, h) (omega (arith, offloaded-map h chosen (suc i) n))
    | inr out ↦ rw out (offloaded-map h chosen (suc i) n)
  ]

  total_count-groups_for : (mode : Mode) (ndec : ℕ) → total_count (groups_for mode r ndec) ≡ ndec
  unfolding groups_for
  total_count-groups_for conservative ndec = omega arith
  total_count-groups_for optimistic ndec =
      ground (
        arith,
        length-layer_set r.layer_list ndec,
        count_in-le (layer_set r.layer_list ndec) 0 ndec,
      )
  total_count-groups_for list ndec = total_count-map (layer_set r.layer_list ndec) 0 ndec

  -- The counts of the groups add up to the number of decoder layers, in every mode.
  pub total_count-to_groups : (ndec : ℕ) → total_count (to_groups r ndec) ≡ ndec
  unfolding to_groups
  total_count-to_groups ndec = total_count-groups_for r.mode ndec

-- For an accelerator that is not the GPU, the modes 'optimistic' and 'list' send the same number of
-- layers to it, the number of different indices of the list that name a layer.
pub offloaded-optimistic_list :
    (layers : List ℕ) (device : Place) (ndec : ℕ)
    → is_gpu device ≡ false
    → (offloaded
          (to_groups (record { mode = optimistic; layer_list = layers; acc_device = device }) ndec)
        ≡ length (layer_set layers ndec))
      × (offloaded
            (to_groups (record { mode = list; layer_list = layers; acc_device = device }) ndec)
          ≡ length (layer_set layers ndec))
unfolding to_groups groups_for
offloaded-optimistic_list layers device ndec h = (
  ground arith,
  offloaded-map (record { mode = list; layer_list = layers; acc_device = device }) h
        (layer_set layers ndec) 0 ndec
      ∙ sym (length-layer_set layers ndec),
)
