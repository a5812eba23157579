-- ===== src/System/Sampling.antt =====
-- The sampled chunks: in order, in range, with the first and the last.
use native.Mathlib.Nat.{pow-le-pow_right}
use attacc_simulator_vlm.Prelude.{
  ℕ, zero, suc, ◌+◌, ◌-◌, ◌^◌, ◌≡◌, ◌≤◌, ◌<◌, refl, max, true, false, ◌==◌, ltb, leb, List, [], ◌∷◌,
  All, All-imp, ◌⊎◌, range, range_from, Bool-cases, inl, inr, arith, subst,
}
use attacc_simulator_vlm.System.{insert_index, sample_index, add_positions, sample_indices}

-- Every index is below the ones behind it.
abbrev pub IsAscending : List ℕ → Type 0
IsAscending [] = Unit
IsAscending (x ∷ xs) = All (λ y. x < y) xs × IsAscending xs

abbrev pub IsIn : ℕ → List ℕ → Type 0
IsIn k [] = ⊥
IsIn k (x ∷ xs) = (k ≡ x) ⊎ IsIn k xs

-- The three places of an index against the first of a list.
order-cases :
    (x y : ℕ)
    → (ltb x y ≡ true)
      ⊎ ((ltb x y ≡ false) × (x == y ≡ true))
      ⊎ ((ltb x y ≡ false) × (x == y ≡ false) × (y < x))
order-cases x y = elim (Bool-cases (ltb x y)) [
  | inl below ↦ inl below
  | inr above ↦ inr (elim (Bool-cases (x == y)) [
    | inl same ↦ inl (above, same)
    | inr other ↦ inr (above, other, ground arith)
  ])
]

insert_index-All :
    (P : ℕ → Type 0) (x : ℕ) (xs : List ℕ) → P x → All P xs → All P (insert_index x xs)
insert_index-All P x [] h k = (h, tt)
insert_index-All P x (y ∷ ys) h k = elim (order-cases x y) [
  | inl below ↦ rw below (h, k)
  | inr (inl (above, same)) ↦ rw above (rw same k)
  | inr (inr (above, other, less)) ↦ rw above (rw other (k.0, insert_index-All P x ys h k.1))
]

insert_index-IsAscending : (x : ℕ) (xs : List ℕ) → IsAscending xs → IsAscending (insert_index x xs)
insert_index-IsAscending x [] h = (tt, tt)
insert_index-IsAscending x (y ∷ ys) h = elim (order-cases x y) [
  | inl below ↦
      let first : x < y = ground arith in
      rw below ((first, All-imp ys (λ z k. omega (arith, first, k)) h.0), h)
  | inr (inl (above, same)) ↦ rw above (rw same h)
  | inr (inr (above, other, less)) ↦
      rw above
        (rw other (insert_index-All (λ z. y < z) x ys less h.0, insert_index-IsAscending x ys h.1))
]

insert_index-IsIn : (k x : ℕ) (xs : List ℕ) → IsIn k xs → IsIn k (insert_index x xs)
insert_index-IsIn k x [] h = elim h [ ]
insert_index-IsIn k x (y ∷ ys) h = elim (order-cases x y) [
  | inl below ↦ rw below (inr h)
  | inr (inl (above, same)) ↦ rw above (rw same h)
  | inr (inr (above, other, less)) ↦ rw above (
      rw other
        (elim h [ inl first ↦ inl first | inr later ↦ inr (insert_index-IsIn k x ys later) ]))
]

pub record IsSample (n_items : ℕ) (indices : List ℕ) : Type 0 where
  pub ascending : IsAscending indices
  pub in_range : All (λ i. i < n_items) indices
  pub has_first : IsIn 0 indices
  pub has_last : IsIn (n_items - 1) indices

insert_index-IsSample :
    (n_items x : ℕ) (indices : List ℕ)
    → x < n_items
    → IsSample n_items indices
    → IsSample n_items (insert_index x indices)
insert_index-IsSample n_items x indices below h = record {
  ascending = insert_index-IsAscending x indices h.ascending;
  in_range = insert_index-All (λ i. i < n_items) x indices below h.in_range;
  has_first = insert_index-IsIn 0 x indices h.has_first;
  has_last = insert_index-IsIn (n_items - 1) x indices h.has_last;
}

-- An index of a list that starts at `i`.
range_from-All :
    (i n : ℕ) (P : ℕ → Type 0) → ((j : ℕ) → i ≤ j → j < i + n → P j) → All P (range_from i n)
range_from-All i zero P h = tt
range_from-All i (suc n) P h = (
  h i (omega arith) (omega arith),
  range_from-All (suc i) n P (λ j a b. h j (omega arith) (omega arith)),
)

range_from-IsAscending : (i n : ℕ) → IsAscending (range_from i n)
range_from-IsAscending i zero = tt
range_from-IsAscending i (suc n) =
    (range_from-All (suc i) n _ (λ j a b. omega arith), range_from-IsAscending (suc i) n)

range_from-IsIn : (i n : ℕ) → IsIn (i + n) (range_from i (suc n))
range_from-IsIn i zero = inl (omega arith)
range_from-IsIn i (suc n) =
    let moved : suc i + n ≡ i + suc n = omega arith in
    inr (subst (λ k. IsIn k (range_from (suc i) (suc n))) moved (range_from-IsIn (suc i) n))

range-IsSample : (n : ℕ) → IsSample (suc n) (range (suc n))
range-IsSample n =
    let same : 0 + n ≡ suc n - 1 = omega arith in
    record {
      ascending = range_from-IsAscending 0 (suc n);
      in_range = range_from-All 0 (suc n) _ (λ j a b. omega arith);
      has_first = inl refl;
      has_last = subst (λ k. IsIn k (range (suc n))) same (range_from-IsIn 0 n);
    }

module _ (rounded : ℕ → ℕ → ℕ → ℕ) (bounded : (a b c : ℕ) → b ≤ c → rounded a b c ≤ a) where
  sample_index-lt :
      (n sample_count pos : ℕ)
      → pos < sample_count
      → sample_index rounded (suc n) sample_count pos < suc n
  sample_index-lt n sample_count pos h =
      let within : 2 ^ pos ≤ 2 ^ (sample_count - 1) =
        pow-le-pow_right (omega arith) (omega arith) in
      let small : 2 ^ pos - 1 ≤ max 1 (2 ^ (sample_count - 1) - 1) = omega arith in
      let bound = bounded (suc n - 1) (2 ^ pos - 1) (max 1 (2 ^ (sample_count - 1) - 1)) small in
      omega (arith, bound)

  add_positions-IsSample :
      (n sample_count : ℕ) (positions indices : List ℕ)
      → All (λ pos. pos < sample_count) positions
      → IsSample (suc n) indices
      → IsSample (suc n) (add_positions rounded (suc n) sample_count positions indices)
  unfolding add_positions
  add_positions-IsSample n sample_count [] indices h k = k
  add_positions-IsSample n sample_count (pos ∷ rest) indices h k =
      add_positions-IsSample n sample_count rest _ h.1
        (insert_index-IsSample (suc n) _ indices (sample_index-lt n sample_count pos h.0) k)

  two-IsSample : (n : ℕ) → IsSample (suc n) (insert_index (suc n - 1) (0 ∷ []))
  two-IsSample zero = record {
    ascending = (tt, tt);
    in_range = (omega arith, tt);
    has_first = inl refl;
    has_last = inl refl;
  }
  two-IsSample (suc n) =
      let above : ltb (suc (suc n) - 1) 0 ≡ false = ground arith in
      let other : (suc (suc n) - 1 == 0) ≡ false = ground arith in
      rw above (
        rw other (record {
          ascending = ((omega arith, tt), (tt, tt));
          in_range = (omega arith, (omega arith, tt));
          has_first = inl refl;
          has_last = inr (inl refl);
        }))

  -- If rounding keeps a fraction of an integer within it, the sampled chunks of a prompt with a chunk are in
  -- order, in range and not repeated, and the first and the last are among them.
  pub sample_indices-IsSample :
      (n_items sample_count : ℕ)
      → 0 < n_items
      → IsSample n_items (sample_indices rounded n_items sample_count)
  unfolding sample_indices
  sample_indices-IsSample zero sample_count h = absurd (omega arith)
  sample_indices-IsSample (suc n) sample_count h = elim (Bool-cases (leb (suc n) sample_count)) [
    | inl few ↦ rw few (range-IsSample n)
    | inr many ↦ rw many (
        add_positions-IsSample n sample_count (range sample_count) _
          (range_from-All 0 sample_count _ (λ j a b. omega arith)) (two-IsSample n))
  ]
