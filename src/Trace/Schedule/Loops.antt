-- ===== src/Trace/Schedule/Loops.antt =====
-- What the loops of the interleaving append, in closed form.
use attacc_simulator_vlm.Prelude.{
  ℕ, zero, suc, ◌+◌, ◌≡◌, refl, sym, List, [], ◌∷◌, ◌++◌, append_assoc, append-nil, if◌then◌else◌,
  ◌==◌, Result, ok, or_raise, ◌⊕◌, for_each, range, range_from, arith, inl, inr, get_elem?,
  get_elem?-append, get_elem?-drop, length, length-append, take, drop, concat, repeat, Exception,
}
use attacc_simulator_vlm.Trace.Select.{for_each_ext, nil-⊕, ⊕_assoc}
use attacc_simulator_vlm.Trace.Schedule.{slice_from}

pub slice_from-eq-take {ℓ} :
    {A : Type ℓ} (k p : ℕ) (xs : List A) → slice_from k p xs ≡ take k (drop p xs)
unfolding slice_from
slice_from-eq-take zero p xs = refl
slice_from-eq-take (suc k) p xs = elim (get_elem?-drop p xs) [
  | inl (no_item, e) ↦ rw (no_item, slice_from, e)
  | inr (x, item, e) ↦ rw (item, slice_from, e, slice_from-eq-take k (suc p) xs)
]

module _ {ℓ} {A : Type ℓ} where
  pub for_each-append :
      (f : ℕ → Result (List A)) (xs ys : List ℕ)
      → for_each f (xs ++ ys) ≡ (for_each f xs ⊕ for_each f ys)
  for_each-append f [] ys = sym (nil-⊕ (for_each f ys))
  for_each-append f (x ∷ xs) ys =
      rw (for_each-append f xs ys, ⊕_assoc (f x) (for_each f xs) (for_each f ys))

  pub for_each-shift :
      (f g : ℕ → Result (List A)) (i k n : ℕ)
      → ((j : ℕ) → f (j + k) ≡ g j)
      → (l : ℕ) → l ≡ i + k
      → for_each f (range_from l n) ≡ for_each g (range_from i n)
  for_each-shift f g i k zero h l e = refl
  for_each-shift f g i k (suc n) h l e =
      rw (e, h i, for_each-shift f g (suc i) k n h (suc (i + k)) (omega arith))

  -- The round with `j == length` adds nothing.
  unless_last_from :
      (f : ℕ → Result (List A)) (m i n : ℕ)
      → m ≡ i + n
      → for_each (λ j. if j == m then ok [] else f j) (range_from i (suc n))
        ≡ for_each f (range_from i n)
  unless_last_from f m i zero e =
      let e' : (i == m) ≡ (m == m) = let e'' : i ≡ m = omega arith in rw e'' in ground arith
  unless_last_from f m i (suc n) e =
      rw (unless_last_from f m (suc i) n (omega arith)) (ground arith)

  pub unless_last-loop :
      (f : ℕ → Result (List A)) (n : ℕ)
      → for_each (λ j. if j == n then ok [] else f j) (range (suc n)) ≡ for_each f (range n)
  unless_last-loop f n = unless_last_from f n 0 n (omega arith)

  abbrev pub nothing : ℕ → Result (List A)
  nothing _ = ok []

  pub nothing-loop : (i n : ℕ) → for_each nothing (range_from i n) ≡ ok []
  nothing-loop i zero = refl
  nothing-loop i (suc n) = rw (nothing-loop (suc i) n)

  pub first-loop :
      (xs : List A) (n : ℕ)
      → for_each (λ j. if j == 0 then ok xs else ok []) (range (suc n)) ≡ ok xs
  first-loop xs n = rw (
    for_each_ext (λ j. if j == 0 then ok xs else ok []) nothing 1 n (λ j a b. ground arith),
    nothing-loop 1 n,
    append-nil,
  )

  pub repeat-loop :
      (xs : List A) (i n : ℕ) → for_each (λ _. ok xs) (range_from i n) ≡ ok (repeat n xs)
  repeat-loop xs i zero = refl
  repeat-loop xs i (suc n) = rw (repeat-loop xs (suc i) n)

  index_from :
      (e : Exception) (before rows : List (List A)) (i : ℕ)
      → i ≡ length before
      → for_each (λ j. or_raise (get_elem? (before ++ rows) j) e) (range_from i (length rows))
        ≡ ok (concat rows)
  index_from e before [] i h = refl
  index_from e before (r ∷ rows) i h =
      let ih =
        index_from e (before ++ r ∷ []) rows (suc (length before))
          (omega (arith, length-append before (r ∷ []))) in
      rw (h, get_elem?-append before r rows, (rw (append_assoc before (r ∷ []) rows) at ih))

  -- Every row once, by its index.
  pub index-loop :
      (e : Exception) (rows : List (List A)) (n : ℕ)
      → length rows ≡ n
      → for_each (λ j. or_raise (get_elem? rows j) e) (range n) ≡ ok (concat rows)
  index-loop e rows n h = rw (sym h) (index_from e [] rows 0 refl)
