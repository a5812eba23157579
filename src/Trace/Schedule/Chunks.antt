-- ===== src/Trace/Schedule/Chunks.antt =====
-- The loops that hand out a list in strides, and the one that lags a round behind.
use attacc_simulator_vlm.Prelude.{
  ℕ, zero, suc, ◌+◌, ◌-◌, ◌*◌, ◌/◌, ◌<◌, ◌≤◌, ◌≡◌, refl, sym, ◌∙◌, ap, List, [], if◌then◌else◌, leb,
  ◌==◌, Result, ok, index_error, or_raise, for_each, range, range_from, range_from-append, arith,
  get_elem?, length, take, drop, drop-drop, take-add, true, false, take-of_le, concat,
  concat-append, ceil_div, ◌>>=◌,
}
use attacc_simulator_vlm.Trace.Select.{for_each_ext, nil-⊕}
use attacc_simulator_vlm.Trace.Schedule.Loops.{
  slice_from-eq-take, for_each-append, for_each-shift, nothing, nothing-loop, index-loop,
}
use attacc_simulator_vlm.Trace.Schedule.{slice_from, stride_of}

module _ {ℓ} {A : Type ℓ} where
  chunk_from :
      (st : ℕ) (xs : List A) (i n p q : ℕ)
      → p ≡ i * st
      → q ≡ n * st
      → for_each (λ j. ok (slice_from st (j * st) xs)) (range_from i n) ≡ ok (take q (drop p xs))
  chunk_from st xs i zero p q e f = let f' : q ≡ 0 = omega arith in rw f'
  chunk_from st xs i (suc n) p q e f = rw (
    sym e,
    slice_from-eq-take st p xs,
    chunk_from st xs (suc i) n (p + st) (n * st) (grind arith) refl,
    take-add st (n * st) q (drop p xs) (grind arith),
    drop-drop p st (p + st) xs refl,
  )

  -- `n` strides hand out the first `n * st` items.
  pub chunk-loop :
      (st n : ℕ) (xs : List A)
      → for_each (λ j. ok (slice_from st (j * st) xs)) (range n) ≡ ok (take (n * st) xs)
  chunk-loop st n xs = chunk_from st xs 0 n 0 (n * st) (omega arith) refl

  rows_from :
      (st : ℕ) (rows : List (List A)) (i n p q : ℕ)
      → p ≡ i * st
      → q ≡ n * st
      → for_each (λ j. ok (concat (slice_from st (j * st) rows))) (range_from i n)
        ≡ ok (concat (take q (drop p rows)))
  rows_from st rows i zero p q e f = let f' : q ≡ 0 = omega arith in rw f'
  rows_from st rows i (suc n) p q e f = rw (
    sym e,
    slice_from-eq-take st p rows,
    rows_from st rows (suc i) n (p + st) (n * st) (grind arith) refl,
    take-add st (n * st) q (drop p rows) (grind arith),
    drop-drop p st (p + st) rows refl,
    concat-append (take st (drop p rows)) (take (n * st) (drop (p + st) rows)),
  )

  -- Enough strides over a list of rows append every row.
  pub rows-loop :
      (st n : ℕ) (rows : List (List A))
      → length rows ≤ n * st
      → for_each (λ j. ok (concat (slice_from st (j * st) rows))) (range n) ≡ ok (concat rows)
  rows-loop st n rows h =
      rows_from st rows 0 n 0 (n * st) (omega arith) refl
      ∙ ap (λ (xs : List (List A)). ok (concat xs)) (take-of_le (n * st) rows h)

  pub previous-loop :
      (rows : List (List A)) (n : ℕ)
      → length rows ≡ n
      → for_each
          (λ j. if j == 0 then ok [] else or_raise (get_elem? rows (j - 1)) index_error)
          (range (suc n))
        ≡ ok (concat rows)
  previous-loop rows n h =
      nil-⊕ _
      ∙ for_each-shift
          (λ j. if j == 0 then ok [] else or_raise (get_elem? rows (j - 1)) index_error)
          (λ j. or_raise (get_elem? rows j) index_error) 0 1 n
          (λ j.
            let e : j + 1 - 1 ≡ j = omega arith in
            let f : (j + 1 == 0) ≡ false = ground arith in rw (f, e))
          1 refl
      ∙ index-loop index_error rows n h

  abbrev stride_at : ℕ → ℕ → List A → ℕ → Result (List A)
  stride_at total n xs j = do stride ← stride_of total n; ok (slice_from stride (j * stride) xs)

  -- The strides of a whole loop of `n` rounds.
  pub stride-loop :
      (total n : ℕ) (xs : List A)
      → for_each (stride_at total n xs) (range n) ≡ ok (take (n * (total / n)) xs)
  stride-loop total zero xs = let e : 0 * (total / 0) ≡ 0 = omega arith in rw e
  stride-loop total (suc n) xs =
      let some_rounds : (suc n == 0) ≡ false = ground arith in
      for_each_ext (stride_at total (suc n) xs)
        (λ j. ok (slice_from (total / suc n) (j * (total / suc n)) xs)) 0 (suc n)
        (λ j a b. rw some_rounds)
      ∙ chunk-loop (total / suc n) (suc n) xs

  -- One round of the second half of a loop of `n` rounds.
  abbrev half_at : ℕ → ℕ → List A → ℕ → Result (List A)
  half_at total n xs j =
      if leb (n / 2) j
      then (do
        stride ← stride_of total (ceil_div n 2)
        ok (slice_from stride ((j - n / 2) * stride) xs))
      else ok []

  half-loop_pos :
      (total n : ℕ) (xs : List A)
      → 0 < n
      → for_each (half_at total n xs) (range n)
        ≡ ok (take (ceil_div n 2 * (total / ceil_div n 2)) xs)
  half-loop_pos total n xs pos =
      let h = n / 2 in
      let c = ceil_div n 2 in
      let st = total / c in
      let some_rounds : (c == 0) ≡ false = ground arith in
      ap (for_each (half_at total n xs)) (range_from-append 0 h c n h (omega arith) (omega arith))
      ∙ for_each-append (half_at total n xs) (range h) (range_from h c)
      ∙ rw (for_each_ext (half_at total n xs) nothing 0 h (λ j a b. ground arith), nothing-loop 0 h)
          (nil-⊕ (for_each (half_at total n xs) (range_from h c))
            ∙ for_each-shift (half_at total n xs) (λ j. ok (slice_from st (j * st) xs)) 0 h c
                (λ j.
                  let late : leb h (j + h) ≡ true = ground arith in
                  let e : j + h - h ≡ j = omega arith in rw (late, some_rounds, e))
                h (omega arith)
            ∙ chunk-loop st c xs)

  -- The strides of the second half of a loop.
  pub half-loop :
      (total n : ℕ) (xs : List A)
      → for_each (half_at total n xs) (range n)
        ≡ ok (take (ceil_div n 2 * (total / ceil_div n 2)) xs)
  half-loop total zero xs = rw (let e : 0 * (total / 0) ≡ 0 = omega arith in e)
  half-loop total (suc n) xs = half-loop_pos total (suc n) xs (omega arith)
