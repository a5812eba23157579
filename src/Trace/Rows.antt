-- ===== src/Trace/Rows.antt =====
-- Rows of commands: their number, their lengths and their kind.
use attacc_simulator_vlm.Prelude.{
  ℕ, zero, suc, ◌+◌, ◌-◌, ◌*◌, ◌/◌, ◌%◌, ◌≡◌, refl, ◌∙◌, true, false, List, [], ◌∷◌, map, ◌||◌,
  ◌==◌, if◌then◌else◌, range, range_from, flat_map, length, length-append, length-map, length-range,
  length-flat_map, concat, ceil_div, arith, All, All-flat_map, Bool-cases, inl, inr,
}
use attacc_simulator_vlm.Trace.Command.{Command}
use attacc_simulator_vlm.Trace.Head.{every_sixteenth}

-- A loop over `range(n)` whose body appends `c` commands.
pub length-range_map :
    (f : ℕ → List Command) (c n : ℕ)
    → ((x : ℕ) → length (f x) ≡ c)
    → length (flat_map f (range n)) ≡ n * c
length-range_map f c n h = length-flat_map f c h (range n) ∙ (let e = length-range n in rw e)

pub length-concat-map :
    (f : ℕ → List Command) (c : ℕ)
    → ((x : ℕ) → length (f x) ≡ c)
    → (xs : List ℕ) → length (concat (map f xs)) ≡ length xs * c
length-concat-map f c h [] = omega arith
length-concat-map f c h (x ∷ xs) =
    omega (arith, length-append (f x) (concat (map f xs)), h x, length-concat-map f c h xs)

pub length-rows :
    (f : ℕ → List Command) (c n : ℕ)
    → ((x : ℕ) → length (f x) ≡ c)
    → length (concat (map f (range n))) ≡ n * c
length-rows f c n h = length-concat-map f c h (range n) ∙ (let e = length-range n in rw e)

pub length-range_rows : (f : ℕ → List Command) (n : ℕ) → length (map f (range n)) ≡ n
length-range_rows f n = length-map f (range n) ∙ length-range n

module _ (part : List Command) (rows : ℕ) where
  abbrev at_row : ℕ → List (List Command)
  at_row n_idx = if n_idx % 16 == 15 || n_idx == rows - 1 then part ∷ [] else []

  sixteenths_from :
      (i n : ℕ)
      → i + suc n ≡ rows
      → length (flat_map at_row (range_from i (suc n))) + i / 16 ≡ ceil_div rows 16
  sixteenths_from i zero e = elim (Bool-cases (i % 16 == 15)) [
    | inl full ↦ rw full (ground arith)
    | inr short ↦
        let last : (i == rows - 1) ≡ true = ground arith in rw (short, last) (ground arith)
  ]
  sixteenths_from i (suc n) e =
      let ih = sixteenths_from (suc i) n (omega arith) in
      elim (Bool-cases (i % 16 == 15)) [
        | inl full ↦ rw full (ground (arith, ih))
        | inr short ↦
            let inside : (i == rows - 1) ≡ false = ground arith in
            rw (short, inside) (ground (arith, ih))
      ]

pub length-every_sixteenth :
    (part : List Command) (rows : ℕ) → length (every_sixteenth rows part) ≡ ceil_div rows 16
unfolding every_sixteenth
length-every_sixteenth part zero = omega arith
length-every_sixteenth part (suc n) = omega (arith, sixteenths_from part (suc n) 0 n (omega arith))

All-at_row {ℓ} :
    (P : List Command → Type ℓ) (part : List Command) (rows : ℕ)
    → P part
    → (i : ℕ) → All P (at_row part rows i)
All-at_row P part rows h i = elim (Bool-cases (i % 16 == 15 || i == rows - 1)) [
  | inl behind ↦ rw behind (h, tt)
  | inr within ↦ rw within tt
]

pub All-every_sixteenth {ℓ} :
    (P : List Command → Type ℓ) (part : List Command) (rows : ℕ)
    → P part
    → All P (every_sixteenth rows part)
unfolding every_sixteenth
All-every_sixteenth P part rows h =
    All-flat_map P (at_row part rows) (range rows) (λ i. All-at_row P part rows h i)

length-concat-All :
    (c : ℕ) (rows : List (List Command))
    → All (λ r. length r ≡ c) rows
    → length (concat rows) ≡ length rows * c
length-concat-All c [] h = omega arith
length-concat-All c (r ∷ rows) h =
    omega (arith, length-append r (concat rows), h.0, length-concat-All c rows h.1)

pub length-concat-every_sixteenth :
    (part : List Command) (rows : ℕ)
    → length (concat (every_sixteenth rows part)) ≡ ceil_div rows 16 * length part
length-concat-every_sixteenth part rows =
    length-concat-All (length part) (every_sixteenth rows part)
      (All-every_sixteenth (λ r. length r ≡ length part) part rows refl)
    ∙ (let e = length-every_sixteenth part rows in rw e)
