-- ===== src/Ramulator/Log.antt =====
-- The log: what the first row for a key says of the run that it stands for, and a row that is added.
use attacc_simulator_vlm.Prelude.{
  ℕ, ◌≡◌, refl, sym, subst, Bool, true, false, List, [], ◌∷◌, ◌++◌, Option, none, some, or_else,
  Option-cases, Bool-cases, inl, inr, arith, Result, ok,
}
use attacc_simulator_vlm.Config.Energy.{PimType, ba, bg, buffer}
use attacc_simulator_vlm.Ramulator.Machine.{Host, Row, first_row}
use attacc_simulator_vlm.Ramulator.Jobs.{same_bool-eq, same_bool_refl}
use attacc_simulator_vlm.Ramulator.Measure.{measure}
use attacc_simulator_vlm.Ramulator.Reading.{Counts}
use attacc_simulator_vlm.Ramulator.{Setup, same_pim_type, is_row, row_of}

abbrev pub counts_of : Row → Counts
counts_of r = record {
  cycle = r.cycle;
  mac = r.mac;
  sfm = r.softmax;
  mvgb = r.mvgb;
  mvsb = r.mvsb;
  wrgb = r.wrgb;
}

pub same_pim_type-eq : (a b : PimType) → same_pim_type a b ≡ true → a ≡ b
same_pim_type-eq ba ba h = refl
same_pim_type-eq bg bg h = refl
same_pim_type-eq buffer buffer h = refl
same_pim_type-eq ba bg h = cc
same_pim_type-eq ba buffer h = cc
same_pim_type-eq bg ba h = cc
same_pim_type-eq bg buffer h = cc
same_pim_type-eq buffer ba h = cc
same_pim_type-eq buffer bg h = cc

same_pim_type_refl : (a : PimType) → same_pim_type a a ≡ true
same_pim_type_refl ba = refl
same_pim_type_refl bg = refl
same_pim_type_refl buffer = refl

pub first_row-snoc :
    (p : Row → Bool) (rows : List Row) (row : Row)
    → p row ≡ true
    → first_row p (rows ++ row ∷ []) ≡ some (or_else (first_row p rows) row)
first_row-snoc p [] row h = rw h refl
first_row-snoc p (r ∷ rows) row h = elim (Bool-cases (p r)) [
  | inl found ↦ rw found refl
  | inr other ↦ rw other (first_row-snoc p rows row h)
]

first_row-snoc_other :
    (p : Row → Bool) (rows : List Row) (row : Row)
    → p row ≡ false
    → first_row p (rows ++ row ∷ []) ≡ first_row p rows
first_row-snoc_other p [] row h = rw h refl
first_row-snoc_other p (r ∷ rows) row h = rw (first_row-snoc_other p rows row h) refl

module _ (host : Host) (su : Setup) where
  -- A row, where there is one, has the counts that a run gives.
  abbrev pub Agrees : Option Row → Result Counts → Type 0
  Agrees none r = Unit
  Agrees (some row) r = r ≡ ok (counts_of row)

  -- The first row for each key of this object has the counts that a run gives.
  abbrev pub IsTrue : List Row → Type 0
  IsTrue rows =
      (pim_type : PimType) (l heads dbyte : ℕ) (power_constraint : Bool)
      → Agrees (first_row (is_row su pim_type l heads dbyte su.dhead power_constraint) rows)
          (measure host su pim_type l heads dbyte power_constraint)

  pub is_row-row_of :
      (pim_type : PimType) (l heads dbyte : ℕ) (power_constraint : Bool) (c : Counts)
      → is_row su pim_type l heads dbyte su.dhead power_constraint
          (row_of su pim_type l heads dbyte power_constraint c)
        ≡ true
  is_row-row_of pim_type l heads dbyte power_constraint c =
      grind (arith, same_bool_refl power_constraint, same_pim_type_refl pim_type)

  -- A row that is found by a key has the counts of that key's run, if it has those of its own.
  row_of-Agrees :
      (pim_type pim : PimType) (l heads dbyte l' heads' dbyte' : ℕ) (power_constraint pc : Bool)
      (c : Counts)
      → measure host su pim_type l heads dbyte power_constraint ≡ ok c
      → is_row su pim l' heads' dbyte' su.dhead pc
          (row_of su pim_type l heads dbyte power_constraint c)
        ≡ true
      → measure host su pim l' heads' dbyte' pc ≡ ok c
  row_of-Agrees pim_type pim l heads dbyte l' heads' dbyte' power_constraint pc c measured h =
      let same_l : l ≡ l' = grind arith in
      let same_heads : heads ≡ heads' = grind arith in
      let same_dbyte : dbyte ≡ dbyte' = grind arith in
      let same_pc : power_constraint ≡ pc = same_bool-eq power_constraint pc (grind arith) in
      let same_pim : pim_type ≡ pim = same_pim_type-eq pim_type pim (grind arith) in
      subst (λ x. measure host su x l' heads' dbyte' pc ≡ ok c) same_pim
        (subst (λ x. measure host su pim_type x heads' dbyte' pc ≡ ok c) same_l
          (subst (λ x. measure host su pim_type l x dbyte' pc ≡ ok c) same_heads
            (subst (λ x. measure host su pim_type l heads x pc ≡ ok c) same_dbyte
              (subst (λ x. measure host su pim_type l heads dbyte x ≡ ok c) same_pc measured))))

  pub snoc-IsTrue :
      (rows : List Row) (pim_type : PimType) (l heads dbyte : ℕ) (power_constraint : Bool)
      (c : Counts)
      → measure host su pim_type l heads dbyte power_constraint ≡ ok c
      → IsTrue rows
      → IsTrue (rows ++ row_of su pim_type l heads dbyte power_constraint c ∷ [])
  snoc-IsTrue rows pim_type l heads dbyte power_constraint c measured h pim l' heads' dbyte' pc =
      let row = row_of su pim_type l heads dbyte power_constraint c in
      let p = is_row su pim l' heads' dbyte' su.dhead pc in
      elim (Bool-cases (p row)) [
        | inr other ↦
            subst (λ o. Agrees o (measure host su pim l' heads' dbyte' pc))
              (sym (first_row-snoc_other p rows row other)) (h pim l' heads' dbyte' pc)
        | inl found ↦
            subst (λ o. Agrees o (measure host su pim l' heads' dbyte' pc))
              (sym (first_row-snoc p rows row found))
              (elim (Option-cases (first_row p rows)) [
                | inl missing ↦
                    subst
                      (λ o. Agrees (some (or_else o row)) (measure host su pim l' heads' dbyte' pc))
                      (sym missing)
                      (row_of-Agrees pim_type pim l heads dbyte l' heads' dbyte' power_constraint pc
                        c measured found)
                | inr (r, there) ↦
                    subst
                      (λ o. Agrees (some (or_else o row)) (measure host su pim l' heads' dbyte' pc))
                      (sym there)
                      (subst (λ o. Agrees o (measure host su pim l' heads' dbyte' pc)) there
                        (h pim l' heads' dbyte' pc))
              ])
      ]
