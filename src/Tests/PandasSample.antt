-- ===== src/Tests/PandasSample.antt =====
-- Sample operations of pandas: files that are tables, and the removal of equal rows.
use attacc_simulator_vlm.Prelude.{
  ◌≡◌, refl, sym, ap, ◌∙◌, Bool, true, false, ◌&&◌, ◌==◌, if◌then◌else◌, List, [], ◌∷◌, Bool-cases,
  inl, inr, arith,
}
use attacc_simulator_vlm.Ramulator.Machine.{Row, first_row, with_max_L, Pandas, PandasLaws}
use attacc_simulator_vlm.Ramulator.{same_bool, same_pim_type}
use attacc_simulator_vlm.Ramulator.Jobs.{same_bool-eq}
use attacc_simulator_vlm.Ramulator.Log.{same_pim_type-eq}

abbrev same_row : Row → Row → Bool
same_row a b =
    (a.l == b.l)
    && (a.max_L == b.max_L)
    && (a.nhead == b.nhead)
    && (a.dhead == b.dhead)
    && (a.dbyte == b.dbyte)
    && same_pim_type a.pim_type b.pim_type
    && same_bool a.power_constraint b.power_constraint
    && (a.cycle == b.cycle)
    && (a.mac == b.mac)
    && (a.softmax == b.softmax)
    && (a.mvgb == b.mvgb)
    && (a.mvsb == b.mvsb)
    && (a.wrgb == b.wrgb)

same_row-eq : (a b : Row) → same_row a b ≡ true → a ≡ b
same_row-eq a b h =
    let l : a.l ≡ b.l = grind arith in
    let max_L : a.max_L ≡ b.max_L = grind arith in
    let nhead : a.nhead ≡ b.nhead = grind arith in
    let dhead : a.dhead ≡ b.dhead = grind arith in
    let dbyte : a.dbyte ≡ b.dbyte = grind arith in
    let pim_type : a.pim_type ≡ b.pim_type = same_pim_type-eq a.pim_type b.pim_type (grind arith) in
    let power_constraint : a.power_constraint ≡ b.power_constraint =
      same_bool-eq a.power_constraint b.power_constraint (grind arith) in
    let cycle : a.cycle ≡ b.cycle = grind arith in
    let mac : a.mac ≡ b.mac = grind arith in
    let softmax : a.softmax ≡ b.softmax = grind arith in
    let mvgb : a.mvgb ≡ b.mvgb = grind arith in
    let mvsb : a.mvsb ≡ b.mvsb = grind arith in
    let wrgb : a.wrgb ≡ b.wrgb = grind arith in
    λ i. record {
      l = l i;
      max_L = max_L i;
      nhead = nhead i;
      dhead = dhead i;
      dbyte = dbyte i;
      pim_type = pim_type i;
      power_constraint = power_constraint i;
      cycle = cycle i;
      mac = mac i;
      softmax = softmax i;
      mvgb = mvgb i;
      mvsb = mvsb i;
      wrgb = wrgb i;
    }

abbrev without : Row → List Row → List Row
without r [] = []
without r (x ∷ xs) = let rest = without r xs in if same_row r x then rest else x ∷ rest

abbrev distinct : List Row → List Row
distinct [] = []
distinct (r ∷ rs) = r ∷ without r (distinct rs)

first_row-without :
    (p : Row → Bool) (r : Row) (rs : List Row)
    → p r ≡ false
    → first_row p (without r rs) ≡ first_row p rs
first_row-without p r [] h = refl
first_row-without p r (x ∷ xs) h = elim (Bool-cases (same_row r x)) [
  | inl same ↦
      let skipped : p x ≡ false = ap p (sym (same_row-eq r x same)) ∙ h in
      rw same (rw skipped (first_row-without p r xs h))
  | inr other ↦ rw other (rw (first_row-without p r xs h) refl)
]

first_row-distinct : (p : Row → Bool) (rs : List Row) → first_row p (distinct rs) ≡ first_row p rs
first_row-distinct p [] = refl
first_row-distinct p (r ∷ rs) = elim (Bool-cases (p r)) [
  | inl found ↦ rw found refl
  | inr other ↦ rw other (first_row-without p r (distinct rs) other ∙ first_row-distinct p rs)
]

abbrev pub tables : Pandas
tables = record {
  Csv = List Row;
  read_csv = with_max_L;
  to_csv = λ rows. rows;
  drop_duplicates = distinct;
}

pub tables-PandasLaws : PandasLaws tables
tables-PandasLaws = record { keeps_first = first_row-distinct; reads_back = λ rs. refl }
