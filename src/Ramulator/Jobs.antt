-- ===== src/Ramulator/Jobs.antt =====
-- Names of temporary files: equality, and a file that is written and removed.
use attacc_simulator_vlm.Prelude.{
  ◌≡◌, refl, sym, ap, ◌∙◌, Bool, true, false, Option, none, Bool-cases, inl, inr, arith,
}
use attacc_simulator_vlm.Ramulator.Machine.{Job}
use attacc_simulator_vlm.Ramulator.{same_bool, same_job, put_file, remove_file}

pub same_bool-eq : (a b : Bool) → same_bool a b ≡ true → a ≡ b
same_bool-eq true true h = refl
same_bool-eq true false h = cc
same_bool-eq false true h = cc
same_bool-eq false false h = refl

pub same_bool_refl : (a : Bool) → same_bool a a ≡ true
same_bool_refl true = refl
same_bool_refl false = refl

pub same_job_refl : (a : Job) → same_job a a ≡ true
same_job_refl a = grind (arith, same_bool_refl a.pc)

same_job-eq : (a b : Job) → same_job a b ≡ true → a ≡ b
same_job-eq a b h =
    let l : a.l ≡ b.l = grind arith in
    let max_L : a.max_L ≡ b.max_L = grind arith in
    let nattn : a.nattn ≡ b.nattn = grind arith in
    let dhead : a.dhead ≡ b.dhead = grind arith in
    let dbyte : a.dbyte ≡ b.dbyte = grind arith in
    let pc : a.pc ≡ b.pc = same_bool-eq a.pc b.pc (grind arith) in
    λ i. record {
      l = l i;
      max_L = max_L i;
      nattn = nattn i;
      dhead = dhead i;
      dbyte = dbyte i;
      pc = pc i;
    }

pub remove_file-put_file :
    {V : Type 0} (key : Job) (v : V) (files : Job → Option V)
    → files key ≡ none
    → (j : Job) → remove_file key (put_file key v files) j ≡ files j
remove_file-put_file key v files h j = elim (Bool-cases (same_job key j)) [
  | inl same ↦ rw same (sym h ∙ ap files (same_job-eq key j same))
  | inr other ↦ rw other refl
]
