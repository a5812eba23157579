-- ===== src/Ramulator/Statements.antt =====
-- Statements that change the wrapper's store and may raise, with `try … finally`.
use attacc_simulator_vlm.Prelude.{List, Option, Result, ok, raise}
use attacc_simulator_vlm.Trace.Command.{Command}
use attacc_simulator_vlm.Ramulator.Machine.{Job, Yaml, Row, Pandas}

-- The data frame `self.df` (`None` without pandas), the log file, and the temporary files in
-- `ramulator_dir`.
pub record Store (pd : Pandas) : Type 0 where
  pub df : Option (List Row)
  pub output_log : Option pd.Csv
  pub yaml_files : Job → Option Yaml
  pub trace_files : Job → Option (List Command)

-- A statement on a store of type `S`.
abbrev pub Action : Type 0 → Type 0 → Type 0
Action S A = S → Result A × S

module _ {S : Type 0} where
  abbrev pub continue_with : {A B : Type 0} → (A → S → Result B × S) → Result A → S → Result B × S
  continue_with next (ok a) after = next a after
  continue_with next (raise e) after = (raise e, after)

  infixl 5 ◌>>=◌ ◌>>◌
  abbrev pub ◌>>=◌ : {A B : Type 0} (first : Action S A) → (A → Action S B) → Action S B
  ◌>>=◌ first next s = let (r, after) = first s in continue_with next r after

  abbrev pub ◌>>◌ : {B : Type 0} (first : Action S (Unit {0})) → Action S B → Action S B
  first >> next = first >>= λ done. next

  -- A statement that changes nothing.
  abbrev pub pure : {A : Type 0} → Result A → Action S A
  pure r s = (r, s)

  abbrev pub modify : (S → S) → Action S (Unit {0})
  modify f s = (ok tt, f s)

  -- `try: body finally: cleanup`, for a cleanup that raises nothing.
  abbrev pub try_finally : {A : Type 0} → Action S A → (S → S) → Action S A
  try_finally body cleanup s = let (r, after) = body s in (r, cleanup after)
