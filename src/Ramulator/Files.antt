-- ===== src/Ramulator/Files.antt =====
-- The temporary files: where the simulator is there, no call of `output` leaves one behind, whatever it
-- returns; without it, `run` leaves the trace.
use attacc_simulator_vlm.Prelude.{
  ℕ, ◌≡◌, refl, ◌∙◌, Bool, true, List, [], ◌∷◌, Option, none, some, Bool-cases, Result-cases, inl,
  inr, Result, ok, raise, file_not_found,
}
use attacc_simulator_vlm.Trace.Command.{Command}
use attacc_simulator_vlm.Model.Layer.{Layer}
use attacc_simulator_vlm.Config.Energy.{PimType}
use attacc_simulator_vlm.Ramulator.Machine.{
  Host, Pandas, Clock, first_existing, Row, Simulator, Job,
}
use attacc_simulator_vlm.Ramulator.Statements.{Store, Action, continue_with}
use attacc_simulator_vlm.Ramulator.Jobs.{same_job_refl, remove_file-put_file}
use attacc_simulator_vlm.Ramulator.Measure.{
  measure, settled, conclude, run-conclude, run-raise, trace_of, traces_after,
}
use attacc_simulator_vlm.Ramulator.{
  Setup, row_of, with_frame, answer, output_on, heads_of, job_of, update_log_file, run, look_up,
  output,
}

-- No temporary file is there.
pub record IsClean {pd : Pandas} (s : Store pd) : Type 0 where
  pub no_yaml : (j : Job) → s.yaml_files j ≡ none
  pub no_trace : (j : Job) → s.trace_files j ≡ none

module _ (pd : Pandas) (ck : Clock) (host : Host) (su : Setup) where
  traces_after-none :
      (t : Result (List Command)) (sim : Simulator) (key : Job)
      (files : Job → Option (List Command))
      → ((j : Job) → files j ≡ none)
      → (j : Job) → traces_after t (some sim) key files j ≡ none
  traces_after-none (raise e) sim key files h j = h j
  traces_after-none (ok lines) sim key files h j =
      remove_file-put_file key lines files (h key) j ∙ h j

  settled-IsClean :
      (pim_type : PimType) (l heads dbyte : ℕ) (power_constraint : Bool) (sim : Simulator)
      (s : Store pd)
      → first_existing host.ramulator_candidates ≡ some sim
      → IsClean s
      → IsClean (settled host su pd ck pim_type l heads dbyte power_constraint s)
  settled-IsClean pim_type l heads dbyte power_constraint sim s there clean =
      let key = job_of su l heads dbyte power_constraint in
      record {
        no_yaml =
            λ j. remove_file-put_file key _ s.yaml_files (clean.no_yaml key) j ∙ clean.no_yaml j;
        no_trace = λ j. rw there (
            traces_after-none (trace_of host su pim_type l heads dbyte) sim key s.trace_files
              clean.no_trace j);
      }

  -- Statements that leave no temporary file where they find none.
  abbrev Cleans : {A : Type 0} → Action (Store pd) A → Type 0
  Cleans act = (s : Store pd) → IsClean s → IsClean (act s).1

  with_frame-IsClean :
      {A : Type 0} (frame : Option (List Row)) (body : List Row → Action (Store pd) A)
      → ((rows : List Row) → Cleans (body rows))
      → Cleans (with_frame pd ck host su frame body)
  with_frame-IsClean none body h s clean = clean
  with_frame-IsClean (some rows) body h s clean = h rows s clean

  continue_with-IsClean :
      {A B : Type 0} (next : A → Action (Store pd) B)
      → ((a : A) → Cleans (next a))
      → (r : Result A) → Cleans (continue_with next r)
  continue_with-IsClean next h (ok a) s clean = h a s clean
  continue_with-IsClean next h (raise e) s clean = clean

  update_log_file-IsClean : (row : Row) → Cleans (update_log_file pd ck host su row)
  unfolding update_log_file
  update_log_file-IsClean row s clean =
      with_frame-IsClean s.df _
        (λ rows s clean. record { no_yaml = clean.no_yaml; no_trace = clean.no_trace }) s clean

  module _ (pim_type : PimType) (layer : Layer) (power_constraint : Bool) (sim : Simulator)
      (there : first_existing host.ramulator_candidates ≡ some sim) where
    run-IsClean : Cleans (run pd ck host su pim_type layer power_constraint)
    unfolding run
    run-IsClean s clean = elim (Bool-cases host.dir_exists) [
      | inr missing ↦ rw missing clean
      | inl installed ↦ elim (Result-cases (heads_of su layer)) [
        | inr (e, failed) ↦ rw installed (rw failed clean)
        | inl ((heads, group), shared) ↦
            rw
              (run-conclude host su pd ck pim_type layer power_constraint heads group s installed
                shared)
              (continue_with-IsClean
                (conclude host su pd ck pim_type layer power_constraint heads group)
                (λ c s clean.
                  let row = row_of su pim_type layer.n heads layer.dbyte power_constraint c in
                  continue_with-IsClean _ (λ done s clean. clean)
                    (update_log_file pd ck host su row s).0 (update_log_file pd ck host su row s).1
                    (update_log_file-IsClean row s clean))
                (measure host su pim_type layer.n heads layer.dbyte power_constraint)
                (settled host su pd ck pim_type layer.n heads layer.dbyte power_constraint s)
                (settled-IsClean pim_type layer.n heads layer.dbyte power_constraint sim s there
                  clean))
      ]
    ]

    answer-IsClean :
        (group : ℕ) (row : Option Row)
        → Cleans (answer pd ck host su pim_type layer power_constraint group row)
    answer-IsClean group none s clean = run-IsClean s clean
    answer-IsClean group (some row) s clean = clean

    look_up-IsClean : Cleans (look_up pd ck host su pim_type layer power_constraint)
    unfolding look_up
    look_up-IsClean s clean =
        continue_with-IsClean _
          (λ heads s clean. with_frame-IsClean s.df _ (λ rows. answer-IsClean heads.1 _) s clean)
          (heads_of su layer) s clean

    output_on-IsClean :
        (rows : List Row) → Cleans (output_on pd ck host su pim_type layer power_constraint rows)
    output_on-IsClean [] s clean =
        let first = run pd ck host su pim_type layer power_constraint s in
        continue_with-IsClean _ (λ done. look_up-IsClean) first.0 first.1 (run-IsClean s clean)
    output_on-IsClean (row ∷ rows) s clean = look_up-IsClean s clean

    -- Where the simulator is there, a call of `output` that finds no temporary file leaves none, whatever
    -- it returns.
    pub output-IsClean :
        (s : Store pd)
        → IsClean s
        → IsClean (output pd ck host su pim_type layer power_constraint s).1
    unfolding output
    output-IsClean s clean = with_frame-IsClean s.df _ output_on-IsClean s clean

  -- Without the simulator, `run` raises FileNotFoundError behind the trace generator, and the trace is left
  -- in the directory.
  pub run-leaks :
      (pim_type : PimType) (layer : Layer) (power_constraint : Bool) (heads group : ℕ)
      (lines : List Command) (s : Store pd)
      → host.dir_exists ≡ true
      → heads_of su layer ≡ ok (heads, group)
      → trace_of host su pim_type layer.n heads layer.dbyte ≡ ok lines
      → first_existing host.ramulator_candidates ≡ none
      → ((run pd ck host su pim_type layer power_constraint s).0 ≡ raise file_not_found)
        × ((run pd ck host su pim_type layer power_constraint s).1.trace_files
              (job_of su layer.n heads layer.dbyte power_constraint)
            ≡ some lines)
  run-leaks pim_type layer power_constraint heads group lines s installed shared traced missing =
      let failed : measure host su pim_type layer.n heads layer.dbyte power_constraint
          ≡ raise file_not_found =
        rw traced (rw missing refl) in
      let key = job_of su layer.n heads layer.dbyte power_constraint in
      let ran =
        run-raise host su pd ck pim_type layer power_constraint heads group s installed shared
          file_not_found failed in
      rw ran (refl, rw traced (rw missing (rw (same_job_refl key) refl)))
