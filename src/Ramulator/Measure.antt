-- ===== src/Ramulator/Measure.antt =====
-- What a run of the external simulator measures, without the store: the trace, the simulator on it, and
-- the counts of its output. `run_ramulator` and `run` give this result.
use attacc_simulator_vlm.Prelude.{
  ℕ, ◌≡◌, refl, ◌∙◌, [], ◌∷◌, ◌++◌, Bool, true, List, Option, none, some, Option-cases,
  Result-cases, inl, inr, if◌then◌else◌, Result, Exception, ok, raise, or_raise, ◌>>=◌,
  file_not_found, called_process_error,
}
use attacc_simulator_vlm.Trace.Command.{Command}
use attacc_simulator_vlm.Model.Layer.{Layer}
use attacc_simulator_vlm.Config.Energy.{PimType}
use attacc_simulator_vlm.Ramulator.Machine.{
  Job, Yaml, hbm3_5_2gbps, hbm3_5_2gbps_npc, Host, Pandas, Clock, first_existing, Simulator, Row,
}
use attacc_simulator_vlm.Ramulator.Statements.{Store, Action, continue_with, pure, ◌>>◌}
use attacc_simulator_vlm.Ramulator.Jobs.{same_job_refl}
use attacc_simulator_vlm.Ramulator.Reading.{Counts, parse}
use attacc_simulator_vlm.Ramulator.{
  put_file, remove_file, Setup, logged, row_of, run_factor, traffic_of, heads_of, run,
  make_yaml_file, update_log_file, checked, job_of, generate_trace, simulate, run_ramulator,
}

-- The trace files behind a run: without a simulator the trace is left.
abbrev pub traces_after :
    Result (List Command)
    → Option Simulator
    → Job
    → (Job → Option (List Command))
    → Job
    → Option (List Command)
traces_after (raise e) sim key files = files
traces_after (ok lines) none key files = put_file key lines files
traces_after (ok lines) (some sim) key files = remove_file key (put_file key lines files)

-- A statement that computes behind one that may raise.
continue_with-pure :
    {S A B : Type 0} (f : A → Result B) (r : Result A) (s : S)
    → continue_with (λ a. pure (f a)) r s ≡ (r >>= f, s)
continue_with-pure f (ok a) s = refl
continue_with-pure f (raise e) s = refl

module _ (host : Host) (su : Setup) where
  -- The lines of the trace, or why there are none.
  abbrev pub trace_of : PimType → (l heads dbyte : ℕ) → Result (List Command)
  trace_of pim_type l heads dbyte =
      or_raise (first_existing (host.trace_candidates pim_type)) file_not_found >>= λ gen.
      checked (gen su.dhead heads l su.max_L dbyte)

  abbrev pub yaml_of : Job → Bool → Yaml
  yaml_of file_name power_constraint = record {
    path = file_name;
    preset = if power_constraint then hbm3_5_2gbps else hbm3_5_2gbps_npc;
  }

  abbrev pub measure_with : Yaml → PimType → (l heads dbyte : ℕ) → Result Counts
  measure_with yaml pim_type l heads dbyte = do
    lines ← trace_of pim_type l heads dbyte
    sim ← or_raise (first_existing host.ramulator_candidates) file_not_found
    output ← or_raise (sim yaml (some lines)) called_process_error
    parse output

  -- The counts that a run for a layer gives, on `heads` heads of each stack.
  abbrev pub measure : PimType → (l heads dbyte : ℕ) → Bool → Result Counts
  measure pim_type l heads dbyte power_constraint =
      measure_with (yaml_of (job_of su l heads dbyte power_constraint) power_constraint) pim_type l
        heads dbyte

  module _ (pd : Pandas) (ck : Clock) where
    pub run_ramulator-measure_with :
        (pim_type : PimType) (l heads dbyte : ℕ) (key : Job) (power_constraint : Bool)
        (s : Store pd)
        → s.yaml_files key ≡ some (yaml_of key power_constraint)
        → run_ramulator pd ck host su pim_type l heads dbyte key s ≡ (
          measure_with (yaml_of key power_constraint) pim_type l heads dbyte,
          record s {
            trace_files =
                traces_after
                  (trace_of pim_type l heads dbyte)
                  (first_existing host.ramulator_candidates)
                  key
                  s.trace_files;
          },
        )
    unfolding run_ramulator generate_trace simulate
    run_ramulator-measure_with pim_type l heads dbyte key power_constraint s h =
        elim (Option-cases (first_existing (host.trace_candidates pim_type))) [
          | inl missing ↦ rw missing refl
          | inr (gen, found) ↦ elim (Result-cases (gen su.dhead heads l su.max_L dbyte)) [
            | inr (e, failed) ↦ rw found (rw failed refl)
            | inl (lines, written) ↦
                elim (Option-cases (first_existing host.ramulator_candidates)) [
                  | inl missing ↦ rw found (rw written (rw missing refl))
                  | inr (sim, there) ↦ rw found (
                      rw written (
                        rw there (
                          rw h (
                            rw (same_job_refl key) (
                              continue_with-pure parse
                                (or_raise (sim (yaml_of key power_constraint) (some lines))
                                  called_process_error)
                                _)))))
                ]
          ]
        ]

    -- The store behind a run, but for the log.
    abbrev pub settled : PimType → (l heads dbyte : ℕ) → Bool → Store pd → Store pd
    settled pim_type l heads dbyte power_constraint s =
        let key = job_of su l heads dbyte power_constraint in
        record s {
          yaml_files = remove_file key (put_file key (yaml_of key power_constraint) s.yaml_files);
          trace_files =
              traces_after (trace_of pim_type l heads dbyte)
                (first_existing host.ramulator_candidates) key s.trace_files;
        }

    -- What `run` does with the counts.
    abbrev pub conclude :
        PimType → Layer → Bool → (heads group : ℕ) → Counts → Action (Store pd) (ck.Time × List ℕ)
    conclude pim_type layer power_constraint heads group c =
        update_log_file pd ck host su
          (row_of su pim_type layer.n heads layer.dbyte power_constraint c)
        >> pure (
            ok (
              ck.of_cycles c.cycle,
              traffic_of su (run_factor pim_type) group c.mac c.mvgb c.mvsb c.wrgb,
            ))

    module _ (pim_type : PimType) (layer : Layer) (power_constraint : Bool) (heads group : ℕ)
        (s : Store pd) (installed : host.dir_exists ≡ true)
        (shared : heads_of su layer ≡ ok (heads, group)) where
      -- A run measures, with the temporary files as `settled` has them, and goes on with the counts.
      pub run-conclude :
          run pd ck host su pim_type layer power_constraint s
          ≡ continue_with
              (conclude pim_type layer power_constraint heads group)
              (measure pim_type layer.n heads layer.dbyte power_constraint)
              (settled pim_type layer.n heads layer.dbyte power_constraint s)
      unfolding run make_yaml_file
      run-conclude =
          let key = job_of su layer.n heads layer.dbyte power_constraint in
          let yaml = yaml_of key power_constraint in
          let started : Store pd = record s { yaml_files = put_file key yaml s.yaml_files } in
          let there : started.yaml_files key ≡ some yaml = rw (same_job_refl key) refl in
          simp installed (
            simp shared (
              rw
                (run_ramulator-measure_with pim_type layer.n heads layer.dbyte key power_constraint
                  started there)
                refl))

      pub run-raise :
          (e : Exception)
          → measure pim_type layer.n heads layer.dbyte power_constraint ≡ raise e
          → run pd ck host su pim_type layer power_constraint s
            ≡ (raise e, settled pim_type layer.n heads layer.dbyte power_constraint s)
      run-raise e failed = run-conclude ∙ rw failed refl

      -- The result of a run, and the row that it logs.
      pub run-ok :
          (c : Counts) (rows : List Row)
          → measure pim_type layer.n heads layer.dbyte power_constraint ≡ ok c
          → s.df ≡ some rows
          → let row = row_of su pim_type layer.n heads layer.dbyte power_constraint c in
            let df = pd.drop_duplicates (logged pd ck host su rows s.output_log ++ row ∷ []) in
            run pd ck host su pim_type layer power_constraint s ≡ (
              ok (
                ck.of_cycles c.cycle,
                traffic_of su (run_factor pim_type) group c.mac c.mvgb c.mvsb c.wrgb,
              ),
              record (settled pim_type layer.n heads layer.dbyte power_constraint s) {
                df = some df;
                output_log = some (pd.to_csv df);
              },
            )
      unfolding update_log_file
      run-ok c rows measured frame = run-conclude ∙ rw measured (rw frame refl)
