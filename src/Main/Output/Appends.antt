-- ===== src/Main/Output/Appends.antt =====
-- What `run` leaves in the file of results.
use attacc_simulator_vlm.Prelude.{
  ℕ, ◌≡◌, refl, ◌∙◌, Bool, true, List, [], ◌∷◌, ◌++◌, map, Option, some, Result, ok, raise,
  Exception, ◌⊎◌, inl, inr, length, length-append, length-map, arith, Always, bind-Always,
}
use attacc_simulator_vlm.Model.Vision.{ImageSize}
use attacc_simulator_vlm.Ramulator.Machine.{Clock}
use attacc_simulator_vlm.Ramulator.Statements.{continue_with}
use attacc_simulator_vlm.Devices.Arithmetic.{Arithmetic, over}
use attacc_simulator_vlm.System.{System}
use attacc_simulator_vlm.System.Simulate.{Deployment}
use attacc_simulator_vlm.System.Batches.{BatchResult, simulate}
use attacc_simulator_vlm.System.Charges.{continue_with-both}
use attacc_simulator_vlm.System.Shape.{IsComplete, simulate-IsComplete}
use attacc_simulator_vlm.System.Report.{
  Labels, Cell, Output, float, throughput, report, simulate_output,
}
use attacc_simulator_vlm.Main.Output.{
  CsvCell, Rows, value, col_name, info, begun, write_csv, written, run,
}

-- An output with a value for each column.
record IsRow {T : Type 0} (o : Output T) : Type 0 where
  cells : length (info o) ≡ length col_name

cells_lem :
    {T : Type 0} (xs ys : List T)
    → length xs ≡ 21
    → length ys ≡ 13
    → length (map (λ (c : Cell T). value c) (map float xs ++ map float ys)) ≡ 34
cells_lem xs ys h k =
    length-map _ (map float xs ++ map float ys)
    ∙ length-append (map float xs) (map float ys)
    ∙ omega (arith, length-map {B = Cell _} float xs, length-map {B = Cell _} float ys)

module _ {ck : Clock} {G : Type 0} (ar : Arithmetic ck) (dep : Deployment ck G) (labels : Labels ck)
    (sys : System) where
  report-IsRow :
      (batch lin lout : ℕ) (pipe power_constraint : Bool) (r : BatchResult ck.Time)
      → IsComplete r
      → Always IsRow (report ar labels dep.num_xpu sys batch lin lout pipe power_constraint r)
  unfolding report
  report-IsRow batch lin lout pipe power_constraint r complete =
      bind-Always IsRow (over ar labels.acc_bandwidth labels.gpu_bandwidth) _ (λ bw_scale.
        bind-Always IsRow (over ar labels.gpu_flops labels.gpu_bandwidth) _ (λ opb.
          bind-Always IsRow (throughput ar labels dep.num_xpu sys batch r.perf) _ (λ printed.
            record {
              cells = omega (arith, cells_lem r.perf r.energies complete.perf complete.energies);
            })))

  simulate_output-IsRow :
      (batch lin lout num_reqs : ℕ) (pipe power_constraint : Bool) (image_size : ImageSize) (g : G)
      → Always IsRow
          (simulate_output ar dep labels sys batch lin lout num_reqs pipe power_constraint
            image_size g).0
  unfolding simulate_output
  simulate_output-IsRow batch lin lout num_reqs pipe power_constraint image_size g =
      let simulated = simulate ar dep sys batch lin lout num_reqs pipe image_size g in
      continue_with-both IsComplete IsRow _ simulated.0 simulated.1
        (simulate-IsComplete ar dep sys batch lin lout num_reqs pipe image_size g)
        (λ r s complete. report-IsRow batch lin lout pipe power_constraint r complete)

  -- What a statement did: it raised and left the file, or it appended a row with a value for each column.
  abbrev pub Appends :
      Option (Rows ck.Time) → Result (Unit {0}) × (Option (Rows ck.Time) × G) → Type 0
  Appends file out =
      ((e : Exception) × (out.0 ≡ raise e) × (out.1.0 ≡ file))
      ⊎ ((row : List (CsvCell ck.Time)) × (out.0 ≡ ok tt)
          × (out.1.0 ≡ some (begun file ++ row ∷ []))
          × (length row ≡ length col_name))

  written-Appends :
      (file : Option (Rows ck.Time)) (output : Result (Output ck.Time)) (g : G)
      → Always IsRow output
      → Appends file (
          continue_with
            (λ output s. (ok tt, written ar dep labels sys true output s))
            output
            (file, g))
  unfolding write_csv
  written-Appends file (ok o) g h = inr (info o, refl, refl, h.cells)
  written-Appends file (raise e) g h = inl (e, refl, refl)

  -- With a name of a file: either the run raises an exception and leaves the file as it was, or it appends one
  -- row to the file, behind the names of the columns if the file was missing, and the row has a value for
  -- each column.
  pub run-Appends :
      (batch lin lout : ℕ) (power_constraint pipe : Bool) (image_size : ImageSize)
      (file : Option (Rows ck.Time)) (g : G)
      → Appends file
          (run ar dep labels sys batch lin lout power_constraint pipe true image_size (file, g))
  unfolding run
  run-Appends batch lin lout power_constraint pipe image_size file g =
      let simulated =
        simulate_output ar dep labels sys batch lin lout 0 pipe power_constraint image_size g in
      written-Appends file simulated.0 simulated.1
        (simulate_output-IsRow batch lin lout 0 pipe power_constraint image_size g)
