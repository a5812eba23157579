-- ===== src/Ramulator/Cache.antt =====
-- The cache: for a bank or bank-group unit and without the fast mode, `output` gives what a run gives.
use attacc_simulator_vlm.Prelude.{
  ℕ, ◌≡◌, refl, sym, ap, subst, ◌∙◌, Bool, true, false, List, [], ◌∷◌, ◌++◌, Option, none, some,
  or_else, Result-cases, inl, inr, arith, Result, ok, raise, ◌>>=◌, ◌<◌, ◌==◌, ceil_div,
}
use attacc_simulator_vlm.Model.Layer.{Layer}
use attacc_simulator_vlm.Config.Energy.{PimType, ba, bg, buffer}
use attacc_simulator_vlm.Ramulator.Machine.{
  Host, Row, first_row, Pandas, PandasLaws, Clock, ClockLaws,
}
use attacc_simulator_vlm.Ramulator.Statements.{Store, continue_with}
use attacc_simulator_vlm.Ramulator.Measure.{measure, run-raise, run-ok}
use attacc_simulator_vlm.Ramulator.Log.{
  counts_of, first_row-snoc, Agrees, IsTrue, is_row-row_of, snoc-IsTrue,
}
use attacc_simulator_vlm.Ramulator.Reading.{Counts}
use attacc_simulator_vlm.Ramulator.{
  Setup, heads_of, is_row, row_of, run_factor, row_factor, traffic_of, rows_of, logged, run, answer,
  look_up, output_on, output, cached,
}

abbrev pub IsBanked : PimType → Type 0
IsBanked buffer = ⊥
IsBanked _ = Unit

row_factor-run_factor :
    (pim_type : PimType) → IsBanked pim_type → row_factor pim_type ≡ run_factor pim_type
row_factor-run_factor ba h = refl
row_factor-run_factor bg h = refl
row_factor-run_factor buffer h = elim h [ ]

module _ (pd : Pandas) (ck : Clock) (host : Host) (su : Setup) where
  -- What a run of the simulator gives, without a cache.
  abbrev pub uncached : PimType → Layer → Bool → Result (ck.Time × List ℕ)
  uncached pim_type layer power_constraint = heads_of su layer >>= λ (x : ℕ × ℕ).
      measure host su pim_type layer.n x.0 layer.dbyte power_constraint >>= λ c.
      ok (ck.of_cycles c.cycle, traffic_of su (run_factor pim_type) x.1 c.mac c.mvgb c.mvsb c.wrgb)

  abbrev FileIsTrue : Option pd.Csv → Type 0
  FileIsTrue none = Unit
  FileIsTrue (some file) = IsTrue host su (rows_of pd ck host su (pd.read_csv file))

  -- The data frame, which is there, and the log file have the counts of runs.
  pub record IsTrueStore (s : Store pd) : Type 0 where
    pub rows : List Row
    pub frame : s.df ≡ some rows
    pub rows_true : IsTrue host su rows
    pub file_true : FileIsTrue s.output_log

  logged-IsTrue :
      (rows : List Row) (file : Option pd.Csv)
      → IsTrue host su rows
      → FileIsTrue file
      → IsTrue host su (logged pd ck host su rows file)
  unfolding logged
  logged-IsTrue [] none h k = h
  logged-IsTrue [] (some file) h k = k
  logged-IsTrue (row ∷ rows) file h k = h

  module _ (laws : PandasLaws pd) where
    drop_duplicates-IsTrue :
        (rows : List Row) → IsTrue host su rows → IsTrue host su (pd.drop_duplicates rows)
    drop_duplicates-IsTrue rows h pim_type l heads dbyte power_constraint =
        subst (λ o. Agrees host su o (measure host su pim_type l heads dbyte power_constraint))
          (sym (laws.keeps_first (is_row su pim_type l heads dbyte su.dhead power_constraint) rows))
          (h pim_type l heads dbyte power_constraint)

    to_csv-FileIsTrue : (rows : List Row) → IsTrue host su rows → FileIsTrue (some (pd.to_csv rows))
    to_csv-FileIsTrue rows h = rw (laws.reads_back rows) h

    module _ (clock : ClockLaws ck) (pim_type : PimType) (layer : Layer) (power_constraint : Bool)
        (banked : IsBanked pim_type) (installed : host.dir_exists ≡ true)
        (some_hbm : 0 < su.num_hbm) (slow : su.fast_mode ≡ false)
        (own_dhead : layer.k ≡ su.dhead) where
      -- The row that a look-up finds.
      abbrev found_in : List Row → Option Row
      found_in rows =
          first_row
            (is_row su pim_type layer.n (ceil_div layer.pim_num_op su.num_hbm) layer.dbyte su.dhead
              power_constraint)
            rows

      -- The data frame has a row for the layer.
      pub record IsLogged (s : Store pd) : Type 0 where
        pub table : List Row
        pub row : Row
        pub in_frame : s.df ≡ some table
        pub found : found_in table ≡ some row

      abbrev LogsResult : Result (ck.Time × List ℕ) → Store pd → Type 0
      LogsResult (ok x) after = IsLogged after
      LogsResult (raise e) after = Unit

      -- The uncached result, and a store that is true again and has a row for a result that is returned.
      abbrev pub Serves : Result (ck.Time × List ℕ) × Store pd → Type 0
      Serves (r, after) =
          (r ≡ uncached pim_type layer power_constraint) × IsTrueStore after × LogsResult r after

      heads : ℕ
      heads = ceil_div layer.pim_num_op su.num_hbm

      heads_of-heads : heads_of su layer ≡ ok (heads, 1)
      unfolding heads heads_of
      heads_of-heads =
          let positive : (su.num_hbm == 0) ≡ false = ground arith in rw positive (rw slow refl)

      -- The row that a run adds is found.
      added-found :
          (table : List Row) (c : Counts)
          → (row : Row) × (found_in (
                pd.drop_duplicates (
                  table
                  ++ row_of su pim_type layer.n
                      (ceil_div layer.pim_num_op su.num_hbm)
                      layer.dbyte
                      power_constraint
                      c
                    ∷ []))
              ≡ some row)
      added-found table c =
          let row =
            row_of su pim_type layer.n (ceil_div layer.pim_num_op su.num_hbm) layer.dbyte
              power_constraint c in
          let key =
            is_row su pim_type layer.n (ceil_div layer.pim_num_op su.num_hbm) layer.dbyte su.dhead
              power_constraint in
          (
            or_else (first_row key table) row,
            laws.keeps_first key (table ++ row ∷ [])
                ∙ first_row-snoc key table row
                    (is_row-row_of host su pim_type layer.n _ layer.dbyte power_constraint c),
          )

      run-Serves :
          (s : Store pd)
          → IsTrueStore s
          → Serves (run pd ck host su pim_type layer power_constraint s)
      unfolding heads
      run-Serves s t =
          elim (Result-cases
            (measure host su pim_type layer.n heads layer.dbyte power_constraint)) [
              | inr (e, failed) ↦
                  rw
                    (run-raise host su pd ck pim_type layer power_constraint heads 1 s installed
                      heads_of-heads e failed)
                    (
                      rw heads_of-heads (rw failed refl),
                      record {
                        rows = t.rows;
                        frame = t.frame;
                        rows_true = t.rows_true;
                        file_true = t.file_true;
                      },
                      tt,
                    )
              | inl (c, measured) ↦
                  let row = row_of su pim_type layer.n heads layer.dbyte power_constraint c in
                  let df =
                    pd.drop_duplicates (logged pd ck host su t.rows s.output_log ++ row ∷ []) in
                  let true_df : IsTrue host su df =
                    drop_duplicates-IsTrue (logged pd ck host su t.rows s.output_log ++ row ∷ []) (
                      snoc-IsTrue host su (logged pd ck host su t.rows s.output_log) pim_type
                        layer.n heads layer.dbyte power_constraint c measured
                        (logged-IsTrue t.rows s.output_log t.rows_true t.file_true)) in
                  rw
                    (run-ok host su pd ck pim_type layer power_constraint heads 1 s installed
                      heads_of-heads c t.rows measured t.frame)
                    (
                      rw heads_of-heads (rw measured refl),
                      record {
                        rows = df;
                        frame = refl;
                        rows_true = true_df;
                        file_true = to_csv-FileIsTrue df true_df;
                      },
                      record {
                        table = df;
                        row = (added-found (logged pd ck host su t.rows s.output_log) c).0;
                        in_frame = refl;
                        found = (added-found (logged pd ck host su t.rows s.output_log) c).1;
                      },
                    )
            ]

      -- A row with the counts of a run gives what the run gives.
      cached-uncached :
          (row : Row)
          → measure host su pim_type layer.n heads layer.dbyte power_constraint ≡ ok (counts_of row)
          → ok (cached pd ck host su pim_type 1 row) ≡ uncached pim_type layer power_constraint
      cached-uncached row measured = rw heads_of-heads (
          rw measured (
            rw (row_factor-run_factor pim_type banked)
              (rw (clock.times_one (ck.of_cycles row.cycle)) refl)))

      answer-Serves :
          (rows : List Row) (row : Option Row) (s : Store pd)
          → s.df ≡ some rows
          → found_in rows ≡ row
          → Agrees host su row (measure host su pim_type layer.n heads layer.dbyte power_constraint)
          → IsTrueStore s
          → Serves (answer pd ck host su pim_type layer power_constraint 1 row s)
      answer-Serves rows none s frame found a t = run-Serves s t
      answer-Serves rows (some row) s frame found a t = (
        cached-uncached row a,
        t,
        record { table = rows; row = row; in_frame = frame; found = found },
      )

      look_up-answer :
          (s : Store pd) (rows : List Row)
          → s.df ≡ some rows
          → look_up pd ck host su pim_type layer power_constraint s
            ≡ answer pd ck host su pim_type layer power_constraint 1 (found_in rows) s
      unfolding look_up heads
      look_up-answer s rows frame = simp heads_of-heads (simp own_dhead (simp frame refl))

      look_up-Serves :
          (s : Store pd)
          → IsTrueStore s
          → Serves (look_up pd ck host su pim_type layer power_constraint s)
      unfolding heads
      look_up-Serves s t = rw (look_up-answer s t.rows t.frame) (
          answer-Serves t.rows (found_in t.rows) s t.frame refl
            (t.rows_true pim_type layer.n heads layer.dbyte power_constraint) t)

      first_run-Serves :
          (r : Result (ck.Time × List ℕ)) (after : Store pd)
          → Serves (r, after)
          → Serves (
              continue_with
                (λ first. look_up pd ck host su pim_type layer power_constraint)
                r
                after)
      first_run-Serves (ok first) after h = look_up-Serves after h.1
      first_run-Serves (raise e) after h = h

      output_on-Serves :
          (rows : List Row) (s : Store pd)
          → IsTrueStore s
          → Serves (output_on pd ck host su pim_type layer power_constraint rows s)
      output_on-Serves [] s t =
          let first = run pd ck host su pim_type layer power_constraint s in
          first_run-Serves first.0 first.1 (run-Serves s t)
      output_on-Serves (row ∷ rows) s t = look_up-Serves s t

      -- With a data frame whose rows are of runs, `output` gives what a run without the cache gives, its
      -- errors included, and the rows of the frame and of the log file are of runs again.
      pub output-Serves :
          (s : Store pd)
          → IsTrueStore s
          → Serves (output pd ck host su pim_type layer power_constraint s)
      unfolding output
      output-Serves s t = simp t.frame (output_on-Serves t.rows s t)

      output_on-IsLogged :
          (rows : List Row) (row : Row) (s : Store pd)
          → s.df ≡ some rows
          → found_in rows ≡ some row
          → output_on pd ck host su pim_type layer power_constraint rows s
            ≡ (ok (cached pd ck host su pim_type 1 row), s)
      output_on-IsLogged [] row s frame found = cc
      output_on-IsLogged (r ∷ rows) row s frame found =
          look_up-answer s (r ∷ rows) frame
          ∙ ap (λ o. answer pd ck host su pim_type layer power_constraint 1 o s) found

      -- A store with a row for the layer answers from it, and stays as it is.
      output-IsLogged :
          (s : Store pd) (found : IsLogged s)
          → output pd ck host su pim_type layer power_constraint s
            ≡ (ok (cached pd ck host su pim_type 1 found.row), s)
      unfolding output
      output-IsLogged s found =
          simp found.in_frame
            (output_on-IsLogged found.table found.row s found.in_frame found.found)

      -- A second call for the same layer returns the same result and changes nothing.
      pub output-output :
          (s : Store pd) (x : ck.Time × List ℕ)
          → IsTrueStore s
          → (output pd ck host su pim_type layer power_constraint s).0 ≡ ok x
          → let after = (output pd ck host su pim_type layer power_constraint s).1 in
            output pd ck host su pim_type layer power_constraint after ≡ (ok x, after)
      output-output s x t returned =
          let first = output pd ck host su pim_type layer power_constraint s in
          let h = output-Serves s t in
          let found : IsLogged first.1 = subst (λ r. LogsResult r first.1) returned h.2 in
          let again = output-IsLogged first.1 found in
          let same : ok (cached pd ck host su pim_type 1 found.row) ≡ ok x =
            ap (λ (p : Result (ck.Time × List ℕ) × Store pd). p.0) (sym again)
            ∙ (output-Serves first.1 h.1).0
            ∙ sym h.0
            ∙ returned in
          again ∙ ap (λ (r : Result (ck.Time × List ℕ)). (r, first.1)) same
