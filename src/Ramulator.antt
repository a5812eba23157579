-- ===== src/Ramulator.antt =====
-- `class Ramulator` (src/ramulator_wrapper.py): the cache of results, the temporary files and the run of
-- the external simulator.
pub mod Machine
pub mod Statements
pub mod Reading
pub mod Jobs
pub mod Measure
pub mod Files
pub mod Log
pub mod Cache
pub mod Own
pub mod Parse
use attacc_simulator_vlm.Prelude.{
  ℕ, ◌+◌, ◌*◌, Bool, true, false, ◌&&◌, ◌==◌, List, [], ◌∷◌, ◌++◌, map, Option, none, some,
  ceil_div, if◌then◌else◌, Result, ok, raise, or_raise, require, zero_division, assertion_error,
  value_error, runtime_error, file_not_found, called_process_error,
}
use attacc_simulator_vlm.Model.Layer.{Layer}
use attacc_simulator_vlm.Trace.Command.{Command}
use attacc_simulator_vlm.Config.Energy.{PimType, ba, bg, buffer}
use attacc_simulator_vlm.Ramulator.Machine.{
  TraceGenerator, Simulator, Job, TimingPreset, hbm3_5_2gbps, hbm3_5_2gbps_npc, Yaml, Line, Host,
  first_existing, Row, Table, with_max_L, without_max_L, first_row, Pandas, Clock,
}
use attacc_simulator_vlm.Ramulator.Reading.{Counts, parse}
use attacc_simulator_vlm.Ramulator.Statements.{
  Store, Action, ◌>>=◌, ◌>>◌, pure, modify, try_finally,
}

abbrev pub same_bool : Bool → Bool → Bool
same_bool true true = true
same_bool false false = true
same_bool _ _ = false

abbrev pub same_pim_type : PimType → PimType → Bool
same_pim_type ba ba = true
same_pim_type bg bg = true
same_pim_type buffer buffer = true
same_pim_type _ _ = false

abbrev pub same_job : Job → Job → Bool
same_job a b =
    (a.l == b.l)
    && (a.max_L == b.max_L)
    && (a.nattn == b.nattn)
    && (a.dhead == b.dhead)
    && (a.dbyte == b.dbyte)
    && same_bool a.pc b.pc

-- A file is written, or removed if it is there.
abbrev pub put_file : {V : Type 0} → Job → V → (Job → Option V) → Job → Option V
put_file key v files j = if same_job key j then some v else files j

abbrev pub remove_file : {V : Type 0} → Job → (Job → Option V) → Job → Option V
remove_file key files j = if same_job key j then none else files j

-- The fields that `__init__` sets and nothing changes.
pub record Setup : Type 0 where
  pub max_L : ℕ
  pub num_hbm : ℕ
  pub nhead : ℕ
  pub dhead : ℕ
  pub fast_mode : Bool

-- The heads of a run on one stack, and `num_ops_group`.
unfoldable pub heads_of : Setup → Layer → Result (ℕ × ℕ)
heads_of su layer =
    if su.num_hbm == 0
    then raise zero_division
    else (let per_hbm = ceil_div layer.pim_num_op su.num_hbm in
        if su.fast_mode then ok (64, ceil_div per_hbm 64) else ok (per_hbm, 1))

-- `file_name`
abbrev pub job_of : Setup → (l heads dbyte : ℕ) → Bool → Job
job_of su l heads dbyte power_constraint = record {
  l = l;
  max_L = su.max_L;
  nattn = heads;
  dhead = su.dhead;
  dbyte = dbyte;
  pc = power_constraint;
}

abbrev pub row_of : Setup → PimType → (l nhead dbyte : ℕ) → Bool → Counts → Row
row_of su pim_type l nhead dbyte power_constraint c = record {
  l = l;
  max_L = su.max_L;
  nhead = nhead;
  dhead = su.dhead;
  dbyte = dbyte;
  pim_type = pim_type;
  power_constraint = power_constraint;
  cycle = c.cycle;
  mac = c.mac;
  softmax = c.sfm;
  mvgb = c.mvgb;
  mvsb = c.mvsb;
  wrgb = c.wrgb;
}

-- The mask of `output`.
abbrev pub is_row : Setup → PimType → (l nhead dbyte dhead : ℕ) → Bool → Row → Bool
is_row su pim_type l nhead dbyte dhead power_constraint r =
    (r.l == l)
    && (r.max_L == su.max_L)
    && (r.nhead == nhead)
    && (r.dbyte == dbyte)
    && (r.dhead == dhead)
    && same_bool r.power_constraint power_constraint
    && same_pim_type r.pim_type pim_type

-- The banks that work at once in `run`, and the factor that `output` has in its place.
abbrev pub run_factor : PimType → ℕ
run_factor ba = 2 * 2 * 4 * 4
run_factor bg = 2 * 2 * 4
run_factor buffer = 1

abbrev pub row_factor : PimType → ℕ
row_factor ba = 2 * 2 * 4 * 4
row_factor bg = 2 * 2 * 4
row_factor buffer = 2

-- `traffic`
abbrev pub traffic_of : Setup → (factor group mac mvgb mvsb wrgb : ℕ) → List ℕ
traffic_of su factor group mac mvgb mvsb wrgb =
    map (λ i. i * su.num_hbm * group)
      (wrgb * 32
        ∷ (wrgb + mvsb + mvgb) * 32
        ∷ (wrgb + mvsb + mvgb) * 32
        ∷ (wrgb + mvsb + mvgb) * 32
        ∷ mac * 32 * factor
        ∷ [])

-- `check=True`: a process that fails raises.
abbrev pub checked : {A : Type 0} → Result A → Result A
checked (ok a) = ok a
checked (raise e) = raise called_process_error

-- The simulator on the files that are there.
abbrev pub process : Simulator → Option Yaml → (Job → Option (List Command)) → Result (List Line)
process sim none traces = raise called_process_error
process sim (some yaml) traces = or_raise (sim yaml (traces yaml.path)) called_process_error

module _ (pd : Pandas) (ck : Clock) (host : Host) (su : Setup) where
  -- `self.df` where pandas is there.
  abbrev pub with_frame :
      {A : Type 0} → Option (List Row) → (List Row → Action (Store pd) A) → Action (Store pd) A
  with_frame none body s = (raise assertion_error, s)
  with_frame (some rows) body s = body rows s

  -- `df.insert(1, 'max_L', self.max_L)` where the column is missing.
  abbrev pub rows_of : Table → List Row
  rows_of (with_max_L rows) = rows
  rows_of (without_max_L rows) = map (λ (row : ℕ → Row). row su.max_L) rows

  -- `__init__`: the store of a new object; `installed` is whether pandas is.
  unfoldable pub new_ramulator :
      Bool → Option pd.Csv → (Job → Option Yaml) → (Job → Option (List Command)) → Store pd
  new_ramulator installed output_log yaml_files trace_files = record {
    df =
        if installed
        then elim output_log [ none ↦ some [] | some file ↦ some (rows_of (pd.read_csv file)) ]
        else none;
    output_log = output_log;
    yaml_files = yaml_files;
    trace_files = trace_files;
  }

  unfoldable pub make_yaml_file : Job → Bool → Action (Store pd) (Unit {0})
  make_yaml_file file_name power_constraint =
      let yaml : Yaml = record {
        path = file_name;
        preset = if power_constraint then hbm3_5_2gbps else hbm3_5_2gbps_npc;
      } in
      modify (λ s. record s { yaml_files = put_file file_name yaml s.yaml_files })

  -- The table that a new row is added to.
  unfoldable pub logged : List Row → Option pd.Csv → List Row
  logged [] none = []
  logged [] (some file) = rows_of (pd.read_csv file)
  logged (row ∷ rows) file = row ∷ rows

  unfoldable pub update_log_file : Row → Action (Store pd) (Unit {0})
  update_log_file log s =
      with_frame s.df
        (λ rows.
          let df = pd.drop_duplicates (logged rows s.output_log ++ log ∷ []) in
          modify (λ s. record s { df = some df; output_log = some (pd.to_csv df) }))
        s

  -- The trace generator's process, which writes the trace file.
  unfoldable pub generate_trace :
      TraceGenerator → (l heads dbyte : ℕ) → Job → Action (Store pd) (Unit {0})
  generate_trace gen l heads dbyte file_name = do
    lines ← pure (checked (gen su.dhead heads l su.max_L dbyte))
    modify (λ s. record s { trace_files = put_file file_name lines s.trace_files })

  -- The simulator's process, which reads both temporary files.
  unfoldable pub simulate : Simulator → Job → Action (Store pd) (List Line)
  simulate sim file_name s = (process sim (s.yaml_files file_name) s.trace_files, s)

  unfoldable pub run_ramulator : PimType → (l heads dbyte : ℕ) → Job → Action (Store pd) Counts
  run_ramulator pim_type l heads dbyte file_name = do
    trace_exc ← pure (or_raise (first_existing (host.trace_candidates pim_type)) file_not_found)
    generate_trace trace_exc l heads dbyte file_name
    ramulator_file ← pure (or_raise (first_existing host.ramulator_candidates) file_not_found)
    lines ←
        try_finally (simulate ramulator_file file_name)
          (λ s. record s { trace_files = remove_file file_name s.trace_files })
    pure (parse lines)

  unfoldable pub run : PimType → Layer → Bool → Action (Store pd) (ck.Time × List ℕ)
  run pim_type layer power_constraint =
      if host.dir_exists
      then (do
        (heads, group) ← pure (heads_of su layer)
        let file_name = job_of su layer.n heads layer.dbyte power_constraint
        make_yaml_file file_name power_constraint
        c ←
            try_finally (run_ramulator pim_type layer.n heads layer.dbyte file_name)
              (λ s. record s { yaml_files = remove_file file_name s.yaml_files })
        update_log_file (row_of su pim_type layer.n heads layer.dbyte power_constraint c)
        pure (
            ok (
              ck.of_cycles c.cycle,
              traffic_of su (run_factor pim_type) group c.mac c.mvgb c.mvsb c.wrgb,
            )))
      else pure (raise assertion_error)

  -- The result that `output` reads from a row.
  abbrev pub cached : PimType → ℕ → Row → ck.Time × List ℕ
  cached pim_type group r = (
    ck.times (ck.of_cycles r.cycle) group,
    traffic_of su (row_factor pim_type) group r.mac r.mvgb r.mvsb r.wrgb,
  )

  abbrev pub answer : PimType → Layer → Bool → ℕ → Option Row → Action (Store pd) (ck.Time × List ℕ)
  answer pim_type layer power_constraint group none = run pim_type layer power_constraint
  answer pim_type layer power_constraint group (some row) = pure (ok (cached pim_type group row))

  -- The part of `output` behind `if self.df.empty`.
  unfoldable pub look_up : PimType → Layer → Bool → Action (Store pd) (ck.Time × List ℕ)
  look_up pim_type layer power_constraint = do
    (heads, group) ← pure (heads_of su layer)
    (λ s.
        with_frame s.df
          (λ df.
            answer pim_type layer power_constraint group (
              first_row (is_row su pim_type layer.n heads layer.dbyte layer.k power_constraint) df))
          s)

  abbrev pub output_on : PimType → Layer → Bool → List Row → Action (Store pd) (ck.Time × List ℕ)
  output_on pim_type layer power_constraint [] =
      run pim_type layer power_constraint >>= λ first. look_up pim_type layer power_constraint
  output_on pim_type layer power_constraint (row ∷ rows) = look_up pim_type layer power_constraint

  unfoldable pub output : PimType → Layer → Bool → Action (Store pd) (ck.Time × List ℕ)
  output pim_type layer power_constraint s =
      with_frame s.df (output_on pim_type layer power_constraint) s
