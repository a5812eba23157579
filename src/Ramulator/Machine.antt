-- ===== src/Ramulator/Machine.antt =====
-- What the wrapper finds on the host: the trace generators, the DRAM simulator (not part of the
-- repository) and pandas. A file that may be missing is an `Option`.
use attacc_simulator_vlm.Prelude.{
  ℕ, ◌≡◌, Bool, List, Option, none, some, [], ◌∷◌, if◌then◌else◌, Result,
}
use attacc_simulator_vlm.Trace.Command.{Command}
use attacc_simulator_vlm.Trace.Bank
use attacc_simulator_vlm.Trace.Bg
use attacc_simulator_vlm.Trace.Buffer
use attacc_simulator_vlm.Config.Energy.{PimType, ba, bg, buffer}

-- `--dhead`, `--nhead`, `--seqlen`, `--maxlen` and `--dbyte` of a trace generator, and its lines; where
-- it raises, the process fails.
abbrev pub TraceGenerator : Type 0
TraceGenerator = (dhead nhead seqlen maxlen dbyte : ℕ) → Result (List Command)

abbrev pub own_generator : PimType → TraceGenerator
own_generator ba = Bank.main
own_generator bg = Bg.main
own_generator buffer = Buffer.main

-- `file_name`, from which the names of the two temporary files are made.
pub record Job : Type 0 where
  pub l : ℕ
  pub max_L : ℕ
  pub nattn : ℕ
  pub dhead : ℕ
  pub dbyte : ℕ
  pub pc : Bool

pub data TimingPreset : Type 0 where
  hbm3_5_2gbps hbm3_5_2gbps_npc : TimingPreset

-- What varies in the text of the YAML file.
pub record Yaml : Type 0 where
  pub path : Job
  pub preset : TimingPreset

-- A line that the simulator prints: which of the texts stand in it, and its last word as an integer.
pub record Line : Type 0 where
  pub has_mac : Bool
  pub has_softmax_requests : Bool
  pub has_move_to_gemv_buffer : Bool
  pub has_move_to_softmax_buffer : Bool
  pub has_write_to_gemv_buffer : Bool
  pub has_memory_system_cycles : Bool
  pub last_word : Option ℕ

-- The simulator on a YAML file and the trace it names; `none` where the process fails.
abbrev pub Simulator : Type 0
Simulator = Yaml → Option (List Command) → Option (List Line)

pub record Host : Type 0 where
  pub dir_exists : Bool
  pub trace_candidates : PimType → List (Option TraceGenerator)
  pub ramulator_candidates : List (Option Simulator)

-- `next((p for p in candidates if p.exists()), None)`
abbrev pub first_existing : {A : Type 0} → List (Option A) → Option A
first_existing [] = none
first_existing (none ∷ rest) = first_existing rest
first_existing (some a ∷ rest) = some a

-- A row of the log.
pub record Row : Type 0 where
  pub l : ℕ
  pub max_L : ℕ
  pub nhead : ℕ
  pub dhead : ℕ
  pub dbyte : ℕ
  pub pim_type : PimType
  pub power_constraint : Bool
  pub cycle : ℕ
  pub mac : ℕ
  pub softmax : ℕ
  pub mvgb : ℕ
  pub mvsb : ℕ
  pub wrgb : ℕ

-- A table that is read: its rows, which have no `max_L` where the column is missing.
pub data Table : Type 0 where
  with_max_L : List Row → Table
  without_max_L : List (ℕ → Row) → Table

-- The first row of a boolean selection, `df[mask].iloc[0]`.
abbrev pub first_row : (Row → Bool) → List Row → Option Row
first_row p [] = none
first_row p (r ∷ rs) = let later = first_row p rs in if p r then some r else later

-- The operations of pandas that the wrapper calls.
pub record Pandas : Type 1 where
  pub Csv : Type 0
  pub read_csv : Csv → Table
  pub to_csv : List Row → Csv
  pub drop_duplicates : List Row → List Row

-- `drop_duplicates` keeps the first of equal rows, in order, and a file that is written is read back.
pub record PandasLaws (pd : Pandas) : Type 0 where
  pub keeps_first :
      (p : Row → Bool) (rs : List Row) → first_row p (pd.drop_duplicates rs) ≡ first_row p rs
  pub reads_back : (rs : List Row) → pd.read_csv (pd.to_csv rs) ≡ with_max_L rs

-- Python's floats, as far as a time is computed: `tCK * cycle / 1000 / 1000 / 1000`, and the product with
-- an integer.
pub record Clock : Type 1 where
  pub Time : Type 0
  pub of_cycles : ℕ → Time
  pub times : Time → ℕ → Time

pub record ClockLaws (ck : Clock) : Type 0 where
  pub times_one : (t : ck.Time) → ck.times t 1 ≡ t
