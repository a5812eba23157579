-- ===== src/Tests/RamulatorRuns.antt =====
-- Runs of the wrapper (src/ramulator_wrapper.py) on a host with a small simulator.
use attacc_simulator_vlm.Prelude.{
  ℕ, ◌*◌, ◌≡◌, refl, arith, true, false, List, [], ◌∷◌, none, some, ok, raise, file_not_found,
  length, repeat,
}
use attacc_simulator_vlm.Trace.Command.{Command, Opcode}
use attacc_simulator_vlm.Model.Types.{w16a16, matmul, gen, score}
use attacc_simulator_vlm.Model.Layer.{Layer}
use attacc_simulator_vlm.Config.Energy.{bg, buffer}
use attacc_simulator_vlm.Ramulator.Machine.{
  Host, Line, Simulator, TraceGenerator, Job, Clock, ClockLaws, own_generator,
}
use attacc_simulator_vlm.Ramulator.Statements.{Store}
use attacc_simulator_vlm.Ramulator.Reading.{no_counts, parse}
use attacc_simulator_vlm.Ramulator.Measure.{yaml_of}
use attacc_simulator_vlm.Ramulator.{
  Setup, job_of, new_ramulator, heads_of, make_yaml_file, generate_trace, simulate, update_log_file,
  look_up, logged, run, run_ramulator, output,
}
use attacc_simulator_vlm.Ramulator.Files.{IsClean, output-IsClean, run-leaks}
use attacc_simulator_vlm.Ramulator.Cache.{IsTrueStore, Serves, output-Serves, output-output}
use attacc_simulator_vlm.Ramulator.Parse.{parse-totals}
use attacc_simulator_vlm.Tests.PandasSample.{tables, tables-PandasLaws}

-- A line with one text and a number.
abbrev cycles_line : ℕ → Line
cycles_line n = record {
  has_mac = false;
  has_softmax_requests = false;
  has_move_to_gemv_buffer = false;
  has_move_to_softmax_buffer = false;
  has_write_to_gemv_buffer = false;
  has_memory_system_cycles = true;
  last_word = some n;
}

abbrev macs_line : ℕ → Line
macs_line n = record (cycles_line n) { has_mac = true; has_memory_system_cycles = false }

-- Ten cycles, and a MAC for each line of the trace.
abbrev ten_cycles : Simulator
ten_cycles yaml none = none
ten_cycles yaml (some trace) = some (cycles_line 10 ∷ macs_line (length trace) ∷ [])

abbrev softmax_command : Command
softmax_command = record { op = Opcode.pim_sfm; addr = 0 }

-- A trace with a line for each head.
abbrev line_per_head : TraceGenerator
line_per_head dhead nhead seqlen maxlen dbyte = ok (repeat nhead (softmax_command ∷ []))

abbrev pub host : Host
host = record {
  dir_exists = true;
  trace_candidates = λ pim_type. none ∷ some line_per_head ∷ [];
  ramulator_candidates = some ten_cycles ∷ [];
}

abbrev bare_host : Host
bare_host = record host { ramulator_candidates = none ∷ none ∷ [] }

abbrev own_host : Host
own_host = record host { trace_candidates = λ pim_type. none ∷ some (own_generator pim_type) ∷ [] }

abbrev pub setup : Setup
setup = record { max_L = 2048; num_hbm = 5; nhead = 8; dhead = 128; fast_mode = false }

-- Femtoseconds.
abbrev pub femtoseconds : Clock
femtoseconds = record { Time = ℕ; of_cycles = λ c. 769000 * c; times = λ t n. t * n }

femtoseconds-ClockLaws : ClockLaws femtoseconds
femtoseconds-ClockLaws = record { times_one = λ t. omega arith }

abbrev score_layer : Layer
score_layer = record {
  stage = gen;
  name = score;
  type = matmul;
  has_weight = false;
  dtype = w16a16;
  m = 1;
  n = 64;
  k = 128;
  num_op = 8;
  pim_num_op = 8;
  dbyte = 2;
}

-- The store of a new object in an empty directory.
abbrev pub start : Store tables
start = record { df = some []; output_log = none; yaml_files = λ j. none; trace_files = λ j. none }

start-IsClean : IsClean start
start-IsClean = record { no_yaml = λ j. refl; no_trace = λ j. refl }

start-IsTrueStore : IsTrueStore tables femtoseconds host setup start
start-IsTrueStore = record {
  rows = [];
  frame = refl;
  rows_true = λ pim_type l heads dbyte power_constraint. tt;
  file_true = tt;
}

start-new_ramulator :
    start ≡ new_ramulator tables femtoseconds host setup true none (λ j. none) (λ j. none)
unfolding new_ramulator
start-new_ramulator = refl

output-IsClean_example :
    IsClean (output tables femtoseconds host setup buffer score_layer true start).1
output-IsClean_example =
    output-IsClean tables femtoseconds host setup buffer score_layer true ten_cycles refl start
      start-IsClean

run-leaks_example :
    ((run tables femtoseconds bare_host setup bg score_layer true start).0 ≡ raise file_not_found)
    × ((run tables femtoseconds bare_host setup bg score_layer true start).1.trace_files
          (job_of setup 64 2 2 true)
        ≡ some (softmax_command ∷ softmax_command ∷ []))
unfolding heads_of
run-leaks_example =
    run-leaks tables femtoseconds bare_host setup bg score_layer true 2 1
      (softmax_command ∷ softmax_command ∷ []) start refl refl refl refl

output-Serves_example :
    Serves tables femtoseconds host setup tables-PandasLaws femtoseconds-ClockLaws bg score_layer
      true tt refl
      (omega arith)
      refl
      refl
      (output tables femtoseconds host setup bg score_layer true start)
output-Serves_example =
    output-Serves tables femtoseconds host setup tables-PandasLaws femtoseconds-ClockLaws bg
      score_layer true tt refl (omega arith) refl refl start start-IsTrueStore

-- Two lines for the two heads of a stack, sixteen banks at once on five stacks.
abbrev first_result : ℕ × List ℕ
first_result = (7690000, 0 ∷ 0 ∷ 0 ∷ 0 ∷ 2 * 32 * 16 * 5 ∷ [])

output-output_example :
    let after = (output tables femtoseconds host setup bg score_layer true start).1 in
    output tables femtoseconds host setup bg score_layer true after ≡ (ok first_result, after)
unfolding output run heads_of make_yaml_file run_ramulator generate_trace simulate parse
    update_log_file look_up logged
output-output_example =
    output-output tables femtoseconds host setup tables-PandasLaws femtoseconds-ClockLaws bg
      score_layer true tt refl (omega arith) refl refl start first_result start-IsTrueStore refl

-- A buffer unit's second answer has twice the accesses of the run that made the row.
buffer_run :
    (run tables femtoseconds host setup buffer score_layer true start).0
    ≡ ok (7690000, 0 ∷ 0 ∷ 0 ∷ 0 ∷ 2 * 32 * 5 ∷ [])
unfolding run heads_of make_yaml_file run_ramulator generate_trace simulate parse update_log_file
    logged
buffer_run = refl

buffer_answer :
    (output tables femtoseconds host setup buffer score_layer true start).0
    ≡ ok (7690000, 0 ∷ 0 ∷ 0 ∷ 0 ∷ 2 * 32 * 2 * 5 ∷ [])
unfolding output run heads_of make_yaml_file run_ramulator generate_trace simulate parse
    update_log_file look_up logged
buffer_answer = refl

-- The store between the writing of the YAML file and the simulator.
abbrev own_job : Job
own_job = job_of setup 64 2 2 true

abbrev own_start : Store tables
own_start = record start { yaml_files = λ j. some (yaml_of own_host setup own_job true) }

parse-totals_example :
    parse (cycles_line 10 ∷ macs_line 3 ∷ cycles_line 5 ∷ [])
    ≡ ok (record no_counts { cycle = 15; mac = 3 })
parse-totals_example =
    parse-totals (cycles_line 10 ∷ macs_line 3 ∷ cycles_line 5 ∷ [])
      ((10, refl), ((3, refl), ((5, refl), tt)))
