-- ===== src/Lib.antt =====
-- AttAcc simulator: from the arguments of the command line to the row of results.
--
-- The program estimates the time and energy of transformer inference on GPUs with processing-in-memory
-- accelerators. `Transformer` (src/model.py) turns a model's sizes into graphs of layers, one for the
-- summarisation and one for each generated token; `Routing` decides which decoder layers run their
-- attention on the accelerator. For such a layer the simulator runs a trace generator
-- (pim_ramulator_src/trace_gen/), which writes the DRAM commands of the attention of all heads, and
-- hands the trace to an external DRAM simulator. `System` (src/system.py) gives each layer to a device
-- (src/devices.py), corrects and collects the times and energies, and returns a row, which main.py writes.
--
-- Files:
--   Prelude    Boolean tests, list functions on native numbers, Python's exceptions as values
--              (`Result`), and `⊕` and `for_each` for statements that extend one list.
--   Trace      the generators gen_trace_attacc_{bank,bg,buffer}.py. Command, Gs and Head hold the
--              constants, `HBM_GS` and the global command lists. Bank, Bg and Buffer hold the commands
--              of `Attention` and `main` of the three files (`generator` has the numbers in which their
--              `run_attention` differ). Schedule is `run_attention`, the same code in the three files,
--              and its children prove it round by round.
--   Model      src/model.py. Types, Arith and Layer are the enumerations, the divisions and `class Layer`;
--              Routing is `class Routing`, and its children compare the layers that are asked for with
--              its entries; Transformer, Vision, Decoder, VisionDecoder and Build are the constructor, the
--              token counts, the decoder graphs, the vision graph and `build` of `class Transformer`. Work
--              measures lists of layers.
--   Config     src/config.py. Table holds the models, Energy and Hardware the other tables; the module itself
--              is `make_model_config`. Shards and Graphs take every model through `Transformer` and `build`.
--   Ramulator  src/ramulator_wrapper.py. Machine is what the wrapper finds on the host (generators, simulator,
--              pandas, floats), Statements the monad of statements on its store, Reading the reading of the
--              simulator's output; the module itself has the methods. Measure computes a run without the
--              store; Files, Cache, Own and Parse are about temporary files, the log, the repository's
--              generators and the output.
--   Devices    src/devices.py. The module itself is the search of `class xPU` for tiles, with its table; Minimum is
--              the choice of the best element of a loop; Search, Memo and Traffic are about the search, the table
--              and the traffic of a tile. Arithmetic has the floats; Rates has the times and energies of an xPU for
--              given tiles, and Pricing the methods that ask the table: Price and Energy are about them. Pim is
--              `class PIM`.
--   System     `class System` of src/system.py: the module itself is the memory of a request, the routing that
--              `simulate` chooses, and the chunks and samples of a prefill; Weights, Choice, Chunks and Sampling are
--              about them. Group is the loop over a generation block, and Offload runs it on the graphs of Model,
--              the PIM device of Devices and the wrapper of Ramulator. Perf and Energy collect the times and
--              energies of groups, Latency has the corrections for a PIM device, Prefill the sampled prefill;
--              Simulate, Batches and Report are the groups of a batch, the batches and the row of results. Charges,
--              GroupBalance, Shape, Idle and OneToken are about a simulation as a whole. Breakdown is
--              `get_capacity_breakdown`.
--   Main       src/main.py: the system that the arguments configure, with the constructor and the setters of
--              `System`; Deploys is about it. Output is `run` and `write_csv`, and Appends is about them.
--   Tests      samples, and each theorem at a concrete input.
--
-- How the code is modelled:
--   * Numbers are natural. `//`, `int(a / b)` and `math.ceil(a / b)` of integers are exact quotients, which
--     the code's floats give for the sizes in use (below 2^53); a division by 0 raises.
--   * A `for` loop is `for_each` over `range`, or recursion on the rounds left; no fuel is used.
--   * The seven global command lists and `valid_channels` are one list of `Head` records, because the code
--     extends the eight together. A trace line is a command name with an address, and a run's result is
--     the list of its lines.
--   * A dict of the model's sizes is a record, with `Option` for keys that may be missing. The dicts of
--     groups are one association list, because the code assigns to both under the same key.
--   * The floats of `select_best_resolution` are a parameter (`Floats`), and no law of theirs is assumed.
--   * The wrapper's methods change a store of the data frame, the log file and the temporary files, and
--     return a result or an exception; the simulator, pandas and the floats of a time are parameters, with
--     the documented laws that the cache relies on as records (`PandasLaws`, `ClockLaws`).
--   * The cost of a tile is a float, and so are its type, its formula and `<` (`Costs`, `IsStrict`); the
--     depth of a second-level tile, k / 64, is kept as k, and the capacity test it stands in is multiplied
--     by 64. A true division is a pair (`Quotient`), and `int(round(a * (b / c)))` is a parameter.
--   * The floats of times and rates are a parameter too (`Arithmetic`): its operations are those of the code, and
--     a division by zero raises. Two theorems name laws of it (`IsExact`, `KeepsZero`). The energies of a
--     generation are whole and are added before they are divided.
--   * A simulation runs on a state of its devices: the tables of tiles of the GPU, and the store of the
--     wrapper. What it assigns to a layer (`exec_time`, `energy`) is a `Timed` record beside the layer. In
--     Offload and in the runs of Tests the GPU is a parameter with a state of its own.
--   * The integer arguments of the command line are natural numbers; `int` and `strip` of a text, and the
--     rounding of a sample, are parameters. The file of results is a list of rows of values.
--   * The numbers of src/config.py are whole: energies are in units of a ten-thousandth of a picojoule.
--
-- Not modelled: the DRAM simulator; `parallel_ff` of src/system.py; the energies of a
-- prefill, which nothing reads; the methods of `PIM` that nothing calls; argparse; the files' text and printed
-- lines; the experiment scripts, which sweep the simulator, measure on hardware and write tables.
pub mod Prelude
pub mod Trace
pub mod Model
pub mod Config
pub mod Ramulator
pub mod Devices
pub mod System
pub mod Main
pub mod Tests
