-- ===== src/Tests/ConfigRuns.antt =====
-- Runs of the tables (src/config.py).
use attacc_simulator_vlm.Prelude.{ℕ, ◌*◌, ◌/◌, refl, All, true}
use attacc_simulator_vlm.Model.Types.{w16a16}
use attacc_simulator_vlm.Model.Transformer.Legacy.{IsOkWith}
use attacc_simulator_vlm.Model.Routing.{Routing, Mode, Place, default_layer_list}
use attacc_simulator_vlm.Config.Table.{qwen25_vl_7b}
use attacc_simulator_vlm.Config.Shards.{table_model, server_sizes}
use attacc_simulator_vlm.Config.Graphs.{HasGraph, table_model-HasGraph}
use attacc_simulator_vlm.Tests.Samples.{fractions}

-- A quotient, rounded down, for `int((a / b) * c)`.
abbrev exact : ℕ → ℕ → ℕ → ℕ
exact a b c = a * c / b

abbrev list_routing : Routing
list_routing = record { mode = Mode.list; layer_list = default_layer_list; acc_device = Place.pim }

table_model-HasGraph_example :
    All
      (λ tp.
        IsOkWith
          (HasGraph fractions 4 2048 128 2 list_routing true)
          (table_model exact qwen25_vl_7b w16a16 tp))
      server_sizes
table_model-HasGraph_example =
    table_model-HasGraph fractions 4 exact qwen25_vl_7b w16a16 2 (tt, tt) refl 2048 128 list_routing
      true
