-- ===== src/Tests/MainRuns.antt =====
-- Runs of the arguments (src/main.py).
use attacc_simulator_vlm.Prelude.{
  ℕ, ◌*◌, ◌/◌, ◌≡◌, ◌⊎◌, refl, true, false, List, [], ◌∷◌, none, some, Result, ok, raise,
  assertion_error, EndsWith,
}
use attacc_simulator_vlm.Model.Routing.{Mode}
use attacc_simulator_vlm.Config.Table.{llama_65b}
use attacc_simulator_vlm.Config.Hardware.{a100a, nvlink3}
use attacc_simulator_vlm.Main.{
  Arguments, dgx_attacc, bg_mode, split_commas, read_items, parse_layer_list, configure_for,
  configure,
}
use attacc_simulator_vlm.Model.Vision.{no_size}
use attacc_simulator_vlm.Main.Output.{run}
use attacc_simulator_vlm.Main.Output.Appends.{Appends, run-Appends}
use attacc_simulator_vlm.Tests.PricingRuns.{whole}
use attacc_simulator_vlm.Tests.SimulateRuns.{steady_deployment, labels}
use attacc_simulator_vlm.Tests.SystemRuns.{system}
use attacc_simulator_vlm.Main.Deploys.{IsDeployed, configure-IsDeployed}

abbrev arguments : Arguments
arguments = record {
  system = dgx_attacc;
  gpu = some a100a;
  ngpu = 4;
  tp = none;
  gmemcap = some 80;
  pim = bg_mode;
  num_attacc = some 4;
  num_hbm = 5;
  interface = nvlink3;
  powerlimit = false;
  pipeopt = true;
  routing = some Mode.list;
  pim_layers = [];
  model = llama_65b;
  word = 2;
  lin = 128;
  lout = 4;
  prefill_chunk = 256;
  prefill_samples = 4;
  image_size = none;
  image_width = none;
  image_height = none;
  batch = 1;
}

abbrev scaled : ℕ → ℕ → ℕ → ℕ
scaled a b c = a * c / b

-- A decimal numeral of one digit.
abbrev digit : List ℕ → Result ℕ
digit (c ∷ []) = ok c
digit _ = raise assertion_error

configure-IsDeployed_example :
    let four : ℕ = 4 in
    (¬ ((four ≡ four) × (four ≡ four))
      × (configure scaled (λ s. s) digit arguments ≡ raise assertion_error))
    ⊎ ((four ≡ four)
        × (four ≡ four)
        × EndsWith (IsDeployed arguments a100a) (configure scaled (λ s. s) digit arguments))
configure-IsDeployed_example = configure-IsDeployed scaled (λ s. s) digit a100a arguments refl

some_items :
    parse_layer_list (λ s. s) digit (b'1' ∷ b',' ∷ b',' ∷ b'3' ∷ []) ≡ ok (some (b'1' ∷ b'3' ∷ []))
unfolding parse_layer_list read_items split_commas
some_items = refl

-- Fewer PIM devices than GPUs.
some_refusal :
    configure scaled (λ s. s) digit (record arguments { num_attacc = some 2 })
    ≡ raise assertion_error
unfolding configure configure_for
some_refusal = refl

run-Appends_example :
    Appends whole steady_deployment labels system none
      (run whole steady_deployment labels system 2 16 3 false true true no_size (none, tt))
run-Appends_example =
    run-Appends whole steady_deployment labels system 2 16 3 false true no_size none tt
