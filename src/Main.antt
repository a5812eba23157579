-- ===== src/Main.antt =====
-- src/main.py: the system that the arguments ask for (`main` up to `run`), with the methods of `System`
-- (src/system.py) that it calls. An integer argument is natural; text is a list of code points.
pub mod Deploys
pub mod Output
use attacc_simulator_vlm.Prelude.{
  ℕ, ◌*◌, ◌^◌, Bool, true, false, ◌&&◌, ◌==◌, if◌then◌else◌, List, [], ◌∷◌, Option, none, some,
  or_else, Result, ok, raise, ◌>>=◌, ◌>>◌, require, assertion_error,
}
use attacc_simulator_vlm.Model.Types.{DataType, w16a16, w8a8, DeviceType, none_device, cpu, pim}
use attacc_simulator_vlm.Model.Routing.{Mode}
use attacc_simulator_vlm.Model.Transformer.{Transformer, new_transformer}
use attacc_simulator_vlm.Model.Vision.{ImageSize, no_size, pair, number}
use attacc_simulator_vlm.Config.Table.{ModelName}
use attacc_simulator_vlm.Config.Energy.{PimType, ba, bg, buffer}
use attacc_simulator_vlm.Config.Hardware.{
  GpuType, InterfaceType, DeviceConfig, XpuConfig, XpuArguments, PimConfig, make_xpu_config,
  make_pim_config,
}
use attacc_simulator_vlm.Config.{make_model_config}
use attacc_simulator_vlm.System.{System, set_routing, set_prefill_config}

-- The values of --system, and of --gpu and --pim, where `other` is any other text.
pub data SystemName : Type 0 where
  dgx_attacc dgx_cpu other : SystemName

pub data PimName : Type 0 where
  bg_mode buffer_mode other_mode : PimName

pub record Arguments : Type 0 where
  pub system : SystemName
  pub gpu : Option GpuType
  pub ngpu : ℕ
  pub tp : Option ℕ
  pub gmemcap : Option ℕ
  pub pim : PimName
  pub num_attacc : Option ℕ
  pub num_hbm : ℕ
  pub interface : InterfaceType
  pub powerlimit : Bool
  pub pipeopt : Bool
  pub routing : Option Mode
  pub pim_layers : List ℕ
  pub model : ModelName
  pub word : ℕ
  pub lin : ℕ
  pub lout : ℕ
  pub prefill_chunk : ℕ
  pub prefill_samples : ℕ
  pub image_size : Option ℕ
  pub image_width : Option ℕ
  pub image_height : Option ℕ
  pub batch : ℕ

-- `value.split(',')`
abbrev pub starting : ℕ → List (List ℕ) → List (List ℕ)
starting c [] = (c ∷ []) ∷ []
starting c (item ∷ items) = (c ∷ item) ∷ items

unfoldable pub split_commas : List ℕ → List (List ℕ)
split_commas [] = [] ∷ []
split_commas (c ∷ cs) =
    let rest = split_commas cs in if c == b',' then [] ∷ rest else starting c rest

-- `item.strip()` and `int(item)` are Python's.
module _ (strip : List ℕ → List ℕ) (int_of : List ℕ → Result ℕ) where
  abbrev pub add_item : List ℕ → Result (List ℕ) → Result (List ℕ)
  add_item [] rest = rest
  add_item (c ∷ cs) rest = do i ← int_of (c ∷ cs); is ← rest; ok (i ∷ is)

  unfoldable pub read_items : List (List ℕ) → Result (List ℕ)
  read_items [] = ok []
  read_items (item ∷ items) = add_item (strip item) (read_items items)

  -- `parse_layer_list`
  unfoldable pub parse_layer_list : List ℕ → Result (Option (List ℕ))
  unfolding read_items
  parse_layer_list [] = ok none
  parse_layer_list (c ∷ cs) = do items ← read_items (split_commas (c ∷ cs)); ok (some items)

-- `parse_image_size`
abbrev pub one_size : Option ℕ → ImageSize
one_size none = no_size
one_size (some size) = number size

unfoldable pub parse_image_size : (image_size image_width image_height : Option ℕ) → ImageSize
parse_image_size image_size none none = one_size image_size
parse_image_size image_size (some width) none = pair width (or_else image_size width)
parse_image_size image_size none (some height) = pair (or_else image_size height) height
parse_image_size image_size (some width) (some height) = pair width height

-- `devices['Acc']`: the GPU, CPUs or a PIM device.
pub data Accelerator : Type 0 where
  the_gpu : Accelerator
  cpus : DeviceConfig → Accelerator
  pims : PimConfig → Accelerator

-- A `System` with the configurations of its devices, `model.tp`, which only `set_xpu` assigns, and its image
-- size.
pub record Session : Type 0 where
  pub system : System
  pub gpu : DeviceConfig
  pub acc : Accelerator
  pub model_tp : Option ℕ
  pub image_size : ImageSize

module _ (float_scaled : ℕ → ℕ → ℕ → ℕ) where
  -- `System(gpu_config, modelinfos)`
  unfoldable pub new_system : DeviceConfig → ModelName → DataType → Result Session
  new_system gpu_config name dtype = do
    config ← make_model_config float_scaled name dtype
    model ← new_transformer config.infos gpu_config.num_device
    ok (record {
      system = record {
        hetero_name = none_device;
        model = model;
        routing_mode = none;
        routing_layer_list = none;
        prefill_chunk_size = 512;
        prefill_sample_count = 8;
      };
      gpu = gpu_config;
      acc = the_gpu;
      model_tp = none;
      image_size = no_size;
    })

-- `set_accelerator` for PIM and for CPU, and `set_xpu`.
abbrev pub set_pim : PimConfig → Session → Session
set_pim config s = record s { system = record s.system { hetero_name = pim }; acc = pims config }

abbrev pub set_cpu : DeviceConfig → Session → Session
set_cpu config s = record s { system = record s.system { hetero_name = cpu }; acc = cpus config }

abbrev pub set_xpu : DeviceConfig → Session → Session
set_xpu config s = record s {
  system = record s.system { hetero_name = none_device };
  gpu = config;
  acc = the_gpu;
  model_tp = some config.num_device;
}

abbrev pub pim_type_of : PimName → PimType
pim_type_of bg_mode = bg
pim_type_of buffer_mode = buffer
pim_type_of other_mode = ba

abbrev pub no_arguments : XpuArguments
no_arguments = record { num_gpu = none; flops = none; mem_cap = none; mem_bw = none }

-- The branch on --system.
abbrev pub set_system : SystemName → Arguments → GpuType → (num_attacc : ℕ) → Session → Session
set_system dgx_attacc args gpu_type num_attacc s =
    set_pim
      (make_pim_config (pim_type_of args.pim) args.interface 1 num_attacc args.num_hbm none
        args.powerlimit)
      s
set_system dgx_cpu args gpu_type num_attacc s =
    let xpu_config = make_xpu_config gpu_type no_arguments in
    set_cpu xpu_config.cpu (set_xpu xpu_config.gpu s)
set_system other args gpu_type num_attacc s = s

module _ (strip : List ℕ → List ℕ) (int_of : List ℕ → Result ℕ) where
  -- The branch on --routing; the default sets no routing and does not read --pim_layers.
  abbrev pub set_args_routing : Option Mode → List ℕ → Session → Result Session
  set_args_routing none pim_layers s = ok s
  set_args_routing (some mode) pim_layers s = do
    layer_list ← parse_layer_list strip int_of pim_layers
    ok (record s { system = set_routing (some mode) layer_list s.system })

abbrev pub dtype_of : ℕ → DataType
dtype_of word = if word == 2 then w16a16 else w8a8

abbrev pub gmem_cap : Option ℕ → Option ℕ
gmem_cap none = none
gmem_cap (some gigabytes) = some (gigabytes * 1024 * 1024 * 1024)

abbrev pub gpu_arguments : Arguments → XpuArguments
gpu_arguments args = record no_arguments {
  num_gpu = some args.ngpu;
  mem_cap = gmem_cap args.gmemcap;
}

module _ (float_scaled : ℕ → ℕ → ℕ → ℕ) (strip : List ℕ → List ℕ) (int_of : List ℕ → Result ℕ) where
  -- `main`, from the GPU type to the call of `run`.
  unfoldable pub configure_for : GpuType → Arguments → Result Session
  configure_for gpu_type args =
      let tp = or_else args.tp args.ngpu in
      let num_attacc = or_else args.num_attacc args.ngpu in
      require ((num_attacc == tp) && (tp == args.ngpu)) assertion_error >> (do
        started ←
            new_system float_scaled (make_xpu_config gpu_type (gpu_arguments args)).gpu args.model
              (dtype_of args.word)
        s ←
            set_args_routing strip int_of args.routing args.pim_layers
              (set_system args.system args gpu_type num_attacc started)
        ok (record s {
          system = set_prefill_config args.prefill_chunk args.prefill_samples s.system;
          image_size = parse_image_size args.image_size args.image_width args.image_height;
        }))

  abbrev pub with_gpu : Option GpuType → Arguments → Result Session
  with_gpu none args = raise assertion_error
  with_gpu (some gpu_type) args = configure_for gpu_type args

  unfoldable pub configure : Arguments → Result Session
  unfolding configure_for
  configure args = with_gpu args.gpu args
