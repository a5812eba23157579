-- ===== src/Main/Deploys.antt =====
-- What system the arguments configure: its devices against the shards of its model.
use attacc_simulator_vlm.Prelude.{
  ℕ, ◌≡◌, refl, sym, ap, ◌∙◌, true, false, ◌&&◌, ◌==◌, min, List, Option, none, some, or_else,
  or_some, or_raise, Result, raise, assertion_error, type_error, Bool-cases, inl, inr, arith, subst,
  ==_refl, ◌⊎◌, Always, EndsWith, Always-EndsWith, bind-Always, bind-both,
}
use attacc_simulator_vlm.Model.Types.{DataType, none_device, cpu, pim}
use attacc_simulator_vlm.Model.Arith.{int_div}
use attacc_simulator_vlm.Model.Routing.{Mode}
use attacc_simulator_vlm.Model.Transformer.{ModelInfos, Transformer, new_transformer}
use attacc_simulator_vlm.Model.Vision.{ImageSize}
use attacc_simulator_vlm.Config.Table.{ModelName}
use attacc_simulator_vlm.Config.Hardware.{
  GpuType, a100a, h100, a6000, DeviceConfig, PimConfig, make_xpu_config, make_pim_config,
}
use attacc_simulator_vlm.Config.{make_model_config}
use attacc_simulator_vlm.System.{set_routing, set_prefill_config}
use attacc_simulator_vlm.Main.{
  Arguments, SystemName, dgx_attacc, dgx_cpu, other, the_gpu, pims, Session, parse_layer_list,
  new_system, set_system, set_args_routing, gpu_arguments, dtype_of, configure_for, with_gpu,
  configure, no_arguments,
}

-- A model for a number of devices.
pub record IsFor (n : ℕ) (t : Transformer) : Type 0 where
  pub dense : t.fc_tp ≡ n
  pub feed_forward : t.ff_tp ≡ n
  pub attention : t.attn_tp ≡ min n t.num_kv_heads

new_transformer-IsFor : (infos : ModelInfos) (n : ℕ) → Always (IsFor n) (new_transformer infos n)
unfolding new_transformer
new_transformer-IsFor infos n =
    bind-Always (IsFor n) (or_raise (or_some infos.num_q_heads infos.num_heads) type_error) _ (λ q.
      bind-Always (IsFor n) (int_div infos.hdim q) _ (λ dhead.
        bind-Always (IsFor n) (int_div q (or_else infos.num_kv_heads q)) _
          (λ gqa. record { dense = refl; feed_forward = refl; attention = refl })))

-- The devices of a system for `n` GPUs: one per shard, but that a system with CPUs has the eight GPUs of the
-- table, whatever the arguments say.
abbrev pub Runs : SystemName → (n : ℕ) → GpuType → Session → Type 0
Runs other n gpu_type s =
    (s.gpu.num_device ≡ n) × (s.acc ≡ the_gpu) × (s.system.hetero_name ≡ none_device)
Runs dgx_attacc n gpu_type s =
    (s.gpu.num_device ≡ n)
    × ((config : PimConfig) × (s.acc ≡ pims config) × (config.num_attacc ≡ n))
    × (s.system.hetero_name ≡ pim)
Runs dgx_cpu n gpu_type s =
    (s.gpu ≡ (make_xpu_config gpu_type no_arguments).gpu)
    × (s.gpu.num_device ≡ 8)
    × (s.model_tp ≡ some 8)
    × (s.system.hetero_name ≡ cpu)

pub record IsDeployed (args : Arguments) (gpu_type : GpuType) (s : Session) : Type 0 where
  pub shards : IsFor args.ngpu s.system.model
  pub devices : Runs args.system args.ngpu gpu_type s
  pub chunk : s.system.prefill_chunk_size ≡ args.prefill_chunk
  pub samples : s.system.prefill_sample_count ≡ args.prefill_samples

-- A new system, and one whose accelerator is set.
record Starts (n : ℕ) (s : Session) : Type 0 where
  shards : IsFor n s.system.model
  gpus : s.gpu.num_device ≡ n
  alone : s.acc ≡ the_gpu
  plain : s.system.hetero_name ≡ none_device

num_device_lem :
    (gpu_type : GpuType) (args : Arguments)
    → (make_xpu_config gpu_type (gpu_arguments args)).gpu.num_device ≡ args.ngpu
unfolding make_xpu_config
num_device_lem a100a args = refl
num_device_lem h100 args = refl
num_device_lem a6000 args = refl

eight_devices : (gpu_type : GpuType) → (make_xpu_config gpu_type no_arguments).gpu.num_device ≡ 8
unfolding make_xpu_config
eight_devices a100a = refl
eight_devices h100 = refl
eight_devices a6000 = refl

abbrev Set : SystemName → ℕ → GpuType → Session → Type 0
Set name n gpu_type s = IsFor n s.system.model × Runs name n gpu_type s

set_system-Runs :
    (name : SystemName) (args : Arguments) (gpu_type : GpuType) (n : ℕ) (s : Session)
    → Starts n s
    → Set name n gpu_type (set_system name args gpu_type n s)
unfolding make_pim_config
set_system-Runs other args gpu_type n s h = (h.shards, (h.gpus, h.alone, h.plain))
set_system-Runs dgx_attacc args gpu_type n s h = (h.shards, (h.gpus, (_, refl, refl), refl))
set_system-Runs dgx_cpu args gpu_type n s h =
    (h.shards, (refl, eight_devices gpu_type, ap some (eight_devices gpu_type), refl))

module _ (float_scaled : ℕ → ℕ → ℕ → ℕ) where
  new_system-Starts :
      (config : DeviceConfig) (name : ModelName) (dtype : DataType)
      → Always (Starts config.num_device) (new_system float_scaled config name dtype)
  unfolding new_system
  new_system-Starts config name dtype =
      bind-Always (Starts config.num_device) (make_model_config float_scaled name dtype) _ (λ infos.
        bind-both (Starts config.num_device) (IsFor config.num_device)
          (new_transformer infos.infos config.num_device) _
          (new_transformer-IsFor infos.infos config.num_device)
          (λ t shards. record { shards = shards; gpus = refl; alone = refl; plain = refl }))

set_routing-Set :
    (name : SystemName) (n : ℕ) (gpu_type : GpuType) (s : Session) (mode : Option Mode)
    (layers : Option (List ℕ))
    → Set name n gpu_type s
    → Set name n gpu_type (record s { system = set_routing mode layers s.system })
unfolding set_routing
set_routing-Set other n gpu_type s mode layers h = h
set_routing-Set dgx_attacc n gpu_type s mode layers h = h
set_routing-Set dgx_cpu n gpu_type s mode layers h = h

module _ (strip : List ℕ → List ℕ) (int_of : List ℕ → Result ℕ) where
  set_args_routing-Set :
      (name : SystemName) (n : ℕ) (gpu_type : GpuType) (s : Session) (mode : Option Mode)
      (pim_layers : List ℕ)
      → Set name n gpu_type s
      → Always (Set name n gpu_type) (set_args_routing strip int_of mode pim_layers s)
  set_args_routing-Set name n gpu_type s none pim_layers h = h
  set_args_routing-Set name n gpu_type s (some mode) pim_layers h =
      bind-Always (Set name n gpu_type) (parse_layer_list strip int_of pim_layers) _
        (λ layers. set_routing-Set name n gpu_type s (some mode) layers h)

-- The rest of `main`.
finished-Runs :
    (name : SystemName) (n : ℕ) (gpu_type : GpuType) (s : Session) (chunk samples : ℕ)
    (image_size : ImageSize)
    → Runs name n gpu_type s
    → Runs name n gpu_type
        (record s { system = set_prefill_config chunk samples s.system; image_size = image_size })
unfolding set_prefill_config
finished-Runs other n gpu_type s chunk samples image_size h = h
finished-Runs dgx_attacc n gpu_type s chunk samples image_size h = h
finished-Runs dgx_cpu n gpu_type s chunk samples image_size h = h

finished-IsDeployed :
    (args : Arguments) (gpu_type : GpuType) (s : Session) (image_size : ImageSize)
    → Set args.system args.ngpu gpu_type s
    → IsDeployed args gpu_type (record s {
      system = set_prefill_config args.prefill_chunk args.prefill_samples s.system;
      image_size = image_size;
    })
unfolding set_prefill_config
finished-IsDeployed args gpu_type s image_size h = record {
  shards = h.0;
  devices =
      finished-Runs args.system args.ngpu gpu_type s args.prefill_chunk args.prefill_samples
        image_size h.1;
  chunk = refl;
  samples = refl;
}

module _ (float_scaled : ℕ → ℕ → ℕ → ℕ) (strip : List ℕ → List ℕ) (int_of : List ℕ → Result ℕ) where
  configure_for-differ :
      (gpu_type : GpuType) (args : Arguments)
      → (or_else args.num_attacc args.ngpu == or_else args.tp args.ngpu)
          && (or_else args.tp args.ngpu == args.ngpu)
        ≡ false
      → configure_for float_scaled strip int_of gpu_type args ≡ raise assertion_error
  unfolding configure_for
  configure_for-differ gpu_type args differ = rw differ refl

  agreeing-IsDeployed :
      (gpu_type : GpuType) (args : Arguments)
      → or_else args.num_attacc args.ngpu ≡ args.ngpu
      → (or_else args.num_attacc args.ngpu == or_else args.tp args.ngpu)
          && (or_else args.tp args.ngpu == args.ngpu)
        ≡ true
      → Always (IsDeployed args gpu_type) (configure_for float_scaled strip int_of gpu_type args)
  unfolding configure_for
  agreeing-IsDeployed gpu_type args attaccs agree =
      let P = IsDeployed args gpu_type in
      let config = (make_xpu_config gpu_type (gpu_arguments args)).gpu in
      rw agree (
        bind-both P (Starts config.num_device)
          (new_system float_scaled config args.model (dtype_of args.word)) _
          (new_system-Starts float_scaled config args.model (dtype_of args.word))
          (λ started fresh.
            let starts = subst (λ n. Starts n started) (num_device_lem gpu_type args) fresh in
            let set = set_system-Runs args.system args gpu_type args.ngpu started starts in
            let same = sym attaccs in
            bind-both P (Set args.system args.ngpu gpu_type)
              (set_args_routing strip int_of args.routing args.pim_layers
                (set_system args.system args gpu_type (or_else args.num_attacc args.ngpu) started))
              _
              (set_args_routing-Set strip int_of args.system args.ngpu gpu_type _ args.routing
                args.pim_layers
                (subst
                  (λ n.
                    Set args.system args.ngpu gpu_type
                      (set_system args.system args gpu_type n started))
                  same set))
              (λ s done. finished-IsDeployed args gpu_type s _ done)))

  configure-configure_for :
      (gpu_type : GpuType) (args : Arguments)
      → args.gpu ≡ some gpu_type
      → configure float_scaled strip int_of args
        ≡ configure_for float_scaled strip int_of gpu_type args
  unfolding configure
  configure-configure_for gpu_type args known =
      ap (λ o. with_gpu float_scaled strip int_of o args) known

  -- For a known GPU: where --num_attacc, --tp and --ngpu, with their defaults, differ, `main` raises
  -- AssertionError; otherwise a system that it configures has a model with one shard for each of --ngpu, and
  -- the prefill settings of the arguments. Its GPUs, and the PIM devices of dgx-attacc, are as many; but those
  -- of dgx-cpu are the eight of the table with their defaults.
  pub configure-IsDeployed :
      (gpu_type : GpuType) (args : Arguments)
      → args.gpu ≡ some gpu_type
      → let num_attacc = or_else args.num_attacc args.ngpu in
        let tp = or_else args.tp args.ngpu in
        ((¬ ((num_attacc ≡ tp) × (tp ≡ args.ngpu))
            × (configure float_scaled strip int_of args ≡ raise assertion_error))
          ⊎ ((num_attacc ≡ args.ngpu)
              × (tp ≡ args.ngpu)
              × EndsWith (IsDeployed args gpu_type) (configure float_scaled strip int_of args)))
  configure-IsDeployed gpu_type args known =
      let num_attacc = or_else args.num_attacc args.ngpu in
      let tp = or_else args.tp args.ngpu in
      elim (Bool-cases ((num_attacc == tp) && (tp == args.ngpu))) [
        | inl agree ↦
            let attaccs : num_attacc ≡ args.ngpu = grind arith in
            let shards : tp ≡ args.ngpu = grind arith in
            inr (
              attaccs,
              shards,
              Always-EndsWith _ (
                  subst (Always (IsDeployed args gpu_type))
                    (sym (configure-configure_for gpu_type args known))
                    (agreeing-IsDeployed gpu_type args attaccs agree)),
            )
        | inr differ ↦ inl (
          (λ h. grind (arith, ==_refl args.ngpu)),
          configure-configure_for gpu_type args known ∙ configure_for-differ gpu_type args differ,
        )
      ]
