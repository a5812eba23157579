-- ===== src/Config/Shards.antt =====
-- Which models of the table split evenly: a test on the model that `Transformer` makes of them, run on
-- every name, and the layer graphs that `build` makes of each.
use attacc_simulator_vlm.Prelude.{
  ℕ, ◌%◌, ◌≡◌, refl, Bool, true, ◌&&◌, List, [], ◌∷◌, All, ◌==◌, ltb, arith, All-imp, Result, ok,
  ◌>>=◌,
}
use attacc_simulator_vlm.Model.Types.{DataType}
use attacc_simulator_vlm.Model.Layer.{dbyte_of}
use attacc_simulator_vlm.Model.Transformer.{Transformer, new_transformer}
use attacc_simulator_vlm.Model.Transformer.Legacy.{IsOkWith, IsOkWith-map}
use attacc_simulator_vlm.Model.Decoder.Splits.{IsSharded, IsSplit}
use attacc_simulator_vlm.Config.Table.{ModelName, unlisted}
use attacc_simulator_vlm.Config.{make_model_config}

abbrev is_split : ℕ → ℕ → Bool
is_split value parts = ltb 0 parts && (value % parts == 0)

is_split-IsSplit : (value parts : ℕ) → is_split value parts ≡ true → IsSplit value parts
is_split-IsSplit value parts h = record { some_parts = grind arith; even = grind arith }

abbrev is_sharded : Transformer → Bool
is_sharded t =
    (t.ff_tp == t.fc_tp)
    && is_split t.num_q_heads t.attn_tp
    && is_split t.num_kv_heads t.attn_tp
    && is_split t.qkv_proj_out_total t.fc_tp
    && is_split t.q_proj_out t.fc_tp
    && is_split t.kv_proj_out t.fc_tp
    && is_split t.q_proj_out t.attn_tp
    && is_split t.hdim t.fc_tp
    && is_split t.ff_intermediate t.ff_tp

is_sharded-IsSharded :
    (t : Transformer) (dbyte : ℕ)
    → dbyte_of t.dtype ≡ ok dbyte
    → is_sharded t ≡ true
    → IsSharded t dbyte
is_sharded-IsSharded t dbyte supported h = record {
  one_size = grind arith;
  q_heads = is_split-IsSplit _ _ (grind arith);
  kv_heads = is_split-IsSplit _ _ (grind arith);
  qkv = is_split-IsSplit _ _ (grind arith);
  q_out = is_split-IsSplit _ _ (grind arith);
  kv_out = is_split-IsSplit _ _ (grind arith);
  q_returned = is_split-IsSplit _ _ (grind arith);
  hidden = is_split-IsSplit _ _ (grind arith);
  intermediate = is_split-IsSplit _ _ (grind arith);
  supported = supported;
}

-- `Transformer(make_model_config(name, dtype), tensor_parallel)`
abbrev pub table_model : (ℕ → ℕ → ℕ → ℕ) → ModelName → DataType → ℕ → Result Transformer
table_model float_scaled name dtype tensor_parallel =
    make_model_config float_scaled name dtype >>= λ config.
    new_transformer config.infos tensor_parallel

abbrev pub IsListed : ModelName → Type 0
IsListed unlisted = ⊥
IsListed _ = Unit

-- The numbers of devices of a usual server.
abbrev pub server_sizes : List ℕ
server_sizes = 1 ∷ 2 ∷ 4 ∷ 8 ∷ []

abbrev IsEven : ℕ → Transformer → Type 0
IsEven dbyte t = (dbyte_of t.dtype ≡ ok dbyte) × (is_sharded t ≡ true)

make_model_config-IsEven :
    (float_scaled : ℕ → ℕ → ℕ → ℕ) (name : ModelName) (dtype : DataType) (dbyte : ℕ)
    → IsListed name
    → dbyte_of dtype ≡ ok dbyte
    → All (λ tp. IsOkWith (IsEven dbyte) (table_model float_scaled name dtype tp)) server_sizes
unfolding make_model_config new_transformer
make_model_config-IsEven fs ModelName.gpt_175b dtype dbyte listed h =
    ((h, refl), ((h, refl), ((h, refl), ((h, refl), tt))))
make_model_config-IsEven fs ModelName.gpt_89b dtype dbyte listed h =
    ((h, refl), ((h, refl), ((h, refl), ((h, refl), tt))))
make_model_config-IsEven fs ModelName.gpt_13b dtype dbyte listed h =
    ((h, refl), ((h, refl), ((h, refl), ((h, refl), tt))))
make_model_config-IsEven fs ModelName.llama_7b dtype dbyte listed h =
    ((h, refl), ((h, refl), ((h, refl), ((h, refl), tt))))
make_model_config-IsEven fs ModelName.llama_65b dtype dbyte listed h =
    ((h, refl), ((h, refl), ((h, refl), ((h, refl), tt))))
make_model_config-IsEven fs ModelName.mt_76b dtype dbyte listed h =
    ((h, refl), ((h, refl), ((h, refl), ((h, refl), tt))))
make_model_config-IsEven fs ModelName.mt_146b dtype dbyte listed h =
    ((h, refl), ((h, refl), ((h, refl), ((h, refl), tt))))
make_model_config-IsEven fs ModelName.mt_310b dtype dbyte listed h =
    ((h, refl), ((h, refl), ((h, refl), ((h, refl), tt))))
make_model_config-IsEven fs ModelName.mt_530b dtype dbyte listed h =
    ((h, refl), ((h, refl), ((h, refl), ((h, refl), tt))))
make_model_config-IsEven fs ModelName.mt_1008b dtype dbyte listed h =
    ((h, refl), ((h, refl), ((h, refl), ((h, refl), tt))))
make_model_config-IsEven fs ModelName.opt_66b dtype dbyte listed h =
    ((h, refl), ((h, refl), ((h, refl), ((h, refl), tt))))
make_model_config-IsEven fs ModelName.qwen3_4b dtype dbyte listed h =
    ((h, refl), ((h, refl), ((h, refl), ((h, refl), tt))))
make_model_config-IsEven fs ModelName.qwen3_vl_4b dtype dbyte listed h =
    ((h, refl), ((h, refl), ((h, refl), ((h, refl), tt))))
make_model_config-IsEven fs ModelName.qwen25_vl_7b dtype dbyte listed h =
    ((h, refl), ((h, refl), ((h, refl), ((h, refl), tt))))
make_model_config-IsEven fs ModelName.internvl3_8b_hf dtype dbyte listed h =
    ((h, refl), ((h, refl), ((h, refl), ((h, refl), tt))))
make_model_config-IsEven fs ModelName.vicuna_7b dtype dbyte listed h =
    ((h, refl), ((h, refl), ((h, refl), ((h, refl), tt))))
make_model_config-IsEven fs ModelName.llava_15_7b dtype dbyte listed h =
    ((h, refl), ((h, refl), ((h, refl), ((h, refl), tt))))
make_model_config-IsEven fs ModelName.mistral_7b dtype dbyte listed h =
    ((h, refl), ((h, refl), ((h, refl), ((h, refl), tt))))
make_model_config-IsEven fs ModelName.llava_next_mistral_7b dtype dbyte listed h =
    ((h, refl), ((h, refl), ((h, refl), ((h, refl), tt))))
make_model_config-IsEven fs unlisted dtype dbyte listed h = elim listed [ ]

-- Every model of the table, in either supported data type, is made for 1, 2, 4 and 8 devices, and its
-- shards are even.
pub make_model_config-IsSharded :
    (float_scaled : ℕ → ℕ → ℕ → ℕ) (name : ModelName) (dtype : DataType) (dbyte : ℕ)
    → IsListed name
    → dbyte_of dtype ≡ ok dbyte
    → All
        (λ tp. IsOkWith (λ t. IsSharded t dbyte) (table_model float_scaled name dtype tp))
        server_sizes
make_model_config-IsSharded fs name dtype dbyte listed h =
    All-imp server_sizes
      (λ tp.
        IsOkWith-map {P = IsEven dbyte} (λ t e. is_sharded-IsSharded t dbyte e.0 e.1)
          (table_model fs name dtype tp))
      (make_model_config-IsEven fs name dtype dbyte listed h)
