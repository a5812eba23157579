-- ===== src/Config/Table.antt =====
-- `model_table` of `make_model_config` (src/config.py): the sizes of the models the simulator ships with.
use attacc_simulator_vlm.Prelude.{ℕ, Bool, true, false, List, [], ◌∷◌, Option, none, some}
use attacc_simulator_vlm.Model.Types.{
  Activation, other_activation, FfnType, gated, ProjectorType, mlp_with_merger, pixel_shuffle_mlp,
  mlp,
}

-- The keys of `model_table`; `unlisted` is any other string.
pub data ModelName : Type 0 where
  gpt_175b gpt_89b gpt_13b llama_7b llama_65b : ModelName
  mt_76b mt_146b mt_310b mt_530b mt_1008b opt_66b : ModelName
  qwen3_4b qwen3_vl_4b qwen25_vl_7b internvl3_8b_hf : ModelName
  vicuna_7b llava_15_7b mistral_7b llava_next_mistral_7b : ModelName
  unlisted : ModelName

-- `ff_scale` of a legacy list: an integer, or `a / b`.
pub data FfScale : Type 0 where
  whole : ℕ → FfScale
  ratio : ℕ → ℕ → FfScale

-- The keys that every dict has.
pub record TextDict : Type 0 where
  pub ndec : ℕ
  pub hdim : ℕ
  pub num_q_heads : ℕ
  pub num_kv_heads : ℕ
  pub dhead : ℕ
  pub ff_intermediate : ℕ
  pub ffn_type : FfnType
  pub activation : Activation

-- The keys that the dicts of models with a vision part have besides.
pub record VisionDict : Type 0 where
  pub vit_layers : ℕ
  pub vit_hidden : ℕ
  pub vit_num_heads : ℕ
  pub vit_intermediate : ℕ
  pub vit_out_hidden : ℕ
  pub vit_activation : Activation
  pub patch_size : ℕ
  pub image_size_default : ℕ
  pub spatial_merge_size : ℕ
  pub num_vis_tokens_per_image : ℕ
  pub projector_type : ProjectorType
  pub has_deepstack : Bool
  pub deepstack_layers : List ℕ
  pub is_anyres : Bool
  pub image_grid_pinpoints : List (ℕ × ℕ)
  pub use_image_newline_parameter : Bool
  pub is_concat_style : Bool
  pub is_cross_attn : Bool
  pub vlm_floor_overhead_ms : ℕ

-- A value of the table: `[ndec, hdim, nheads, dhead, ff_scale, gqa_size]`, or a dict.
pub data TableEntry : Type 0 where
  legacy : (ndec hdim nheads dhead : ℕ) → FfScale → (gqa_size : ℕ) → TableEntry
  dict : TextDict → Option VisionDict → TableEntry

abbrev qwen3_text : TextDict
qwen3_text = record {
  ndec = 36;
  hdim = 2560;
  num_q_heads = 32;
  num_kv_heads = 8;
  dhead = 128;
  ff_intermediate = 9728;
  ffn_type = gated;
  activation = Activation.silu;
}

abbrev qwen25_text : TextDict
qwen25_text = record {
  ndec = 28;
  hdim = 3584;
  num_q_heads = 28;
  num_kv_heads = 4;
  dhead = 128;
  ff_intermediate = 18944;
  ffn_type = gated;
  activation = Activation.silu;
}

abbrev vicuna_text : TextDict
vicuna_text = record {
  ndec = 32;
  hdim = 4096;
  num_q_heads = 32;
  num_kv_heads = 32;
  dhead = 128;
  ff_intermediate = 11008;
  ffn_type = gated;
  activation = Activation.silu;
}

abbrev mistral_text : TextDict
mistral_text = record {
  ndec = 32;
  hdim = 4096;
  num_q_heads = 32;
  num_kv_heads = 8;
  dhead = 128;
  ff_intermediate = 14336;
  ffn_type = gated;
  activation = Activation.silu;
}

abbrev qwen3_vision : VisionDict
qwen3_vision = record {
  vit_layers = 24;
  vit_hidden = 1024;
  vit_num_heads = 16;
  vit_intermediate = 4096;
  vit_out_hidden = 2560;
  vit_activation = other_activation;
  patch_size = 16;
  image_size_default = 672;
  spatial_merge_size = 2;
  num_vis_tokens_per_image = 441;
  projector_type = mlp_with_merger;
  has_deepstack = true;
  deepstack_layers = 5 ∷ 11 ∷ 17 ∷ [];
  is_anyres = false;
  image_grid_pinpoints = [];
  use_image_newline_parameter = false;
  is_concat_style = true;
  is_cross_attn = false;
  vlm_floor_overhead_ms = 22;
}

abbrev qwen25_vision : VisionDict
qwen25_vision = record {
  vit_layers = 32;
  vit_hidden = 1280;
  vit_num_heads = 16;
  vit_intermediate = 3420;
  vit_out_hidden = 3584;
  vit_activation = Activation.silu;
  patch_size = 14;
  image_size_default = 672;
  spatial_merge_size = 2;
  num_vis_tokens_per_image = 576;
  projector_type = mlp_with_merger;
  has_deepstack = false;
  deepstack_layers = [];
  is_anyres = false;
  image_grid_pinpoints = [];
  use_image_newline_parameter = false;
  is_concat_style = true;
  is_cross_attn = false;
  vlm_floor_overhead_ms = 22;
}

abbrev internvl_vision : VisionDict
internvl_vision = record {
  vit_layers = 24;
  vit_hidden = 1024;
  vit_num_heads = 16;
  vit_intermediate = 4096;
  vit_out_hidden = 3584;
  vit_activation = Activation.gelu;
  patch_size = 14;
  image_size_default = 448;
  spatial_merge_size = 2;
  num_vis_tokens_per_image = 256;
  projector_type = pixel_shuffle_mlp;
  has_deepstack = false;
  deepstack_layers = [];
  is_anyres = false;
  image_grid_pinpoints = [];
  use_image_newline_parameter = false;
  is_concat_style = true;
  is_cross_attn = false;
  vlm_floor_overhead_ms = 22;
}

abbrev llava_vision : VisionDict
llava_vision = record {
  vit_layers = 24;
  vit_hidden = 1024;
  vit_num_heads = 16;
  vit_intermediate = 4096;
  vit_out_hidden = 4096;
  vit_activation = Activation.gelu;
  patch_size = 14;
  image_size_default = 336;
  spatial_merge_size = 1;
  num_vis_tokens_per_image = 576;
  projector_type = mlp;
  has_deepstack = false;
  deepstack_layers = [];
  is_anyres = false;
  image_grid_pinpoints = [];
  use_image_newline_parameter = false;
  is_concat_style = true;
  is_cross_attn = false;
  vlm_floor_overhead_ms = 22;
}

abbrev llava_next_vision : VisionDict
llava_next_vision = record {
  vit_layers = 24;
  vit_hidden = 1024;
  vit_num_heads = 16;
  vit_intermediate = 4096;
  vit_out_hidden = 4096;
  vit_activation = Activation.gelu;
  patch_size = 14;
  image_size_default = 336;
  spatial_merge_size = 1;
  num_vis_tokens_per_image = 2880;
  projector_type = mlp;
  has_deepstack = false;
  deepstack_layers = [];
  is_anyres = true;
  image_grid_pinpoints = (336, 672) ∷ (672, 336) ∷ (672, 672) ∷ (1008, 336) ∷ (336, 1008) ∷ [];
  use_image_newline_parameter = true;
  is_concat_style = true;
  is_cross_attn = false;
  vlm_floor_overhead_ms = 22;
}

-- `model_table[name]`
unfoldable pub model_table : ModelName → Option TableEntry
model_table ModelName.gpt_175b = some (legacy 96 12288 96 128 (whole 4) 1)
model_table ModelName.gpt_89b = some (legacy 48 12288 96 128 (whole 4) 1)
model_table ModelName.gpt_13b = some (legacy 40 5120 40 128 (whole 4) 1)
model_table ModelName.llama_7b = some (legacy 32 4096 32 128 (ratio 8 3) 1)
model_table ModelName.llama_65b = some (legacy 80 8192 64 128 (ratio 8 3) 1)
model_table ModelName.mt_76b = some (legacy 60 10240 40 128 (whole 4) 1)
model_table ModelName.mt_146b = some (legacy 80 12288 80 128 (whole 4) 1)
model_table ModelName.mt_310b = some (legacy 96 16384 128 128 (whole 4) 1)
model_table ModelName.mt_530b = some (legacy 105 20480 128 160 (whole 4) 1)
model_table ModelName.mt_1008b = some (legacy 128 25600 160 160 (whole 4) 1)
model_table ModelName.opt_66b = some (legacy 64 9216 72 128 (whole 4) 1)
model_table ModelName.qwen3_4b = some (dict qwen3_text none)
model_table ModelName.qwen3_vl_4b = some (dict qwen3_text (some qwen3_vision))
model_table ModelName.qwen25_vl_7b = some (dict qwen25_text (some qwen25_vision))
model_table ModelName.internvl3_8b_hf = some (dict qwen25_text (some internvl_vision))
model_table ModelName.vicuna_7b = some (dict vicuna_text none)
model_table ModelName.llava_15_7b = some (dict vicuna_text (some llava_vision))
model_table ModelName.mistral_7b = some (dict mistral_text none)
model_table ModelName.llava_next_mistral_7b = some (dict mistral_text (some llava_next_vision))
model_table unlisted = none
