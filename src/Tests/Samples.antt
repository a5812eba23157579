-- ===== src/Tests/Samples.antt =====
-- A small language model, with two layers and eight heads on two devices, and floats as fractions.
use attacc_simulator_vlm.Prelude.{
  ℕ, ◌*◌, ◌/◌, refl, arith, true, false, [], ◌∷◌, none, leb, if◌then◌else◌,
}
use attacc_simulator_vlm.Model.Types.{DataType, Activation, FfnType}
use attacc_simulator_vlm.Model.Transformer.{Transformer}
use attacc_simulator_vlm.Model.Vision.{Floats}
use attacc_simulator_vlm.Model.Decoder.Splits.{IsSharded, IsSplit}

abbrev pub model : Transformer
model = record {
  ndec = 2;
  hdim = 64;
  num_q_heads = 8;
  num_kv_heads = 4;
  dhead = 8;
  q_proj_out = 64;
  kv_proj_out = 32;
  qkv_proj_out_total = 128;
  gqa_size = 2;
  ff_intermediate = 256;
  ffn_type = FfnType.gated;
  activation = Activation.silu;
  dtype = DataType.w16a16;
  fc_tp = 2;
  attn_tp = 2;
  ff_tp = 2;
  has_deepstack = false;
  deepstack_layers = [];
  vit_layers = 0;
  vit_hidden = 0;
  vit_num_heads = 0;
  vit_intermediate = 0;
  vit_activation = Activation.gelu;
  projector_type = none;
  patch_size = 0;
  image_size_default = 0;
  spatial_merge_size = 1;
  num_vis_tokens_per_image = 0;
  is_anyres = false;
  image_grid_pinpoints = [];
  use_image_newline_parameter = false;
}

pub model-IsSharded : IsSharded model 2
model-IsSharded = record {
  one_size = refl;
  q_heads = record { some_parts = omega arith; even = refl };
  kv_heads = record { some_parts = omega arith; even = refl };
  qkv = record { some_parts = omega arith; even = refl };
  q_out = record { some_parts = omega arith; even = refl };
  kv_out = record { some_parts = omega arith; even = refl };
  q_returned = record { some_parts = omega arith; even = refl };
  hidden = record { some_parts = omega arith; even = refl };
  intermediate = record { some_parts = omega arith; even = refl };
  supported = refl;
}

-- A fraction for a float.
abbrev fraction_min : ℕ × ℕ → ℕ × ℕ → ℕ × ℕ
fraction_min (a, b) (c, d) = if leb (a * d) (c * b) then (a, b) else (c, d)

abbrev pub fractions : Floats
fractions = record {
  F = ℕ × ℕ;
  quotient = λ a b. (a, b);
  smaller = fraction_min;
  scaled = λ n x. n * x.0 / x.1;
}

-- The model with square patches of 14 pixels, merged two by two.
abbrev pub merging_model : Transformer
merging_model = record model {
  num_vis_tokens_per_image = 256;
  patch_size = 14;
  image_size_default = 448;
  spatial_merge_size = 2;
}

-- The model with AnyRes grids.
abbrev pub anyres_model : Transformer
anyres_model = record model {
  num_vis_tokens_per_image = 576;
  patch_size = 14;
  image_size_default = 336;
  is_anyres = true;
  image_grid_pinpoints = (336, 672) ∷ (672, 336) ∷ [];
}

-- As the AnyRes model of the table, with a token behind each line of patches.
abbrev pub newline_model : Transformer
newline_model = record anyres_model { use_image_newline_parameter = true }

-- The model with a vision part of two blocks.
abbrev pub vision_model : Transformer
vision_model = record anyres_model {
  vit_layers = 2;
  vit_hidden = 64;
  vit_num_heads = 4;
  vit_intermediate = 128;
}

pub vision_model-IsSharded : IsSharded vision_model 2
vision_model-IsSharded = record {
  one_size = refl;
  q_heads = model-IsSharded.q_heads;
  kv_heads = model-IsSharded.kv_heads;
  qkv = model-IsSharded.qkv;
  q_out = model-IsSharded.q_out;
  kv_out = model-IsSharded.kv_out;
  q_returned = model-IsSharded.q_returned;
  hidden = model-IsSharded.hidden;
  intermediate = model-IsSharded.intermediate;
  supported = refl;
}

pub vision_heads : IsSplit 64 4
vision_heads = record { some_parts = omega arith; even = refl }
