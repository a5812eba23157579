-- ===== src/Config.antt =====
-- src/config.py: `make_model_config`. The keys of the dict it returns that `Transformer` reads are the
-- field `infos`. `int(ff_scale * hdim)` of a scale that is not an integer is computed in floating point
-- and is a parameter.
pub mod Table
pub mod Hardware
pub mod Energy
pub mod Shards
pub mod Graphs
use attacc_simulator_vlm.Prelude.{
  ℕ, ◌+◌, ◌*◌, Bool, false, List, [], Option, none, some, Result, ok, ◌>>=◌, or_raise, key_error,
}
use attacc_simulator_vlm.Model.Types.{DataType, Activation, FfnType, gated, standard}
use attacc_simulator_vlm.Model.Arith.{int_div}
use attacc_simulator_vlm.Model.Transformer.{ModelInfos}
use attacc_simulator_vlm.Config.Table.{
  ModelName, llama_7b, llama_65b, FfScale, whole, ratio, TextDict, VisionDict, TableEntry, legacy,
  dict, model_table,
}

-- The dict that `make_model_config` returns.
pub record ModelConfig : Type 0 where
  pub name : ModelName
  pub infos : ModelInfos
  pub vit_out_hidden : Option ℕ
  pub is_concat_style : Bool
  pub is_cross_attn : Bool
  pub vlm_floor_overhead_ms : Option ℕ

-- `'LLAMA' in name` decides on both.
abbrev legacy_ffn : ModelName → FfnType × Activation
legacy_ffn llama_7b = (gated, Activation.silu)
legacy_ffn llama_65b = (gated, Activation.silu)
legacy_ffn _ = (standard, Activation.gelu)

-- `llama_ff_intermediate`
abbrev llama_ff_intermediate : ModelName → Option ℕ
llama_ff_intermediate llama_7b = some 11008
llama_ff_intermediate llama_65b = some 22016
llama_ff_intermediate _ = none

-- `int((a / b) * c)` in floating point
module _ (float_scaled : ℕ → ℕ → ℕ → ℕ) where
  abbrev scaled : FfScale → ℕ → ℕ
  scaled (whole f) hdim = f * hdim
  scaled (ratio a b) hdim = float_scaled a b hdim

  unfoldable legacy_config :
      ModelName → DataType → (ndec hdim nheads dhead : ℕ) → FfScale → ℕ → Result ModelConfig
  legacy_config name dtype ndec hdim nheads dhead ff_scale gqa_size = do
    num_kv_heads ← int_div nheads gqa_size
    let q_proj_out = nheads * dhead
    let kv_proj_out = num_kv_heads * dhead
    ok (record {
      name = name;
      infos = record {
        ndec = ndec;
        hdim = hdim;
        num_heads = some nheads;
        num_q_heads = some nheads;
        num_kv_heads = some num_kv_heads;
        dhead = some dhead;
        q_proj_out = some q_proj_out;
        kv_proj_out = some kv_proj_out;
        qkv_proj_out_total = some (q_proj_out + 2 * kv_proj_out);
        gqa_size = some gqa_size;
        ff_scaled = scaled ff_scale hdim;
        ff_intermediate = llama_ff_intermediate name;
        ffn_type = some (legacy_ffn name).0;
        activation = some (legacy_ffn name).1;
        dtype = dtype;
        has_deepstack = some false;
        deepstack_layers = some [];
        vit_layers = none;
        vit_hidden = none;
        vit_num_heads = none;
        vit_intermediate = none;
        vit_activation = none;
        projector_type = none;
        patch_size = none;
        image_size_default = none;
        spatial_merge_size = none;
        num_vis_tokens_per_image = none;
        is_anyres = some false;
        image_grid_pinpoints = some [];
        use_image_newline_parameter = some false;
      };
      vit_out_hidden = none;
      is_concat_style = false;
      is_cross_attn = false;
      vlm_floor_overhead_ms = none;
    })

  -- The keys of a dict without a vision part, after the defaults are set.
  unfoldable text_infos : DataType → TextDict → Result ModelInfos
  text_infos dtype t = do
    gqa_size ← int_div t.num_q_heads t.num_kv_heads
    let q_proj_out = t.num_q_heads * t.dhead
    let kv_proj_out = t.num_kv_heads * t.dhead
    ok (record {
      ndec = t.ndec;
      hdim = t.hdim;
      num_heads = some t.num_q_heads;
      num_q_heads = some t.num_q_heads;
      num_kv_heads = some t.num_kv_heads;
      dhead = some t.dhead;
      q_proj_out = some q_proj_out;
      kv_proj_out = some kv_proj_out;
      qkv_proj_out_total = some (q_proj_out + 2 * kv_proj_out);
      gqa_size = some gqa_size;
      ff_scaled = float_scaled t.ff_intermediate t.hdim t.hdim;
      ff_intermediate = some t.ff_intermediate;
      ffn_type = some t.ffn_type;
      activation = some t.activation;
      dtype = dtype;
      has_deepstack = some false;
      deepstack_layers = some [];
      vit_layers = none;
      vit_hidden = none;
      vit_num_heads = none;
      vit_intermediate = none;
      vit_activation = none;
      projector_type = none;
      patch_size = none;
      image_size_default = none;
      spatial_merge_size = none;
      num_vis_tokens_per_image = none;
      is_anyres = some false;
      image_grid_pinpoints = some [];
      use_image_newline_parameter = some false;
    })

  -- The keys of the vision part, which no default replaces.
  unfoldable with_vision : VisionDict → ModelInfos → ModelInfos
  with_vision v infos = record infos {
    has_deepstack = some v.has_deepstack;
    deepstack_layers = some v.deepstack_layers;
    vit_layers = some v.vit_layers;
    vit_hidden = some v.vit_hidden;
    vit_num_heads = some v.vit_num_heads;
    vit_intermediate = some v.vit_intermediate;
    vit_activation = some v.vit_activation;
    projector_type = some v.projector_type;
    patch_size = some v.patch_size;
    image_size_default = some v.image_size_default;
    spatial_merge_size = some v.spatial_merge_size;
    num_vis_tokens_per_image = some v.num_vis_tokens_per_image;
    is_anyres = some v.is_anyres;
    image_grid_pinpoints = some v.image_grid_pinpoints;
    use_image_newline_parameter = some v.use_image_newline_parameter;
  }

  unfoldable dict_config : ModelName → DataType → TextDict → Option VisionDict → Result ModelConfig
  unfolding text_infos with_vision
  dict_config name dtype t none = do
    infos ← text_infos dtype t
    ok (record {
      name = name;
      infos = infos;
      vit_out_hidden = none;
      is_concat_style = false;
      is_cross_attn = false;
      vlm_floor_overhead_ms = none;
    })
  dict_config name dtype t (some v) = do
    infos ← text_infos dtype t
    ok (record {
      name = name;
      infos = with_vision v infos;
      vit_out_hidden = some v.vit_out_hidden;
      is_concat_style = v.is_concat_style;
      is_cross_attn = v.is_cross_attn;
      vlm_floor_overhead_ms = some v.vlm_floor_overhead_ms;
    })

  unfoldable config_of : ModelName → DataType → TableEntry → Result ModelConfig
  unfolding legacy_config dict_config
  config_of name dtype (legacy ndec hdim nheads dhead ff_scale gqa_size) =
      legacy_config name dtype ndec hdim nheads dhead ff_scale gqa_size
  config_of name dtype (dict t v) = dict_config name dtype t v

  unfoldable pub make_model_config : ModelName → DataType → Result ModelConfig
  unfolding model_table config_of
  make_model_config name dtype =
      or_raise (model_table name) key_error >>= λ entry. config_of name dtype entry
