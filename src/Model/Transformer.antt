-- ===== src/Model/Transformer.antt =====
-- `class Transformer`: `__init__`, and the legacy list of six numbers. `modelinfos` is a dict whose
-- optional keys are `Option` fields. `int(ff_scale * hdim)`, computed in floating point, is given by
-- the field `ff_scaled`.
pub mod Legacy
use attacc_simulator_vlm.Prelude.{
  ℕ, ◌+◌, ◌*◌, min, Bool, false, List, [], Option, none, some, or_else, or_some, Result, ok,
  type_error, or_raise, ◌>>=◌,
}
use attacc_simulator_vlm.Model.Types.{
  DataType, w16a16, Activation, FfnType, standard, ProjectorType,
}
use attacc_simulator_vlm.Model.Arith.{int_div}

pub record ModelInfos : Type 0 where
  pub ndec : ℕ
  pub hdim : ℕ
  pub num_heads : Option ℕ
  pub num_q_heads : Option ℕ
  pub num_kv_heads : Option ℕ
  pub dhead : Option ℕ
  pub q_proj_out : Option ℕ
  pub kv_proj_out : Option ℕ
  pub qkv_proj_out_total : Option ℕ
  pub gqa_size : Option ℕ
  pub ff_scaled : ℕ
  pub ff_intermediate : Option ℕ
  pub ffn_type : Option FfnType
  pub activation : Option Activation
  pub dtype : DataType
  pub has_deepstack : Option Bool
  pub deepstack_layers : Option (List ℕ)
  pub vit_layers : Option ℕ
  pub vit_hidden : Option ℕ
  pub vit_num_heads : Option ℕ
  pub vit_intermediate : Option ℕ
  pub vit_activation : Option Activation
  pub projector_type : Option ProjectorType
  pub patch_size : Option ℕ
  pub image_size_default : Option ℕ
  pub spatial_merge_size : Option ℕ
  pub num_vis_tokens_per_image : Option ℕ
  pub is_anyres : Option Bool
  pub image_grid_pinpoints : Option (List (ℕ × ℕ))
  pub use_image_newline_parameter : Option Bool

pub record Transformer : Type 0 where
  pub ndec : ℕ
  pub hdim : ℕ
  pub num_q_heads : ℕ
  pub num_kv_heads : ℕ
  pub dhead : ℕ
  pub q_proj_out : ℕ
  pub kv_proj_out : ℕ
  pub qkv_proj_out_total : ℕ
  pub gqa_size : ℕ
  pub ff_intermediate : ℕ
  pub ffn_type : FfnType
  pub activation : Activation
  pub dtype : DataType
  pub fc_tp : ℕ
  pub attn_tp : ℕ
  pub ff_tp : ℕ
  pub has_deepstack : Bool
  pub deepstack_layers : List ℕ
  pub vit_layers : ℕ
  pub vit_hidden : ℕ
  pub vit_num_heads : ℕ
  pub vit_intermediate : ℕ
  pub vit_activation : Activation
  pub projector_type : Option ProjectorType
  pub patch_size : ℕ
  pub image_size_default : ℕ
  pub spatial_merge_size : ℕ
  pub num_vis_tokens_per_image : ℕ
  pub is_anyres : Bool
  pub image_grid_pinpoints : List (ℕ × ℕ)
  pub use_image_newline_parameter : Bool

-- `Transformer(modelinfos, tensor_parallel)`. The default of a `get` is computed whether or not the key
-- is there, so a zero head count raises in either case.
unfoldable pub new_transformer : ModelInfos → ℕ → Result Transformer
new_transformer infos tensor_parallel = do
  num_q_heads ← or_raise (or_some infos.num_q_heads infos.num_heads) type_error
  let num_kv_heads = or_else infos.num_kv_heads num_q_heads
  default_dhead ← int_div infos.hdim num_q_heads
  let dhead = or_else infos.dhead default_dhead
  let q_proj_out = or_else infos.q_proj_out (num_q_heads * dhead)
  let kv_proj_out = or_else infos.kv_proj_out (num_kv_heads * dhead)
  default_gqa ← int_div num_q_heads num_kv_heads
  ok (record {
    ndec = infos.ndec;
    hdim = infos.hdim;
    num_q_heads = num_q_heads;
    num_kv_heads = num_kv_heads;
    dhead = dhead;
    q_proj_out = q_proj_out;
    kv_proj_out = kv_proj_out;
    qkv_proj_out_total = or_else infos.qkv_proj_out_total (q_proj_out + 2 * kv_proj_out);
    gqa_size = or_else infos.gqa_size default_gqa;
    ff_intermediate = or_else infos.ff_intermediate infos.ff_scaled;
    ffn_type = or_else infos.ffn_type standard;
    activation = or_else infos.activation Activation.gelu;
    dtype = infos.dtype;
    fc_tp = tensor_parallel;
    attn_tp = min tensor_parallel num_kv_heads;
    ff_tp = tensor_parallel;
    has_deepstack = or_else infos.has_deepstack false;
    deepstack_layers = or_else infos.deepstack_layers [];
    vit_layers = or_else infos.vit_layers 0;
    vit_hidden = or_else infos.vit_hidden 0;
    vit_num_heads = or_else infos.vit_num_heads 0;
    vit_intermediate = or_else infos.vit_intermediate 0;
    vit_activation = or_else infos.vit_activation Activation.gelu;
    projector_type = infos.projector_type;
    patch_size = or_else infos.patch_size 0;
    image_size_default = or_else infos.image_size_default 0;
    spatial_merge_size = or_else infos.spatial_merge_size 1;
    num_vis_tokens_per_image = or_else infos.num_vis_tokens_per_image 0;
    is_anyres = or_else infos.is_anyres false;
    image_grid_pinpoints = or_else infos.image_grid_pinpoints [];
    use_image_newline_parameter = or_else infos.use_image_newline_parameter false;
  })

-- `_list_to_dict`: the legacy `[ndec, hdim, nheads, dhead, ff_scale, gqa_size]`.
unfoldable pub list_to_dict : (ndec hdim nheads dhead ff_scaled gqa_size : ℕ) → Result ModelInfos
list_to_dict ndec hdim nheads dhead ff_scaled gqa_size = do
  num_kv_heads ← int_div nheads gqa_size
  ok (record {
    ndec = ndec;
    hdim = hdim;
    num_heads = some nheads;
    num_q_heads = some nheads;
    num_kv_heads = some num_kv_heads;
    dhead = some dhead;
    q_proj_out = none;
    kv_proj_out = none;
    qkv_proj_out_total = none;
    gqa_size = some gqa_size;
    ff_scaled = ff_scaled;
    ff_intermediate = none;
    ffn_type = none;
    activation = none;
    dtype = w16a16;
    has_deepstack = none;
    deepstack_layers = none;
    vit_layers = none;
    vit_hidden = none;
    vit_num_heads = none;
    vit_intermediate = none;
    vit_activation = none;
    projector_type = none;
    patch_size = none;
    image_size_default = none;
    spatial_merge_size = none;
    num_vis_tokens_per_image = none;
    is_anyres = none;
    image_grid_pinpoints = none;
    use_image_newline_parameter = none;
  })
