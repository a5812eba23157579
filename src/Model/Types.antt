-- ===== src/Model/Types.antt =====
-- The enumerations of src/type.py, and the strings that src/model.py compares, as data types.
use attacc_simulator_vlm.Prelude.{Bool, true, false}

pub data DataType : Type 0 where
  w16a16 w16a8 w8a16 w8a8 : DataType

pub data LayerType : Type 0 where
  fc matmul act softmax norm g2g x2g : LayerType

pub data DeviceType : Type 0 where
  none_device gpu cpu pim : DeviceType

-- `Layer.stage`
pub data Stage : Type 0 where
  sum gen vit projector : Stage

-- Every string that the builders give as a layer's name.
pub data LayerName : Type 0 where
  qkv score softmax context proj norm1 norm2 ff1 ff2 ff3 glu relu gelu deepstack_add : LayerName
  comm_x2g_kv comm_x2g_q comm_x2g_qkv comm_x2g_return comm_g2g : LayerName
  vit_qkv vit_score vit_softmax vit_context vit_proj vit_norm1 vit_norm2 vit_ff1 vit_ff2 : LayerName
  vit_relu vit_gelu vit_silu vit_broadcast : LayerName
  proj_merger_fc1 proj_merger_act proj_merger_fc2 : LayerName
  proj_pixel_fc1 proj_pixel_act proj_pixel_fc2 proj_mlp_fc1 proj_mlp_act proj_mlp_fc2 : LayerName

-- `'relu' in name`
abbrev pub has_relu : LayerName → Bool
has_relu relu = true
has_relu vit_relu = true
has_relu _ = false

-- `'glu' in name`
abbrev pub has_glu : LayerName → Bool
has_glu glu = true
has_glu _ = false

-- The values of `activation` and `vit_activation`; `other_activation` is any other string.
pub data Activation : Type 0 where
  relu gelu silu other_activation : Activation

-- The values of `ffn_type`; `standard` is any string but 'gated'.
pub data FfnType : Type 0 where
  gated standard : FfnType

-- The values of `projector_type`; `mlp` is any string but the two named ones.
pub data ProjectorType : Type 0 where
  mlp_with_merger pixel_shuffle_mlp mlp : ProjectorType
