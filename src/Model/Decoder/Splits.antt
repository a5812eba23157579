-- ===== src/Model/Decoder/Splits.antt =====
-- A model whose shards are even, and what the layers of a decoder are then.
use attacc_simulator_vlm.Prelude.{
  ℕ, ◌*◌, ◌/◌, ◌%◌, ◌<◌, ◌≡◌, refl, sym, Bool, true, false, List, [], ◌∷◌, ◌++◌, ◌==◌, arith, ok,
}
use attacc_simulator_vlm.Model.Types.{
  LayerType, fc, act, norm, g2g, Stage, LayerName, FfnType, gated, standard, proj, norm1, norm2,
  ff1, ff2, ff3, glu, comm_g2g,
}
use attacc_simulator_vlm.Model.Arith.{split}
use attacc_simulator_vlm.Model.Work.{items_if}
use attacc_simulator_vlm.Model.Layer.{Layer, new_layer, dbyte_of}
use attacc_simulator_vlm.Model.Transformer.{Transformer}
use attacc_simulator_vlm.Model.Decoder.{
  layer, attn_layer, activation_name, ffn_layers, append_ffn, append_if,
}

-- `value` splits evenly into `parts`.
pub record IsSplit (value parts : ℕ) : Type 0 where
  pub some_parts : 0 < parts
  pub even : value % parts ≡ 0

pub split-ok : {value parts : ℕ} → IsSplit value parts → split value parts ≡ ok (value / parts)
split-ok {value} {parts} s =
    let positive : (parts == 0) ≡ false = ground (arith, s.some_parts) in rw (positive, s.even)

pub split-mul :
    {value parts : ℕ} → IsSplit value parts → (x : ℕ) → x * (value / parts) * parts ≡ x * value
split-mul {value} {parts} s x =
    let whole : (value / parts) * parts ≡ value = omega (arith, s.some_parts, s.even) in
    let moved : x * (value / parts) * parts ≡ x * ((value / parts) * parts) = omega arith in
    rw moved (rw whole)

pub split-mul_same :
    {value parts same : ℕ}
    → IsSplit value parts
    → parts ≡ same
    → (x : ℕ) → x * (value / parts) * same ≡ x * value
split-mul_same {value} {parts} {same} s e x = rw (sym e) (split-mul s x)

-- The model's sizes split evenly over its devices, and its data type of `dbyte` bytes is supported.
pub record IsSharded (t : Transformer) (dbyte : ℕ) : Type 0 where
  pub one_size : t.ff_tp ≡ t.fc_tp
  pub q_heads : IsSplit t.num_q_heads t.attn_tp
  pub kv_heads : IsSplit t.num_kv_heads t.attn_tp
  pub qkv : IsSplit t.qkv_proj_out_total t.fc_tp
  pub q_out : IsSplit t.q_proj_out t.fc_tp
  pub kv_out : IsSplit t.kv_proj_out t.fc_tp
  pub q_returned : IsSplit t.q_proj_out t.attn_tp
  pub hidden : IsSplit t.hdim t.fc_tp
  pub intermediate : IsSplit t.ff_intermediate t.ff_tp
  pub supported : dbyte_of t.dtype ≡ ok dbyte

pub append_if-ok : (b : Bool) (xs : List Layer) → append_if b (ok xs) ≡ ok (items_if b xs)
append_if-ok true xs = refl
append_if-ok false xs = refl

module _ (t : Transformer) (dbyte : ℕ) where
  abbrev pub item : Stage → LayerName → LayerType → Bool → (m n k num_op pim_num_op : ℕ) → Layer
  item stage name type has_weight m n k num_op pim_num_op = record {
    stage = stage;
    name = name;
    type = type;
    has_weight = has_weight;
    dtype = t.dtype;
    m = m;
    n = n;
    k = k;
    num_op = num_op;
    pim_num_op = pim_num_op;
    dbyte = dbyte;
  }

  abbrev pub plain : Stage → LayerName → LayerType → Bool → (m n k : ℕ) → Layer
  plain stage name type has_weight m n k = item stage name type has_weight m n k 1 1

  abbrev pub ffn_items : FfnType → Stage → ℕ → ℕ → List Layer
  ffn_items gated stage tokens w =
      plain stage ff1 fc true tokens w t.hdim
      ∷ plain stage ff2 fc true tokens w t.hdim
      ∷ plain stage glu act false tokens w 1
      ∷ plain stage ff3 fc true tokens t.hdim w
      ∷ []
  ffn_items standard stage tokens w =
      plain stage ff1 fc true tokens w t.hdim
      ∷ plain stage (activation_name t) act false tokens w 1
      ∷ plain stage ff2 fc true tokens t.hdim w
      ∷ []

  abbrev pub after_items : Stage → ℕ → List Layer
  after_items stage tokens =
      plain stage proj fc true tokens t.hdim (t.hdim / t.fc_tp)
      ∷ plain stage comm_g2g g2g false tokens t.hdim 1
      ∷ plain stage norm1 norm false tokens t.hdim 1
      ∷ (ffn_items t.ffn_type stage tokens (t.ff_intermediate / t.ff_tp)
          ++ plain stage comm_g2g g2g false tokens t.hdim 1
            ∷ plain stage norm2 norm false tokens t.hdim 1
            ∷ [])

  module _ (v : IsSharded t dbyte) where
    pub layer-ok :
        (stage : Stage) (name : LayerName) (type : LayerType) (has_weight : Bool) (m n k num_op : ℕ)
        → layer t stage name type has_weight m n k num_op
          ≡ ok (item stage name type has_weight m n k num_op num_op ∷ [])
    unfolding layer new_layer
    layer-ok stage name type has_weight m n k num_op = rw v.supported

    pub attn_layer-ok :
        (stage : Stage) (name : LayerName) (type : LayerType) (m n k num_op pim_num_op : ℕ)
        → attn_layer t stage name type m n k num_op pim_num_op
          ≡ ok (item stage name type false m n k num_op pim_num_op ∷ [])
    unfolding attn_layer new_layer
    attn_layer-ok stage name type m n k num_op pim_num_op = rw v.supported

    ffn_layers-ok :
        (f : FfnType) (stage : Stage) (tokens w : ℕ)
        → ffn_layers t f stage tokens w ≡ ok (ffn_items f stage tokens w)
    unfolding ffn_layers
    ffn_layers-ok gated stage tokens w = simp layer-ok
    ffn_layers-ok standard stage tokens w = simp layer-ok

    pub append_ffn-ok :
        (stage : Stage) (tokens : ℕ)
        → append_ffn t stage tokens
          ≡ ok (ffn_items t.ffn_type stage tokens (t.ff_intermediate / t.ff_tp))
    unfolding append_ffn
    append_ffn-ok stage tokens =
        rw (split-ok v.intermediate) (ffn_layers-ok t.ffn_type stage tokens _)
