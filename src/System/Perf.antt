-- ===== src/System/Perf.antt =====
-- `_collect_s_perf` and `_collect_g_perf` (src/system.py): the times of layers, by kind.
pub mod Sums
pub mod Adds
use attacc_simulator_vlm.Prelude.{ℕ, Bool, true, false, List, [], ◌∷◌, if◌then◌else◌}
use attacc_simulator_vlm.Model.Types.{
  LayerType, fc, matmul, act, norm, g2g, x2g, LayerName, qkv, ff1, ff2, ff3, proj, comm_x2g_kv,
  comm_x2g_q, comm_x2g_qkv, comm_x2g_return, comm_g2g, vit_qkv, vit_proj, vit_ff1, vit_ff2,
  proj_merger_fc1, proj_merger_act, proj_merger_fc2, proj_pixel_fc1, proj_pixel_act, proj_pixel_fc2,
  proj_mlp_fc1, proj_mlp_act, proj_mlp_fc2,
}
use attacc_simulator_vlm.Model.Layer.{Layer}
use attacc_simulator_vlm.Ramulator.Machine.{Clock}
use attacc_simulator_vlm.Devices.Arithmetic.{Arithmetic, zero_time}

-- A layer with the time and the energies that the simulation assigns to it.
pub record Timed (ck : Clock) : Type 0 where
  pub layer : Layer
  pub exec_time : ck.Time
  pub energy : List ℕ

-- `'ff' in name`, `'qkv' in name`, `'proj' in name`, `'x2g' in name`, `'g2g' in name`
abbrev pub has_ff : LayerName → Bool
has_ff ff1 = true
has_ff ff2 = true
has_ff ff3 = true
has_ff vit_ff1 = true
has_ff vit_ff2 = true
has_ff _ = false

abbrev pub has_qkv : LayerName → Bool
has_qkv qkv = true
has_qkv comm_x2g_qkv = true
has_qkv vit_qkv = true
has_qkv _ = false

abbrev pub has_proj : LayerName → Bool
has_proj proj = true
has_proj vit_proj = true
has_proj proj_merger_fc1 = true
has_proj proj_merger_act = true
has_proj proj_merger_fc2 = true
has_proj proj_pixel_fc1 = true
has_proj proj_pixel_act = true
has_proj proj_pixel_fc2 = true
has_proj proj_mlp_fc1 = true
has_proj proj_mlp_act = true
has_proj proj_mlp_fc2 = true
has_proj _ = false

abbrev pub has_x2g : LayerName → Bool
has_x2g comm_x2g_kv = true
has_x2g comm_x2g_q = true
has_x2g comm_x2g_qkv = true
has_x2g comm_x2g_return = true
has_x2g _ = false

abbrev pub has_g2g : LayerName → Bool
has_g2g comm_g2g = true
has_g2g _ = false

-- The dicts of `s_perf_keys` and of `g_perf_keys`.
pub record SumPerf (T : Type 0) : Type 0 where
  pub all : T
  pub matmul : T
  pub fc : T
  pub comm : T
  pub x2g : T
  pub softmax : T
  pub act : T
  pub norm : T

pub record GenPerf (T : Type 0) : Type 0 where
  pub all : T
  pub matmul : T
  pub fc : T
  pub comm : T
  pub etc : T
  pub qkv : T
  pub prj : T
  pub ff : T
  pub g2g : T
  pub x2g : T
  pub softmax : T
  pub act : T
  pub norm : T

module _ {ck : Clock} (ar : Arithmetic ck) where
  abbrev pub zero_s_perf : SumPerf ck.Time
  zero_s_perf = record {
    all = zero_time ar;
    matmul = zero_time ar;
    fc = zero_time ar;
    comm = zero_time ar;
    x2g = zero_time ar;
    softmax = zero_time ar;
    act = zero_time ar;
    norm = zero_time ar;
  }

  -- A round of `_collect_s_perf`.
  abbrev pub add_s : LayerType → ck.Time → SumPerf ck.Time → SumPerf ck.Time
  add_s LayerType.fc t p = record p { all = ar.plus p.all t; fc = ar.plus p.fc t }
  add_s LayerType.matmul t p = record p { all = ar.plus p.all t; matmul = ar.plus p.matmul t }
  add_s LayerType.g2g t p = record p { all = ar.plus p.all t; comm = ar.plus p.comm t }
  add_s LayerType.x2g t p = record p {
    all = ar.plus p.all t;
    comm = ar.plus p.comm t;
    x2g = ar.plus p.x2g t;
  }
  add_s LayerType.softmax t p = record p { all = ar.plus p.all t; softmax = ar.plus p.softmax t }
  add_s LayerType.act t p = record p { all = ar.plus p.all t; act = ar.plus p.act t }
  add_s LayerType.norm t p = record p { all = ar.plus p.all t; norm = ar.plus p.norm t }

  unfoldable pub s_perf_from : List (Timed ck) → SumPerf ck.Time → SumPerf ck.Time
  s_perf_from [] p = p
  s_perf_from (x ∷ xs) p = s_perf_from xs (add_s x.layer.type x.exec_time p)

  unfoldable pub collect_s_perf : List (Timed ck) → SumPerf ck.Time
  unfolding s_perf_from
  collect_s_perf xs = s_perf_from xs zero_s_perf

  abbrev pub zero_g_perf : GenPerf ck.Time
  zero_g_perf = record {
    all = zero_time ar;
    matmul = zero_time ar;
    fc = zero_time ar;
    comm = zero_time ar;
    etc = zero_time ar;
    qkv = zero_time ar;
    prj = zero_time ar;
    ff = zero_time ar;
    g2g = zero_time ar;
    x2g = zero_time ar;
    softmax = zero_time ar;
    act = zero_time ar;
    norm = zero_time ar;
  }

  -- The part of a dense layer's time by its name, and that of a transfer.
  abbrev pub add_fc : (ff qkv proj : Bool) → ck.Time → GenPerf ck.Time → GenPerf ck.Time
  add_fc true _ _ t p = record p { ff = ar.plus p.ff t }
  add_fc false true _ t p = record p { qkv = ar.plus p.qkv t }
  add_fc false false true t p = record p { prj = ar.plus p.prj t }
  add_fc false false false t p = p

  abbrev pub add_comm : (x2g g2g : Bool) → ck.Time → GenPerf ck.Time → GenPerf ck.Time
  add_comm true _ t p = record p { x2g = ar.plus p.x2g t }
  add_comm false true t p = record p { g2g = ar.plus p.g2g t }
  add_comm false false t p = p

  -- A round of `_collect_g_perf`, behind the addition to 'all'.
  abbrev pub add_g : LayerType → LayerName → ck.Time → GenPerf ck.Time → GenPerf ck.Time
  add_g LayerType.fc name t p =
      add_fc (has_ff name) (has_qkv name) (has_proj name) t (record p { fc = ar.plus p.fc t })
  add_g LayerType.matmul name t p = record p { matmul = ar.plus p.matmul t }
  add_g LayerType.g2g name t p =
      add_comm (has_x2g name) (has_g2g name) t (record p { comm = ar.plus p.comm t })
  add_g LayerType.x2g name t p =
      add_comm (has_x2g name) (has_g2g name) t (record p { comm = ar.plus p.comm t })
  add_g LayerType.act name t p = record p { etc = ar.plus p.etc t; act = ar.plus p.act t }
  add_g LayerType.norm name t p = record p { etc = ar.plus p.etc t; norm = ar.plus p.norm t }
  add_g LayerType.softmax name t p = record p { softmax = ar.plus p.softmax t }

  unfoldable pub block_perf_from : List (Timed ck) → GenPerf ck.Time → GenPerf ck.Time
  block_perf_from [] p = p
  block_perf_from (x ∷ xs) p =
      block_perf_from xs
        (add_g x.layer.type x.layer.name x.exec_time (record p { all = ar.plus p.all x.exec_time }))

  unfoldable pub g_perf_from : List (List (Timed ck)) → GenPerf ck.Time → GenPerf ck.Time
  unfolding block_perf_from
  g_perf_from [] p = p
  g_perf_from (block ∷ blocks) p = g_perf_from blocks (block_perf_from block p)

  unfoldable pub collect_g_perf : List (List (Timed ck)) → GenPerf ck.Time
  unfolding g_perf_from
  collect_g_perf blocks = g_perf_from blocks zero_g_perf
