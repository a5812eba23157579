-- ===== src/Model/Layer.antt =====
-- `class Layer`: its constructor, `get_flops` and `get_size`. The fields `bound`, `exec_time` and
-- `energy`, which the simulation assigns later, are not part of the record.
use attacc_simulator_vlm.Prelude.{
  ℕ, ◌+◌, ◌*◌, Bool, Option, none, some, if◌then◌else◌, Result, ok, raise, assertion_error, ◌>>=◌,
}
use attacc_simulator_vlm.Model.Types.{
  DataType, w16a16, w8a8, LayerType, fc, matmul, act, norm, g2g, x2g, Stage, LayerName, has_relu,
  has_glu,
}

pub record Layer : Type 0 where
  pub stage : Stage
  pub name : LayerName
  pub type : LayerType
  pub has_weight : Bool
  pub dtype : DataType
  pub m : ℕ
  pub n : ℕ
  pub k : ℕ
  pub num_op : ℕ
  pub pim_num_op : ℕ
  pub dbyte : ℕ

-- Only W16A16 and W8A8 are supported.
abbrev pub dbyte_of : DataType → Result ℕ
dbyte_of w16a16 = ok 2
dbyte_of w8a8 = ok 1
dbyte_of _ = raise assertion_error

-- `Layer(stage, name, type, has_weight, dtype, m, n, k, numOp, pim_numOp)`
unfoldable pub new_layer :
    Stage → LayerName → LayerType → Bool → DataType → (m n k num_op : ℕ) → Option ℕ → Result Layer
new_layer stage name type has_weight dtype m n k num_op pim = do
  dbyte ← dbyte_of dtype
  ok (record {
    stage = stage;
    name = name;
    type = type;
    has_weight = has_weight;
    dtype = dtype;
    m = m;
    n = n;
    k = k;
    num_op = num_op;
    pim_num_op = elim pim [ none ↦ num_op | some p ↦ p ];
    dbyte = dbyte;
  })

flops_of : LayerType → Layer → ℕ
flops_of LayerType.softmax l = 5 * l.m * l.n * l.num_op
flops_of act l =
    if has_relu l.name
    then 1 * l.m * l.n * l.num_op
    else (if has_glu l.name then (8 + 1) * l.m * l.n * l.num_op else 8 * l.m * l.n * l.num_op)
flops_of norm l = 5 * l.m * l.n * l.num_op
flops_of fc l = 2 * l.m * l.n * l.k * l.num_op
flops_of matmul l = 2 * l.m * l.n * l.k * l.num_op
flops_of g2g l = 0
flops_of x2g l = 0

unfoldable pub get_flops : Layer → ℕ
unfolding flops_of
get_flops l = flops_of l.type l

size_of : LayerType → Layer → ℕ × ℕ × ℕ
size_of fc l =
    (l.num_op * l.m * l.k * l.dbyte, l.num_op * l.n * l.k * l.dbyte, l.num_op * l.m * l.n * l.dbyte)
size_of matmul l =
    (l.num_op * l.m * l.k * l.dbyte, l.num_op * l.n * l.k * l.dbyte, l.num_op * l.m * l.n * l.dbyte)
size_of norm l = let in1 = l.num_op * l.m * l.n * l.dbyte in (in1, in1, in1)
size_of _ l =
    let in1 = l.num_op * l.m * l.n * l.dbyte in (in1, if has_glu l.name then in1 else 0, in1)

-- `(in1, in2, out)` in bytes.
unfoldable pub get_size : Layer → ℕ × ℕ × ℕ
unfolding size_of
get_size l = size_of l.type l
