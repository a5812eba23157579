-- ===== src/Devices.antt =====
-- `class xPU` (src/devices.py): the traffic of a tile and the search for tiles, with its table. The depth of a
-- second-level tile, `k / 64`, is kept as `k`, and the test of that level is multiplied by 64. The cost of a tile of
-- the first level is a float.
pub mod Minimum
pub mod Search
pub mod Memo
pub mod Traffic
pub mod Pim
pub mod Arithmetic
pub mod Rates
pub mod Pricing
use attacc_simulator_vlm.Prelude.{
  ℕ, ◌+◌, ◌*◌, ◌/◌, min, Bool, true, false, ◌&&◌, ◌||◌, not, ltb, leb, ◌==◌, if◌then◌else◌, List,
  [], ◌∷◌, ◌++◌, map, flat_map, range_from, Option, none, some, ceil_div, Result, ok, raise, ◌>>=◌,
  zero_division, or_else,
}
use attacc_simulator_vlm.Model.Types.{LayerType, fc, matmul, DeviceType}
use attacc_simulator_vlm.Model.Layer.{Layer, get_size}
use attacc_simulator_vlm.Devices.Minimum.{best_of}

-- The float of a cost, `l2_access * pow(1 / core_utilization, 2)` from the accesses, the thread blocks and
-- their number rounded up to whole rounds; and `<`.
pub record Costs : Type 1 where
  pub Cost : Type 0
  pub cost_of : (access num_threadblock rounded : ℕ) → Cost
  pub less : Cost → Cost → Bool

-- The fields of an `xPU` that the search reads.
pub record Xpu : Type 0 where
  pub num_core : ℕ
  pub l1_cache_size : ℕ
  pub l2_cache_size : ℕ

-- `math.ceil(a / b)`
abbrev pub ceil_of : ℕ → ℕ → Result ℕ
ceil_of a b = if b == 0 then raise zero_division else ok (ceil_div a b)

-- `_get_traffic_for_tile`
unfoldable pub get_traffic_for_tile : (tm tn : ℕ) → Layer → Result (ℕ × ℕ × ℕ)
get_traffic_for_tile tm tn layer = do
  columns ← ceil_of layer.n tn
  rows ← ceil_of layer.m tm
  ok (
    columns * layer.m * layer.k * layer.dbyte * layer.num_op,
    rows * layer.n * layer.k * layer.dbyte * layer.num_op,
    layer.m * layer.n * layer.dbyte * layer.num_op,
  )

abbrev pub trange : List ℕ
trange = 8 ∷ 16 ∷ 32 ∷ 64 ∷ 128 ∷ 192 ∷ 256 ∷ 320 ∷ 384 ∷ 448 ∷ 512 ∷ []

-- The rounds of two nested loops over tile sizes, each no larger than the layer.
abbrev pub clipped : Layer → List ℕ → List ℕ → List (ℕ × ℕ)
clipped layer tms tns = flat_map (λ tm. map (λ tn. (min tm layer.m, min tn layer.n)) tns) tms

-- `num_threadblock`
abbrev pub num_threadblock : Layer → ℕ × ℕ → ℕ
num_threadblock layer (tm, tn) = elim layer.type [
  | fc ↦ ceil_div layer.m tm * ceil_div layer.n tn * layer.num_op
  | _ ↦ layer.num_op
]

-- A tile and its operands fit in the first-level cache.
abbrev pub fits_l1 : Xpu → Layer → ℕ × ℕ → Bool
fits_l1 xpu layer (tm, tn) =
    leb ((tm + tn) * 32 * layer.dbyte + tm * tn * layer.dbyte) xpu.l1_cache_size

-- The same at the second level, or the tile is that of the first.
abbrev pub fits_l2 : Xpu → Layer → ℕ × ℕ → ℕ × ℕ → Bool
fits_l2 xpu layer (l1_tm, l1_tn) (tm, tn) =
    leb ((tm + tn) * layer.k * layer.dbyte + 64 * (tm * tn * layer.dbyte)) (64 * xpu.l2_cache_size)
    || ((tm == l1_tm) && (tn == l1_tn))

-- `access`
abbrev pub access_of : Layer → ℕ × ℕ → ℕ
access_of layer (tm, tn) =
    ceil_div layer.m tm * layer.n * layer.k * layer.dbyte
    + ceil_div layer.n tn * layer.m * layer.k * layer.dbyte
    + layer.m * layer.n * layer.dbyte

-- The accesses of the first level, `sum(self._get_traffic_for_tile(l1_tm, l1_tn, layer))`.
abbrev pub l2_access : Layer → ℕ × ℕ → ℕ
l2_access layer tile = access_of layer tile * layer.num_op

-- `out_tiles`; the last depth is 64 times the code's.
pub record Tiles : Type 0 where
  pub l1 : ℕ × ℕ
  pub l1_tk : ℕ
  pub l2 : ℕ × ℕ
  pub l2_tk : ℕ

-- `config`, the key of `table_tiles`.
pub record TileKey : Type 0 where
  pub m : ℕ
  pub n : ℕ
  pub k : ℕ
  pub num_op : ℕ
  pub dbyte : ℕ

abbrev pub key_of : Layer → TileKey
key_of layer = record {
  m = layer.m;
  n = layer.n;
  k = layer.k;
  num_op = layer.num_op;
  dbyte = layer.dbyte;
}

abbrev pub same_key : TileKey → TileKey → Bool
same_key a b =
    (a.m == b.m) && (a.n == b.n) && (a.k == b.k) && (a.num_op == b.num_op) && (a.dbyte == b.dbyte)

abbrev pub tiles_at : TileKey → List (TileKey × Tiles) → Option Tiles
tiles_at key [] = none
tiles_at key ((other, tiles) ∷ rest) =
    let later = tiles_at key rest in if same_key key other then some tiles else later

-- The multiples of a size up to a bound, and the bound.
abbrev pub multiples : ℕ → ℕ → List ℕ
multiples size bound = map (λ i. size * i) (range_from 1 (bound / size)) ++ bound ∷ []

module _ (cs : Costs) (xpu : Xpu) where
  -- `cost`
  abbrev pub cost_at : Layer → ℕ × ℕ → cs.Cost
  cost_at layer tile =
      let blocks = num_threadblock layer tile in
      cs.cost_of (l2_access layer tile) blocks (ceil_div blocks xpu.num_core * xpu.num_core)

  -- The first-level loops; `none` stands for `[0, 0]`.
  unfoldable pub l1_tile : Layer → Option (ℕ × ℕ)
  l1_tile layer =
      best_of cs.less (fits_l1 xpu layer) (cost_at layer) (clipped layer trange trange) none

  -- The second-level loops.
  unfoldable pub l2_tile : Layer → ℕ × ℕ → Option (ℕ × ℕ)
  l2_tile layer l1 =
      best_of ltb (fits_l2 xpu layer l1) (access_of layer)
        (clipped layer (multiples l1.0 layer.m) (multiples l1.1 layer.n)) none

  -- `out_tiles` behind the first-level loops; without a tile of the first level the code divides by 0.
  abbrev pub with_l1 : Layer → Option (ℕ × ℕ) → Result Tiles
  with_l1 layer none = raise zero_division
  with_l1 layer (some l1) =
      ok (record { l1 = l1; l1_tk = 32; l2 = or_else (l2_tile layer l1) (0, 0); l2_tk = layer.k })

  -- The search of `_get_optimal_tile`: a size or a number of cores of 0 is divided by, where a tile fits
  -- in the cost and where none fits behind the loops.
  unfoldable pub search : Layer → Result Tiles
  search layer =
      if (layer.m == 0) || (layer.n == 0) || (layer.num_op == 0) || (xpu.num_core == 0)
      then raise zero_division
      else with_l1 layer (l1_tile layer)

  -- `_get_optimal_tile`: the tiles, and `table_tiles` behind the call.
  abbrev pub stored :
      TileKey → List (TileKey × Tiles) → Result Tiles → Result Tiles × List (TileKey × Tiles)
  stored key table (ok tiles) = (ok tiles, (key, tiles) ∷ table)
  stored key table (raise e) = (raise e, table)

  abbrev pub searched :
      Layer → List (TileKey × Tiles) → Option Tiles → Result Tiles × List (TileKey × Tiles)
  searched layer table none = stored (key_of layer) table (search layer)
  searched layer table (some tiles) = (ok tiles, table)

  unfoldable pub get_optimal_tile :
      Layer → List (TileKey × Tiles) → Result Tiles × List (TileKey × Tiles)
  get_optimal_tile layer table = searched layer table (tiles_at (key_of layer) table)
