-- ===== src/Tests/DeviceRuns.antt =====
-- Runs of the tile search (src/devices.py).
use attacc_simulator_vlm.Prelude.{
  ℕ, ◌*◌, ◌/◌, ◌≡◌, ◌⊎◌, refl, arith, false, [], All, none, ltb, ok, raise, zero_division,
}
use attacc_simulator_vlm.Model.Types.{w16a16, matmul, fc, sum, qkv}
use attacc_simulator_vlm.Model.Layer.{Layer}
use attacc_simulator_vlm.Devices.Minimum.{NoBetter}
use attacc_simulator_vlm.Devices.Search.{IsBestL1, IsBestL2, ltb-IsStrict, search-IsBestL1}
use attacc_simulator_vlm.Devices.Memo.{IsTrueTable, get_optimal_tile-search}
use attacc_simulator_vlm.Devices.{
  Costs, Xpu, Tiles, trange, clipped, fits_l1, cost_at, l1_tile, l2_tile, search, get_optimal_tile,
}

-- A whole number for the float of a cost.
abbrev pub costs : Costs
costs = record {
  Cost = ℕ;
  cost_of = λ access blocks rounded. access * rounded * rounded / (blocks * blocks);
  less = ltb;
}

abbrev pub a100 : Xpu
a100 = record { num_core = 108; l1_cache_size = 192 * 1024; l2_cache_size = 40 * 1048576 }

abbrev pub dense : Layer
dense = record {
  stage = sum;
  name = qkv;
  type = fc;
  has_weight = false;
  dtype = w16a16;
  m = 64;
  n = 128;
  k = 256;
  num_op = 1;
  pim_num_op = 1;
  dbyte = 2;
}

abbrev pub product : Layer
product = record dense { type = matmul }

search-IsBestL1_example :
    ((search costs a100 dense ≡ raise zero_division)
      × All
          (NoBetter ltb (fits_l1 a100 dense) (cost_at costs a100 dense) none)
          (clipped dense trange trange))
    ⊎ ((tiles : Tiles) × (search costs a100 dense ≡ ok tiles)
        × IsBestL1 costs ltb-IsStrict a100 dense tiles.l1
        × IsBestL2 costs ltb-IsStrict a100 dense tiles.l1 tiles.l2)
search-IsBestL1_example =
    search-IsBestL1 costs ltb-IsStrict a100 dense (omega arith) (omega arith) (omega arith)
      (omega arith)

dense_tiles :
    search costs a100 dense ≡ ok (record { l1 = (8, 16); l1_tk = 32; l2 = (64, 128); l2_tk = 256 })
unfolding search l1_tile l2_tile
dense_tiles = refl

product_tiles :
    search costs a100 product
    ≡ ok (record { l1 = (64, 128); l1_tk = 32; l2 = (64, 128); l2_tk = 256 })
unfolding search l1_tile l2_tile
product_tiles = refl

get_optimal_tile-search_example :
    ((get_optimal_tile costs a100 dense []).0 ≡ search costs a100 dense)
    × IsTrueTable costs a100 fc (get_optimal_tile costs a100 dense []).1
get_optimal_tile-search_example = get_optimal_tile-search costs a100 dense [] (λ layer of_type. tt)
