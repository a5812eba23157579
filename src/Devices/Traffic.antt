-- ===== src/Devices/Traffic.antt =====
-- The traffic of tiles against the size of a layer.
use attacc_simulator_vlm.Prelude.{
  ℕ, ◌*◌, ◌≤◌, ◌<◌, ◌≡◌, refl, zero, suc, false, ◌==◌, ceil_div, ceil_div_pos, arith, ok,
}
use attacc_simulator_vlm.Model.Types.{LayerType, fc, matmul}
use attacc_simulator_vlm.Model.Layer.{Layer, get_size}
use attacc_simulator_vlm.Devices.{get_traffic_for_tile}

le_mul : (c x : ℕ) → 0 < c → x ≤ c * x
le_mul zero x h = absurd (omega arith)
le_mul (suc c) x h = omega arith

abbrev pub IsProduct : LayerType → Type 0
IsProduct fc = Unit
IsProduct matmul = Unit
IsProduct _ = ⊥

get_size-product :
    (type : LayerType) (layer : Layer)
    → IsProduct type
    → layer.type ≡ type
    → get_size layer ≡ (
      layer.num_op * layer.m * layer.k * layer.dbyte,
      layer.num_op * layer.n * layer.k * layer.dbyte,
      layer.num_op * layer.m * layer.n * layer.dbyte,
    )
unfolding get_size
get_size-product fc layer h e = simp e refl
get_size-product matmul layer h e = simp e refl
get_size-product LayerType.act layer h e = elim h [ ]
get_size-product LayerType.softmax layer h e = elim h [ ]
get_size-product LayerType.norm layer h e = elim h [ ]
get_size-product LayerType.g2g layer h e = elim h [ ]
get_size-product LayerType.x2g layer h e = elim h [ ]

-- For a layer of products and positive sizes, a tile moves each operand at least once and the result exactly once; a tile
-- that is the whole layer moves each exactly once.
pub get_traffic_for_tile-get_size :
    (layer : Layer) (tm tn : ℕ)
    → IsProduct layer.type
    → 0 < tm
    → 0 < tn
    → 0 < layer.m
    → 0 < layer.n
    → (t : ℕ × ℕ × ℕ) × (get_traffic_for_tile tm tn layer ≡ ok t)
      × ((get_size layer).0 ≤ t.0)
      × ((get_size layer).1 ≤ t.1)
      × ((get_size layer).2 ≡ t.2)
      × (get_traffic_for_tile layer.m layer.n layer ≡ ok (get_size layer))
unfolding get_traffic_for_tile
get_traffic_for_tile-get_size layer tm tn product htm htn hm hn =
    let no_tm : (tm == 0) ≡ false = ground arith in
    let no_tn : (tn == 0) ≡ false = ground arith in
    let no_m : (layer.m == 0) ≡ false = ground arith in
    let no_n : (layer.n == 0) ≡ false = ground arith in
    let columns =
      le_mul (ceil_div layer.n tn) (layer.num_op * layer.m * layer.k * layer.dbyte)
        (ceil_div_pos layer.n tn hn htn) in
    let rows =
      le_mul (ceil_div layer.m tm) (layer.num_op * layer.n * layer.k * layer.dbyte)
        (ceil_div_pos layer.m tm hm htm) in
    let one_row : ceil_div layer.m layer.m ≡ 1 = grind arith in
    let one_column : ceil_div layer.n layer.n ≡ 1 = grind arith in
    let first : 1 * layer.m * layer.k * layer.dbyte * layer.num_op
        ≡ layer.num_op * layer.m * layer.k * layer.dbyte =
      omega arith in
    let second : 1 * layer.n * layer.k * layer.dbyte * layer.num_op
        ≡ layer.num_op * layer.n * layer.k * layer.dbyte =
      omega arith in
    let third : layer.m * layer.n * layer.dbyte * layer.num_op
        ≡ layer.num_op * layer.m * layer.n * layer.dbyte =
      omega arith in
    (
      (
        ceil_div layer.n tn * layer.m * layer.k * layer.dbyte * layer.num_op,
        ceil_div layer.m tm * layer.n * layer.k * layer.dbyte * layer.num_op,
        layer.m * layer.n * layer.dbyte * layer.num_op,
      ),
      rw no_tm (rw no_tn refl),
      rw (get_size-product layer.type layer product refl) (omega (arith, columns)),
      rw (get_size-product layer.type layer product refl) (omega (arith, rows)),
      rw (get_size-product layer.type layer product refl) (omega arith),
      rw (get_size-product layer.type layer product refl)
          (rw no_m (rw no_n (rw one_row (rw one_column (λ i. ok (first i, second i, third i)))))),
    )
