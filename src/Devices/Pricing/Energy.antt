-- ===== src/Devices/Pricing/Energy.antt =====
-- The energy of a product on a GPU, from below.
use attacc_simulator_vlm.Prelude.{
  ℕ, ◌*◌, ◌/◌, ◌≤◌, ◌<◌, ◌≡◌, refl, ap, ◌∙◌, List, [], ◌∷◌, All, ◌⊎◌, none, arith, inl, inr, ok,
  raise, zero_division, known_result,
}
use attacc_simulator_vlm.Model.Types.{LayerType, fc, matmul, gpu}
use attacc_simulator_vlm.Model.Layer.{Layer, get_flops, get_size}
use attacc_simulator_vlm.Ramulator.Machine.{Clock}
use attacc_simulator_vlm.Devices.Arithmetic.{Arithmetic}
use attacc_simulator_vlm.Devices.Rates.{XpuDevice, Traffic, total, product_traffic, device_energies}
use attacc_simulator_vlm.Devices.Minimum.{NoBetter, IsStrict}
use attacc_simulator_vlm.Devices.Search.{search-IsBestL1}
use attacc_simulator_vlm.Devices.Traffic.{IsProduct, get_traffic_for_tile-get_size}
use attacc_simulator_vlm.Devices.Memo.{IsTrueTable, get_optimal_tile-search}
use attacc_simulator_vlm.Devices.{Tiles, clipped, trange, fits_l1, cost_at, get_traffic_for_tile}
use attacc_simulator_vlm.Devices.Pricing.{TileTable, tiles_of, typed_traffic, get_energy}

-- The traffic of a product, level by level, against its size.
pub record CoversSize (layer : Layer) (t : Traffic) : Type 0 where
  pub off : total (get_size layer) ≤ total t.off_data
  pub l2 : total (get_size layer) ≤ total t.l2_data
  pub l1 : total (get_size layer) ≤ total t.l1_data
  pub reg : total t.reg_data ≡ 3 * (layer.m * layer.n * layer.k)

module _ (layer : Layer) (product : IsProduct layer.type) (some_rows : 0 < layer.m)
    (some_columns : 0 < layer.n) where
  tile-le :
      (tm tn : ℕ)
      → 0 < tm
      → 0 < tn
      → (t : ℕ × ℕ × ℕ) × (get_traffic_for_tile tm tn layer ≡ ok t)
        × (total (get_size layer) ≤ total t)
  tile-le tm tn h k =
      let (t, same, a, b, c, whole) =
        get_traffic_for_tile-get_size layer tm tn product h k some_rows some_columns in
      (t, same, omega arith)

  product_traffic-CoversSize :
      (tiles : Tiles)
      → 0 < tiles.l1.0
      → 0 < tiles.l1.1
      → 0 < tiles.l2.0
      → 0 < tiles.l2.1
      → (t : Traffic) × (product_traffic layer tiles ≡ ok t) × CoversSize layer t
  unfolding product_traffic
  product_traffic-CoversSize tiles a b c d =
      let (off, off_same, off_le) = tile-le tiles.l2.0 tiles.l2.1 c d in
      let (l2, l2_same, l2_le) = tile-le tiles.l1.0 tiles.l1.1 a b in
      let (l1, l1_same, l1_le) = tile-le 16 16 (omega arith) (omega arith) in
      (
        record {
          off_data = off;
          l2_data = l2;
          l1_data = l1;
          reg_data = (
            layer.m * layer.n * layer.k,
            layer.m * layer.n * layer.k,
            layer.m * layer.n * layer.k,
          );
        },
        rw off_same (rw l2_same (rw l1_same refl)),
        record { off = off_le; l2 = l2_le; l1 = l1_le; reg = omega arith },
      )

-- Energies of a layer of products on a GPU: what each memory moves is paid for at least once, and the
-- registers and the operations exactly.
pub record Pays {ck : Clock} (xpu : XpuDevice ck) (layer : Layer) (energies : List ℕ) : Type 0 where
  pub off : ℕ
  pub l2 : ℕ
  pub l1 : ℕ
  pub parts :
      energies
      ≡ off
        ∷ l2
        ∷ l1
        ∷ 3 * (layer.m * layer.n * layer.k) * xpu.energy_table.reg * xpu.num_xpu
        ∷ layer.m * layer.n * layer.k * layer.num_op * xpu.energy_table.alu * xpu.num_xpu
        ∷ 0
        ∷ []
  pub off_paid : total (get_size layer) * xpu.energy_table.mem * xpu.num_xpu ≤ off
  pub l2_paid : total (get_size layer) * xpu.energy_table.l2 * xpu.num_xpu ≤ l2
  pub l1_paid : total (get_size layer) * xpu.energy_table.l1 * xpu.num_xpu ≤ l1

mul_mono : (a b c d : ℕ) → a ≤ b → a * c * d ≤ b * c * d
mul_mono a b c d h = grind arith

get_flops-product :
    (type : LayerType) (layer : Layer)
    → IsProduct type
    → layer.type ≡ type
    → get_flops layer ≡ 2 * layer.m * layer.n * layer.k * layer.num_op
unfolding get_flops
get_flops-product fc layer h e = simp e refl
get_flops-product matmul layer h e = simp e refl
get_flops-product LayerType.act layer h e = elim h [ ]
get_flops-product LayerType.softmax layer h e = elim h [ ]
get_flops-product LayerType.norm layer h e = elim h [ ]
get_flops-product LayerType.g2g layer h e = elim h [ ]
get_flops-product LayerType.x2g layer h e = elim h [ ]

zero-mul : (x : ℕ) → 0 * x ≡ 0
zero-mul x = omega arith

halved_product : (m n k o a x : ℕ) → 2 * m * n * k * o * a / 2 * x ≡ m * n * k * o * a * x
halved_product m n k o a x =
    let twice : 2 * m * n * k * o * a / 2 ≡ m * n * k * o * a = omega arith in ap (λ y. y * x) twice

module _ {ck : Clock} (ar : Arithmetic ck) (xpu : XpuDevice ck) (is_gpu : xpu.name ≡ gpu) where
  device_energies-Pays :
      (layer : Layer) (t : Traffic)
      → IsProduct layer.type
      → CoversSize layer t
      → Pays xpu layer (device_energies ar xpu layer t)
  device_energies-Pays layer t product c = record {
    off = total t.off_data * xpu.energy_table.mem * xpu.num_xpu;
    l2 = total t.l2_data * xpu.energy_table.l2 * xpu.num_xpu;
    l1 = total t.l1_data * xpu.energy_table.l1 * xpu.num_xpu;
    parts = simp is_gpu (
        rw (get_flops-product layer.type layer product refl) (
          rw (halved_product layer.m layer.n layer.k layer.num_op xpu.energy_table.alu xpu.num_xpu)
            (rw c.reg (rw (zero-mul xpu.num_xpu) refl))));
    off_paid = mul_mono _ _ _ _ c.off;
    l2_paid = mul_mono _ _ _ _ c.l2;
    l1_paid = mul_mono _ _ _ _ c.l1;
  }

  traffic-energies :
      (type : LayerType) (layer : Layer) (table after : TileTable) (tiles : Tiles) (t : Traffic)
      → IsProduct type
      → tiles_of ar xpu layer table ≡ (ok tiles, after)
      → product_traffic layer tiles ≡ ok t
      → typed_traffic ar xpu type layer table ≡ (ok t, after)
  traffic-energies fc layer table after tiles t h e f = rw e (rw f refl)
  traffic-energies matmul layer table after tiles t h e f = rw e (rw f refl)
  traffic-energies LayerType.act layer table after tiles t h e f = elim h [ ]
  traffic-energies LayerType.softmax layer table after tiles t h e f = elim h [ ]
  traffic-energies LayerType.norm layer table after tiles t h e f = elim h [ ]
  traffic-energies LayerType.g2g layer table after tiles t h e f = elim h [ ]
  traffic-energies LayerType.x2g layer table after tiles t h e f = elim h [ ]

  traffic_missing :
      (type : LayerType) (layer : Layer) (table after : TileTable)
      → IsProduct type
      → tiles_of ar xpu layer table ≡ (raise zero_division, after)
      → typed_traffic ar xpu type layer table ≡ (raise zero_division, after)
  traffic_missing fc layer table after h e = rw e refl
  traffic_missing matmul layer table after h e = rw e refl
  traffic_missing LayerType.act layer table after h e = elim h [ ]
  traffic_missing LayerType.softmax layer table after h e = elim h [ ]
  traffic_missing LayerType.norm layer table after h e = elim h [ ]
  traffic_missing LayerType.g2g layer table after h e = elim h [ ]
  traffic_missing LayerType.x2g layer table after h e = elim h [ ]

  -- For costs that compare as numbers, a layer of products and a GPU whose sizes are not 0, and a table that has
  -- the tiles of searches for layers of the type of the layer: either no tile of the first-level loops fits
  -- and `_get_energy` raises ZeroDivisionError, or it returns energies that pay at least once for the
  -- operands and the result at each memory, and exactly for the registers and the operations.
  pub get_energy-Pays :
      (strict : IsStrict xpu.costs.less) (layer : Layer) (table : TileTable)
      → IsProduct layer.type
      → 0 < layer.m
      → 0 < layer.n
      → 0 < layer.num_op
      → 0 < xpu.cores.num_core
      → IsTrueTable xpu.costs xpu.cores layer.type table
      → (((get_energy ar xpu layer table).0 ≡ raise zero_division)
          × All
              (NoBetter xpu.costs.less
                (fits_l1 xpu.cores layer)
                (cost_at xpu.costs xpu.cores layer)
                none)
              (clipped layer trange trange))
        ⊎ ((energies : List ℕ) × ((get_energy ar xpu layer table).0 ≡ ok energies)
            × Pays xpu layer energies)
  unfolding get_energy
  get_energy-Pays strict layer table product hm hn ho hc true_table =
      let asked = tiles_of ar xpu layer table in
      let same = (get_optimal_tile-search xpu.costs xpu.cores layer table true_table).0 in
      elim (search-IsBestL1 xpu.costs strict xpu.cores layer hm hn ho hc) [
        | inl (missing, nothing) ↦
            let first : asked ≡ (raise zero_division, asked.1) =
              known_result asked _ (same ∙ missing) in
            inl (rw (traffic_missing layer.type layer table asked.1 product first) refl, nothing)
        | inr (tiles, found, l1, l2) ↦
            let first : asked ≡ (ok tiles, asked.1) = known_result asked _ (same ∙ found) in
            let (t, moved, covers) =
              product_traffic-CoversSize layer product hm hn tiles l1.within.0 l1.within.2
                l2.within.0 l2.within.2 in
            inr (
              device_energies ar xpu layer t,
              rw (traffic-energies layer.type layer table asked.1 tiles t product first moved) refl,
              device_energies-Pays layer t product covers,
            )
      ]
