-- ===== src/Devices/Pricing/Price.antt =====
-- The price of a layer without the table of tiles: one search, and every time and energy from its tiles. The
-- device, which asks the table up to four times for a layer, gives this price.
use attacc_simulator_vlm.Prelude.{
  ℕ, ◌≡◌, refl, ap, ◌∙◌, true, ==_refl, List, ◌∷◌, Option, none, some, arith, Result-cases, inl,
  inr, subst, Result, ok, raise, ◌>>=◌, Exception, known_result,
}
use attacc_simulator_vlm.Model.Types.{LayerType, fc, matmul, x2g, g2g}
use attacc_simulator_vlm.Model.Layer.{Layer}
use attacc_simulator_vlm.Ramulator.Machine.{Clock}
use attacc_simulator_vlm.Devices.Arithmetic.{Arithmetic}
use attacc_simulator_vlm.Devices.Rates.{
  XpuDevice, Traffic, product_traffic, plain_traffic, compute_time_for, mem_time_for, bounded_time,
  device_energies, io_time_energy,
}
use attacc_simulator_vlm.Devices.Memo.{IsTrueTable, get_optimal_tile-search}
use attacc_simulator_vlm.Devices.{
  Costs, Xpu, Tiles, TileKey, search, key_of, same_key, tiles_at, stored, searched,
  get_optimal_tile,
}
use attacc_simulator_vlm.Devices.Pricing.{
  TileTable, tiles_of, typed_traffic, exec_time, get_energy, computed, typed_cost,
  get_time_and_energy,
}

same_key_refl : (k : TileKey) → same_key k k ≡ true
same_key_refl k =
    grind (arith, ==_refl k.m, ==_refl k.n, ==_refl k.k, ==_refl k.num_op, ==_refl k.dbyte)

module _ (cs : Costs) (cores : Xpu) where
  stored-again :
      (layer : Layer) (table : TileTable) (tiles : Tiles) (r : Result Tiles)
      → (stored cs cores (key_of layer) table r).0 ≡ ok tiles
      → get_optimal_tile cs cores layer (stored cs cores (key_of layer) table r).1
        ≡ (ok tiles, (stored cs cores (key_of layer) table r).1)
  unfolding get_optimal_tile
  stored-again layer table tiles (ok found) h =
      rw (same_key_refl (key_of layer)) (ap (λ r. (r, (key_of layer, found) ∷ table)) h)
  stored-again layer table tiles (raise e) h = cc

  searched-again :
      (layer : Layer) (table : TileTable) (tiles : Tiles) (o : Option Tiles)
      → tiles_at (key_of layer) table ≡ o
      → (searched cs cores layer table o).0 ≡ ok tiles
      → get_optimal_tile cs cores layer (searched cs cores layer table o).1
        ≡ (ok tiles, (searched cs cores layer table o).1)
  unfolding get_optimal_tile
  searched-again layer table tiles (some found) h k = rw h (ap (λ r. (r, table)) k)
  searched-again layer table tiles none h k =
      stored-again layer table tiles (search cs cores layer) k

  -- A tile that was found is found again, and the table stays.
  get_optimal_tile-again :
      (layer : Layer) (table : TileTable) (tiles : Tiles)
      → (get_optimal_tile cs cores layer table).0 ≡ ok tiles
      → get_optimal_tile cs cores layer (get_optimal_tile cs cores layer table).1
        ≡ (ok tiles, (get_optimal_tile cs cores layer table).1)
  unfolding get_optimal_tile
  get_optimal_tile-again layer table tiles h = searched-again layer table tiles _ refl h

module _ {ck : Clock} (ar : Arithmetic ck) (xpu : XpuDevice ck) where
  abbrev pub traffic_for : LayerType → Layer → Tiles → Result Traffic
  traffic_for fc layer tiles = product_traffic layer tiles
  traffic_for matmul layer tiles = product_traffic layer tiles
  traffic_for _ layer tiles = ok (plain_traffic layer)

  -- The time and the energy from the tiles.
  abbrev pub priced : LayerType → Layer → Tiles → Result (ck.Time × List ℕ)
  priced type layer tiles = do
    compute ← compute_time_for ar xpu layer tiles
    traffic ← traffic_for type layer tiles
    mem ← mem_time_for ar xpu xpu.name type layer tiles traffic
    ok ((bounded_time ar xpu compute mem).0, device_energies ar xpu layer traffic)

  abbrev pub price_for : LayerType → Layer → Result (ck.Time × List ℕ)
  price_for x2g layer = io_time_energy ar xpu xpu.name layer
  price_for g2g layer = io_time_energy ar xpu xpu.name layer
  price_for type layer = search xpu.costs xpu.cores layer >>= priced type layer

  pub price : Layer → Result (ck.Time × List ℕ)
  price layer = price_for layer.type layer

  traffic_for-again :
      (type : LayerType) (layer : Layer) (after : TileTable) (tiles : Tiles)
      → tiles_of ar xpu layer after ≡ (ok tiles, after)
      → typed_traffic ar xpu type layer after ≡ (traffic_for type layer tiles, after)
  traffic_for-again fc layer after tiles k = rw k refl
  traffic_for-again matmul layer after tiles k = rw k refl
  traffic_for-again LayerType.act layer after tiles k = refl
  traffic_for-again LayerType.softmax layer after tiles k = refl
  traffic_for-again LayerType.norm layer after tiles k = refl
  traffic_for-again g2g layer after tiles k = refl
  traffic_for-again x2g layer after tiles k = refl

  computed-priced :
      (layer : Layer) (table after : TileTable) (tiles : Tiles)
      → tiles_of ar xpu layer table ≡ (ok tiles, after)
      → tiles_of ar xpu layer after ≡ (ok tiles, after)
      → computed ar xpu layer table ≡ (priced layer.type layer tiles, after)
  unfolding exec_time get_energy
  computed-priced layer table after tiles h k =
      let again = traffic_for-again layer.type layer after tiles k in
      elim (Result-cases (compute_time_for ar xpu layer tiles)) [
        | inr (x, e) ↦ rw h (rw e refl)
        | inl (c, e) ↦ elim (Result-cases (traffic_for layer.type layer tiles)) [
          | inr (x, f) ↦ rw h (rw e (rw k (rw again (rw f refl))))
          | inl (t, f) ↦
              elim (Result-cases (mem_time_for ar xpu xpu.name layer.type layer tiles t)) [
                | inr (x, g) ↦ rw h (rw e (rw k (rw again (rw f (rw g refl)))))
                | inl (m, g) ↦ rw h (rw e (rw k (rw again (rw f (rw g (rw again (rw f refl)))))))
              ]
        ]
      ]

  computed-raise :
      (layer : Layer) (table after : TileTable) (x : Exception)
      → tiles_of ar xpu layer table ≡ (raise x, after)
      → computed ar xpu layer table ≡ (raise x, after)
  unfolding exec_time
  computed-raise layer table after x h = rw h refl

  -- What the device gives agrees with a price, and leaves the table true.
  abbrev pub Agrees :
      Layer → Result (ck.Time × List ℕ) → Result (ck.Time × List ℕ) × TileTable → Type 0
  Agrees layer r out = (out.0 ≡ r) × IsTrueTable xpu.costs xpu.cores layer.type out.1

  computed-price :
      (layer : Layer) (table : TileTable)
      → IsTrueTable xpu.costs xpu.cores layer.type table
      → Agrees layer
          (search xpu.costs xpu.cores layer >>= priced layer.type layer)
          (computed ar xpu layer table)
  computed-price layer table t =
      let asked = tiles_of ar xpu layer table in
      let (same, still) = get_optimal_tile-search xpu.costs xpu.cores layer table t in
      elim (Result-cases (search xpu.costs xpu.cores layer)) [
        | inl (tiles, found) ↦
            let first : asked ≡ (ok tiles, asked.1) = known_result asked _ (same ∙ found) in
            let again =
              get_optimal_tile-again xpu.costs xpu.cores layer table tiles (same ∙ found) in
            rw (computed-priced layer table asked.1 tiles first again) (rw found (refl, still))
        | inr (x, missing) ↦
            let first : asked ≡ (raise x, asked.1) = known_result asked _ (same ∙ missing) in
            rw (computed-raise layer table asked.1 x first) (rw missing (refl, still))
      ]

  computed-price_for :
      (type : LayerType) (layer : Layer) (table : TileTable)
      → layer.type ≡ type
      → IsTrueTable xpu.costs xpu.cores layer.type table
      → Agrees layer
          (search xpu.costs xpu.cores layer >>= priced type layer)
          (computed ar xpu layer table)
  computed-price_for type layer table e t =
      subst
        (λ type.
          Agrees layer (search xpu.costs xpu.cores layer >>= priced type layer)
            (computed ar xpu layer table))
        e (computed-price layer table t)

  typed_cost-price_for :
      (type : LayerType) (layer : Layer) (table : TileTable)
      → layer.type ≡ type
      → IsTrueTable xpu.costs xpu.cores layer.type table
      → Agrees layer (price_for type layer) (typed_cost ar xpu type layer table)
  typed_cost-price_for x2g layer table e t = (refl, t)
  typed_cost-price_for g2g layer table e t = (refl, t)
  typed_cost-price_for fc layer table e t = computed-price_for fc layer table e t
  typed_cost-price_for matmul layer table e t = computed-price_for matmul layer table e t
  typed_cost-price_for LayerType.act layer table e t = computed-price_for _ layer table e t
  typed_cost-price_for LayerType.softmax layer table e t = computed-price_for _ layer table e t
  typed_cost-price_for LayerType.norm layer table e t = computed-price_for _ layer table e t

  -- With a table that has the tiles of searches for layers of the type of the layer, `get_time_and_energy`
  -- gives the price of the layer, its errors included, and the table is one again.
  pub get_time_and_energy-price :
      (layer : Layer) (table : TileTable)
      → IsTrueTable xpu.costs xpu.cores layer.type table
      → Agrees layer (price layer) (get_time_and_energy ar xpu layer table)
  unfolding get_time_and_energy price
  get_time_and_energy-price layer table t = typed_cost-price_for layer.type layer table refl t
