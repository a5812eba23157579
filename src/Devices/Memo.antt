-- ===== src/Devices/Memo.antt =====
-- The table of tiles: between layers of one type, a tile from the table is the tile of a search. The key leaves
-- the type out, on which the cost depends.
use attacc_simulator_vlm.Prelude.{
  ◌≡◌, refl, sym, subst, ◌∙◌, true, List, ◌∷◌, Option, none, some, arith, Bool-cases, Result-cases,
  inl, inr, Result, ok,
}
use attacc_simulator_vlm.Model.Types.{LayerType}
use attacc_simulator_vlm.Model.Layer.{Layer}
use attacc_simulator_vlm.Devices.{
  Costs, Xpu, Tiles, TileKey, l1_tile, l2_tile, search, key_of, same_key, tiles_at, searched,
  get_optimal_tile,
}

module _ (cs : Costs) (xpu : Xpu) where
  -- Layers of one type with one key have one search.
  search-same_key :
      (a b : Layer)
      → a.type ≡ b.type
      → same_key (key_of a) (key_of b) ≡ true
      → search cs xpu a ≡ search cs xpu b
  unfolding search l1_tile l2_tile
  search-same_key a b same_type h =
      let m : a.m ≡ b.m = grind arith in
      let n : a.n ≡ b.n = grind arith in
      let k : a.k ≡ b.k = grind arith in
      let num_op : a.num_op ≡ b.num_op = grind arith in
      let dbyte : a.dbyte ≡ b.dbyte = grind arith in
      λ i. search cs xpu (record a {
        type = same_type i;
        m = m i;
        n = n i;
        k = k i;
        num_op = num_op i;
        dbyte = dbyte i;
      })

  abbrev pub AgreesTiles : Option Tiles → Result Tiles → Type 0
  AgreesTiles none r = Unit
  AgreesTiles (some tiles) r = r ≡ ok tiles

  -- The table has the tiles of the searches for layers of a type.
  abbrev pub IsTrueTable : LayerType → List (TileKey × Tiles) → Type 0
  IsTrueTable type table =
      (layer : Layer) (of_type : layer.type ≡ type)
      → AgreesTiles (tiles_at (key_of layer) table) (search cs xpu layer)

  added-IsTrueTable :
      (added : Layer) (tiles : Tiles) (table : List (TileKey × Tiles))
      → search cs xpu added ≡ ok tiles
      → IsTrueTable added.type table
      → IsTrueTable added.type ((key_of added, tiles) ∷ table)
  added-IsTrueTable added tiles table found h layer of_type =
      elim (Bool-cases (same_key (key_of layer) (key_of added))) [
        | inl same ↦ rw same (search-same_key layer added of_type same ∙ found)
        | inr other ↦ rw other (h layer of_type)
      ]

  searched-IsTrueTable :
      (layer : Layer) (table : List (TileKey × Tiles)) (o : Option Tiles)
      → tiles_at (key_of layer) table ≡ o
      → IsTrueTable layer.type table
      → ((searched cs xpu layer table o).0 ≡ search cs xpu layer)
        × IsTrueTable layer.type (searched cs xpu layer table o).1
  searched-IsTrueTable layer table (some tiles) found h =
      (sym (subst (λ o. AgreesTiles o (search cs xpu layer)) found (h layer refl)), h)
  searched-IsTrueTable layer table none found h = elim (Result-cases (search cs xpu layer)) [
    | inl (tiles, result) ↦ rw result (refl, added-IsTrueTable layer tiles table result h)
    | inr (e, result) ↦ rw result (refl, h)
  ]

  -- With a table that has the tiles of searches for layers of the layer's type, `_get_optimal_tile` returns
  -- the tiles of a search, its errors included, and the table is one again.
  pub get_optimal_tile-search :
      (layer : Layer) (table : List (TileKey × Tiles))
      → IsTrueTable layer.type table
      → ((get_optimal_tile cs xpu layer table).0 ≡ search cs xpu layer)
        × IsTrueTable layer.type (get_optimal_tile cs xpu layer table).1
  unfolding get_optimal_tile
  get_optimal_tile-search layer table h = searched-IsTrueTable layer table _ refl h
