-- ===== src/Config/Graphs.antt =====
-- The graphs that `build` makes of the models of the table, for an image of the default size.
use attacc_simulator_vlm.Prelude.{
  ℕ, ◌≡◌, refl, Bool, true, false, List, [], All, All-both, some, ok,
}
use attacc_simulator_vlm.Model.Types.{DataType, w16a16, w8a8}
use attacc_simulator_vlm.Model.Layer.{Layer, dbyte_of}
use attacc_simulator_vlm.Model.Decoder.Splits.{IsSharded}
use attacc_simulator_vlm.Model.Routing.{Routing, to_groups}
use attacc_simulator_vlm.Model.Routing.Counts.{total_count}
use attacc_simulator_vlm.Model.Transformer.{Transformer, new_transformer}
use attacc_simulator_vlm.Model.Transformer.Legacy.{IsOkWith, IsOkWith-both}
use attacc_simulator_vlm.Model.Vision.{Floats, no_size}
use attacc_simulator_vlm.Model.VisionDecoder.{build_vision}
use attacc_simulator_vlm.Model.Build.{Graph, build}
use attacc_simulator_vlm.Model.Build.Graphs.{IsFilled, build-IsFilled}
use attacc_simulator_vlm.Config.Table.{ModelName, unlisted, llava_next_mistral_7b}
use attacc_simulator_vlm.Config.{make_model_config}
use attacc_simulator_vlm.Config.Shards.{
  table_model, server_sizes, IsListed, make_model_config-IsSharded,
}

-- All models but those whose images are cut into tiles.
abbrev IsUntiled : ModelName → Type 0
IsUntiled llava_next_mistral_7b = ⊥
IsUntiled _ = Unit

abbrev pub IsOneTile : ModelName → Type 0
IsOneTile name = IsListed name × IsUntiled name

-- The supported data types.
abbrev wide : Bool → DataType
wide true = w16a16
wide false = w8a8

module _ (fl : Floats) (batch : ℕ) where
  abbrev HasVision : Transformer → Type 0
  HasVision t = (vision : List Layer) × (build_vision fl t batch no_size ≡ ok vision)

  wide_model-HasVision :
      (float_scaled : ℕ → ℕ → ℕ → ℕ) (name : ModelName) (b : Bool)
      → IsOneTile name
      → All (λ tp. IsOkWith HasVision (table_model float_scaled name (wide b) tp)) server_sizes
  unfolding make_model_config new_transformer build_vision
  wide_model-HasVision fs ModelName.gpt_175b true one =
      ((_, refl), ((_, refl), ((_, refl), ((_, refl), tt))))
  wide_model-HasVision fs ModelName.gpt_175b false one =
      ((_, refl), ((_, refl), ((_, refl), ((_, refl), tt))))
  wide_model-HasVision fs ModelName.gpt_89b true one =
      ((_, refl), ((_, refl), ((_, refl), ((_, refl), tt))))
  wide_model-HasVision fs ModelName.gpt_89b false one =
      ((_, refl), ((_, refl), ((_, refl), ((_, refl), tt))))
  wide_model-HasVision fs ModelName.gpt_13b true one =
      ((_, refl), ((_, refl), ((_, refl), ((_, refl), tt))))
  wide_model-HasVision fs ModelName.gpt_13b false one =
      ((_, refl), ((_, refl), ((_, refl), ((_, refl), tt))))
  wide_model-HasVision fs ModelName.llama_7b true one =
      ((_, refl), ((_, refl), ((_, refl), ((_, refl), tt))))
  wide_model-HasVision fs ModelName.llama_7b false one =
      ((_, refl), ((_, refl), ((_, refl), ((_, refl), tt))))
  wide_model-HasVision fs ModelName.llama_65b true one =
      ((_, refl), ((_, refl), ((_, refl), ((_, refl), tt))))
  wide_model-HasVision fs ModelName.llama_65b false one =
      ((_, refl), ((_, refl), ((_, refl), ((_, refl), tt))))
  wide_model-HasVision fs ModelName.mt_76b true one =
      ((_, refl), ((_, refl), ((_, refl), ((_, refl), tt))))
  wide_model-HasVision fs ModelName.mt_76b false one =
      ((_, refl), ((_, refl), ((_, refl), ((_, refl), tt))))
  wide_model-HasVision fs ModelName.mt_146b true one =
      ((_, refl), ((_, refl), ((_, refl), ((_, refl), tt))))
  wide_model-HasVision fs ModelName.mt_146b false one =
      ((_, refl), ((_, refl), ((_, refl), ((_, refl), tt))))
  wide_model-HasVision fs ModelName.mt_310b true one =
      ((_, refl), ((_, refl), ((_, refl), ((_, refl), tt))))
  wide_model-HasVision fs ModelName.mt_310b false one =
      ((_, refl), ((_, refl), ((_, refl), ((_, refl), tt))))
  wide_model-HasVision fs ModelName.mt_530b true one =
      ((_, refl), ((_, refl), ((_, refl), ((_, refl), tt))))
  wide_model-HasVision fs ModelName.mt_530b false one =
      ((_, refl), ((_, refl), ((_, refl), ((_, refl), tt))))
  wide_model-HasVision fs ModelName.mt_1008b true one =
      ((_, refl), ((_, refl), ((_, refl), ((_, refl), tt))))
  wide_model-HasVision fs ModelName.mt_1008b false one =
      ((_, refl), ((_, refl), ((_, refl), ((_, refl), tt))))
  wide_model-HasVision fs ModelName.opt_66b true one =
      ((_, refl), ((_, refl), ((_, refl), ((_, refl), tt))))
  wide_model-HasVision fs ModelName.opt_66b false one =
      ((_, refl), ((_, refl), ((_, refl), ((_, refl), tt))))
  wide_model-HasVision fs ModelName.qwen3_4b true one =
      ((_, refl), ((_, refl), ((_, refl), ((_, refl), tt))))
  wide_model-HasVision fs ModelName.qwen3_4b false one =
      ((_, refl), ((_, refl), ((_, refl), ((_, refl), tt))))
  wide_model-HasVision fs ModelName.qwen3_vl_4b true one =
      ((_, refl), ((_, refl), ((_, refl), ((_, refl), tt))))
  wide_model-HasVision fs ModelName.qwen3_vl_4b false one =
      ((_, refl), ((_, refl), ((_, refl), ((_, refl), tt))))
  wide_model-HasVision fs ModelName.qwen25_vl_7b true one =
      ((_, refl), ((_, refl), ((_, refl), ((_, refl), tt))))
  wide_model-HasVision fs ModelName.qwen25_vl_7b false one =
      ((_, refl), ((_, refl), ((_, refl), ((_, refl), tt))))
  wide_model-HasVision fs ModelName.internvl3_8b_hf true one =
      ((_, refl), ((_, refl), ((_, refl), ((_, refl), tt))))
  wide_model-HasVision fs ModelName.internvl3_8b_hf false one =
      ((_, refl), ((_, refl), ((_, refl), ((_, refl), tt))))
  wide_model-HasVision fs ModelName.vicuna_7b true one =
      ((_, refl), ((_, refl), ((_, refl), ((_, refl), tt))))
  wide_model-HasVision fs ModelName.vicuna_7b false one =
      ((_, refl), ((_, refl), ((_, refl), ((_, refl), tt))))
  wide_model-HasVision fs ModelName.llava_15_7b true one =
      ((_, refl), ((_, refl), ((_, refl), ((_, refl), tt))))
  wide_model-HasVision fs ModelName.llava_15_7b false one =
      ((_, refl), ((_, refl), ((_, refl), ((_, refl), tt))))
  wide_model-HasVision fs ModelName.mistral_7b true one =
      ((_, refl), ((_, refl), ((_, refl), ((_, refl), tt))))
  wide_model-HasVision fs ModelName.mistral_7b false one =
      ((_, refl), ((_, refl), ((_, refl), ((_, refl), tt))))
  wide_model-HasVision fs llava_next_mistral_7b b one = elim one.1 [ ]
  wide_model-HasVision fs unlisted b one = elim one.0 [ ]

  table_model-HasVision :
      (float_scaled : ℕ → ℕ → ℕ → ℕ) (name : ModelName) (dtype : DataType) (dbyte : ℕ)
      → IsOneTile name
      → dbyte_of dtype ≡ ok dbyte
      → All (λ tp. IsOkWith HasVision (table_model float_scaled name dtype tp)) server_sizes
  table_model-HasVision fs name w16a16 dbyte one h = wide_model-HasVision fs name true one
  table_model-HasVision fs name w8a8 dbyte one h = wide_model-HasVision fs name false one
  table_model-HasVision fs name DataType.w16a8 dbyte one h = cc
  table_model-HasVision fs name DataType.w8a16 dbyte one h = cc

  -- A vision graph and a whole graph, with the groups and FLOPs of `IsFilled`, that are built for a routing.
  abbrev pub HasGraph : (lin lout dbyte : ℕ) → Routing → Bool → Transformer → Type 0
  HasGraph lin lout dbyte r attn_on_hetero t =
      (vision : List Layer) × (g : Graph) × (build fl t batch lin lout attn_on_hetero
          (some (to_groups r t.ndec)) no_size
        ≡ ok g)
      × (total_count g.routing_meta ≡ t.ndec)
      × IsFilled t dbyte batch lin lout (to_groups r t.ndec)
          (record { vision_decoder = vision; routing_meta = []; groups = [] }) g

  sharded-HasGraph :
      (lin lout dbyte : ℕ) (r : Routing) (attn_on_hetero : Bool) (t : Transformer)
      → IsSharded t dbyte
      → HasVision t
      → HasGraph lin lout dbyte r attn_on_hetero t
  sharded-HasGraph lin lout dbyte r attn_on_hetero t v (vision, built) =
      let (g, graph, count, f, first) =
        build-IsFilled t dbyte batch lin lout v fl r attn_on_hetero no_size vision built in
      (vision, g, graph, count, f)

  -- For every model of the table whose images are not cut into tiles, in either supported data type
  -- and on 1, 2, 4 or 8 devices, `build` succeeds with every routing and an image of the default
  -- size. The counts of the routing it keeps add up to the decoder layers, and its groups are those
  -- of the routing's entries, in order and none overwritten, each with a summarisation graph and
  -- lout - 1 generation graphs whose FLOPs of FC, MATMUL and softmax layers and whose bytes of X2G
  -- layers are those that `SumWork` and `GenWork` state, with a projection of hdim by hdim behind
  -- the attention.
  pub table_model-HasGraph :
      (float_scaled : ℕ → ℕ → ℕ → ℕ) (name : ModelName) (dtype : DataType) (dbyte : ℕ)
      → IsOneTile name
      → dbyte_of dtype ≡ ok dbyte
      → (lin lout : ℕ) (r : Routing) (attn_on_hetero : Bool)
      → All
          (λ tp.
            IsOkWith
              (HasGraph lin lout dbyte r attn_on_hetero)
              (table_model float_scaled name dtype tp))
          server_sizes
  table_model-HasGraph fs name dtype dbyte one h lin lout r attn_on_hetero =
      All-both server_sizes
        (λ tp.
          IsOkWith-both (sharded-HasGraph lin lout dbyte r attn_on_hetero)
            (table_model fs name dtype tp))
        (make_model_config-IsSharded fs name dtype dbyte one.0 h)
        (table_model-HasVision fs name dtype dbyte one h)
