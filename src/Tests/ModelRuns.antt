-- ===== src/Tests/ModelRuns.antt =====
-- Runs of the layer graphs (src/model.py).
use attacc_simulator_vlm.Prelude.{
  ℕ, ◌+◌, ◌<◌, ◌/◌, ◌*◌, ◌≤◌, ◌≡◌, ◌>>=◌, refl, length, get_elem?, true, false, List, [], ◌∷◌, All,
  none, some, ok, arith,
}
use attacc_simulator_vlm.Model.Layer.{Layer}
use attacc_simulator_vlm.Model.Work.{without_x2g}
use attacc_simulator_vlm.Model.Vision.{
  no_size, pair, select_best_resolution, compute_visual_tokens, compute_vit_tokens,
  compute_vit_num_images,
}
use attacc_simulator_vlm.Model.Vision.Tokens.{compute_visual_tokens-le}
use attacc_simulator_vlm.Model.Transformer.{list_to_dict, new_transformer}
use attacc_simulator_vlm.Model.Transformer.Legacy.{IsOkWith, new_transformer-IsSharded}
use attacc_simulator_vlm.Model.Decoder.Splits.{IsSharded}
use attacc_simulator_vlm.Model.Vision.Best.{Member, NoBetter, select_best_resolution-NoBetter}
use attacc_simulator_vlm.Model.VisionDecoder.{build_vision, build_vit}
use attacc_simulator_vlm.Model.VisionDecoder.VitWork.{VitWork, build_vit-VitWork}
use attacc_simulator_vlm.Model.Decoder.{build_sum, build_gen_stage}
use attacc_simulator_vlm.Model.Decoder.SumWork.{SumWork, build_sum-SumWork, build_sum-without_x2g}
use attacc_simulator_vlm.Model.Decoder.GenWork.{
  GenWork, build_gen_stage-GenWork, build_gen_stage-without_x2g,
}
use attacc_simulator_vlm.Model.Build.{Graph, build, first_group}
use attacc_simulator_vlm.Model.Build.Graphs.{IsFilled, first_of, build-IsFilled}
use attacc_simulator_vlm.Tests.Samples.{
  model, model-IsSharded, fractions, newline_model, vision_model, vision_model-IsSharded,
  vision_heads,
}
use attacc_simulator_vlm.Model.Routing.{
  Routing, Entry, Mode, Place, layer_set, to_groups, new_routing, default_layer_list,
}
use attacc_simulator_vlm.Model.Routing.DeepStack.{IsOwn, to_groups-new_routing}
use attacc_simulator_vlm.Model.Routing.Counts.{total_count, offloaded, offloaded-optimistic_list}

abbrev optimistic_routing : Routing
optimistic_routing = record {
  mode = Mode.optimistic;
  layer_list = default_layer_list;
  acc_device = Place.pim;
}

abbrev list_routing : Routing
list_routing = record { mode = Mode.list; layer_list = default_layer_list; acc_device = Place.pim }

offloaded-optimistic_list_example :
    (offloaded (to_groups optimistic_routing 20) ≡ length (layer_set default_layer_list 20))
    × (offloaded (to_groups list_routing 20) ≡ length (layer_set default_layer_list 20))
offloaded-optimistic_list_example = offloaded-optimistic_list default_layer_list Place.pim 20 refl

build_sum-SumWork_example :
    (decoder : List Layer) × (build_sum model 2 16 true none ≡ ok decoder)
    × SumWork model 2 2 16 true decoder
build_sum-SumWork_example = build_sum-SumWork model 2 model-IsSharded 2 16 true none

build_sum-without_x2g_example :
    (decoder : List Layer) × (build_sum model 2 16 true none ≡ ok decoder)
    × (build_sum model 2 16 false none ≡ ok (without_x2g decoder))
build_sum-without_x2g_example = build_sum-without_x2g model 2 model-IsSharded 2 16 none

build_gen_stage-GenWork_example :
    (decoder : List Layer) × (build_gen_stage model 2 16 3 true ≡ ok decoder)
    × GenWork model 2 2 19 true decoder
build_gen_stage-GenWork_example = build_gen_stage-GenWork model 2 model-IsSharded 2 16 3 true

build_gen_stage-without_x2g_example :
    (decoder : List Layer) × (build_gen_stage model 2 16 3 true ≡ ok decoder)
    × (build_gen_stage model 2 16 3 false ≡ ok (without_x2g decoder))
build_gen_stage-without_x2g_example = build_gen_stage-without_x2g model 2 model-IsSharded 2 16 3

-- The sample has no vision part.
no_vision : build_vision fractions model 2 no_size ≡ ok []
unfolding build_vision
no_vision = refl

build-IsFilled_example :
    (g : Graph) × (build fractions model 2 16 4 true (some (to_groups optimistic_routing 2)) no_size
      ≡ ok g)
    × (total_count g.routing_meta ≡ 2)
    × (f : IsFilled model 2 2 16 4
        (to_groups optimistic_routing 2)
        (record { vision_decoder = []; routing_meta = []; groups = [] })
        g)
    × (first_group g ≡ ok (first_of f.new))
build-IsFilled_example =
    build-IsFilled model 2 2 16 4 model-IsSharded fractions optimistic_routing true no_size []
      no_vision

select_best_resolution_example :
    (best : ℕ × ℕ) × (select_best_resolution fractions (100, 50) ((336, 672) ∷ (672, 336) ∷ [])
      ≡ ok best)
    × Member fractions (100, 50) best ((336, 672) ∷ (672, 336) ∷ [])
    × All (NoBetter fractions (100, 50) best) ((336, 672) ∷ (672, 336) ∷ [])
select_best_resolution_example =
    select_best_resolution-NoBetter fractions 100 50 (336, 672) ((672, 336) ∷ []) (omega arith)
      (omega arith)

compute_visual_tokens-le_example :
    (tokens patches images : ℕ) × (compute_visual_tokens fractions newline_model (pair 100 50)
      ≡ ok tokens)
    × (compute_vit_tokens fractions newline_model (pair 100 50) ≡ ok patches)
    × (compute_vit_num_images fractions newline_model (pair 100 50) ≡ ok images)
    × (grid : ℕ × ℕ) × (select_best_resolution fractions (100, 50) ((336, 672) ∷ (672, 336) ∷ [])
        ≡ ok grid)
    × (tokens ≤ patches * images + grid.1 / 14)
    × (patches * images < tokens + patches)
compute_visual_tokens-le_example =
    compute_visual_tokens-le fractions newline_model (omega arith) (omega arith) 100 50 (336, 672)
      ((672, 336) ∷ []) refl refl (omega arith) (omega arith) (omega arith)

new_transformer-IsSharded_example :
    IsOkWith
      (λ t. IsSharded t 2 × (t.ndec ≡ 3) × (t.num_q_heads ≡ 2 * t.num_kv_heads))
      (list_to_dict 3 (32 * 2) (2 * (2 * 2)) 8 (128 * 2) 2 >>= λ infos. new_transformer infos 2)
new_transformer-IsSharded_example =
    new_transformer-IsSharded 3 32 2 2 8 128 2 (omega arith) (omega arith) (omega arith)

vision_tokens : compute_vit_tokens fractions vision_model (pair 100 50) ≡ ok 576
unfolding compute_vit_tokens
vision_tokens = refl

-- The grid of 672 by 336 pixels has two tiles, and there is the base tile.
vision_tiles : compute_vit_num_images fractions vision_model (pair 100 50) ≡ ok 3
unfolding compute_vit_num_images
vision_tiles = refl

build_vit-VitWork_example :
    (decoder : List Layer) × (build_vit fractions vision_model 2 (pair 100 50) ≡ ok decoder)
    × VitWork vision_model 2 576 (2 * 3) decoder
build_vit-VitWork_example =
    build_vit-VitWork fractions vision_model 2 vision_model-IsSharded vision_heads 2 576 3
      (pair 100 50) vision_tokens vision_tiles (omega arith) (omega arith) (omega arith)

to_groups-new_routing_example :
    (length (to_groups (new_routing true Mode.optimistic none Place.pim) 20) ≡ 20)
    × ((e : Entry) × (get_elem? (to_groups (new_routing true Mode.optimistic none Place.pim) 20) 8
          ≡ some e)
        × IsOwn none Place.pim 8 e)
to_groups-new_routing_example =
    to_groups-new_routing Mode.optimistic none Place.pim 20 8 (omega arith)
