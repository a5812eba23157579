-- ===== src/Model/Build/Stages.antt =====
-- The graphs of the generation stages: one for each token but the first, each with one more token in
-- its keys and values.
use attacc_simulator_vlm.Prelude.{
  ℕ, zero, suc, ◌+◌, ◌-◌, ◌≡◌, refl, Bool, List, [], ◌∷◌, map, range_from, length, length-map,
  length-range_from, ok, ◌∙◌, ◌>>=◌, for_each,
}
use attacc_simulator_vlm.Model.Layer.{Layer}
use attacc_simulator_vlm.Model.Transformer.{Transformer}
use attacc_simulator_vlm.Model.Decoder.{build_gen_stage}
use attacc_simulator_vlm.Model.Decoder.Splits.{IsSharded}
use attacc_simulator_vlm.Model.Decoder.GenWork.{
  GenWork, gen_items, build_gen_stage-items, gen_items-GenWork,
}
use attacc_simulator_vlm.Model.Build.{gen_stages}

module _ (t : Transformer) (dbyte batch lin : ℕ) (hetero : Bool) where
  -- The graphs of the stages `i`, `i + 1`, ….
  abbrev pub Stages : ℕ → List (List Layer) → Type 0
  Stages i [] = Unit
  Stages i (decoder ∷ rest) = GenWork t dbyte batch (lin + i) hetero decoder × Stages (suc i) rest

  module _ (v : IsSharded t dbyte) where
    abbrev stages_from : ℕ → ℕ → List (List Layer)
    stages_from i n = map (λ stage. gen_items t dbyte batch (lin + stage) hetero) (range_from i n)

    stages_built :
        (i n : ℕ)
        → for_each
            (λ stage. do decoder ← build_gen_stage t batch lin stage hetero; ok (decoder ∷ []))
            (range_from i n)
          ≡ ok (stages_from i n)
    stages_built i zero = refl
    stages_built i (suc n) =
        rw (build_gen_stage-items t dbyte v batch lin i hetero, stages_built (suc i) n)

    stages_from-Stages : (i n : ℕ) → Stages i (stages_from i n)
    stages_from-Stages i zero = tt
    stages_from-Stages i (suc n) =
        (gen_items-GenWork t dbyte v batch (lin + i) hetero, stages_from-Stages (suc i) n)

    -- The stages are built, one for each of the numbers from 1 below `lout`.
    pub gen_stages-Stages :
        (lout : ℕ)
        → (decoders : List (List Layer)) × (gen_stages t batch lin lout hetero ≡ ok decoders)
          × (length decoders ≡ lout - 1)
          × Stages 1 decoders
    unfolding gen_stages
    gen_stages-Stages lout = (
      stages_from 1 (lout - 1),
      stages_built 1 (lout - 1),
      length-map _ (range_from 1 (lout - 1)) ∙ length-range_from 1 (lout - 1),
      stages_from-Stages 1 (lout - 1),
    )
