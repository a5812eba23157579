-- ===== src/Model/Build.antt =====
-- `Transformer.build`: the vision graph, and for each routing entry the summarisation graph and the
-- graphs of the generation stages.
pub mod Names
pub mod Stages
pub mod Graphs
use attacc_simulator_vlm.Prelude.{
  ℕ, ◌-◌, Bool, true, false, List, [], ◌∷◌, ◌++◌, map, range, range_from, Option, none, some, ◌==◌,
  if◌then◌else◌, Result, ok, ◌>>=◌, for_each, or_raise, key_error,
}
use attacc_simulator_vlm.Model.Layer.{Layer}
use attacc_simulator_vlm.Model.Routing.{GroupName, all, l, Place, Entry}
use attacc_simulator_vlm.Model.Transformer.{Transformer}
use attacc_simulator_vlm.Model.Vision.{Floats, ImageSize}
use attacc_simulator_vlm.Model.Decoder.{build_sum, build_gen_stage}
use attacc_simulator_vlm.Model.VisionDecoder.{build_vision}

-- A value of `sum_decoder_groups` and of `gen_decoder_groups`, which have the same keys.
pub record Group : Type 0 where
  pub entry : Entry
  pub sum_decoder : List Layer
  pub gen_decoder : List (List Layer)

-- What `build` assigns: `routing_meta` and the groups, as a dict in the order of insertion.
pub record Graph : Type 0 where
  pub vision_decoder : List Layer
  pub routing_meta : List Entry
  pub groups : List (GroupName × Group)

abbrev pub same_group : GroupName → GroupName → Bool
same_group all all = true
same_group GroupName.acc GroupName.acc = true
same_group GroupName.gpu GroupName.gpu = true
same_group (l i) (l j) = i == j
same_group _ _ = false

-- `groups[group_name] = …`
unfoldable pub put_group : GroupName → Group → List (GroupName × Group) → List (GroupName × Group)
put_group name g [] = (name, g) ∷ []
put_group name g ((other, h) ∷ rest) =
    if same_group name other then (other, g) ∷ rest else (other, h) ∷ put_group name g rest

-- `groups[group_name]`
unfoldable pub lookup_group : GroupName → List (GroupName × Group) → Option Group
lookup_group name [] = none
lookup_group name ((other, g) ∷ rest) =
    let later = lookup_group name rest in if same_group name other then some g else later

-- The group that the attributes `sum_decoder` and `gen_decoder` repeat, which stay empty where there is
-- none: that of `routing_meta[0]`.
unfoldable pub first_group : Graph → Result (Option Group)
unfolding lookup_group
first_group g = elim g.routing_meta [
  | [] ↦ ok none
  | e ∷ _ ↦ do group ← or_raise (lookup_group e.group_name g.groups) key_error; ok (some group)
]

-- `device != 'gpu'`
abbrev pub on_hetero : Place → Bool
on_hetero Place.gpu = false
on_hetero _ = true

-- `indices[0] if indices else None`
abbrev pub first_index : Option (List ℕ) → Option ℕ
first_index (some (i ∷ _)) = some i
first_index _ = none

module _ (t : Transformer) where
  abbrev pub default_place : Bool → Place
  default_place true = Place.pim
  default_place false = Place.gpu

  -- The routing where none is given.
  unfoldable pub default_routing : Bool → List Entry
  default_routing attn_on_hetero =
      let device = default_place attn_on_hetero in
      if t.has_deepstack
      then map
          (λ idx. record {
            group_name = l idx;
            device = device;
            count = 1;
            indices = some (idx ∷ []);
          })
          (range t.ndec)
      else record { group_name = all; device = device; count = t.ndec; indices = none } ∷ []

  -- `for stage in range(1, lout, 1)`
  unfoldable pub gen_stages : ℕ → ℕ → ℕ → Bool → Result (List (List Layer))
  unfolding build_gen_stage
  gen_stages batch lin lout hetero =
      for_each (λ stage. do decoder ← build_gen_stage t batch lin stage hetero; ok (decoder ∷ []))
        (range_from 1 (lout - 1))

  unfoldable pub build_group : ℕ → ℕ → ℕ → Entry → Result Group
  unfolding build_sum gen_stages
  build_group batch lin lout entry = do
    let hetero = on_hetero entry.device
    sum_decoder ← build_sum t batch lin hetero (first_index entry.indices)
    gen_decoder ← gen_stages batch lin lout hetero
    ok (record { entry = entry; sum_decoder = sum_decoder; gen_decoder = gen_decoder })

  -- `for entry in routing`; an entry with no layer is skipped.
  unfoldable pub build_groups : ℕ → ℕ → ℕ → List Entry → Graph → Result Graph
  unfolding build_group put_group
  build_groups batch lin lout [] g = ok g
  build_groups batch lin lout (entry ∷ routing) g =
      let next = λ (group : Group). build_groups batch lin lout routing (record g {
        routing_meta = g.routing_meta ++ entry ∷ [];
        groups = put_group entry.group_name group g.groups;
      }) in
      let skip = build_groups batch lin lout routing g in
      if entry.count == 0 then skip else (do group ← build_group batch lin lout entry; next group)

module _ (fl : Floats) (t : Transformer) where
  unfoldable pub build : ℕ → ℕ → ℕ → Bool → Option (List Entry) → ImageSize → Result Graph
  unfolding build_vision build_groups default_routing
  build batch lin lout attn_on_hetero routing image_size = do
    vision ← build_vision fl t batch image_size
    build_groups t batch lin lout
        (elim routing [ none ↦ default_routing t attn_on_hetero | some r ↦ r ])
        (record { vision_decoder = vision; routing_meta = []; groups = [] })
