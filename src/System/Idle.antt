-- ===== src/System/Idle.antt =====
-- Graphs for at most one token: no group has a generation stage.
use attacc_simulator_vlm.Prelude.{
  ℕ, ◌≤◌, ◌≡◌, refl, Bool, ◌==◌, List, [], ◌∷◌, All, Option, none, some, ok, arith, Always,
  bind-Always, bind-both, Bool-cases, inl, inr, ◌-◌,
}
use attacc_simulator_vlm.Model.Routing.{Entry, GroupName}
use attacc_simulator_vlm.Model.Transformer.{Transformer}
use attacc_simulator_vlm.Model.Vision.{Floats, ImageSize}
use attacc_simulator_vlm.Model.Decoder.{build_sum}
use attacc_simulator_vlm.Model.Build.{
  Group, Graph, same_group, put_group, on_hetero, first_index, gen_stages, build_group,
  build_groups, build, default_routing,
}
use attacc_simulator_vlm.Model.VisionDecoder.{build_vision}

abbrev pub IsIdle : GroupName × Group → Type 0
IsIdle (name, group) = group.gen_decoder ≡ []

put_group-IsIdle :
    (name : GroupName) (g : Group) (groups : List (GroupName × Group))
    → g.gen_decoder ≡ []
    → All IsIdle groups
    → All IsIdle (put_group name g groups)
unfolding put_group
put_group-IsIdle name g [] e h = (e, tt)
put_group-IsIdle name g ((other, k) ∷ rest) e h = elim (Bool-cases (same_group name other)) [
  | inl same ↦ rw same (e, h.1)
  | inr apart ↦ rw apart (h.0, put_group-IsIdle name g rest e h.1)
]

module _ (t : Transformer) (batch lin lout : ℕ) (one : lout ≤ 1) where
  gen_stages-none : (hetero : Bool) → gen_stages t batch lin lout hetero ≡ ok []
  unfolding gen_stages
  gen_stages-none hetero = let none_left : lout - 1 ≡ 0 = omega arith in rw none_left refl

  build_group-IsIdle :
      (entry : Entry)
      → Always (λ (g : Group). g.gen_decoder ≡ []) (build_group t batch lin lout entry)
  unfolding build_group
  build_group-IsIdle entry =
      let hetero = on_hetero entry.device in
      rw (gen_stages-none hetero) (
        bind-Always (λ (g : Group). g.gen_decoder ≡ [])
          (build_sum t batch lin hetero (first_index entry.indices)) _ (λ layers. refl))

  abbrev IsIdleGraph : Graph → Type 0
  IsIdleGraph g = All IsIdle g.groups

  build_groups-IsIdle :
      (routing : List Entry) (g : Graph)
      → IsIdleGraph g
      → Always IsIdleGraph (build_groups t batch lin lout routing g)
  unfolding build_groups
  build_groups-IsIdle [] g h = h
  build_groups-IsIdle (entry ∷ routing) g h = elim (Bool-cases (entry.count == 0)) [
    | inl empty ↦ rw empty (build_groups-IsIdle routing g h)
    | inr layers ↦ rw layers (
        bind-both IsIdleGraph (λ (g : Group). g.gen_decoder ≡ [])
          (build_group t batch lin lout entry) _ (build_group-IsIdle entry)
          (λ group idle.
            build_groups-IsIdle routing _
              (put_group-IsIdle entry.group_name group g.groups idle h)))
  ]

  pub build-IsIdle :
      (fl : Floats) (hetero : Bool) (routing : Option (List Entry)) (image_size : ImageSize)
      → Always
          (λ (g : Graph). All IsIdle g.groups)
          (build fl t batch lin lout hetero routing image_size)
  unfolding build
  build-IsIdle fl hetero routing image_size =
      bind-Always IsIdleGraph (build_vision fl t batch image_size) _ (λ vision.
        build_groups-IsIdle (elim routing [ none ↦ default_routing t hetero | some r ↦ r ])
          (record { vision_decoder = vision; routing_meta = []; groups = [] }) tt)
