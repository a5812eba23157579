-- ===== src/System/Choice.antt =====
-- The routing that `simulate` chooses, and the graph that `build` makes of it.
use attacc_simulator_vlm.Prelude.{
  ℕ, zero, suc, ◌≡◌, refl, subst, Bool, true, false, not, List, [], ◌∷◌, map, range, range_from,
  or_else, All-map, Option, none, some, Bool-cases, inl, inr, arith,
}
use attacc_simulator_vlm.Model.Types.{DeviceType}
use attacc_simulator_vlm.Model.Routing.{Mode, list, Place, GroupName, Entry}
use attacc_simulator_vlm.Model.Routing.Counts.{total_count, is_gpu}
use attacc_simulator_vlm.Model.Routing.Asks.{
  count_from, count_from-same, count_from-all, is_default, named_or, asks, wanted,
  contains-range_from,
}
use attacc_simulator_vlm.Model.Routing.Covers.{
  IsAt, Covers, offloaded-gpu, map-IsEach, to_groups-Covers,
}
use attacc_simulator_vlm.Model.Transformer.{Transformer}
use attacc_simulator_vlm.Model.Build.{default_routing}
use attacc_simulator_vlm.System.{
  System, is_hetero, accelerator_routing_name, listed_or_all, unset_routing, routing_for,
  chosen_routing,
}

-- The routing in use: `build` takes its own where none is passed.
abbrev pub routing_in_use : System → List Entry
routing_in_use s = or_else (chosen_routing s) (default_routing s.model (is_hetero s.hetero_name))

count_from-listed_or_all :
    (layers : Option (List ℕ)) (ndec : ℕ)
    → count_from (named_or is_default (some (listed_or_all layers ndec))) 0 ndec
      ≡ count_from (named_or (λ x. true) layers) 0 ndec
unfolding count_from
count_from-listed_or_all layers zero = refl
count_from-listed_or_all none (suc n) =
    count_from-same _ _ 0 (suc n) (λ j h. contains-range_from j 0 (suc n) (omega arith) h)
count_from-listed_or_all (some []) (suc n) =
    count_from-same _ _ 0 (suc n) (λ j h. contains-range_from j 0 (suc n) (omega arith) h)
count_from-listed_or_all (some (y ∷ ys)) (suc n) = refl

-- Where no mode is set and there is an accelerator.
unset_routing-Covers :
    (deep : Bool) (layers : Option (List ℕ)) (place : Place) (ndec : ℕ)
    → is_gpu place ≡ false
    → Covers place deep ndec
        (count_from (asks none deep layers) 0 ndec)
        (unset_routing deep layers place ndec)
unset_routing-Covers true layers place ndec at =
    subst (λ n. Covers place true ndec n (unset_routing true layers place ndec))
      (count_from-listed_or_all layers ndec)
      (to_groups-Covers true place at true list (some (listed_or_all layers ndec)) ndec)
unset_routing-Covers false layers place ndec at = record {
  counts = omega arith;
  places = (inl refl, tt);
  indices = inr (refl, (refl, tt));
  accelerated = rw at (omega (arith, count_from-all 0 ndec));
}

-- Groups of one layer each.
total_count-singles :
    (place : Place) (i n : ℕ)
    → total_count (
        map
          (λ idx. record {
            group_name = GroupName.l idx;
            device = place;
            count = 1;
            indices = some (idx ∷ []);
          })
          (range_from i n))
      ≡ n
total_count-singles place i zero = refl
total_count-singles place i (suc n) = omega (arith, total_count-singles place (suc i) n)

-- The routing that `build` makes where none is passed and there is no accelerator.
default_routing-Covers :
    (t : Transformer) → Covers Place.gpu t.has_deepstack t.ndec 0 (default_routing t false)
unfolding default_routing
default_routing-Covers t = elim (Bool-cases t.has_deepstack) [
  | inl deep ↦
      let places =
        All-map (IsAt Place.gpu)
          (λ idx. record {
            group_name = GroupName.l idx;
            device = Place.gpu;
            count = 1;
            indices = some (idx ∷ []);
          })
          (range t.ndec) (λ idx. inr refl) in
      simp deep (record {
        counts = total_count-singles Place.gpu 0 t.ndec;
        places = places;
        indices = inl (map-IsEach _ (λ i. refl) (λ i. refl) 0 t.ndec);
        accelerated = offloaded-gpu _ places;
      })
  | inr flat ↦ simp flat (record {
    counts = omega arith;
    places = (inr refl, tt);
    indices = inr (refl, (refl, tt));
    accelerated = refl;
  })
]

accelerator_routing_name-is_gpu :
    (name : DeviceType) → is_gpu (accelerator_routing_name name) ≡ not (is_hetero name)
accelerator_routing_name-is_gpu DeviceType.pim = refl
accelerator_routing_name-is_gpu DeviceType.cpu = refl
accelerator_routing_name-is_gpu DeviceType.gpu = refl
accelerator_routing_name-is_gpu DeviceType.none_device = refl

routing_for-Covers :
    (mode : Option Mode) (hetero : Bool) (t : Transformer) (layers : Option (List ℕ))
    (place : Place)
    → is_gpu place ≡ not hetero
    → Covers place t.has_deepstack t.ndec
        (wanted hetero (asks mode t.has_deepstack layers) t.ndec)
        (or_else
          (routing_for mode hetero t.has_deepstack layers place t.ndec)
          (default_routing t hetero))
routing_for-Covers (some mode) hetero t layers place at =
    to_groups-Covers hetero place at t.has_deepstack mode layers t.ndec
routing_for-Covers none true t layers place at =
    unset_routing-Covers t.has_deepstack layers place t.ndec at
routing_for-Covers none false t layers Place.gpu at = default_routing-Covers t
routing_for-Covers none false t layers Place.pim at = cc
routing_for-Covers none false t layers Place.cpu at = cc

-- Whatever routing is set and whatever the accelerator is: the counts of the routing in use add up
-- to the decoder layers, and every group is at the place of the accelerator or on the GPU. Either
-- every decoder layer has an entry with its index, in order, or the model has no DeepStack and no
-- entry has an index. And as many layers run off the GPU as are asked for: none without an
-- accelerator; with one, those of the list, where a model has DeepStack or the mode is 'optimistic'
-- or 'list', and else all of them. An empty list stands for the default one, or, where no mode is
-- set, for all layers.
pub chosen_routing-Covers :
    (s : System)
    → Covers
        (accelerator_routing_name s.hetero_name)
        s.model.has_deepstack
        s.model.ndec
        (wanted
          (is_hetero s.hetero_name)
          (asks s.routing_mode s.model.has_deepstack s.routing_layer_list)
          s.model.ndec)
        (routing_in_use s)
unfolding chosen_routing
chosen_routing-Covers s =
    routing_for-Covers s.routing_mode (is_hetero s.hetero_name) s.model s.routing_layer_list
      (accelerator_routing_name s.hetero_name) (accelerator_routing_name-is_gpu s.hetero_name)
