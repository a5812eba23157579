-- ===== src/Model/Routing.antt =====
-- `class Routing`: which decoder layers run on the accelerator.
pub mod Counts
pub mod Asked
pub mod Asks
pub mod Covers
pub mod DeepStack
use attacc_simulator_vlm.Prelude.{
  ℕ, ◌-◌, Bool, true, false, ◌&&◌, not, List, [], ◌∷◌, ◌++◌, map, range, length, Option, none, some,
  ltb, ◌==◌, if◌then◌else◌,
}

pub data Mode : Type 0 where
  conservative optimistic list : Mode

-- The strings 'pim', 'cpu' and 'gpu'.
pub data Place : Type 0 where
  pim cpu gpu : Place

-- The group names 'all', 'acc', 'gpu' and 'l<idx>'.
pub data GroupName : Type 0 where
  all acc gpu : GroupName
  l : ℕ → GroupName

-- A tuple `(group_name, device, count, indices)`.
pub record Entry : Type 0 where
  pub group_name : GroupName
  pub device : Place
  pub count : ℕ
  pub indices : Option (List ℕ)

pub record Routing : Type 0 where
  pub mode : Mode
  pub layer_list : List ℕ
  pub acc_device : Place

abbrev pub default_layer_list : List ℕ
default_layer_list =
    0 ∷ 8 ∷ 12 ∷ 13 ∷ 14 ∷ 15 ∷ 16 ∷ 17 ∷ 18 ∷ 19 ∷ 20 ∷ 21 ∷ 22 ∷ 23 ∷ 24 ∷ 25 ∷ 26 ∷ 27 ∷ 28 ∷ 29
    ∷ 31 ∷ 33 ∷ []

-- `layer_list or self.DEFAULT_LAYER_LIST`: `None` and an empty list give the default.
abbrev pub list_or_default : Option (List ℕ) → List ℕ
list_or_default (some (x ∷ xs)) = x ∷ xs
list_or_default _ = default_layer_list

abbrev pub forced_mode : Bool → Mode → Mode
forced_mode true _ = list
forced_mode false mode = mode

-- `Routing(model, mode, layer_list, acc_device)`: a DeepStack model forces the mode 'list'.
unfoldable pub new_routing : Bool → Mode → Option (List ℕ) → Place → Routing
new_routing has_deepstack mode layer_list acc_device = record {
  mode = forced_mode has_deepstack mode;
  layer_list = list_or_default layer_list;
  acc_device = acc_device;
}

abbrev pub contains : ℕ → List ℕ → Bool
contains x [] = false
contains x (y ∷ ys) = if x == y then true else contains x ys

-- `{idx for idx in self.layer_list if 0 <= idx < ndec}`: no index twice.
unfoldable pub layer_set : List ℕ → ℕ → List ℕ
layer_set [] ndec = []
layer_set (idx ∷ rest) ndec =
    let others = layer_set rest ndec in
    if ltb idx ndec && not (contains idx others) then idx ∷ others else others

unfoldable pub groups_for : Mode → Routing → ℕ → List Entry
groups_for conservative r ndec =
    record { group_name = all; device = r.acc_device; count = ndec; indices = none } ∷ []
groups_for optimistic r ndec =
    let acc_count = length (layer_set r.layer_list ndec) in
    (if ltb 0 acc_count
      then record { group_name = acc; device = r.acc_device; count = acc_count; indices = none }
        ∷ []
      else [])
    ++ (if ltb 0 (ndec - acc_count)
        then record {
          group_name = GroupName.gpu;
          device = Place.gpu;
          count = ndec - acc_count;
          indices = none;
        }
          ∷ []
        else [])
groups_for list r ndec =
    map
      (λ idx. record {
        group_name = l idx;
        device = if contains idx (layer_set r.layer_list ndec) then r.acc_device else Place.gpu;
        count = 1;
        indices = some (idx ∷ []);
      })
      (range ndec)

unfoldable pub to_groups : Routing → ℕ → List Entry
unfolding groups_for layer_set
to_groups r ndec = groups_for r.mode r ndec
