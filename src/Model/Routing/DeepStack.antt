-- ===== src/Model/Routing/DeepStack.antt =====
-- The routing of a DeepStack model has an entry for every decoder layer, whatever mode was asked for.
use attacc_simulator_vlm.Prelude.{
  ℕ, zero, suc, ◌+◌, ◌<◌, ◌≡◌, true, List, [], ◌∷◌, map, range, range_from, Option, some, get_elem?,
  if◌then◌else◌, arith, ◌∙◌, ap, refl, sym, subst, Bool, ◌⊎◌, inl, inr, length, length-map,
  length-range,
}
use attacc_simulator_vlm.Model.Routing.{
  Mode, Place, Entry, l, contains, layer_set, list_or_default, new_routing, groups_for, to_groups,
}
use attacc_simulator_vlm.Model.Routing.Asked.{Tests, IsAsked, contains-IsAsked, contains-layer_set}

module _ (f : ℕ → Entry) where
  get_elem?-map-range_from :
      (j n i : ℕ) → i < n → get_elem? (map f (range_from j n)) i ≡ some (f (j + i))
  get_elem?-map-range_from j zero i h = absurd (omega arith)
  get_elem?-map-range_from j (suc n) zero h =
      let start : j ≡ j + 0 = omega arith in ap (λ k. some (f k)) start
  get_elem?-map-range_from j (suc n) (suc i) h =
      let next : suc j + i ≡ j + suc i = omega arith in
      get_elem?-map-range_from (suc j) n i (omega arith) ∙ ap (λ k. some (f k)) next

  get_elem?-map-range : (n i : ℕ) → i < n → get_elem? (map f (range n)) i ≡ some (f i)
  get_elem?-map-range n i h =
      let same : 0 + i ≡ i = omega arith in
      get_elem?-map-range_from 0 n i h ∙ ap (λ k. some (f k)) same

-- The entry of a DeepStack model for a layer: a group of its own, on the accelerator where the layer is asked for
-- and on the GPU where it is not.
pub record IsOwn (layers : Option (List ℕ)) (device : Place) (idx : ℕ) (e : Entry) : Type 0 where
  pub name : e.group_name ≡ l idx
  pub one : e.count ≡ 1
  pub index : e.indices ≡ some (idx ∷ [])
  pub place :
      ((e.device ≡ device) × IsAsked layers idx) ⊎ ((e.device ≡ Place.gpu) × ¬ IsAsked layers idx)

chosen_place :
    (b : Bool) (P : Type 0) (device : Place)
    → Tests b P
    → (((if b then device else Place.gpu) ≡ device) × P)
      ⊎ (((if b then device else Place.gpu) ≡ Place.gpu) × ¬ P)
chosen_place b P device (inl (yes_asked, h)) = inl (rw yes_asked refl, h)
chosen_place b P device (inr (not_asked, h)) = inr (rw not_asked refl, h)

-- For a DeepStack model, whatever mode is asked for: there are as many entries as decoder layers,
-- and the entry at a place `idx` below their number is a group of its own for the layer `idx`, with
-- the layer's index. It is on the accelerator if the layer is a number of the list that is given
-- or, where none or an empty one is given, is 0, 8, 12 to 29, 31 or 33; and on the GPU if not.
pub to_groups-new_routing :
    (mode : Mode) (layers : Option (List ℕ)) (device : Place) (ndec idx : ℕ)
    → idx < ndec
    → (length (to_groups (new_routing true mode layers device) ndec) ≡ ndec)
      × ((e : Entry) × (get_elem? (to_groups (new_routing true mode layers device) ndec) idx
            ≡ some e)
          × IsOwn layers device idx e)
unfolding to_groups new_routing groups_for
to_groups-new_routing mode layers device ndec idx h =
    let asked : Tests (contains idx (layer_set (list_or_default layers) ndec))
        (IsAsked layers idx) =
      subst (λ b. Tests b (IsAsked layers idx))
        (sym (contains-layer_set idx (list_or_default layers) ndec h))
        (contains-IsAsked idx layers) in
    (
      length-map _ (range ndec) ∙ length-range ndec,
      (
        _,
        get_elem?-map-range _ ndec idx h,
        record {
          name = refl;
          one = refl;
          index = refl;
          place = chosen_place _ (IsAsked layers idx) device asked;
        },
      ),
    )
