-- ===== src/Model/Routing/Covers.antt =====
-- A routing of `to_groups` has as many layers off the GPU as are asked for, and stands for every layer.
use attacc_simulator_vlm.Prelude.{
  ℕ, zero, suc, ◌-◌, ◌≡◌, refl, sym, ◌∙◌, Bool, true, false, not, List, [], ◌∷◌, All, map, range,
  range_from, ◌⊎◌, All-append, All-map, length, ltb, Option, none, some, if◌then◌else◌, inl, inr,
  arith,
}
use attacc_simulator_vlm.Model.Routing.{
  Mode, conservative, optimistic, list, Place, GroupName, Entry, Routing, new_routing, to_groups,
  groups_for, layer_set, list_or_default,
}
use attacc_simulator_vlm.Model.Routing.Counts.{
  total_count, total_count-to_groups, offloaded, is_gpu, offloaded-optimistic_list,
}
use attacc_simulator_vlm.Model.Routing.Asks.{
  count_from, count_from-same, count_from-all, length-layer_set-count_from, asks, contains-named_or,
  wanted,
}

-- An entry for the GPU or for a place.
abbrev pub IsAt : Place → Entry → Type 0
IsAt place e = (e.device ≡ place) ⊎ (e.device ≡ Place.gpu)

chosen-IsAt :
    (place : Place) (b : Bool) (idx : ℕ)
    → IsAt place (record {
      group_name = GroupName.l idx;
      device = if b then place else Place.gpu;
      count = 1;
      indices = some (idx ∷ []);
    })
chosen-IsAt place true idx = inl refl
chosen-IsAt place false idx = inr refl

if-All : (P : Entry → Type 0) (b : Bool) (e : Entry) → P e → All P (if b then e ∷ [] else [])
if-All P true e h = (h, tt)
if-All P false e h = tt

-- What holds of the two groups of 'optimistic' holds of those that are there.
optimistic-All :
    (P : Entry → Type 0) (r : Routing) (ndec : ℕ)
    → let acc_count = length (layer_set r.layer_list ndec) in
      P (record {
        group_name = GroupName.acc;
        device = r.acc_device;
        count = acc_count;
        indices = none;
      })
      → P (record {
        group_name = GroupName.gpu;
        device = Place.gpu;
        count = ndec - acc_count;
        indices = none;
      })
      → All P (groups_for optimistic r ndec)
unfolding groups_for
optimistic-All P r ndec h k =
    let acc_count = length (layer_set r.layer_list ndec) in
    All-append P _ _ (if-All P (ltb 0 acc_count) _ h) (if-All P (ltb 0 (ndec - acc_count)) _ k)

groups_for-IsAt :
    (mode : Mode) (r : Routing) (ndec : ℕ) → All (IsAt r.acc_device) (groups_for mode r ndec)
unfolding groups_for
groups_for-IsAt conservative r ndec = (inl refl, tt)
groups_for-IsAt optimistic r ndec = optimistic-All (IsAt r.acc_device) r ndec (inl refl) (inr refl)
groups_for-IsAt list r ndec = All-map _ _ (range ndec) (λ idx. chosen-IsAt r.acc_device _ idx)

to_groups-IsAt : (r : Routing) (ndec : ℕ) → All (IsAt r.acc_device) (to_groups r ndec)
unfolding to_groups
to_groups-IsAt r ndec = groups_for-IsAt r.mode r ndec

-- Every layer a group of its own, in order.
abbrev pub IsEach : ℕ → List Entry → Type 0
IsEach ndec es =
    map {B = ℕ × Option (List ℕ)} (λ (e : Entry). (e.count, e.indices)) es
    ≡ map {B = ℕ × Option (List ℕ)} (λ i. (1, some (i ∷ []))) (range ndec)

abbrev pub IsPlain : List Entry → Type 0
IsPlain es = All (λ (e : Entry). e.indices ≡ none) es

-- A routing that stands for every decoder layer once, at the accelerator's place or on the GPU: the layers of
-- its entries, the indices, which a DeepStack model always has, and the layers off the GPU.
pub record Covers (place : Place) (has_deepstack : Bool) (ndec wanted : ℕ) (es : List Entry)
    : Type 0 where
  pub counts : total_count es ≡ ndec
  pub places : All (IsAt place) es
  pub indices : IsEach ndec es ⊎ ((has_deepstack ≡ false) × IsPlain es)
  pub accelerated : offloaded es ≡ wanted

pub offloaded-gpu : (es : List Entry) → All (IsAt Place.gpu) es → offloaded es ≡ 0
offloaded-gpu [] h = refl
offloaded-gpu (e ∷ es) (inl at, h) = rw at (offloaded-gpu es h)
offloaded-gpu (e ∷ es) (inr at, h) = rw at (offloaded-gpu es h)

module _ (f : ℕ → Entry) (one : (i : ℕ) → (f i).count ≡ 1)
    (own : (i : ℕ) → (f i).indices ≡ some (i ∷ [])) where
  pub map-IsEach :
      (i n : ℕ)
      → map {B = ℕ × Option (List ℕ)} (λ (e : Entry). (e.count, e.indices)) (map f (range_from i n))
        ≡ map {B = ℕ × Option (List ℕ)} (λ i. (1, some (i ∷ []))) (range_from i n)
  map-IsEach i zero = refl
  map-IsEach i (suc n) = rw (one i) (rw (own i) (rw (map-IsEach (suc i) n) refl))

groups_for-indices :
    (mode : Mode) (r : Routing) (ndec : ℕ)
    → IsEach ndec (groups_for mode r ndec) ⊎ IsPlain (groups_for mode r ndec)
unfolding groups_for
groups_for-indices conservative r ndec = inr (refl, tt)
groups_for-indices optimistic r ndec =
    inr (optimistic-All (λ (e : Entry). e.indices ≡ none) r ndec refl refl)
groups_for-indices list r ndec = inl (map-IsEach _ (λ i. refl) (λ i. refl) 0 ndec)

conservative-offloaded :
    (layers : List ℕ) (place : Place) (ndec : ℕ)
    → is_gpu place ≡ false
    → offloaded
        (to_groups (record { mode = conservative; layer_list = layers; acc_device = place }) ndec)
      ≡ ndec
unfolding to_groups groups_for
conservative-offloaded layers place ndec h = rw h (omega arith)

offloaded-to_groups :
    (deep : Bool) (mode : Mode) (layers : Option (List ℕ)) (place : Place) (ndec : ℕ)
    → is_gpu place ≡ false
    → offloaded (to_groups (new_routing deep mode layers place) ndec)
      ≡ count_from (asks (some mode) deep layers) 0 ndec
unfolding new_routing
offloaded-to_groups true mode layers place ndec h =
    (offloaded-optimistic_list (list_or_default layers) place ndec h).1
    ∙ length-layer_set-count_from (list_or_default layers) ndec
    ∙ count_from-same _ _ 0 ndec (λ j k. contains-named_or layers j)
offloaded-to_groups false conservative layers place ndec h =
    conservative-offloaded (list_or_default layers) place ndec h ∙ sym (count_from-all 0 ndec)
offloaded-to_groups false optimistic layers place ndec h =
    (offloaded-optimistic_list (list_or_default layers) place ndec h).0
    ∙ length-layer_set-count_from (list_or_default layers) ndec
    ∙ count_from-same _ _ 0 ndec (λ j k. contains-named_or layers j)
offloaded-to_groups false list layers place ndec h =
    (offloaded-optimistic_list (list_or_default layers) place ndec h).1
    ∙ length-layer_set-count_from (list_or_default layers) ndec
    ∙ count_from-same _ _ 0 ndec (λ j k. contains-named_or layers j)

gpu_or_not : (place : Place) → (place ≡ Place.gpu) ⊎ (is_gpu place ≡ false)
gpu_or_not Place.gpu = inl refl
gpu_or_not Place.pim = inr refl
gpu_or_not Place.cpu = inr refl

to_groups-indices :
    (deep : Bool) (mode : Mode) (layers : Option (List ℕ)) (place : Place) (ndec : ℕ)
    → let es = to_groups (new_routing deep mode layers place) ndec in
      IsEach ndec es ⊎ ((deep ≡ false) × IsPlain es)
unfolding to_groups new_routing groups_for
to_groups-indices true mode layers place ndec = inl (map-IsEach _ (λ i. refl) (λ i. refl) 0 ndec)
to_groups-indices false mode layers place ndec =
    elim (groups_for-indices mode (new_routing false mode layers place) ndec) [
      | inl each ↦ inl each
      | inr plain ↦ inr (refl, plain)
    ]

-- On a place that is the GPU where there is no accelerator, a routing has the layers that are asked for.
wanted-offloaded :
    (hetero : Bool) (place : Place) (p : ℕ → Bool) (ndec : ℕ) (es : List Entry)
    → is_gpu place ≡ not hetero
    → All (IsAt place) es
    → (is_gpu place ≡ false → offloaded es ≡ count_from p 0 ndec)
    → offloaded es ≡ wanted hetero p ndec
wanted-offloaded true place p ndec es at places h = h at
wanted-offloaded false Place.gpu p ndec es at places h = offloaded-gpu es places
wanted-offloaded false Place.pim p ndec es at places h = cc
wanted-offloaded false Place.cpu p ndec es at places h = cc

module _ (hetero : Bool) (place : Place) (at : is_gpu place ≡ not hetero) where
  pub to_groups-Covers :
      (deep : Bool) (mode : Mode) (layers : Option (List ℕ)) (ndec : ℕ)
      → Covers place deep ndec
          (wanted hetero (asks (some mode) deep layers) ndec)
          (to_groups (new_routing deep mode layers place) ndec)
  unfolding new_routing
  to_groups-Covers deep mode layers ndec =
      let r = new_routing deep mode layers place in
      record {
        counts = total_count-to_groups r ndec;
        places = to_groups-IsAt r ndec;
        indices = to_groups-indices deep mode layers place ndec;
        accelerated =
            wanted-offloaded hetero place _ ndec _ at (to_groups-IsAt r ndec)
              (offloaded-to_groups deep mode layers place ndec);
      }
