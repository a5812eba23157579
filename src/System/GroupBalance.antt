-- ===== src/System/GroupBalance.antt =====
-- The energies of every simulated group of a generation balance, whatever the corrections of its times.
use attacc_simulator_vlm.Prelude.{
  ℕ, ◌≡◌, Bool, List, [], ◌∷◌, All, map, Option, none, some, ok, Bool-cases, inl, inr, subst, sym,
  Always, EndsWith, Always-EndsWith, Always-imp, bind-Always, bind-both,
}
use attacc_simulator_vlm.Model.Layer.{Layer}
use attacc_simulator_vlm.Model.Routing.{Place}
use attacc_simulator_vlm.Ramulator.Machine.{Pandas, Clock, Host}
use attacc_simulator_vlm.Ramulator.Statements.{Store}
use attacc_simulator_vlm.Ramulator.{Setup}
use attacc_simulator_vlm.Devices.Arithmetic.{Arithmetic, over}
use attacc_simulator_vlm.Devices.Pim.{Pim}
use attacc_simulator_vlm.Devices.Rates.{XpuDevice}
use attacc_simulator_vlm.Devices.Pricing.{TileTable, get_time_and_energy}
use attacc_simulator_vlm.System.{System}
use attacc_simulator_vlm.System.Perf.{Timed}
use attacc_simulator_vlm.System.Latency.{
  corrected, correct_all, apply_to, apply_eff_lat, first_score, get_pipelining_efficiency_latency,
  pipeline, restaged, Stages, is_attention_name, is_qkv_name, is_proj_name, is_softmax_name,
}
use attacc_simulator_vlm.System.Perf.{has_x2g}
use attacc_simulator_vlm.System.Group.{device_cost, simulate_block}
use attacc_simulator_vlm.System.Simulate.{Deployment, corrected_block, simulate_gen_group}
use attacc_simulator_vlm.System.Energy.{
  GenEnergies, UnitEnergy, no_gen_energies, zero_unit_energy, group_energies, collect_energies,
}
use attacc_simulator_vlm.System.Energy.Balance.{IsCharged, Balances, collect_energies-Balances}
use attacc_simulator_vlm.System.Charges.{
  continue_with-both, Charges, device_cost-Charges, simulate_block-IsCharged,
}

module _ {ck : Clock} (ar : Arithmetic ck) where
  corrected-IsCharged :
      (eff_lat : ck.Time) (x : Timed ck) → IsCharged x → Always IsCharged (corrected ar eff_lat x)
  corrected-IsCharged eff_lat x h = elim (Bool-cases (is_attention_name x.layer.name)) [
    | inl yes_name ↦ rw yes_name (bind-Always IsCharged (over ar x.exec_time eff_lat) _ (λ t. h))
    | inr no_name ↦ rw no_name h
  ]

  correct_all-IsCharged :
      (eff_lat : ck.Time) (xs : List (Timed ck))
      → All IsCharged xs
      → Always (All IsCharged) (correct_all ar eff_lat xs)
  unfolding correct_all
  correct_all-IsCharged eff_lat [] h = tt
  correct_all-IsCharged eff_lat (x ∷ xs) h =
      bind-both _ IsCharged (corrected ar eff_lat x) _ (corrected-IsCharged eff_lat x h.0)
        (λ y charged.
          bind-both _ (All IsCharged) (correct_all ar eff_lat xs) _
            (correct_all-IsCharged eff_lat xs h.1) (λ ys all_charged. (charged, all_charged)))

  apply_to-IsCharged :
      (num_hbm batch_size : ℕ) (o : Option Layer) (xs : List (Timed ck))
      → All IsCharged xs
      → Always (All IsCharged) (apply_to ar num_hbm batch_size o xs)
  apply_to-IsCharged num_hbm batch_size none xs h = h
  apply_to-IsCharged num_hbm batch_size (some score_layer) xs h =
      bind-Always _ (get_pipelining_efficiency_latency ar score_layer.pim_num_op num_hbm batch_size)
        _ (λ eff_lat. correct_all-IsCharged eff_lat xs h)

  restaged-IsCharged :
      (s : Stages ar) (n : ℕ) (x : Timed ck) → IsCharged x → IsCharged (restaged ar s n x)
  restaged-IsCharged s n x h = elim (Bool-cases (is_qkv_name x.layer.name)) [
    | inl a ↦ rw a h
    | inr a ↦ elim (Bool-cases (is_proj_name x.layer.name)) [
      | inl b ↦ rw a (rw b h)
      | inr b ↦ elim (Bool-cases (has_x2g x.layer.name)) [
        | inl c ↦ rw a (rw b (rw c h))
        | inr c ↦ elim (Bool-cases (is_softmax_name x.layer.name)) [
          | inl d ↦ rw a (rw b (rw c (rw d h)))
          | inr d ↦ rw a (rw b (rw c (rw d h)))
        ]
      ]
    ]
  ]

  map-IsCharged :
      (s : Stages ar) (n : ℕ) (xs : List (Timed ck))
      → All IsCharged xs
      → All IsCharged (map (restaged ar s n) xs)
  map-IsCharged s n [] h = tt
  map-IsCharged s n (x ∷ xs) h = (restaged-IsCharged s n x h.0, map-IsCharged s n xs h.1)

  pipeline-IsCharged :
      (num_kv_heads num_xpu : ℕ) (level : Bool) (xs : List (Timed ck))
      → All IsCharged xs
      → Always (All IsCharged) (pipeline ar num_kv_heads num_xpu level xs)
  unfolding pipeline
  pipeline-IsCharged num_kv_heads num_xpu level xs h =
      bind-Always _ (over ar (ar.of_nat num_kv_heads) (ar.of_nat num_xpu)) _
        (λ heads. bind-Always _ (over ar (ar.of_nat 1) _) _ (λ r. map-IsCharged _ _ xs h))

module _ {ck : Clock} {G : Type 0} (ar : Arithmetic ck) (dep : Deployment ck G) (sys : System)
    (charges : Charges ck dep.device) where
  corrected_block-IsCharged :
      (batch_size : ℕ) (pipe : Bool) (place : Place) (xs : List (Timed ck))
      → All IsCharged xs
      → Always (All IsCharged) (corrected_block ar dep sys batch_size pipe place xs)
  unfolding apply_eff_lat
  corrected_block-IsCharged batch_size pipe Place.pim xs h =
      bind-both _ (All IsCharged) (apply_to ar dep.num_hbm batch_size (first_score ar xs) xs) _
        (apply_to-IsCharged ar dep.num_hbm batch_size (first_score ar xs) xs h)
        (λ layers all_charged.
          pipeline-IsCharged ar sys.model.num_kv_heads dep.num_xpu pipe layers all_charged)
  corrected_block-IsCharged batch_size pipe Place.cpu xs h = h
  corrected_block-IsCharged batch_size pipe Place.gpu xs h = h

  simulate_gen_group-IsCharged :
      (batch_size : ℕ) (pipe : Bool) (place : Place) (blocks : List (List Layer)) (g : G)
      → Always
          (All (All IsCharged))
          (simulate_gen_group ar dep sys batch_size pipe place blocks g).0
  unfolding simulate_gen_group
  simulate_gen_group-IsCharged batch_size pipe place [] g = tt
  simulate_gen_group-IsCharged batch_size pipe place (block ∷ rest) g =
      let first = simulate_block dep.device place block g in
      continue_with-both (All IsCharged) _ _ first.0 first.1
        (simulate_block-IsCharged ck dep.device charges place block g)
        (λ simulated s all_charged.
          let fixed = corrected_block ar dep sys batch_size pipe place simulated in
          continue_with-both (All IsCharged) _ _ fixed s
            (corrected_block-IsCharged batch_size pipe place simulated all_charged)
            (λ layers s still_charged.
              let later = simulate_gen_group ar dep sys batch_size pipe place rest s in
              continue_with-both (All (All IsCharged)) _ _ later.0 later.1
                (simulate_gen_group-IsCharged batch_size pipe place rest s)
                (λ blocks s rest_charged. (still_charged, rest_charged))))

-- The energies of a group are collected, and balance.
abbrev pub Collects : {ck : Clock} → List (List (Timed ck)) → Type 0
Collects blocks =
    (e : GenEnergies) × (u : UnitEnergy) × (group_energies blocks
        (no_gen_energies, zero_unit_energy)
      ≡ ok (e, u))
    × Balances (collect_energies e u)

-- For a system of an xPU and a PIM device, with or without pipelining, a group of a generation that is simulated
-- without an exception has energies that are collected without one, and that balance: their total is the
-- sum over the memories, the operations and the transfers, and the sum over the kinds of layers.
pub simulate_gen_group-Collects :
    (pd : Pandas) (ck : Clock) (host : Host) (su : Setup) (pim : Pim ck) (ar : Arithmetic ck)
    (xpu : XpuDevice ck) (dep : Deployment ck (TileTable × Store pd)) (sys : System)
    → dep.device ≡ device_cost pd ck host su pim (get_time_and_energy ar xpu)
    → (batch_size : ℕ) (pipe : Bool) (place : Place) (blocks : List (List Layer))
      (g : TileTable × Store pd)
    → EndsWith Collects (simulate_gen_group ar dep sys batch_size pipe place blocks g).0
simulate_gen_group-Collects pd ck host su pim ar xpu dep sys same batch_size pipe place blocks g =
    Always-EndsWith _ (
      Always-imp (All (All IsCharged)) Collects _
        (λ layers charged. collect_energies-Balances layers charged)
        (simulate_gen_group-IsCharged ar dep sys
          (subst (Charges ck) (sym same) (device_cost-Charges pd ck host su pim ar xpu)) batch_size
          pipe place blocks g))
