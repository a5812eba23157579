-- ===== src/System/Shape.antt =====
-- The numbers of a result of `simulate`: 8 times of a summarisation, 13 of a generation, and 13 energies.
use attacc_simulator_vlm.Prelude.{
  ℕ, suc, ◌≡◌, refl, ap, ◌∙◌, Bool, List, [], ◌∷◌, ◌++◌, length, length-append, length-map, Option,
  none, some, arith, Always,
}
use attacc_simulator_vlm.Model.Layer.{Layer}
use attacc_simulator_vlm.Model.Routing.{GroupName, Place}
use attacc_simulator_vlm.Model.Vision.{ImageSize}
use attacc_simulator_vlm.Model.Build.{Graph, Group, build}
use attacc_simulator_vlm.Ramulator.Machine.{Clock}
use attacc_simulator_vlm.Devices.Arithmetic.{Arithmetic}
use attacc_simulator_vlm.System.{System, get_required_mem_capacity, is_hetero, chosen_routing}
use attacc_simulator_vlm.System.Energy.{group_energies, no_gen_energies, zero_unit_energy}
use attacc_simulator_vlm.System.Charges.{continue_with-Always, continue_with-both}
use attacc_simulator_vlm.System.Simulate.{
  Deployment, Totals, no_totals, accumulate, add_all, simulate_sum_group, simulate_gen_group,
  add_vision, add_group, add_groups,
}
use attacc_simulator_vlm.System.Batches.{
  BatchResult, gen_steps, simulate_batch, add_batches, simulate, HasFirst, target_bs-HasFirst,
  no_batches,
}

pub record IsFull {T : Type 0} (t : Totals T) : Type 0 where
  pub s_perf : length t.s_perf ≡ 8
  pub g_perf : length t.g_perf ≡ 13
  pub energy : length t.energy ≡ 13

pub record IsComplete {T : Type 0} (r : BatchResult T) : Type 0 where
  pub perf : length r.perf ≡ 21
  pub energies : length r.energies ≡ 13

module _ {ck : Clock} (ar : Arithmetic ck) where
  pub length-accumulate :
      (xs ys : List (ck.Time)) (n : ℕ) → length (accumulate ar xs ys n) ≡ length xs
  length-accumulate [] ys n = refl
  length-accumulate (x ∷ xs) [] n = refl
  length-accumulate (x ∷ xs) (y ∷ ys) n = ap suc (length-accumulate xs ys n)

  length-add_all : (xs ys : List (ck.Time)) → length (add_all ar xs ys) ≡ length xs
  length-add_all [] ys = refl
  length-add_all (x ∷ xs) [] = refl
  length-add_all (x ∷ xs) (y ∷ ys) = ap suc (length-add_all xs ys)

module _ {ck : Clock} {G : Type 0} (ar : Arithmetic ck) (dep : Deployment ck G) (sys : System) where
  pub length-floor :
      (o : Option ck.Time) (xs : List (ck.Time))
      → length (elim o [ none ↦ xs | some seconds ↦ add_all ar xs (seconds ∷ []) ]) ≡ length xs
  length-floor none xs = refl
  length-floor (some seconds) xs = length-add_all ar xs (seconds ∷ [])

  add_vision-IsFull :
      (batch_size : ℕ) (layers : List Layer) (t : Totals ck.Time) (g : G)
      → IsFull t
      → Always IsFull (add_vision ar dep sys batch_size layers t g).0
  unfolding add_vision
  add_vision-IsFull batch_size [] t g h = h
  add_vision-IsFull batch_size (layer ∷ rest) t g h =
      let simulated = simulate_sum_group ar dep sys batch_size Place.gpu (layer ∷ rest) g in
      continue_with-Always IsFull _ simulated.0 simulated.1 (λ layers s. record {
        s_perf = length-floor dep.floor _ ∙ length-accumulate ar _ _ 1 ∙ h.s_perf;
        g_perf = h.g_perf;
        energy = h.energy;
      })

  add_group-IsFull :
      (batch_size steps : ℕ) (pipe : Bool) (group : Group) (t : Totals ck.Time) (g : G)
      → IsFull t
      → Always IsFull (add_group ar dep sys batch_size steps pipe group t g).0
  unfolding add_group
  add_group-IsFull batch_size steps pipe group t g h =
      let place = group.entry.device in
      let sums = simulate_sum_group ar dep sys batch_size place group.sum_decoder g in
      continue_with-Always IsFull _ sums.0 sums.1 (λ s_layers s1.
        let gens = simulate_gen_group ar dep sys batch_size pipe place group.gen_decoder s1 in
        continue_with-Always IsFull _ gens.0 gens.1 (λ g_blocks s2.
          continue_with-Always IsFull _
            (group_energies g_blocks (no_gen_energies, zero_unit_energy)) s2
            (λ energies s3. record {
              s_perf = length-accumulate ar _ _ group.entry.count ∙ h.s_perf;
              g_perf = length-accumulate ar _ _ group.entry.count ∙ h.g_perf;
              energy = length-accumulate ar _ _ group.entry.count ∙ h.energy;
            })))

  add_groups-IsFull :
      (batch_size steps : ℕ) (pipe : Bool) (groups : List (GroupName × Group)) (t : Totals ck.Time)
      (g : G)
      → IsFull t
      → Always IsFull (add_groups ar dep sys batch_size steps pipe groups t g).0
  unfolding add_groups
  add_groups-IsFull batch_size steps pipe [] t g h = h
  add_groups-IsFull batch_size steps pipe ((name, group) ∷ rest) t g h =
      let added = add_group ar dep sys batch_size steps pipe group t g in
      continue_with-both IsFull IsFull _ added.0 added.1
        (add_group-IsFull batch_size steps pipe group t g h)
        (λ totals s full. add_groups-IsFull batch_size steps pipe rest totals s full)

  simulate_batch-IsComplete :
      (graph : Graph) (batch_size lin lout : ℕ) (pipe : Bool) (bs : ℕ) (g : G)
      → Always IsComplete (simulate_batch ar dep sys graph batch_size lin lout pipe bs g).0
  unfolding simulate_batch
  simulate_batch-IsComplete graph batch_size lin lout pipe bs g =
      let vision = add_vision ar dep sys batch_size graph.vision_decoder (no_totals ar) g in
      continue_with-both IsFull IsComplete _ vision.0 vision.1
        (add_vision-IsFull batch_size graph.vision_decoder (no_totals ar) g
          (record { s_perf = refl; g_perf = refl; energy = refl }))
        (λ seen s1 seen_full.
          let added =
            add_groups ar dep sys batch_size (gen_steps ar dep sys lout) pipe graph.groups seen
              s1 in
          continue_with-both IsFull IsComplete _ added.0 added.1
            (add_groups-IsFull batch_size _ pipe graph.groups seen s1 seen_full)
            (λ totals s2 full.
              continue_with-Always IsComplete _ (get_required_mem_capacity sys bs lin lout) s2
                (λ capacity s3. record {
                  perf =
                      length-map _ (totals.s_perf ++ totals.g_perf)
                      ∙ omega (
                        arith,
                        length-append {0} totals.s_perf totals.g_perf,
                        full.s_perf,
                        full.g_perf,
                      );
                  energies = length-map _ totals.energy ∙ full.energy;
                })))

  add_batches-IsComplete :
      (graph : Graph) (batch_size lin lout : ℕ) (pipe : Bool) (n itr : ℕ) (rest : List ℕ)
      (done : BatchResult ck.Time) (g : G)
      → IsComplete done
      → Always IsComplete
          (add_batches ar dep sys graph batch_size lin lout pipe n (suc itr) rest done g).0
  unfolding add_batches
  add_batches-IsComplete graph batch_size lin lout pipe n itr [] done g h = h
  add_batches-IsComplete graph batch_size lin lout pipe n itr (bs ∷ rest) done g h =
      let next = simulate_batch ar dep sys graph batch_size lin lout pipe bs g in
      continue_with-Always IsComplete _ next.0 next.1 (λ r s.
        add_batches-IsComplete graph batch_size lin lout pipe n (suc itr) rest _ s (record {
          perf = length-add_all ar _ _ ∙ h.perf;
          energies = length-add_all ar _ _ ∙ h.energies;
        }))

  -- All rounds: the first sets the totals.
  rounds-IsComplete :
      (graph : Graph) (batch_size lin lout : ℕ) (pipe : Bool) (n : ℕ) (targets : List ℕ) (g : G)
      → HasFirst ar dep sys targets
      → Always IsComplete
          (add_batches ar dep sys graph batch_size lin lout pipe n 0 targets
            (no_batches ar dep sys)
            g).0
  unfolding add_batches
  rounds-IsComplete graph batch_size lin lout pipe n targets g (bs, rest, e) =
      let first = simulate_batch ar dep sys graph batch_size lin lout pipe bs g in
      rw e (
        continue_with-both IsComplete IsComplete _ first.0 first.1
          (simulate_batch-IsComplete graph batch_size lin lout pipe bs g)
          (λ r s complete.
            add_batches-IsComplete graph batch_size lin lout pipe n 0 rest r s complete))

  -- A simulation that ends without an exception gives the eight times of a summarisation and the thirteen of a
  -- generation, and thirteen energies.
  pub simulate-IsComplete :
      (batch_size lin lout num_reqs : ℕ) (pipe : Bool) (image_size : ImageSize) (g : G)
      → Always IsComplete (simulate ar dep sys batch_size lin lout num_reqs pipe image_size g).0
  unfolding simulate
  simulate-IsComplete batch_size lin lout num_reqs pipe image_size g =
      continue_with-Always IsComplete _
        (build dep.floats sys.model batch_size lin lout (is_hetero sys.hetero_name)
          (chosen_routing sys) image_size)
        g
        (λ graph s1.
          continue_with-both (HasFirst ar dep sys) IsComplete _ _ s1
            (target_bs-HasFirst ar dep sys batch_size num_reqs)
            (λ targets s2 has_first.
              rounds-IsComplete graph batch_size lin lout pipe _ targets s2 has_first))
