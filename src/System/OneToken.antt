-- ===== src/System/OneToken.antt =====
-- A request for at most one token: the time of its generation is 0, and the throughput that `simulate` prints
-- divides by it.
use attacc_simulator_vlm.Prelude.{
  ℕ, zero, suc, ◌≤◌, ◌<◌, ◌≡◌, refl, ap, ◌∙◌, Bool, true, List, [], ◌∷◌, ◌++◌, map, All, length,
  some, Result, ok, raise, arith, Always, Raises, bind-Raises, zero_division,
}
use attacc_simulator_vlm.Model.Layer.{Layer}
use attacc_simulator_vlm.Model.Routing.{GroupName, Place}
use attacc_simulator_vlm.Model.Vision.{ImageSize}
use attacc_simulator_vlm.Model.Build.{Group, Graph, build}
use attacc_simulator_vlm.Ramulator.Machine.{Clock}
use attacc_simulator_vlm.Ramulator.Statements.{continue_with, pure}
use attacc_simulator_vlm.Devices.Arithmetic.{Arithmetic, zero_time, over}
use attacc_simulator_vlm.System.{System, get_required_mem_capacity, is_hetero, chosen_routing}
use attacc_simulator_vlm.System.Perf.{collect_g_perf}
use attacc_simulator_vlm.System.Energy.{group_energies}
use attacc_simulator_vlm.System.Charges.{continue_with-Always, continue_with-both}
use attacc_simulator_vlm.System.Shape.{length-accumulate, length-floor}
use attacc_simulator_vlm.System.Simulate.{
  Deployment, Totals, zeros, no_totals, accumulate, add_all, simulate_sum_group, simulate_gen_group,
  add_vision, add_group, add_groups,
}
use attacc_simulator_vlm.System.Batches.{
  BatchResult, gen_steps, simulate_batch, add_batches, simulate, HasFirst, target_bs-HasFirst,
  no_batches,
}
use attacc_simulator_vlm.System.Report.{Labels, at_index, report, simulate_output}
use attacc_simulator_vlm.System.Idle.{IsIdle, build-IsIdle}

-- What floats do with zeros.
pub record KeepsZero {ck : Clock} (ar : Arithmetic ck) : Type 0 where
  pub plus_zero : ar.plus (ar.of_nat 0) (ar.of_nat 0) ≡ ar.of_nat 0
  pub times_zero : (n : ℕ) → ar.times (ar.of_nat 0) (ar.of_nat n) ≡ ar.of_nat 0
  pub divide_zero : (n : ℕ) → 0 < n → ar.divide (ar.of_nat 0) (ar.of_nat n) ≡ ar.of_nat 0
  pub zero_is_zero : ar.is_zero (ar.of_nat 0) ≡ true

-- The element behind the first `n`, changed by `f`.
module _ {A : Type 0} (f : A → A) where
  at_index-map :
      (n : ℕ) (xs : List A) (y : A) (ys : List A)
      → length xs ≡ n
      → at_index n (map f (xs ++ y ∷ ys)) ≡ some (f y)
  unfolding at_index
  at_index-map zero [] y ys h = refl
  at_index-map (suc n) [] y ys h = absurd (omega arith)
  at_index-map zero (x ∷ xs) y ys h = absurd (omega arith)
  at_index-map (suc n) (x ∷ xs) y ys h = at_index-map n xs y ys (omega arith)

module _ {ck : Clock} (ar : Arithmetic ck) where
  at_index-add_all :
      (i : ℕ) (xs ys : List (ck.Time)) (x y : ck.Time)
      → at_index i xs ≡ some x
      → at_index i ys ≡ some y
      → at_index i (add_all ar xs ys) ≡ some (ar.plus x y)
  unfolding at_index
  at_index-add_all i [] ys x y e f = cc
  at_index-add_all zero (a ∷ xs) [] x y e f = cc
  at_index-add_all (suc i) (a ∷ xs) [] x y e f = cc
  at_index-add_all zero (a ∷ xs) (b ∷ ys) x y e f = cc
  at_index-add_all (suc i) (a ∷ xs) (b ∷ ys) x y e f = at_index-add_all i xs ys x y e f

module _ {ck : Clock} (ar : Arithmetic ck) (laws : KeepsZero ar) where
  open laws use {plus_zero, times_zero, divide_zero, zero_is_zero}

  -- The times of no generation, added to none.
  accumulate-zeros :
      (steps count : ℕ)
      → 0 < steps
      → accumulate ar (zeros ar 13) (map (λ t. ar.divide t (ar.of_nat steps)) (zeros ar 13)) count
        ≡ zeros ar 13
  accumulate-zeros steps count h =
      rw (divide_zero steps h) (rw (times_zero count) (rw plus_zero refl))

  record IsQuiet (t : Totals ck.Time) : Type 0 where
    s_perf : length t.s_perf ≡ 8
    g_perf : t.g_perf ≡ zeros ar 13

  module _ {G : Type 0} (dep : Deployment ck G) (sys : System) where
    add_vision-IsQuiet :
        (batch_size : ℕ) (layers : List Layer) (t : Totals ck.Time) (g : G)
        → IsQuiet t
        → Always IsQuiet (add_vision ar dep sys batch_size layers t g).0
    unfolding add_vision
    add_vision-IsQuiet batch_size [] t g h = h
    add_vision-IsQuiet batch_size (layer ∷ rest) t g h =
        let simulated = simulate_sum_group ar dep sys batch_size Place.gpu (layer ∷ rest) g in
        continue_with-Always IsQuiet _ simulated.0 simulated.1 (λ layers s. record {
          s_perf = length-floor ar dep sys dep.floor _ ∙ length-accumulate ar _ _ 1 ∙ h.s_perf;
          g_perf = h.g_perf;
        })

    add_group-IsQuiet :
        (batch_size steps : ℕ) (pipe : Bool) (group : Group) (t : Totals ck.Time) (g : G)
        → 0 < steps
        → group.gen_decoder ≡ []
        → IsQuiet t
        → Always IsQuiet (add_group ar dep sys batch_size steps pipe group t g).0
    unfolding add_group simulate_gen_group group_energies collect_g_perf
    add_group-IsQuiet batch_size steps pipe group t g some_steps idle h =
        let place = group.entry.device in
        let sums = simulate_sum_group ar dep sys batch_size place group.sum_decoder g in
        rw idle (
          continue_with-Always IsQuiet _ sums.0 sums.1 (λ s_layers s1. record {
            s_perf = length-accumulate ar _ _ group.entry.count ∙ h.s_perf;
            g_perf = rw h.g_perf (accumulate-zeros steps group.entry.count some_steps);
          }))

    add_groups-IsQuiet :
        (batch_size steps : ℕ) (pipe : Bool) (groups : List (GroupName × Group))
        (t : Totals ck.Time) (g : G)
        → 0 < steps
        → All IsIdle groups
        → IsQuiet t
        → Always IsQuiet (add_groups ar dep sys batch_size steps pipe groups t g).0
    unfolding add_groups
    add_groups-IsQuiet batch_size steps pipe [] t g some_steps idle h = h
    add_groups-IsQuiet batch_size steps pipe ((name, group) ∷ rest) t g some_steps idle h =
        let added = add_group ar dep sys batch_size steps pipe group t g in
        continue_with-both IsQuiet IsQuiet _ added.0 added.1
          (add_group-IsQuiet batch_size steps pipe group t g some_steps idle.0 h)
          (λ totals s quiet.
            add_groups-IsQuiet batch_size steps pipe rest totals s some_steps idle.1 quiet)

    -- The first time of a generation is 0.
    abbrev NoLatency : BatchResult ck.Time → Type 0
    NoLatency r = at_index 8 r.perf ≡ some (zero_time ar)

    quiet-NoLatency :
        (t : Totals ck.Time)
        → IsQuiet t
        → at_index 8 (map (λ t. ar.times t (ar.of_nat 1000)) (t.s_perf ++ t.g_perf))
          ≡ some (zero_time ar)
    quiet-NoLatency t h = rw h.g_perf (
        at_index-map (λ t. ar.times t (ar.of_nat 1000)) 8 t.s_perf _ _ h.s_perf
        ∙ ap some (times_zero 1000))

    simulate_batch-NoLatency :
        (graph : Graph) (batch_size lin lout : ℕ) (pipe : Bool) (bs : ℕ) (g : G)
        → All IsIdle graph.groups
        → Always NoLatency (simulate_batch ar dep sys graph batch_size lin lout pipe bs g).0
    unfolding simulate_batch
    simulate_batch-NoLatency graph batch_size lin lout pipe bs g idle =
        let vision = add_vision ar dep sys batch_size graph.vision_decoder (no_totals ar) g in
        continue_with-both IsQuiet NoLatency _ vision.0 vision.1
          (add_vision-IsQuiet batch_size graph.vision_decoder (no_totals ar) g
            (record { s_perf = refl; g_perf = refl }))
          (λ seen s1 seen_quiet.
            let steps = gen_steps ar dep sys lout in
            let added = add_groups ar dep sys batch_size steps pipe graph.groups seen s1 in
            continue_with-both IsQuiet NoLatency _ added.0 added.1
              (add_groups-IsQuiet batch_size steps pipe graph.groups seen s1 (omega arith) idle
                seen_quiet)
              (λ totals s2 quiet.
                continue_with-Always NoLatency _ (get_required_mem_capacity sys bs lin lout) s2
                  (λ capacity s3. quiet-NoLatency totals quiet)))

    add_batches-NoLatency :
        (graph : Graph) (batch_size lin lout : ℕ) (pipe : Bool) (n itr : ℕ) (rest : List ℕ)
        (done : BatchResult ck.Time) (g : G)
        → All IsIdle graph.groups
        → NoLatency done
        → Always NoLatency
            (add_batches ar dep sys graph batch_size lin lout pipe n (suc itr) rest done g).0
    unfolding add_batches
    add_batches-NoLatency graph batch_size lin lout pipe n itr [] done g idle h = h
    add_batches-NoLatency graph batch_size lin lout pipe n itr (bs ∷ rest) done g idle h =
        let next = simulate_batch ar dep sys graph batch_size lin lout pipe bs g in
        continue_with-both NoLatency NoLatency _ next.0 next.1
          (simulate_batch-NoLatency graph batch_size lin lout pipe bs g idle)
          (λ r s same.
            add_batches-NoLatency graph batch_size lin lout pipe n (suc itr) rest _ s idle
              (at_index-add_all ar 8 done.perf r.perf _ _ h same ∙ ap some plus_zero))

    rounds-NoLatency :
        (graph : Graph) (batch_size lin lout : ℕ) (pipe : Bool) (n : ℕ) (targets : List ℕ) (g : G)
        → All IsIdle graph.groups
        → HasFirst ar dep sys targets
        → Always NoLatency
            (add_batches ar dep sys graph batch_size lin lout pipe n 0 targets
              (no_batches ar dep sys)
              g).0
    unfolding add_batches
    rounds-NoLatency graph batch_size lin lout pipe n targets g idle (bs, rest, e) =
        let first = simulate_batch ar dep sys graph batch_size lin lout pipe bs g in
        rw e (
          continue_with-both NoLatency NoLatency _ first.0 first.1
            (simulate_batch-NoLatency graph batch_size lin lout pipe bs g idle)
            (λ r s same.
              add_batches-NoLatency graph batch_size lin lout pipe n 0 rest r s idle same))

    simulate-NoLatency :
        (batch_size lin lout num_reqs : ℕ) (pipe : Bool) (image_size : ImageSize) (g : G)
        → lout ≤ 1
        → Always NoLatency (simulate ar dep sys batch_size lin lout num_reqs pipe image_size g).0
    unfolding simulate
    simulate-NoLatency batch_size lin lout num_reqs pipe image_size g one =
        continue_with-both (λ (graph : Graph). All IsIdle graph.groups) NoLatency _
          (build dep.floats sys.model batch_size lin lout (is_hetero sys.hetero_name)
            (chosen_routing sys) image_size)
          g
          (build-IsIdle sys.model batch_size lin lout one dep.floats (is_hetero sys.hetero_name)
            (chosen_routing sys) image_size)
          (λ graph s1 idle.
            continue_with-both (HasFirst ar dep sys) NoLatency _ _ s1
              (target_bs-HasFirst ar dep sys batch_size num_reqs)
              (λ targets s2 has_first.
                rounds-NoLatency graph batch_size lin lout pipe _ targets s2 idle has_first))

    module _ (labels : Labels ck) where
      report-Raises :
          (batch_size lin lout : ℕ) (pipe power_constraint : Bool) (r : BatchResult ck.Time)
          → NoLatency r
          → Raises (report ar labels dep.num_xpu sys batch_size lin lout pipe power_constraint r)
      unfolding report
      report-Raises batch_size lin lout pipe power_constraint r none_left =
          bind-Raises (over ar labels.acc_bandwidth labels.gpu_bandwidth) _ (λ bw_scale.
            bind-Raises (over ar labels.gpu_flops labels.gpu_bandwidth) _ (λ opb.
              rw none_left
                (rw (divide_zero 1000 (omega arith)) (rw zero_is_zero (zero_division, refl)))))

      reported-Raises :
          {S : Type 0} (batch_size lin lout : ℕ) (pipe power_constraint : Bool)
          (r : Result (BatchResult ck.Time)) (s : S)
          → Always NoLatency r
          → Raises
              (continue_with
                (λ r.
                  pure
                    (report ar labels dep.num_xpu sys batch_size lin lout pipe power_constraint r))
                r
                s).0
      reported-Raises batch_size lin lout pipe power_constraint (ok r) s h =
          report-Raises batch_size lin lout pipe power_constraint r h
      reported-Raises batch_size lin lout pipe power_constraint (raise e) s h = (e, refl)

      -- Where sums, multiples and quotients of a zero are zero, a request for at most one token raises an exception,
      -- whatever the model, the devices and the routing are.
      pub simulate_output-Raises :
          (batch_size lin lout num_reqs : ℕ) (pipe power_constraint : Bool) (image_size : ImageSize)
          (g : G)
          → lout ≤ 1
          → Raises
              (simulate_output ar dep labels sys batch_size lin lout num_reqs pipe power_constraint
                image_size g).0
      unfolding simulate_output
      simulate_output-Raises batch_size lin lout num_reqs pipe power_constraint image_size g one =
          let simulated = simulate ar dep sys batch_size lin lout num_reqs pipe image_size g in
          reported-Raises batch_size lin lout pipe power_constraint simulated.0 simulated.1
            (simulate-NoLatency batch_size lin lout num_reqs pipe image_size g one)
