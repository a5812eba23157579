-- ===== src/System/Batches.antt =====
-- The rest of `System.simulate` (src/system.py): the batches of the requests, and what is returned of them.
use attacc_simulator_vlm.Prelude.{
  ℕ, ◌-◌, ◌%◌, ◌≡◌, ◌<◌, refl, arith, max, Bool, ◌&&◌, ◌==◌, ltb, if◌then◌else◌, List, [], ◌∷◌,
  ◌++◌, map, ok, raise, zero_division, zero, suc, ◌/◌, length, Result, Always, Bool-cases, inl, inr,
}
use attacc_simulator_vlm.Model.Vision.{ImageSize}
use attacc_simulator_vlm.Model.Build.{Graph, build}
use attacc_simulator_vlm.Ramulator.Machine.{Clock}
use attacc_simulator_vlm.Ramulator.Statements.{Action, continue_with, pure, ◌>>=◌}
use attacc_simulator_vlm.Devices.Arithmetic.{Arithmetic}
use attacc_simulator_vlm.System.{
  System, Quotient, MemComponents, get_required_mem_capacity, is_hetero, chosen_routing,
}
use attacc_simulator_vlm.System.Simulate.{
  Deployment, no_totals, accumulate, add_all, add_vision, add_groups,
}

-- What a batch gives: times in milliseconds, energies in thousandths of the units of Config.Energy, the bytes
-- for each GPU, and the FLOPs for each step, before they are divided by `gen_steps`.
pub record BatchResult (T : Type 0) : Type 0 where
  pub perf : List T
  pub energies : List T
  pub cap_usage : T
  pub s_flops : Quotient
  pub g_flops : Quotient

-- Statements that go on alike.
continue_with-same :
    {S A B : Type 0} (f h : A → S → Result B × S) (r : Result A) (s : S)
    → ((a : A) (s : S) → f a s ≡ h a s)
    → continue_with f r s ≡ continue_with h r s
continue_with-same f h (ok a) s same = same a s
continue_with-same f h (raise e) s same = refl

module _ {ck : Clock} {G : Type 0} (ar : Arithmetic ck) (dep : Deployment ck G) (sys : System) where
  abbrev pub float_of : Quotient → ck.Time
  float_of q = ar.divide (ar.of_nat q.over) (ar.of_nat q.by)

  -- `sum(self.get_required_mem_capacity(bs, lin, lout))`
  abbrev pub capacity_sum : MemComponents → ck.Time
  capacity_sum c =
      ar.plus (ar.plus (ar.plus (ar.of_nat 0) (float_of c.weight_memory)) (float_of c.kv_memory))
        (ar.of_nat c.temp_memory)

  abbrev pub gen_steps : ℕ → ℕ
  gen_steps lout = max 1 (lout - 1)

  -- A round of `for itr, bs in enumerate(target_bs)`: the graph is the one that was built for `batch_size`.
  unfoldable pub simulate_batch :
      Graph → (batch_size lin lout : ℕ) → (pipe : Bool) → (bs : ℕ) → Action G (BatchResult ck.Time)
  simulate_batch graph batch_size lin lout pipe bs = do
    vision ← add_vision ar dep sys batch_size graph.vision_decoder (no_totals ar)
    totals ← add_groups ar dep sys batch_size (gen_steps lout) pipe graph.groups vision
    capacity ← pure (get_required_mem_capacity sys bs lin lout)
    pure (
        ok (record {
          perf = map (λ t. ar.times t (ar.of_nat 1000)) (totals.s_perf ++ totals.g_perf);
          energies = map (λ t. ar.divide t (ar.of_nat 1000)) totals.energy;
          cap_usage = capacity_sum capacity;
          s_flops = record { over = totals.s_flops; by = gen_steps lout };
          g_flops = record { over = totals.g_flops; by = gen_steps lout };
        }))

  -- `target_bs` and `num_batches`
  abbrev pub target_bs : (batch_size num_reqs : ℕ) → List ℕ
  target_bs batch_size num_reqs =
      let second_batch_size = num_reqs % batch_size in
      if ltb 0 num_reqs && ltb 0 second_batch_size
      then batch_size ∷ second_batch_size ∷ []
      else batch_size ∷ []

  abbrev pub num_batches : (batch_size num_reqs : ℕ) → ℕ
  num_batches batch_size num_reqs = if ltb 0 num_reqs then num_reqs / batch_size else 1

  -- The totals before the first round: `perf_all` and `energy_all` are empty.
  abbrev pub no_batches : BatchResult ck.Time
  no_batches = record {
    perf = [];
    energies = [];
    cap_usage = ar.of_nat 0;
    s_flops = record { over = 0; by = 1 };
    g_flops = record { over = 0; by = 1 };
  }

  -- The end of the round `itr`: times and energies are added to those so far, the rest is that of the round.
  abbrev pub merged :
      (itr num_batches : ℕ) → (done next : BatchResult ck.Time) → BatchResult ck.Time
  merged zero num_batches done next =
      if ltb 0 (length done.perf)
      then record next {
        perf = accumulate ar done.perf next.perf num_batches;
        energies = accumulate ar done.energies next.energies num_batches;
      }
      else next
  merged (suc itr) num_batches done next = record next {
    perf = add_all ar done.perf next.perf;
    energies = add_all ar done.energies next.energies;
  }

  -- `for itr, bs in enumerate(target_bs)`, from the round `itr` on.
  unfoldable pub add_batches :
      Graph
      → (batch_size lin lout : ℕ) → (pipe : Bool) → (num_batches itr : ℕ) → List ℕ
      → BatchResult ck.Time
      → Action G (BatchResult ck.Time)
  unfolding simulate_batch
  add_batches graph batch_size lin lout pipe num_batches itr [] done = pure (ok done)
  add_batches graph batch_size lin lout pipe num_batches itr (bs ∷ rest) done = do
    next ← simulate_batch graph batch_size lin lout pipe bs
    add_batches graph batch_size lin lout pipe num_batches (suc itr) rest
        (merged itr num_batches done next)

  -- `simulate`, for a system whose model is set.
  unfoldable pub simulate :
      (batch_size lin lout num_reqs : ℕ)
      → (pipe : Bool) → ImageSize
      → Action G (BatchResult ck.Time)
  unfolding add_batches
  simulate batch_size lin lout num_reqs pipe image_size = do
    graph ← pure (
        build dep.floats sys.model batch_size lin lout (is_hetero sys.hetero_name)
          (chosen_routing sys) image_size)
    targets ←
        pure (if batch_size == 0 then raise zero_division else ok (target_bs batch_size num_reqs))
    add_batches graph batch_size lin lout pipe (num_batches batch_size num_reqs) 0 targets
        no_batches

  -- There is a first round.
  abbrev pub HasFirst : List ℕ → Type 0
  HasFirst targets = (bs : ℕ) × (rest : List ℕ) × (targets ≡ bs ∷ rest)

  pub target_bs-HasFirst :
      (batch_size num_reqs : ℕ)
      → Always HasFirst
          (if batch_size == 0 then raise zero_division else ok (target_bs batch_size num_reqs))
  target_bs-HasFirst batch_size num_reqs = elim (Bool-cases (batch_size == 0)) [
    | inl none_asked ↦ rw none_asked tt
    | inr some_asked ↦
        rw some_asked (elim (Bool-cases (ltb 0 num_reqs && ltb 0 (num_reqs % batch_size))) [
          | inl more ↦ rw more (_, _, refl)
          | inr whole ↦ rw whole (_, _, refl)
        ])
  ]

  -- No round reads `num_batches`: behind the first the round number is positive, and in the first nothing has
  -- been added yet.
  add_batches-later :
      (graph : Graph) (batch_size lin lout : ℕ) (pipe : Bool) (m n itr : ℕ) (targets : List ℕ)
      (done : BatchResult ck.Time) (g : G)
      → add_batches graph batch_size lin lout pipe m (suc itr) targets done g
        ≡ add_batches graph batch_size lin lout pipe n (suc itr) targets done g
  unfolding add_batches
  add_batches-later graph batch_size lin lout pipe m n itr [] done g = refl
  add_batches-later graph batch_size lin lout pipe m n itr (bs ∷ rest) done g =
      let next = simulate_batch graph batch_size lin lout pipe bs g in
      continue_with-same _ _ next.0 next.1
        (λ r s. add_batches-later graph batch_size lin lout pipe m n (suc itr) rest _ s)

  add_batches-first :
      (graph : Graph) (batch_size lin lout : ℕ) (pipe : Bool) (m n : ℕ) (targets : List ℕ) (g : G)
      → add_batches graph batch_size lin lout pipe m 0 targets no_batches g
        ≡ add_batches graph batch_size lin lout pipe n 0 targets no_batches g
  unfolding add_batches
  add_batches-first graph batch_size lin lout pipe m n [] g = refl
  add_batches-first graph batch_size lin lout pipe m n (bs ∷ rest) g =
      let next = simulate_batch graph batch_size lin lout pipe bs g in
      continue_with-same _ _ next.0 next.1
        (λ r s. add_batches-later graph batch_size lin lout pipe m n 0 rest r s)

  mod_self : (a b : ℕ) → 0 < b → (a % b) % b ≡ a % b
  mod_self a b h = grind arith

  target_bs-mod :
      (batch_size num_reqs : ℕ)
      → 0 < batch_size
      → target_bs batch_size num_reqs ≡ target_bs batch_size (num_reqs % batch_size)
  target_bs-mod batch_size num_reqs h = grind (arith, mod_self)

  -- Where batch_size is not 0: whatever the devices do, the whole batches of the requests do not
  -- count, though the loop multiplies by their number in one branch. Any number of requests gives
  -- the results of its remainder.
  pub simulate-mod :
      (batch_size lin lout num_reqs : ℕ) (pipe : Bool) (image_size : ImageSize) (g : G)
      → 0 < batch_size
      → simulate batch_size lin lout num_reqs pipe image_size g
        ≡ simulate batch_size lin lout (num_reqs % batch_size) pipe image_size g
  unfolding simulate
  simulate-mod batch_size lin lout num_reqs pipe image_size g h =
      rw (target_bs-mod batch_size num_reqs h) (
        continue_with-same _ _
          (build dep.floats sys.model batch_size lin lout (is_hetero sys.hetero_name)
            (chosen_routing sys) image_size)
          g
          (λ graph s.
            continue_with-same _ _ _ s
              (λ targets s. add_batches-first graph batch_size lin lout pipe _ _ targets s)))
