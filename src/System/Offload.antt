-- ===== src/System/Offload.antt =====
-- The layers of a block that a group sends to a PIM device: the device takes each of them, and only the score
-- layer goes to the wrapper of the simulator.
use attacc_simulator_vlm.Prelude.{
  ℕ, ◌+◌, ◌*◌, ◌/◌, ◌≡◌, refl, sym, ap, Bool, true, false, List, [], ◌∷◌, ◌++◌, All, All-append,
  Result, ok, raise, arith,
}
use attacc_simulator_vlm.Model.Types.{
  LayerType, LayerName, FfnType, gated, standard, score, gen, matmul, x2g, fc,
}
use attacc_simulator_vlm.Model.Layer.{Layer}
use attacc_simulator_vlm.Model.Routing.{Place}
use attacc_simulator_vlm.Model.Transformer.{Transformer}
use attacc_simulator_vlm.Model.Decoder.{build_gen_stage}
use attacc_simulator_vlm.Model.Decoder.Splits.{IsSharded, item, plain, ffn_items, after_items}
use attacc_simulator_vlm.Model.Decoder.GenWork.{gen_items, build_gen_stage-items}
use attacc_simulator_vlm.Ramulator.Machine.{Pandas, Clock, Host}
use attacc_simulator_vlm.Ramulator.Statements.{Store, Action, continue_with, pure, ◌>>=◌}
use attacc_simulator_vlm.Ramulator.{Setup, output}
use attacc_simulator_vlm.Devices.Pim.{
  Pim, has_score, no_energies, charge, typed_cost, get_time_and_energy,
}
use attacc_simulator_vlm.System.{select_acc_device, is_offloaded}
use attacc_simulator_vlm.System.Group.{device_cost, timed, simulate_block}
use attacc_simulator_vlm.System.Perf.{Timed}

-- A product whose name has `score` in it.
abbrev is_score : LayerType → LayerName → Bool
is_score LayerType.matmul name = has_score name
is_score _ name = false

abbrev IsQuiet : Layer → Type 0
IsQuiet layer = is_score layer.type layer.name ≡ false

-- A result without its value.
abbrev pub outcome : {A : Type 0} → Result A → Result (Unit {0})
outcome (ok a) = ok tt
outcome (raise e) = raise e

typed_cost-quiet :
    {pd : Pandas} {ck : Clock} (pim : Pim ck) (layer : Layer)
    (simulated : Action (Store pd) (ck.Time × List ℕ)) (s : Store pd) (type : LayerType)
    → is_offloaded type ≡ true
    → is_score type layer.name ≡ false
    → (cost : ck.Time × List ℕ) × (typed_cost type pim layer simulated s ≡ (ok cost, s))
typed_cost-quiet pim layer simulated s LayerType.matmul h k =
    ((pim.no_time, no_energies), rw k refl)
typed_cost-quiet pim layer simulated s LayerType.softmax h k = (_, refl)
typed_cost-quiet pim layer simulated s LayerType.x2g h k = (_, refl)
typed_cost-quiet pim layer simulated s LayerType.fc h k = absurd (grind arith)
typed_cost-quiet pim layer simulated s LayerType.act h k = absurd (grind arith)
typed_cost-quiet pim layer simulated s LayerType.norm h k = absurd (grind arith)
typed_cost-quiet pim layer simulated s LayerType.g2g h k = absurd (grind arith)

module _ (pd : Pandas) (ck : Clock) (host : Host) (su : Setup) (pim : Pim ck) where
  -- What the wrapper and the charge make of a layer.
  abbrev pub scored : Layer → Action (Store pd) (ck.Time × List ℕ)
  scored layer = output pd ck host su pim.pim_type layer pim.power_constraint >>= λ found.
      pure (charge pim layer found)

  -- A run returns or raises as `scored` does, and leaves the wrapper's store as it does.
  abbrev pub AsksOnce :
      {G : Type 0} → Layer → Store pd → Result (List (Timed ck)) × (G × Store pd) → Type 0
  AsksOnce layer s (r, after) =
      (outcome r ≡ outcome (scored layer s).0) × (after.1 ≡ (scored layer s).1)

module _ {G : Type 0} (pd : Pandas) (ck : Clock) (host : Host) (su : Setup) (pim : Pim ck)
    (gpu : Layer → Action G (ck.Time × List ℕ))
    (gpu_returns : (layer : Layer) (g : G)
      → (cost : ck.Time × List ℕ) × (after : G) × (gpu layer g ≡ (ok cost, after))) where
  device_cost-quiet :
      (b : Bool) (layer : Layer) (g : G) (s : Store pd)
      → select_acc_device Place.pim layer.type ≡ b
      → IsQuiet layer
      → (cost : ck.Time × List ℕ) × (after : G) × (device_cost pd ck host su pim gpu b layer (g, s)
          ≡ (ok cost, (after, s)))
  unfolding get_time_and_energy
  device_cost-quiet true layer g s h k =
      let (cost, same) =
        typed_cost-quiet pim layer (output pd ck host su pim.pim_type layer pim.power_constraint) s
          layer.type h k in
      (cost, g, ap (λ (p : Result (ck.Time × List ℕ) × Store pd). (p.0, (g, p.1))) same)
  device_cost-quiet false layer g s h k =
      let (cost, after, same) = gpu_returns layer g in
      (cost, after, ap (λ (p : Result (ck.Time × List ℕ) × G). (p.0, (p.1, s))) same)

  -- Layers that are no scores leave the store of the wrapper as it is.
  simulate_block-quiet :
      (layers : List Layer) (g : G) (s : Store pd)
      → All IsQuiet layers
      → (costs : List (Timed ck)) × (after : G) × (simulate_block
            (device_cost pd ck host su pim gpu)
            Place.pim
            layers
            (g, s)
          ≡ (ok costs, (after, s)))
  unfolding simulate_block
  simulate_block-quiet [] g s h = ([], g, refl)
  simulate_block-quiet (layer ∷ rest) g s h =
      let (cost, next, first) = device_cost-quiet _ layer g s refl h.0 in
      let (costs, after, later) = simulate_block-quiet rest next s h.1 in
      (
        timed (device_cost pd ck host su pim gpu) layer cost ∷ costs,
        after,
        rw first (rw later refl),
      )

  scored-typed :
      (type : LayerType) (layer : Layer) (s : Store pd)
      → is_score type layer.name ≡ true
      → (select_acc_device Place.pim type ≡ true)
        × (typed_cost type pim layer
              (output pd ck host su pim.pim_type layer pim.power_constraint)
              s
            ≡ scored pd ck host su pim layer s)
  scored-typed LayerType.matmul layer s h = (refl, rw h refl)
  scored-typed LayerType.softmax layer s h = absurd (grind arith)
  scored-typed LayerType.x2g layer s h = absurd (grind arith)
  scored-typed LayerType.fc layer s h = absurd (grind arith)
  scored-typed LayerType.act layer s h = absurd (grind arith)
  scored-typed LayerType.norm layer s h = absurd (grind arith)
  scored-typed LayerType.g2g layer s h = absurd (grind arith)

  device_cost-scored :
      (layer : Layer) (g : G) (s : Store pd)
      → is_score layer.type layer.name ≡ true
      → device_cost pd ck host su pim gpu (select_acc_device Place.pim layer.type) layer (g, s)
        ≡ ((scored pd ck host su pim layer s).0, (g, (scored pd ck host su pim layer s).1))
  unfolding get_time_and_energy
  device_cost-scored layer g s h =
      let (on_acc, same) = scored-typed layer.type layer s h in
      rw on_acc (ap (λ (p : Result (ck.Time × List ℕ) × Store pd). (p.0, (g, p.1))) same)

  -- Layers behind a result that are no scores.
  rest-AsksOnce :
      (layer : Layer) (behind : List Layer) (g : G) (s : Store pd)
      → All IsQuiet behind
      → (r : Result (ck.Time × List ℕ)) (after : Store pd)
      → (scored pd ck host su pim layer s).0 ≡ r
      → (scored pd ck host su pim layer s).1 ≡ after
      → AsksOnce pd ck host su pim layer s (
          continue_with
            (λ cost.
              simulate_block (device_cost pd ck host su pim gpu) Place.pim behind >>= λ costs.
              pure (ok (timed (device_cost pd ck host su pim gpu) layer cost ∷ costs)))
            r
            (g, after))
  rest-AsksOnce layer behind g s quiet (raise e) after h k = (rw h refl, sym k)
  rest-AsksOnce layer behind g s quiet (ok cost) after h k =
      let (costs, last, later) = simulate_block-quiet behind g after quiet in
      rw later (rw h refl, sym k)

  cons-AsksOnce :
      (layer : Layer) (s : Store pd) (item : Timed ck) (r : Result (List (Timed ck)))
      (after : G × Store pd)
      → AsksOnce pd ck host su pim layer s (r, after)
      → AsksOnce pd ck host su pim layer s
          (continue_with (λ costs. pure (ok (item ∷ costs))) r after)
  cons-AsksOnce layer s item (ok costs) after h = h
  cons-AsksOnce layer s item (raise e) after h = h

  simulate_block-AsksOnce :
      (before : List Layer) (layer : Layer) (behind : List Layer) (g : G) (s : Store pd)
      → All IsQuiet before
      → is_score layer.type layer.name ≡ true
      → All IsQuiet behind
      → AsksOnce pd ck host su pim layer s (
          simulate_block
            (device_cost pd ck host su pim gpu)
            Place.pim
            (before ++ layer ∷ behind)
            (g, s))
  unfolding simulate_block
  simulate_block-AsksOnce [] layer behind g s h k q =
      rw (device_cost-scored layer g s k) (rest-AsksOnce layer behind g s q _ _ refl refl)
  simulate_block-AsksOnce (first ∷ before) layer behind g s h k q =
      let (cost, next, done) = device_cost-quiet _ first g s refl h.0 in
      rw done
        (cons-AsksOnce layer s _ _ _ (simulate_block-AsksOnce before layer behind next s h.1 k q))

module _ (t : Transformer) (dbyte : ℕ) where
  ffn_items-IsQuiet : (f : FfnType) (tokens w : ℕ) → All IsQuiet (ffn_items t dbyte f gen tokens w)
  ffn_items-IsQuiet gated tokens w = (refl, (refl, (refl, (refl, tt))))
  ffn_items-IsQuiet standard tokens w = (refl, (refl, (refl, tt)))

  after_items-IsQuiet : (tokens : ℕ) → All IsQuiet (after_items t dbyte gen tokens)
  after_items-IsQuiet tokens = (
    refl,
    (
      refl,
      (
        refl,
        All-append IsQuiet (ffn_items t dbyte t.ffn_type gen tokens (t.ff_intermediate / t.ff_tp)) _
            (ffn_items-IsQuiet t.ffn_type tokens _) (refl, (refl, tt)),
      ),
    ),
  )

-- The attention of a generation block, as the wrapper is asked for it.
abbrev pub score_of : Transformer → (dbyte batch kv_len : ℕ) → Layer
score_of t dbyte batch kv_len =
    item t dbyte gen score matmul false 1 kv_len t.dhead (t.num_q_heads / t.attn_tp * batch)
      (t.num_kv_heads / t.attn_tp * batch)

-- For a model whose shards are even and a GPU that raises nothing, a generation block for an accelerator
-- that is simulated on a PIM device asks the wrapper once, for the scores of lin + stage keys: it returns
-- where the charge for the answer does, raises what that raises and nothing else, and leaves the store of
-- the wrapper as that one call does.
pub simulate_block-build_gen_stage :
    {G : Type 0} (pd : Pandas) (ck : Clock) (host : Host) (su : Setup) (pim : Pim ck)
    (gpu : Layer → Action G (ck.Time × List ℕ))
    (gpu_returns : (layer : Layer) (g : G)
      → (cost : ck.Time × List ℕ) × (after : G) × (gpu layer g ≡ (ok cost, after)))
    (t : Transformer) (dbyte : ℕ)
    → IsSharded t dbyte
    → (batch lin stage : ℕ) (g : G) (s : Store pd)
    → (decoder : List Layer) × (build_gen_stage t batch lin stage true ≡ ok decoder)
      × AsksOnce pd ck host su pim
          (score_of t dbyte batch (lin + stage))
          s
          (simulate_block (device_cost pd ck host su pim gpu) Place.pim decoder (g, s))
simulate_block-build_gen_stage pd ck host su pim gpu gpu_returns t dbyte v batch lin stage g s =
    let qkv_size = t.qkv_proj_out_total / t.fc_tp in
    (
      gen_items t dbyte batch (lin + stage) true,
      build_gen_stage-items t dbyte v batch lin stage true,
      simulate_block-AsksOnce pd ck host su pim gpu gpu_returns
          (plain t dbyte gen LayerName.qkv fc true batch qkv_size t.hdim
            ∷ plain t dbyte gen LayerName.comm_x2g_qkv x2g false batch qkv_size 1
            ∷ [])
          (score_of t dbyte batch (lin + stage)) _ g s (refl, (refl, tt)) refl
          (refl, (refl, (refl, after_items-IsQuiet t dbyte batch))),
    )
