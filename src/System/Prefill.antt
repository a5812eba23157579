-- ===== src/System/Prefill.antt =====
-- `_simulate_pim_prefill_score` (src/system.py): the score layer of a prefill on the accelerator, from a sample
-- of its chunks. The energies of a prefill, which nothing reads, are left out.
use attacc_simulator_vlm.Prelude.{
  ℕ, ◌-◌, max, Bool, true, ◌==◌, leb, if◌then◌else◌, List, [], ◌∷◌, length, range, Option, some, ok,
  raise, index_error,
}
use attacc_simulator_vlm.Model.Layer.{Layer, new_layer}
use attacc_simulator_vlm.Ramulator.Machine.{Clock}
use attacc_simulator_vlm.Ramulator.Statements.{Action, pure, ◌>>=◌}
use attacc_simulator_vlm.Devices.Arithmetic.{Arithmetic, zero_time}
use attacc_simulator_vlm.System.{
  chunk_size_of, n_chunks_of, chunk_tokens, accumulated_l, sample_indices,
}
use attacc_simulator_vlm.System.Group.{Device}

module _ {ck : Clock} (ar : Arithmetic ck) where
  -- `y0 + (y1 - y0) * ((x - x0) / max(1, x1 - x0))`, for indices that ascend.
  abbrev pub between_points : (x0 x1 x : ℕ) → (y0 y1 : ck.Time) → ck.Time
  between_points x0 x1 x y0 y1 =
      ar.plus y0
        (ar.times (ar.minus y1 y0) (ar.divide (ar.of_nat (x - x0)) (ar.of_nat (max 1 (x1 - x0)))))

  -- `points[-1]`
  abbrev pub last_point : ℕ × ck.Time → List (ℕ × ck.Time) → ℕ × ck.Time
  last_point point [] = point
  last_point point (next ∷ rest) = last_point next rest

  -- The loop over neighbouring points.
  unfoldable pub interp_loop : ℕ × ck.Time → List (ℕ × ck.Time) → ℕ → ck.Time
  interp_loop (x0, y0) [] x = y0
  interp_loop (x0, y0) ((x1, y1) ∷ rest) x =
      let later = interp_loop (x1, y1) rest x in
      if leb x x1 then between_points x0 x1 x y0 y1 else later

  -- `_interp_scalar`, for points in the order of their indices.
  unfoldable pub interp_scalar : List (ℕ × ck.Time) → ℕ → Option (ck.Time)
  unfolding interp_loop
  interp_scalar [] x = Option.none
  interp_scalar ((x0, y0) ∷ rest) x =
      let (last, y) = last_point (x0, y0) rest in
      some (if leb x x0 then y0 else (if leb last x then y else interp_loop (x0, y0) rest x))

  -- `sampled_time[sample_indices.index(chunk_idx)][1]`
  unfoldable pub sampled_at : List (ℕ × ck.Time) → ℕ → Option (ck.Time)
  sampled_at [] i = Option.none
  sampled_at ((j, y) ∷ rest) i = let later = sampled_at rest i in if i == j then some y else later

  -- The last loop: the times of all chunks, sampled or interpolated.
  unfoldable pub chunk_times :
      (exact : Bool) → List (ℕ × ck.Time) → List ℕ → ck.Time → Option (ck.Time)
  unfolding interp_scalar sampled_at
  chunk_times exact points [] acc = some acc
  chunk_times exact points (i ∷ rest) acc =
      elim (if exact then sampled_at points i else interp_scalar points i) [
        | Option.none ↦ Option.none
        | some t ↦ chunk_times exact points rest (ar.plus acc t)
      ]

module _ {ck : Clock} {G : Type 0} (ar : Arithmetic ck) (device : Device ck G)
    (rounded : ℕ → ℕ → ℕ → ℕ) where
  -- The loop over the sampled chunks: for each its time, `time_per_query * chunk_tokens`.
  unfoldable pub sample_times : Layer → (chunk_size : ℕ) → List ℕ → Action G (List (ℕ × ck.Time))
  sample_times layer chunk_size [] = pure (ok [])
  sample_times layer chunk_size (chunk_idx ∷ rest) = do
    sub_layer ← pure (
        new_layer layer.stage layer.name layer.type layer.has_weight layer.dtype 1
          (accumulated_l chunk_size layer.n chunk_idx) layer.k layer.num_op (some layer.pim_num_op))
    (time, energy) ← device true sub_layer
    points ← sample_times layer chunk_size rest
    pure (
        ok (
          (chunk_idx, ar.times time (ar.of_nat (chunk_tokens chunk_size layer.n chunk_idx)))
          ∷ points))

  unfoldable pub simulate_pim_prefill_score :
      (prefill_chunk_size prefill_sample_count : ℕ) → Layer → Action G (ck.Time)
  unfolding sample_times chunk_times
  simulate_pim_prefill_score prefill_chunk_size prefill_sample_count layer =
      let chunk_size = chunk_size_of prefill_chunk_size layer.n in
      let n_chunks = n_chunks_of chunk_size layer.n in
      let indices = sample_indices rounded n_chunks prefill_sample_count in
      sample_times layer chunk_size indices >>= λ points.
      pure
        (elim (chunk_times ar (length indices == n_chunks) points (range n_chunks) (zero_time ar)) [
          | Option.none ↦ raise index_error
          | some t ↦ ok t
        ])
