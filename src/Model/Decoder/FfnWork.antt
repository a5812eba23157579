-- ===== src/Model/Decoder/FfnWork.antt =====
-- The FLOPs of the FC layers behind the attention over all devices, and that there are no others of
-- the kinds that `Work` sums.
use attacc_simulator_vlm.Prelude.{ℕ, ◌+◌, ◌*◌, ◌/◌, ◌≡◌, refl, false, List, [], ◌∷◌, arith}
use attacc_simulator_vlm.Model.Types.{Stage, FfnType, gated, standard, g2g, norm, comm_g2g, norm2}
use attacc_simulator_vlm.Model.Layer.{Layer, get_flops}
use attacc_simulator_vlm.Model.Work.{
  is_fc, is_matmul, is_softmax, is_x2g, flops, x2g_bytes, out_bytes, ffn_matrices, sum_over-append,
  without_x2g, without_x2g-append,
}
use attacc_simulator_vlm.Model.Transformer.{Transformer}
use attacc_simulator_vlm.Model.Decoder.Splits.{
  IsSharded, split-mul, split-mul_same, plain, ffn_items, after_items,
}

module _ (t : Transformer) (dbyte : ℕ) (v : IsSharded t dbyte) where
  ffn_flops :
      (f : FfnType) (stage : Stage) (tokens : ℕ)
      → flops is_fc (ffn_items t dbyte f stage tokens (t.ff_intermediate / t.ff_tp)) * t.fc_tp
        ≡ 2 * tokens * t.hdim * (ffn_matrices f * t.ff_intermediate)
  unfolding get_flops
  ffn_flops gated stage tokens =
      omega (arith, split-mul_same v.intermediate v.one_size (tokens * t.hdim))
  ffn_flops standard stage tokens =
      omega (arith, split-mul_same v.intermediate v.one_size (tokens * t.hdim))

  ffn_matmul :
      (f : FfnType) (stage : Stage) (tokens w : ℕ)
      → flops is_matmul (ffn_items t dbyte f stage tokens w) ≡ 0
  ffn_matmul gated stage tokens w = refl
  ffn_matmul standard stage tokens w = refl

  ffn_softmax :
      (f : FfnType) (stage : Stage) (tokens w : ℕ)
      → flops is_softmax (ffn_items t dbyte f stage tokens w) ≡ 0
  ffn_softmax gated stage tokens w = refl
  ffn_softmax standard stage tokens w = refl

  ffn_x2g :
      (f : FfnType) (stage : Stage) (tokens w : ℕ)
      → x2g_bytes (ffn_items t dbyte f stage tokens w) ≡ 0
  ffn_x2g gated stage tokens w = refl
  ffn_x2g standard stage tokens w = refl

  module _ (stage : Stage) (tokens : ℕ) where
    abbrev tail : List Layer
    tail =
        plain t dbyte stage comm_g2g g2g false tokens t.hdim 1
        ∷ plain t dbyte stage norm2 norm false tokens t.hdim 1
        ∷ []

    abbrev ffn : List Layer
    ffn = ffn_items t dbyte t.ffn_type stage tokens (t.ff_intermediate / t.ff_tp)

    pub after_flops :
        flops is_fc (after_items t dbyte stage tokens) * t.fc_tp
        ≡ 2 * tokens * t.hdim * (t.hdim + ffn_matrices t.ffn_type * t.ff_intermediate)
    unfolding get_flops
    after_flops =
        rw (sum_over-append is_fc get_flops ffn tail)
          (omega (arith, ffn_flops t.ffn_type stage tokens, split-mul v.hidden (tokens * t.hdim)))

    pub after_matmul : flops is_matmul (after_items t dbyte stage tokens) ≡ 0
    after_matmul =
        rw (sum_over-append is_matmul get_flops ffn tail, ffn_matmul t.ffn_type stage tokens _)

    pub after_softmax : flops is_softmax (after_items t dbyte stage tokens) ≡ 0
    after_softmax =
        rw (sum_over-append is_softmax get_flops ffn tail, ffn_softmax t.ffn_type stage tokens _)

    pub after_x2g : x2g_bytes (after_items t dbyte stage tokens) ≡ 0
    after_x2g = rw (sum_over-append is_x2g out_bytes ffn tail, ffn_x2g t.ffn_type stage tokens _)

module _ (t : Transformer) (dbyte : ℕ) where
  ffn_without_x2g :
      (f : FfnType) (stage : Stage) (tokens w : ℕ)
      → without_x2g (ffn_items t dbyte f stage tokens w) ≡ ffn_items t dbyte f stage tokens w
  ffn_without_x2g gated stage tokens w = refl
  ffn_without_x2g standard stage tokens w = refl

  pub after_without_x2g :
      (stage : Stage) (tokens : ℕ)
      → without_x2g (after_items t dbyte stage tokens) ≡ after_items t dbyte stage tokens
  after_without_x2g stage tokens = rw (
    without_x2g-append (ffn_items t dbyte t.ffn_type stage tokens (t.ff_intermediate / t.ff_tp)) _,
    ffn_without_x2g t.ffn_type stage tokens _,
  )
