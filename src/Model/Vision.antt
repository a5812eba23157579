-- ===== src/Model/Vision.antt =====
-- The token counts of `class Transformer`: `_normalize_image_size`, `select_best_resolution` and the four
-- `compute_…` methods. The floating-point operations of `select_best_resolution` are a parameter.
pub mod Best
pub mod Tokens
use attacc_simulator_vlm.Prelude.{
  ℕ, ◌+◌, ◌-◌, ◌*◌, min, max, Bool, true, ◌&&◌, ◌||◌, not, List, [], ◌∷◌, Option, none, some, ltb,
  ◌==◌, if◌then◌else◌, ceil_div, Result, ok, raise, index_error, zero_division, ◌>>=◌,
}
use attacc_simulator_vlm.Model.Arith.{int_div}
use attacc_simulator_vlm.Model.Transformer.{Transformer}

-- Python's floats, as far as the scaling of an image uses them.
pub record Floats : Type 1 where
  pub F : Type 0
  -- `a / b` of two integers, `b` not 0
  pub quotient : ℕ → ℕ → F
  -- `min(x, y)`
  pub smaller : F → F → F
  -- `int(a * x)` of an integer
  pub scaled : ℕ → F → ℕ

-- `None`, a pair, or a number.
pub data ImageSize : Type 0 where
  no_size : ImageSize
  pair : ℕ → ℕ → ImageSize
  number : ℕ → ImageSize

abbrev pub normalize_image_size : ImageSize → Option (ℕ × ℕ)
normalize_image_size no_size = none
normalize_image_size (pair w h) = some (w, h)
normalize_image_size (number n) = some (n, n)

module _ (fl : Floats) where
  open fl use {quotient, smaller, scaled}

  -- The pixels of the image that a grid shows.
  pub effective : ℕ × ℕ → ℕ × ℕ → ℕ
  effective (original_w, original_h) (width, height) =
      let scale = smaller (quotient width original_w) (quotient height original_h) in
      let down_w = min (scaled original_w scale) width in
      let down_h = min (scaled original_h scale) height in
      min (down_w * down_h) (original_w * original_h)

  pub wasted : ℕ × ℕ → ℕ × ℕ → ℕ
  unfolding effective
  wasted image (width, height) = width * height - effective image (width, height)

  -- `max_effective` and `min_wasted`; `none` is their start, -1 and `None`.
  abbrev pub is_better : ℕ → ℕ → Option (ℕ × ℕ) → Bool
  is_better eff waste none = true
  is_better eff waste (some (max_effective, min_wasted)) =
      ltb max_effective eff || (eff == max_effective && ltb waste min_wasted)

  -- The loop of `select_best_resolution`.
  pub best_from : ℕ × ℕ → List (ℕ × ℕ) → Option (ℕ × ℕ) → ℕ × ℕ → ℕ × ℕ
  unfolding effective wasted
  best_from image [] bounds best_fit = best_fit
  best_from image (r ∷ rs) bounds best_fit =
      let eff = effective image r in
      let waste = wasted image r in
      let better = is_better eff waste bounds in
      best_from image rs (if better then some (eff, waste) else bounds)
        (if better then r else best_fit)

  unfoldable pub select_best_resolution : ℕ × ℕ → List (ℕ × ℕ) → Result (ℕ × ℕ)
  unfolding best_from
  select_best_resolution (original_w, original_h) [] = raise index_error
  select_best_resolution (original_w, original_h) (r ∷ rs) =
      if original_w == 0 || original_h == 0
      then raise zero_division
      else ok (best_from (original_w, original_h) (r ∷ rs) none r)

  module _ (t : Transformer) where
    -- `not self.is_anyres or not self.image_grid_pinpoints`
    abbrev pub single_grid : Bool
    single_grid = elim t.image_grid_pinpoints [ [] ↦ true | _ ∷ _ ↦ not t.is_anyres ]

    -- `(image_size_default, image_size_default)` where no size is given
    abbrev pub size_or_default : Option (ℕ × ℕ) → ℕ × ℕ
    size_or_default none = (t.image_size_default, t.image_size_default)
    size_or_default (some size) = size

    -- `(width // patch_size) * (height // patch_size)`
    abbrev pub patches : ℕ × ℕ → Result ℕ
    patches (width, height) = do
      columns ← int_div width t.patch_size
      rows ← int_div height t.patch_size
      ok (columns * rows)

    abbrev pub base_patches : Result ℕ
    base_patches = do side ← int_div t.image_size_default t.patch_size; ok (side * side)

    abbrev pub merged : Option (ℕ × ℕ) → Result ℕ
    merged none = ok t.num_vis_tokens_per_image
    merged (some size) =
        if ltb 0 t.patch_size
        then (do
          raw ← patches size
          tokens ← int_div raw (t.spatial_merge_size * t.spatial_merge_size)
          ok (max 1 tokens))
        else ok t.num_vis_tokens_per_image

    unfoldable pub compute_visual_tokens : ImageSize → Result ℕ
    unfolding select_best_resolution
    compute_visual_tokens image_size =
        let size = normalize_image_size image_size in
        if t.num_vis_tokens_per_image == 0
        then ok 0
        else (if single_grid then merged size else (do
          grid ← select_best_resolution (size_or_default size) t.image_grid_pinpoints
          n_patches ← patches grid
          base ← base_patches
          newline ← int_div grid.1 t.patch_size
          ok (n_patches + (if t.use_image_newline_parameter then newline else 0) + base)))

    abbrev pub vit_tokens_of : Option (ℕ × ℕ) → Result ℕ
    vit_tokens_of none =
        if ltb 1 t.spatial_merge_size
        then ok (t.num_vis_tokens_per_image * (t.spatial_merge_size * t.spatial_merge_size))
        else patches (t.image_size_default, t.image_size_default)
    vit_tokens_of (some size) = patches size

    unfoldable pub compute_vit_tokens : ImageSize → Result ℕ
    compute_vit_tokens image_size =
        if t.num_vis_tokens_per_image == 0 || t.patch_size == 0
        then ok 0
        else (if single_grid then vit_tokens_of (normalize_image_size image_size) else base_patches)

    unfoldable pub compute_vit_attention_tokens : ImageSize → Result ℕ
    unfolding compute_vit_tokens
    compute_vit_attention_tokens image_size = compute_vit_tokens image_size

    unfoldable pub compute_vit_num_images : ImageSize → Result ℕ
    unfolding select_best_resolution
    compute_vit_num_images image_size =
        if t.num_vis_tokens_per_image == 0
        then ok 0
        else (if single_grid then ok 1 else (do
          grid ←
              select_best_resolution (size_or_default (normalize_image_size image_size))
                t.image_grid_pinpoints
          base ← base_patches
          grid_patches ← patches grid
          ok (1 + ceil_div grid_patches (max 1 base))))
