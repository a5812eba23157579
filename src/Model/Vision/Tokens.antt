-- ===== src/Model/Vision/Tokens.antt =====
-- How the token counts of the vision part belong together.
use attacc_simulator_vlm.Prelude.{
  ℕ, ◌+◌, ◌-◌, ◌*◌, ◌/◌, ◌<◌, ◌≤◌, ◌≡◌, max, true, false, List, ◌∷◌, ◌==◌, ltb, arith, ok, ceil_div,
  if◌then◌else◌,
}
use attacc_simulator_vlm.Model.Transformer.{Transformer}
use attacc_simulator_vlm.Model.Vision.{
  Floats, pair, single_grid, select_best_resolution, compute_visual_tokens, compute_vit_tokens,
  compute_vit_num_images,
}
use attacc_simulator_vlm.Model.Vision.Best.{select_best_resolution-NoBetter}

tiles_hold :
    (grid lines base : ℕ)
    → 0 < base
    → grid + lines + base ≤ base * (1 + ceil_div grid (max 1 base)) + lines
tiles_hold grid lines base h =
    let same : max 1 base ≡ base = omega arith in
    let whole : grid ≤ base * ((grid + (base - 1)) / base) = omega arith in rw same (omega arith)

tiles_needed :
    (grid lines base : ℕ)
    → 0 < base
    → base * (1 + ceil_div grid (max 1 base)) < grid + lines + base + base
tiles_needed grid lines base h =
    let same : max 1 base ≡ base = omega arith in
    let part : base * ((grid + (base - 1)) / base) < grid + base = omega arith in
    rw same (omega arith)

square_pos : (size patch : ℕ) → 0 < patch → patch ≤ size → 0 < (size / patch) * (size / patch)
square_pos size patch h k = let side : 0 < size / patch = grind arith in grind arith

module _ (fl : Floats) (t : Transformer) (some_tokens : 0 < t.num_vis_tokens_per_image)
    (some_pixels : 0 < t.patch_size) where
  -- Without the grids of AnyRes, an image of a given size has as many tokens as the vision part has
  -- patches, merged in squares, and at least one.
  pub compute_visual_tokens-compute_vit_tokens :
      (w h : ℕ)
      → single_grid fl t ≡ true
      → 0 < t.spatial_merge_size
      → (patches : ℕ) × (compute_vit_tokens fl t (pair w h) ≡ ok patches)
        × (compute_visual_tokens fl t (pair w h)
            ≡ ok (max 1 (patches / (t.spatial_merge_size * t.spatial_merge_size))))
  unfolding compute_visual_tokens compute_vit_tokens
  compute_visual_tokens-compute_vit_tokens w h single some_merge =
      let tokens : (t.num_vis_tokens_per_image == 0) ≡ false = ground arith in
      let pixels : (t.patch_size == 0) ≡ false = ground arith in
      let sized : ltb 0 t.patch_size ≡ true = ground arith in
      let merge : (t.spatial_merge_size * t.spatial_merge_size == 0) ≡ false = grind arith in
      (
        (w / t.patch_size) * (h / t.patch_size),
        rw (tokens, pixels, single),
        rw (tokens, single, sized, pixels, merge),
      )

  -- With AnyRes and a patch_size of at most image_size_default, the language model receives at most
  -- as many tokens as the vision part works on patches, over all its tiles, and, with the newline
  -- parameter, one more for each patch of the height of the selected grid; and it receives more
  -- tokens than there are patches on all tiles but one.
  pub compute_visual_tokens-le :
      (w h : ℕ) (r : ℕ × ℕ) (rs : List (ℕ × ℕ))
      → t.image_grid_pinpoints ≡ r ∷ rs
      → t.is_anyres ≡ true
      → 0 < w
      → 0 < h
      → t.patch_size ≤ t.image_size_default
      → (tokens patches images : ℕ) × (compute_visual_tokens fl t (pair w h) ≡ ok tokens)
        × (compute_vit_tokens fl t (pair w h) ≡ ok patches)
        × (compute_vit_num_images fl t (pair w h) ≡ ok images)
        × (grid : ℕ × ℕ) × (select_best_resolution fl (w, h) (r ∷ rs) ≡ ok grid)
        × (tokens
            ≤ patches * images
              + (if t.use_image_newline_parameter then grid.1 / t.patch_size else 0))
        × (patches * images < tokens + patches)
  unfolding compute_visual_tokens compute_vit_tokens compute_vit_num_images
  compute_visual_tokens-le w h r rs grids anyres some_width some_height fits =
      let tokens : (t.num_vis_tokens_per_image == 0) ≡ false = ground arith in
      let pixels : (t.patch_size == 0) ≡ false = ground arith in
      let (best, selected, _, _) =
        select_best_resolution-NoBetter fl w h r rs some_width some_height in
      let base = (t.image_size_default / t.patch_size) * (t.image_size_default / t.patch_size) in
      let grid = (best.0 / t.patch_size) * (best.1 / t.patch_size) in
      let lines = if t.use_image_newline_parameter then best.1 / t.patch_size else 0 in
      let some_base = square_pos t.image_size_default t.patch_size some_pixels fits in
      (
        grid + lines + base,
        base,
        1 + ceil_div grid (max 1 base),
        rw (tokens, grids, anyres, selected, pixels),
        rw (tokens, pixels, grids, anyres),
        rw (tokens, grids, anyres, selected, pixels),
        best,
        selected,
        tiles_hold grid lines base some_base,
        tiles_needed grid lines base some_base,
      )
