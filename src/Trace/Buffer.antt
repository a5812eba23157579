-- ===== src/Trace/Buffer.antt =====
-- The buffer-level generator, pim_ramulator_src/trace_gen/gen_trace_attacc_buffer.py: the commands that
-- one call of `Attention` emits.
pub mod Totals
pub mod Placement
use attacc_simulator_vlm.Prelude.{
  ℕ, ◌+◌, ◌*◌, ◌/◌, ◌%◌, List, [], map, range, flat_map, ceil_div, Result, ◌>>=◌, ◌>>◌,
}
use attacc_simulator_vlm.Trace.Command.{
  Command, Settings, settings_of, n_pch, n_rank, n_bank, n_bg, pim_wr_gb, pim_mac_pb, pim_mv_sb,
  pim_mv_gb,
}
use attacc_simulator_vlm.Trace.Gs
use attacc_simulator_vlm.Trace.Head.{Head, over_channels, softmax, every_sixteenth}
use attacc_simulator_vlm.Trace.Schedule.{Generator, stride_of, first_ceil, run_attention}

-- The place of the column `idx` of a pseudo channel: bank groups and ranks first, then banks, then
-- columns, then rows.
unfoldable pub place : ℕ → ℕ
place idx =
    let bg_idx = idx % (n_bg * n_rank) in
    let num_bg_indices = idx / (n_bg * n_rank) in
    let bank_idx = num_bg_indices % n_bank in
    let num_bank_indices = num_bg_indices / n_bank in
    let col_idx = num_bank_indices % (Gs.row / Gs.col) in
    let row_idx = num_bank_indices / (Gs.row / Gs.col) in
    bg_idx * Gs.bg + bank_idx * Gs.ba + row_idx * Gs.row + col_idx * Gs.col

module _ (s : Settings) where
  -- `math.ceil(dhead / n_mac)`
  abbrev pub dhead_cols : ℕ
  dhead_cols = ceil_div s.dhead s.n_mac

  -- `math.ceil(L / n_pch)`
  abbrev pub score_rows : ℕ → ℕ
  score_rows L = ceil_div L n_pch

  -- `math.ceil(L / (n_pch * n_mac))`
  abbrev pub mvgb_cols : ℕ → ℕ
  mvgb_cols L = ceil_div L (n_pch * s.n_mac)

module _ (s : Settings) (vc : ℕ) where
  unfoldable pub score_cpvec : ℕ → List Command
  score_cpvec addr_offset =
      flat_map (λ col_idx. over_channels vc pim_wr_gb addr_offset col_idx) (range (dhead_cols s))

  -- The row that `score_mac` appends for `n_idx`.
  unfoldable pub score_mac_row : ℕ → ℕ → List Command
  score_mac_row addr_offset n_idx =
      flat_map
        (λ k_idx. over_channels vc pim_mac_pb addr_offset (place (k_idx + n_idx * (dhead_cols s))))
        (range (dhead_cols s))

  unfoldable pub score_mac : ℕ → ℕ → List (List Command)
  score_mac addr_offset L = map (score_mac_row addr_offset) (range (score_rows s L))

  -- The move to the softmax buffer, one for every sixteen rows and one behind the last row.
  unfoldable pub score_mvsb_part : ℕ → List Command
  score_mvsb_part addr_offset = over_channels vc pim_mv_sb addr_offset 0

  unfoldable pub score_mvsb : ℕ → ℕ → List (List Command)
  score_mvsb addr_offset L = every_sixteenth (score_rows s L) (score_mvsb_part addr_offset)

  unfoldable pub context_cpvec : ℕ → ℕ → List Command
  context_cpvec addr_offset L =
      flat_map (λ col_idx. over_channels vc pim_mv_gb addr_offset col_idx) (range (mvgb_cols s L))

  unfoldable pub context_mac_row : ℕ → ℕ → ℕ → List Command
  context_mac_row addr_offset L n_idx =
      flat_map
        (λ k_idx. over_channels vc pim_mac_pb addr_offset (place (k_idx + n_idx * score_rows s L)))
        (range (score_rows s L))

  unfoldable pub context_mac : ℕ → ℕ → List (List Command)
  context_mac addr_offset L = map (context_mac_row addr_offset L) (range (dhead_cols s))

  unfoldable pub context_mvsb_part : ℕ → List Command
  context_mvsb_part addr_offset = over_channels vc pim_mv_sb addr_offset 0

  unfoldable pub context_mvsb : ℕ → List (List Command)
  context_mvsb addr_offset = map (λ _. context_mvsb_part addr_offset) (range (dhead_cols s))

  -- The commands of `Attention(L, key_addr, val_addr, itr, vc)`.
  unfoldable pub attention : ℕ → ℕ → ℕ → Head
  attention L key_addr val_addr = record {
    score_wrgb = score_cpvec key_addr;
    score_mac = score_mac key_addr L;
    score_mvsb = score_mvsb key_addr L;
    sfm = softmax vc;
    context_mvgb = context_cpvec val_addr L;
    context_mac = context_mac val_addr L;
    context_mvsb = context_mvsb val_addr;
    valid_channel = vc;
  }

unfoldable pub generator : Settings → Generator
generator s = record {
  attention = attention s;
  score_length = λ L. ceil_div L (n_pch * 16);
  context_length = dhead_cols s;
  wrgb_total = λ vc. dhead_cols s * vc;
  mvgb_total = λ L vc. mvgb_cols s L * vc;
}

-- `main()`, with the values of `--dhead`, `--nhead`, `--seqlen`, `--maxlen` and `--dbyte`.
unfoldable pub main : ℕ → ℕ → ℕ → ℕ → ℕ → Result (List Command)
unfolding generator
main dhead nhead seqlen maxlen dbyte = do
  n_mac ← stride_of Gs.col dbyte
  _ ← first_ceil dhead n_mac nhead
  let s = settings_of dhead maxlen n_mac
  run_attention (generator s) s nhead seqlen []
