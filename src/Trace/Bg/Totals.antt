-- ===== src/Trace/Bg/Totals.antt =====
-- The bank-group generator (pim_ramulator_src/trace_gen/gen_trace_attacc_bg.py): the lists of one call of
-- `Attention` have the shape that the interleaving expects, and its traces are counted.
use attacc_simulator_vlm.Prelude.{
  ℕ, suc, ◌+◌, ◌-◌, ◌*◌, ◌<◌, ◌≤◌, ◌≡◌, refl, ap, ceil_div_pos, ◌∙◌, range, length, ceil_div, arith,
  All-map, All-flat_map,
}
use attacc_simulator_vlm.Trace.Command.{
  Command, Settings, n_rank, n_bg, pim_wr_gb, pim_mac_sb, pim_mv_sb, pim_mv_gb, pim_sfm,
}
use attacc_simulator_vlm.Trace.Gs
use attacc_simulator_vlm.Trace.Head.{softmax}
use attacc_simulator_vlm.Trace.Select.{wrgb, mac, mvsb, mvgb, sfm, AllOf}
use attacc_simulator_vlm.Trace.Channels.{length-over_channels, over_channels-AllOf}
use attacc_simulator_vlm.Trace.Rows.{
  length-range_map, length-rows, length-range_rows, length-every_sixteenth,
  length-concat-every_sixteenth, All-every_sixteenth,
}
use attacc_simulator_vlm.Trace.Schedule.Parts.{IsHead, first_row}
use attacc_simulator_vlm.Trace.Schedule.Counts.{PerChannel, Counts}
use attacc_simulator_vlm.Trace.Schedule.Runs.{Shape}
use attacc_simulator_vlm.Trace.Bg.{
  dhead_cols, score_rows, mvgb_cols, score_cpvec, score_mac_row, score_mac, score_mvsb_part,
  score_mvsb, context_cpvec, context_mac_row, context_mac, context_mvsb_part, context_mvsb,
  attention, generator,
}

-- The commands of a head for each channel.
abbrev pub per_channel : Settings → ℕ → PerChannel
per_channel s L = record {
  writes = dhead_cols s;
  score_macs = score_rows s L * dhead_cols s;
  score_moves = ceil_div (score_rows s L) 16 * (n_bg * n_rank);
  gemv_moves = n_rank * n_bg * mvgb_cols s L;
  context_macs = dhead_cols s * score_rows s L;
  context_moves = dhead_cols s * n_rank;
}

length-softmax : (vc : ℕ) → length (softmax vc) ≡ vc
unfolding softmax
length-softmax vc = length-over_channels vc pim_sfm 0 0

softmax-AllOf : (vc : ℕ) → AllOf sfm (softmax vc)
unfolding softmax
softmax-AllOf vc = over_channels-AllOf vc pim_sfm 0 0

module _ (s : Settings) (vc a : ℕ) where
  length-score_cpvec : length (score_cpvec s vc a) ≡ dhead_cols s * vc
  unfolding score_cpvec
  length-score_cpvec =
      length-range_map _ vc (dhead_cols s) (λ c. length-over_channels vc pim_wr_gb a c)

  score_cpvec-AllOf : AllOf wrgb (score_cpvec s vc a)
  unfolding score_cpvec
  score_cpvec-AllOf =
      All-flat_map _ _ (range (dhead_cols s)) (λ c. over_channels-AllOf vc pim_wr_gb a c)

  length-score_mac_row : (n : ℕ) → length (score_mac_row s vc a n) ≡ dhead_cols s * vc
  unfolding score_mac_row
  length-score_mac_row n =
      length-range_map _ vc (dhead_cols s) (λ k. length-over_channels vc pim_mac_sb a _)

  score_mac_row-AllOf : (n : ℕ) → AllOf mac (score_mac_row s vc a n)
  unfolding score_mac_row
  score_mac_row-AllOf n =
      All-flat_map _ _ (range (dhead_cols s)) (λ k. over_channels-AllOf vc pim_mac_sb a _)

  length-score_mvsb_part : length (score_mvsb_part s vc a) ≡ (n_bg * n_rank) * vc
  unfolding score_mvsb_part
  length-score_mvsb_part =
      length-range_map _ (n_rank * vc) n_bg (λ bg.
        length-range_map _ vc n_rank
          (λ r. length-over_channels vc pim_mv_sb a (r * Gs.rank + bg * Gs.bg)))
      ∙ omega arith

  score_mvsb_part-AllOf : AllOf mvsb (score_mvsb_part s vc a)
  unfolding score_mvsb_part
  score_mvsb_part-AllOf = All-flat_map _ _ (range n_bg) (λ bg.
      All-flat_map _ _ (range n_rank)
        (λ r. over_channels-AllOf vc pim_mv_sb a (r * Gs.rank + bg * Gs.bg)))

  length-context_mvsb_part : length (context_mvsb_part s vc a) ≡ n_rank * vc
  unfolding context_mvsb_part
  length-context_mvsb_part =
      length-range_map _ vc n_rank (λ r. length-over_channels vc pim_mv_sb a (r * Gs.rank))

  context_mvsb_part-AllOf : AllOf mvsb (context_mvsb_part s vc a)
  unfolding context_mvsb_part
  context_mvsb_part-AllOf =
      All-flat_map _ _ (range n_rank) (λ r. over_channels-AllOf vc pim_mv_sb a (r * Gs.rank))

  module _ (L : ℕ) where
    length-context_cpvec : length (context_cpvec s vc a L) ≡ n_rank * n_bg * mvgb_cols s L * vc
    unfolding context_cpvec
    length-context_cpvec =
        length-range_map _ (n_bg * (mvgb_cols s L * vc)) n_rank (λ r.
          length-range_map _ (mvgb_cols s L * vc) n_bg (λ bg.
            length-range_map _ vc (mvgb_cols s L)
              (λ c. length-over_channels vc pim_mv_gb a (r * Gs.rank + bg * Gs.bg + c))))
        ∙ omega arith

    context_cpvec-AllOf : AllOf mvgb (context_cpvec s vc a L)
    unfolding context_cpvec
    context_cpvec-AllOf = All-flat_map _ _ (range n_rank) (λ r. All-flat_map _ _ (range n_bg) (λ bg.
        All-flat_map _ _ (range (mvgb_cols s L))
          (λ c. over_channels-AllOf vc pim_mv_gb a (r * Gs.rank + bg * Gs.bg + c))))

    length-context_mac_row : (n : ℕ) → length (context_mac_row s vc a L n) ≡ score_rows s L * vc
    unfolding context_mac_row
    length-context_mac_row n =
        length-range_map _ vc (score_rows s L) (λ k. length-over_channels vc pim_mac_sb a _)

    context_mac_row-AllOf : (n : ℕ) → AllOf mac (context_mac_row s vc a L n)
    unfolding context_mac_row
    context_mac_row-AllOf n =
        All-flat_map _ _ (range (score_rows s L)) (λ k. over_channels-AllOf vc pim_mac_sb a _)

module _ (s : Settings) (L : ℕ) (some_tokens : 0 < L) (some_dims : 0 < s.dhead)
    (some_macs : 0 < s.n_mac) where
  dummies_fit : (vc a : ℕ) → vc ≤ length (first_row (score_mac s vc a L))
  unfolding score_mac
  dummies_fit vc a =
      let m = score_rows s L - 1 in
      let rows : score_rows s L ≡ suc m = omega arith in
      rw rows (
        grind
          (arith, length-score_mac_row s vc a 0, ceil_div_pos s.dhead s.n_mac some_dims some_macs))

  attention-IsHead : (vc key val : ℕ) → IsHead (generator s) L (attention s vc L key val)
  unfolding attention generator score_mac score_mvsb context_mac context_mvsb
  attention-IsHead vc key val = record {
    wrgb_of = score_cpvec-AllOf s vc key;
    mac_of =
        All-map (AllOf mac) (score_mac_row s vc key) (range (score_rows s L))
          (score_mac_row-AllOf s vc key);
    mvsb_of =
        All-every_sixteenth (AllOf mvsb) (score_mvsb_part s vc key) (score_rows s L)
          (score_mvsb_part-AllOf s vc key);
    sfm_of = softmax-AllOf vc;
    mvgb_of = context_cpvec-AllOf s vc val L;
    context_mac_of =
        All-map (AllOf mac) (context_mac_row s vc val L) (range (dhead_cols s))
          (context_mac_row-AllOf s vc val L);
    context_mvsb_of =
        All-map (AllOf mvsb) (λ _. context_mvsb_part s vc val) (range (dhead_cols s))
          (λ _. context_mvsb_part-AllOf s vc val);
    rows_fit = omega (arith, length-range_rows (score_mac_row s vc key) (score_rows s L));
    moves_fit = omega (arith, length-every_sixteenth (score_mvsb_part s vc key) (score_rows s L));
    context_rows_fit = length-range_rows (context_mac_row s vc val L) (dhead_cols s);
    context_moves_fit = length-range_rows (λ _. context_mvsb_part s vc val) (dhead_cols s);
    dummy_fits = dummies_fit vc key;
  }

  attention-Counts :
      (vc key val : ℕ) → Counts (generator s) L (per_channel s L) (attention s vc L key val)
  unfolding attention generator score_mac score_mvsb context_mac context_mvsb
  attention-Counts vc key val = record {
    count_wrgb = length-score_cpvec s vc key;
    count_score_mac = omega (
      arith,
      length-rows (score_mac_row s vc key) (dhead_cols s * vc) (score_rows s L)
          (length-score_mac_row s vc key),
    );
    count_score_mvsb = omega (
      arith,
      length-concat-every_sixteenth (score_mvsb_part s vc key) (score_rows s L),
      ap (λ (n : ℕ). ceil_div (score_rows s L) 16 * n) (length-score_mvsb_part s vc key),
    );
    count_sfm = length-softmax vc;
    count_mvgb = length-context_cpvec s vc val L;
    count_context_mac = omega (
      arith,
      length-rows (context_mac_row s vc val L) (score_rows s L * vc) (dhead_cols s)
          (length-context_mac_row s vc val L),
    );
    count_context_mvsb = omega (
      arith,
      length-rows (λ _. context_mvsb_part s vc val) (n_rank * vc) (dhead_cols s)
          (λ _. length-context_mvsb_part s vc val),
    );
    total_wrgb = refl;
    total_mvgb = refl;
    dummies_fit = dummies_fit vc key;
  }

  pub generator-Shape : Shape (generator s) L (per_channel s L)
  unfolding generator attention
  generator-Shape = record {
    channel = λ vc key val. refl;
    head = attention-IsHead;
    counts = attention-Counts;
  }
