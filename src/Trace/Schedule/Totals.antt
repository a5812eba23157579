-- ===== src/Trace/Schedule/Totals.antt =====
-- How many commands of each kind a trace holds, over heads whose lists are multiples of their
-- channels.
use attacc_simulator_vlm.Prelude.{
  ℕ, ◌+◌, ◌*◌, ◌/◌, ◌%◌, ◌≡◌, refl, Bool, true, false, List, [], ◌∷◌, arith, length,
  length-take_of_le, length-repeat, ceil_div, All,
}
use attacc_simulator_vlm.Trace.Command.{n_channel, pim_barrier}
use attacc_simulator_vlm.Trace.Channels.{length-over_channels}
use attacc_simulator_vlm.Trace.Head.{Head}
use attacc_simulator_vlm.Trace.Select.{wrgb, mac, mvsb, mvgb, sfm, sync}
use attacc_simulator_vlm.Trace.Schedule.Parts.{first_row}
use attacc_simulator_vlm.Trace.Schedule.Phases.{wrgb_handed, mvgb_handed}
use attacc_simulator_vlm.Trace.Schedule.Traces.{trace_out}
use attacc_simulator_vlm.Trace.Schedule.{Generator, barrier}
use attacc_simulator_vlm.Trace.Schedule.Counts.{
  PerChannel, Counts, channels, dummy_count, lost_wrgb, lost_mvgb, barrier_rounds, length-pair,
  length-last,
}

module _ (g : Generator) (L : ℕ) (p : PerChannel) where
  length-wrgb_handed :
      (h : Head)
      → Counts g L p h
      → length (wrgb_handed g L h) + g.wrgb_total h.valid_channel % g.score_length L
        ≡ p.writes * h.valid_channel
  length-wrgb_handed h c =
      let t = g.wrgb_total h.valid_channel in
      let n = g.score_length L in
      omega (
        arith,
        length-take_of_le (n * (t / n)) h.score_wrgb (grind (arith, c.count_wrgb, c.total_wrgb)),
        c.total_wrgb,
      )

  length-mvgb_handed :
      (n : ℕ) (h : Head)
      → Counts g L p h
      → length (mvgb_handed g L n h) + g.mvgb_total L h.valid_channel % ceil_div n 2
        ≡ p.gemv_moves * h.valid_channel
  length-mvgb_handed n h c =
      let t = g.mvgb_total L h.valid_channel in
      let m = ceil_div n 2 in
      omega (
        arith,
        length-take_of_le (m * (t / m)) h.context_mvgb (grind (arith, c.count_mvgb, c.total_mvgb)),
        c.total_mvgb,
      )

  pub length-sfm_out :
      (first : Bool) (hs : List Head)
      → All (Counts g L p) hs
      → length (trace_out g L sfm first hs) ≡ channels hs
  length-sfm_out first [] c = refl
  length-sfm_out first (h ∷ []) c = omega (arith, length-last g L sfm first h, c.0.count_sfm)
  length-sfm_out first (h0 ∷ h1 ∷ hs) (c0, (c1, c)) = omega (
    arith,
    length-pair g L sfm first h0 h1 hs,
    c0.count_sfm,
    c1.count_sfm,
    length-sfm_out false hs c,
  )

  pub length-mvsb_out :
      (first : Bool) (hs : List Head)
      → All (Counts g L p) hs
      → length (trace_out g L mvsb first hs) ≡ (p.score_moves + p.context_moves) * channels hs
  length-mvsb_out first [] c = omega arith
  length-mvsb_out first (h ∷ []) c =
      omega (arith, length-last g L mvsb first h, c.0.count_score_mvsb, c.0.count_context_mvsb)
  length-mvsb_out first (h0 ∷ h1 ∷ hs) (c0, (c1, c)) = omega (
    arith,
    length-pair g L mvsb first h0 h1 hs,
    c0.count_score_mvsb,
    c0.count_context_mvsb,
    c1.count_score_mvsb,
    c1.count_context_mvsb,
    length-mvsb_out false hs c,
  )

  pub length-wrgb_out :
      (first : Bool) (hs : List Head)
      → All (Counts g L p) hs
      → length (trace_out g L wrgb first hs) + lost_wrgb g L hs ≡ p.writes * channels hs
  length-wrgb_out first [] c = omega arith
  length-wrgb_out first (h ∷ []) c = omega (arith, length-last g L wrgb first h, c.0.count_wrgb)
  length-wrgb_out first (h0 ∷ h1 ∷ hs) (c0, (c1, c)) = omega (
    arith,
    length-pair g L wrgb first h0 h1 hs,
    c0.count_wrgb,
    length-wrgb_handed h1 c1,
    length-wrgb_out false hs c,
  )

  pub length-mvgb_out :
      (first : Bool) (hs : List Head)
      → All (Counts g L p) hs
      → length (trace_out g L mvgb first hs) + lost_mvgb g L hs ≡ p.gemv_moves * channels hs
  length-mvgb_out first [] c = omega arith
  length-mvgb_out first (h ∷ []) c = omega (arith, length-last g L mvgb first h, c.0.count_mvgb)
  length-mvgb_out first (h0 ∷ h1 ∷ hs) (c0, (c1, c)) = omega (
    arith,
    length-pair g L mvgb first h0 h1 hs,
    length-mvgb_handed (g.score_length L) h0 c0,
    length-mvgb_handed g.context_length h1 c1,
    length-mvgb_out false hs c,
  )

  length-mac_rest :
      (hs : List Head)
      → All (Counts g L p) hs
      → length (trace_out g L mac false hs) ≡ (p.score_macs + p.context_macs) * channels hs
  length-mac_rest [] c = omega arith
  length-mac_rest (h ∷ []) c =
      omega (arith, length-last g L mac false h, c.0.count_score_mac, c.0.count_context_mac)
  length-mac_rest (h0 ∷ h1 ∷ hs) (c0, (c1, c)) = omega (
    arith,
    length-pair g L mac false h0 h1 hs,
    c0.count_score_mac,
    c0.count_context_mac,
    c1.count_score_mac,
    c1.count_context_mac,
    length-mac_rest hs c,
  )

  pub length-mac_out :
      (hs : List Head)
      → All (Counts g L p) hs
      → length (trace_out g L mac true hs)
        ≡ (p.score_macs + p.context_macs) * channels hs + dummy_count hs
  length-mac_out [] c = omega arith
  length-mac_out (h ∷ []) c =
      omega (arith, length-last g L mac true h, c.0.count_score_mac, c.0.count_context_mac)
  length-mac_out (h0 ∷ h1 ∷ hs) (c0, (c1, c)) = omega (
    arith,
    length-pair g L mac true h0 h1 hs,
    c0.count_score_mac,
    c0.count_context_mac,
    c1.count_score_mac,
    c1.count_context_mac,
    length-take_of_le h0.valid_channel (first_row h0.score_mac) c0.dummies_fit,
    length-mac_rest hs c,
  )

  pub length-sync_out :
      (first : Bool) (hs : List Head)
      → length (trace_out g L sync first hs) ≡ barrier_rounds g L hs * n_channel
  length-sync_out first [] = omega arith
  length-sync_out first (h ∷ []) = omega (
    arith,
    length-last g L sync first h,
    length-over_channels n_channel pim_barrier 0 0,
    length-repeat (g.score_length L) barrier,
    length-repeat g.context_length barrier,
  )
  length-sync_out first (h0 ∷ h1 ∷ hs) = omega (
    arith,
    length-pair g L sync first h0 h1 hs,
    length-over_channels n_channel pim_barrier 0 0,
    length-repeat (g.score_length L) barrier,
    length-repeat g.context_length barrier,
    length-sync_out false hs,
  )
