-- ===== src/Trace/Schedule/Counts.antt =====
-- What counts as one trace line of each kind, over heads whose lists are multiples of their channels.
use attacc_simulator_vlm.Prelude.{
  ℕ, ◌+◌, ◌*◌, ◌%◌, ◌≤◌, ◌≡◌, Bool, true, false, List, [], ◌∷◌, if◌then◌else◌, length,
  length-append, concat, ceil_div,
}
use attacc_simulator_vlm.Trace.Head.{Head}
use attacc_simulator_vlm.Trace.Select.{Kind, wrgb, mac, mvgb, sfm, sync}
use attacc_simulator_vlm.Trace.Schedule.Parts.{first_row}
use attacc_simulator_vlm.Trace.Schedule.Phases.{
  pick, score_syncs, context_syncs, wrgb_handed, mvgb_handed,
}
use attacc_simulator_vlm.Trace.Schedule.Traces.{only, dummies, trace_out}
use attacc_simulator_vlm.Trace.Schedule.{Generator, barrier}

-- The commands of a head for each of its channels.
pub record PerChannel : Type 0 where
  pub writes : ℕ
  pub score_macs : ℕ
  pub score_moves : ℕ
  pub gemv_moves : ℕ
  pub context_macs : ℕ
  pub context_moves : ℕ

pub record Counts (g : Generator) (L : ℕ) (p : PerChannel) (h : Head) : Type 0 where
  pub count_wrgb : length h.score_wrgb ≡ p.writes * h.valid_channel
  pub count_score_mac : length (concat h.score_mac) ≡ p.score_macs * h.valid_channel
  pub count_score_mvsb : length (concat h.score_mvsb) ≡ p.score_moves * h.valid_channel
  pub count_sfm : length h.sfm ≡ h.valid_channel
  pub count_mvgb : length h.context_mvgb ≡ p.gemv_moves * h.valid_channel
  pub count_context_mac : length (concat h.context_mac) ≡ p.context_macs * h.valid_channel
  pub count_context_mvsb : length (concat h.context_mvsb) ≡ p.context_moves * h.valid_channel
  pub total_wrgb : g.wrgb_total h.valid_channel ≡ p.writes * h.valid_channel
  pub total_mvgb : g.mvgb_total L h.valid_channel ≡ p.gemv_moves * h.valid_channel
  pub dummies_fit : h.valid_channel ≤ length (first_row h.score_mac)

abbrev pub channels : List Head → ℕ
channels [] = 0
channels (h ∷ hs) = h.valid_channel + channels hs

-- The dummy MACs: one for each channel of the first head, if it has a partner.
abbrev pub dummy_count : List Head → ℕ
dummy_count [] = 0
dummy_count (h ∷ []) = 0
dummy_count (h ∷ h' ∷ hs) = h.valid_channel

module _ (g : Generator) (L : ℕ) where
  -- What the strides of the overlap leave out of the writes of each second head.
  abbrev pub lost_wrgb : List Head → ℕ
  lost_wrgb [] = 0
  lost_wrgb (h ∷ []) = 0
  lost_wrgb (h0 ∷ h1 ∷ hs) = g.wrgb_total h1.valid_channel % g.score_length L + lost_wrgb hs

  -- What the strides leave out of the moves to the GEMV buffer.
  abbrev pub lost_mvgb : List Head → ℕ
  lost_mvgb [] = 0
  lost_mvgb (h ∷ []) = 0
  lost_mvgb (h0 ∷ h1 ∷ hs) =
      g.mvgb_total L h0.valid_channel % ceil_div (g.score_length L) 2
      + (g.mvgb_total L h1.valid_channel % ceil_div g.context_length 2 + lost_mvgb hs)

  abbrev pub barrier_rounds : List Head → ℕ
  barrier_rounds [] = 0
  barrier_rounds (h ∷ []) = 2 + g.score_length L + g.context_length
  barrier_rounds (h0 ∷ h1 ∷ hs) =
      1 + 2 * g.score_length L + 2 * g.context_length + barrier_rounds hs

module _ (g : Generator) (L : ℕ) (k : Kind) where
  -- The length of a trace, part by part.
  pub length-pair :
      (first : Bool) (h0 h1 : Head) (hs : List Head)
      → length (trace_out g L k first (h0 ∷ h1 ∷ hs))
        ≡ length (only k wrgb h0.score_wrgb)
          + (length (only k mac (if first then dummies h0 else []))
              + (length (only k sync barrier)
                  + (length (
                        pick k true
                          (concat h0.score_mac)
                          (concat h0.score_mvsb)
                          []
                          (wrgb_handed g L h1)
                          (score_syncs g L))
                      + (length (
                            pick k false
                              (concat h1.score_mac)
                              (concat h1.score_mvsb)
                              h0.sfm
                              (mvgb_handed g L (g.score_length L) h0)
                              (score_syncs g L))
                          + (length (
                                pick k false
                                  (concat h0.context_mac)
                                  (concat h0.context_mvsb)
                                  h1.sfm
                                  (mvgb_handed g L g.context_length h1)
                                  (context_syncs g L))
                              + length (
                                  pick k true
                                    (concat h1.context_mac)
                                    (concat h1.context_mvsb)
                                    []
                                    []
                                    (context_syncs g L)))))))
          + length (trace_out g L k false hs)
  length-pair first h0 h1 hs = simp length-append

  pub length-last :
      (first : Bool) (h : Head)
      → length (trace_out g L k first (h ∷ []))
        ≡ length (only k wrgb h.score_wrgb)
          + (length (only k sync barrier)
              + (length
                    (pick k true (concat h.score_mac) (concat h.score_mvsb) [] [] (score_syncs g L))
                  + (length (only k sfm h.sfm)
                      + (length (only k mvgb h.context_mvgb)
                          + (length (only k sync barrier)
                              + length (
                                  pick k true
                                    (concat h.context_mac)
                                    (concat h.context_mvsb)
                                    []
                                    []
                                    (context_syncs g L)))))))
  length-last first h = simp length-append
