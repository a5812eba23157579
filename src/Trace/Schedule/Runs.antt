-- ===== src/Trace/Schedule/Runs.antt =====
-- What `run_attention` writes, for a generator whose heads have the shape that the loops expect.
use attacc_simulator_vlm.Prelude.{
  ℕ, zero, suc, ◌+◌, ◌*◌, ◌≡◌, refl, ◌∙◌, true, List, [], map, range, range_from, Result, ok, raise,
  length, length-map, length-range, ceil_div, All, All-map,
}
use attacc_simulator_vlm.Trace.Command.{Command, Settings, n_channel}
use attacc_simulator_vlm.Trace.Head.{Head}
use attacc_simulator_vlm.Trace.Select.{Kind, wrgb, mac, mvsb, mvgb, sfm, sync, select, selected}
use attacc_simulator_vlm.Trace.Schedule.Parts.{IsHead}
use attacc_simulator_vlm.Trace.Schedule.Traces.{trace_out}
use attacc_simulator_vlm.Trace.Schedule.Interleave.{selected-interleave}
use attacc_simulator_vlm.Trace.Schedule.Generate.{
  head_of, generate-eq-map, channels_from, channels_sum,
}
use attacc_simulator_vlm.Trace.Schedule.Counts.{
  PerChannel, Counts, channels, dummy_count, lost_wrgb, lost_mvgb, barrier_rounds,
}
use attacc_simulator_vlm.Trace.Schedule.Totals.{
  length-sfm_out, length-mvsb_out, length-wrgb_out, length-mvgb_out, length-mac_out,
  length-sync_out,
}
use attacc_simulator_vlm.Trace.Schedule.{Generator, channels_at, cmd_list_reset, run_attention}

-- What a generator promises of the commands of each call of `Attention`.
pub record Shape (g : Generator) (L : ℕ) (p : PerChannel) : Type 0 where
  pub channel : (vc key val : ℕ) → (g.attention vc L key val).valid_channel ≡ vc
  pub head : (vc key val : ℕ) → IsHead g L (g.attention vc L key val)
  pub counts : (vc key val : ℕ) → Counts g L p (g.attention vc L key val)

-- The number of lines of each kind in a trace for `n_head` heads.
pub record TraceCounts (g : Generator) (L : ℕ) (p : PerChannel) (n_head : ℕ) (heads : List Head)
    (t : List Command) : Type 0 where
  -- one softmax for each head
  pub softmaxes : length (select sfm t) ≡ n_head
  -- every move to the softmax buffer
  pub moves : length (select mvsb t) ≡ (p.score_moves + p.context_moves) * n_head
  -- every MAC, and the dummy MACs
  pub macs : length (select mac t) ≡ (p.score_macs + p.context_macs) * n_head + dummy_count heads
  -- the GEMV-buffer commands, but for what the strides leave out
  pub writes : length (select wrgb t) + lost_wrgb g L heads ≡ p.writes * n_head
  pub gemv_moves : length (select mvgb t) + lost_mvgb g L heads ≡ p.gemv_moves * n_head
  pub barriers : length (select sync t) ≡ barrier_rounds g L heads * n_channel

selected-eq-ok :
    (k : Kind) (r : Result (List Command)) {out : List Command}
    → selected k r ≡ ok out
    → (t : List Command) × (r ≡ ok t) × (select k t ≡ out)
selected-eq-ok k (ok t) e = (t, refl, cc)
selected-eq-ok k (raise x) e = cc

-- The entries that the calls of `Attention` fill.
abbrev pub heads_of : Generator → Settings → ℕ → ℕ → List Head
heads_of g s L n_head = map (head_of g s L n_head) (range (ceil_div n_head n_channel))

module _ (g : Generator) (s : Settings) (L : ℕ) {p : PerChannel} (shape : Shape g L p)
    (n_head : ℕ) where
  channels_of :
      (itr k : ℕ)
      → channels (map (head_of g s L n_head) (range_from itr k)) ≡ channels_from n_head itr k
  channels_of itr zero = refl
  channels_of itr (suc k) = rw (shape.channel (channels_at n_head itr) _ _, channels_of (suc itr) k)

  pub channels-heads_of : channels (heads_of g s L n_head) ≡ n_head
  channels-heads_of = channels_of 0 (ceil_div n_head n_channel) ∙ channels_sum n_head

  pub selected-run_attention :
      (k : Kind)
      → selected k (run_attention g s n_head L [])
        ≡ ok (trace_out g L k true (heads_of g s L n_head))
  unfolding run_attention cmd_list_reset
  selected-run_attention k = rw (generate-eq-map g s L n_head (ceil_div n_head n_channel)) (
      rw
        (length-map (head_of g s L n_head) (range (ceil_div n_head n_channel))
          ∙ length-range (ceil_div n_head n_channel))
        at
        (selected-interleave g L k (heads_of g s L n_head) (
          All-map (IsHead g L) (head_of g s L n_head) (range (ceil_div n_head n_channel))
            (λ itr. shape.head _ _ _))))

  heads_of-Counts : All (Counts g L p) (heads_of g s L n_head)
  heads_of-Counts =
      All-map (Counts g L p) (head_of g s L n_head) (range (ceil_div n_head n_channel))
        (λ itr. shape.counts _ _ _)

  -- The run succeeds, and its trace has the counted lines.
  pub run_attention-counts :
      (t : List Command) × (run_attention g s n_head L [] ≡ ok t)
      × TraceCounts g L p n_head (heads_of g s L n_head) t
  run_attention-counts =
      let (t, returns, _) =
        selected-eq-ok sfm (run_attention g s n_head L []) (selected-run_attention sfm) in
      let lines : (k : Kind) → select k t ≡ trace_out g L k true (heads_of g s L n_head) =
        λ k. cc (selected-run_attention k, returns) in
      let total = channels-heads_of in
      (
        t,
        returns,
        record {
          softmaxes =
              rw (lines sfm)
                (length-sfm_out g L p true (heads_of g s L n_head) heads_of-Counts ∙ total);
          moves =
              rw (lines mvsb)
                (rw total at (length-mvsb_out g L p true (heads_of g s L n_head) heads_of-Counts));
          macs =
              rw (lines mac)
                (rw total at (length-mac_out g L p (heads_of g s L n_head) heads_of-Counts));
          writes =
              rw (lines wrgb)
                (rw total at (length-wrgb_out g L p true (heads_of g s L n_head) heads_of-Counts));
          gemv_moves =
              rw (lines mvgb)
                (rw total at (length-mvgb_out g L p true (heads_of g s L n_head) heads_of-Counts));
          barriers = rw (lines sync) (length-sync_out g L p true (heads_of g s L n_head));
        },
      )
