-- ===== src/Trace/Schedule/Phases.antt =====
-- What each overlapping loop hands out, kind by kind, for heads of the shape that the generators
-- give them.
use attacc_simulator_vlm.Prelude.{
  ℕ, suc, ◌*◌, ◌/◌, ◌≡◌, ◌∙◌, Bool, true, false, List, [], if◌then◌else◌, Result, ok, or_raise,
  index_error, for_each, range, get_elem?, concat, take, repeat, ceil_div,
}
use attacc_simulator_vlm.Trace.Command.{Command}
use attacc_simulator_vlm.Trace.Head.{Head}
use attacc_simulator_vlm.Trace.Select.{Kind, wrgb, mac, mvsb, mvgb, sfm, sync, selected}
use attacc_simulator_vlm.Trace.Schedule.Loops.{
  unless_last-loop, nothing, nothing-loop, first-loop, repeat-loop, index-loop,
}
use attacc_simulator_vlm.Trace.Schedule.Chunks.{rows-loop, previous-loop, stride-loop, half-loop}
use attacc_simulator_vlm.Trace.Schedule.Parts.{
  IsHead, emits, Emits-previous, Emits-wrgb, Emits-mvgb, Emits-softmax, Emits-score, Emits-context,
  Emits-barrier,
}
use attacc_simulator_vlm.Trace.Schedule.Rounds.{part, Rounds, selected-loop}
use attacc_simulator_vlm.Trace.Schedule.{
  Generator, slice_from, barrier, overlap, previous, score_rows_at, context_row_at, softmax_at,
  barrier_at, wrgb_at, mvgb_at, score_with_wrgb, score_with_softmax, context_with_softmax,
  context_alone, score_alone,
}

-- What a loop has handed out of each kind.
abbrev pub pick : Kind → Bool → (a b c d e : List Command) → List Command
pick mac w a b c d e = a
pick mvsb w a b c d e = b
pick sfm w a b c d e = c
pick sync w a b c d e = e
pick wrgb w a b c d e = if w then d else []
pick mvgb w a b c d e = if w then [] else d

module _ {w : Bool} {n : ℕ} {a b c d e : ℕ → Result (List Command)} {A B C D E : List Command}
    (r : Rounds w n a b c d e) (ea : for_each a (range (suc n)) ≡ ok A)
    (eb : for_each b (range (suc n)) ≡ ok B) (ec : for_each c (range (suc n)) ≡ ok C)
    (ed : for_each d (range (suc n)) ≡ ok D) (ee : for_each e (range (suc n)) ≡ ok E) where
  parts-loop :
      (k : Kind) (v : Bool)
      → for_each (λ j. part k v (a j) (b j) (c j) (d j) (e j)) (range (suc n))
        ≡ ok (pick k v A B C D E)
  parts-loop mac v = ea
  parts-loop mvsb v = eb
  parts-loop sfm v = ec
  parts-loop sync v = ee
  parts-loop wrgb true = ed
  parts-loop wrgb false = nothing-loop 0 (suc n)
  parts-loop mvgb true = nothing-loop 0 (suc n)
  parts-loop mvgb false = ed

  -- A loop, from the closed forms of its five parts.
  loop-picks :
      (k : Kind)
      → selected k (for_each (λ j. overlap (a j) (b j) (c j) (d j) (e j)) (range (suc n)))
        ≡ ok (pick k w A B C D E)
  loop-picks k = selected-loop k r ∙ parts-loop k w

module _ (g : Generator) (L : ℕ) where
  abbrev pub score_syncs : List Command
  score_syncs = repeat (g.score_length L) barrier

  abbrev pub context_syncs : List Command
  context_syncs = repeat g.context_length barrier

  -- The writes to the GEMV buffer that the overlap with another head's score hands out.
  abbrev pub wrgb_handed : Head → List Command
  wrgb_handed h =
      take (g.score_length L * (g.wrgb_total h.valid_channel / g.score_length L)) h.score_wrgb

  -- The moves to the GEMV buffer that the second half of a loop of `n` rounds hands out.
  abbrev pub mvgb_handed : ℕ → Head → List Command
  mvgb_handed n h =
      take (ceil_div n 2 * (g.mvgb_total L h.valid_channel / ceil_div n 2)) h.context_mvgb

  barrier-loop : (n : ℕ) → for_each (barrier_at n) (range (suc n)) ≡ ok (repeat n barrier)
  barrier-loop n = unless_last-loop (λ _. ok barrier) n ∙ repeat-loop barrier 0 n

  score-loop :
      {h : Head}
      → IsHead g L h
      → for_each (λ j. score_rows_at (g.score_length L) j h) (range (suc (g.score_length L)))
        ≡ ok (concat h.score_mac)
  score-loop {h} v =
      unless_last-loop (λ j. ok (concat (slice_from 16 (j * 16) h.score_mac))) (g.score_length L)
      ∙ rows-loop 16 (g.score_length L) h.score_mac v.rows_fit

  context-loop :
      {h : Head}
      → IsHead g L h
      → for_each (λ j. context_row_at g.context_length j h) (range (suc g.context_length))
        ≡ ok (concat h.context_mac)
  context-loop {h} v =
      unless_last-loop (λ j. or_raise (get_elem? h.context_mac j) index_error) g.context_length
      ∙ index-loop index_error h.context_mac g.context_length v.context_rows_fit

  pub score_with_wrgb-picks :
      (k : Kind) {h0 h1 : Head}
      → IsHead g L h0
      → IsHead g L h1
      → selected k (score_with_wrgb g L h0 h1)
        ≡ ok (
            pick k true
              (concat h0.score_mac)
              (concat h0.score_mvsb)
              []
              (wrgb_handed h1)
              score_syncs)
  unfolding score_with_wrgb
  score_with_wrgb-picks k {h0} {h1} v0 v1 =
      let n = g.score_length L in
      let r : Rounds true n (λ j. score_rows_at n j h0) (previous h0.score_mvsb) nothing
          (λ j. wrgb_at g L n j h1) (barrier_at n) =
        record {
          macs = λ j le. Emits-score g L n j v0;
          moves = λ j le. Emits-previous g L n j h0.score_mvsb v0.mvsb_of v0.moves_fit le;
          softmaxes = λ j le. emits sfm [] tt;
          gemvs = λ j le. Emits-wrgb g L n j v1 le;
          syncs = λ j le. Emits-barrier n j;
        } in
      loop-picks r (score-loop v0) (previous-loop h0.score_mvsb n v0.moves_fit)
        (nothing-loop 0 (suc n))
        (unless_last-loop _ n ∙ stride-loop (g.wrgb_total h1.valid_channel) n h1.score_wrgb)
        (barrier-loop n) k

  pub score_with_softmax-picks :
      (k : Kind) {h0 h1 : Head}
      → IsHead g L h0
      → IsHead g L h1
      → selected k (score_with_softmax g L h0 h1)
        ≡ ok (
            pick k false
              (concat h1.score_mac)
              (concat h1.score_mvsb)
              h0.sfm
              (mvgb_handed (g.score_length L) h0)
              score_syncs)
  unfolding score_with_softmax
  score_with_softmax-picks k {h0} {h1} v0 v1 =
      let n = g.score_length L in
      let r : Rounds false n (λ j. score_rows_at n j h1) (previous h1.score_mvsb)
          (λ j. softmax_at j h0) (λ j. mvgb_at g L n j h0) (barrier_at n) =
        record {
          macs = λ j le. Emits-score g L n j v1;
          moves = λ j le. Emits-previous g L n j h1.score_mvsb v1.mvsb_of v1.moves_fit le;
          softmaxes = λ j le. Emits-softmax g L j v0;
          gemvs = λ j le. Emits-mvgb g L n j v0 le;
          syncs = λ j le. Emits-barrier n j;
        } in
      loop-picks r (score-loop v1) (previous-loop h1.score_mvsb n v1.moves_fit)
        (first-loop h0.sfm n)
        (unless_last-loop _ n ∙ half-loop (g.mvgb_total L h0.valid_channel) n h0.context_mvgb)
        (barrier-loop n) k

  pub context_with_softmax-picks :
      (k : Kind) {h0 h1 : Head}
      → IsHead g L h0
      → IsHead g L h1
      → selected k (context_with_softmax g L h0 h1)
        ≡ ok (
            pick k false
              (concat h0.context_mac)
              (concat h0.context_mvsb)
              h1.sfm
              (mvgb_handed g.context_length h1)
              context_syncs)
  unfolding context_with_softmax
  context_with_softmax-picks k {h0} {h1} v0 v1 =
      let n = g.context_length in
      let r : Rounds false n (λ j. context_row_at n j h0) (previous h0.context_mvsb)
          (λ j. softmax_at j h1) (λ j. mvgb_at g L n j h1) (barrier_at n) =
        record {
          macs = λ j le. Emits-context g L j v0 le;
          moves = λ j le.
              Emits-previous g L n j h0.context_mvsb v0.context_mvsb_of v0.context_moves_fit le;
          softmaxes = λ j le. Emits-softmax g L j v1;
          gemvs = λ j le. Emits-mvgb g L n j v1 le;
          syncs = λ j le. Emits-barrier n j;
        } in
      loop-picks r (context-loop v0) (previous-loop h0.context_mvsb n v0.context_moves_fit)
        (first-loop h1.sfm n)
        (unless_last-loop _ n ∙ half-loop (g.mvgb_total L h1.valid_channel) n h1.context_mvgb)
        (barrier-loop n) k

  pub context_alone-picks :
      (k : Kind) {h : Head}
      → IsHead g L h
      → selected k (context_alone g L h)
        ≡ ok (pick k true (concat h.context_mac) (concat h.context_mvsb) [] [] context_syncs)
  unfolding context_alone
  context_alone-picks k {h} v =
      let n = g.context_length in
      let r : Rounds true n (λ j. context_row_at n j h) (previous h.context_mvsb) nothing nothing
          (barrier_at n) =
        record {
          macs = λ j le. Emits-context g L j v le;
          moves = λ j le.
              Emits-previous g L n j h.context_mvsb v.context_mvsb_of v.context_moves_fit le;
          softmaxes = λ j le. emits sfm [] tt;
          gemvs = λ j le. emits wrgb [] tt;
          syncs = λ j le. Emits-barrier n j;
        } in
      loop-picks r (context-loop v) (previous-loop h.context_mvsb n v.context_moves_fit)
        (nothing-loop 0 (suc n)) (nothing-loop 0 (suc n)) (barrier-loop n) k

  pub score_alone-picks :
      (k : Kind) {h : Head}
      → IsHead g L h
      → selected k (score_alone g L h)
        ≡ ok (pick k true (concat h.score_mac) (concat h.score_mvsb) [] [] score_syncs)
  unfolding score_alone
  score_alone-picks k {h} v =
      let n = g.score_length L in
      let r : Rounds true n (λ j. score_rows_at n j h) (previous h.score_mvsb) nothing nothing
          (barrier_at n) =
        record {
          macs = λ j le. Emits-score g L n j v;
          moves = λ j le. Emits-previous g L n j h.score_mvsb v.mvsb_of v.moves_fit le;
          softmaxes = λ j le. emits sfm [] tt;
          gemvs = λ j le. emits wrgb [] tt;
          syncs = λ j le. Emits-barrier n j;
        } in
      loop-picks r (score-loop v) (previous-loop h.score_mvsb n v.moves_fit)
        (nothing-loop 0 (suc n)) (nothing-loop 0 (suc n)) (barrier-loop n) k
