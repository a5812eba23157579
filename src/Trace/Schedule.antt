-- ===== src/Trace/Schedule.antt =====
-- `run_attention`, the same code in the three trace generators but for the numbers that
-- `Generator` holds: the heads' commands are generated, and then two heads at a time are overlapped.
pub mod Loops
pub mod Chunks
pub mod Rounds
pub mod Parts
pub mod Phases
pub mod Traces
pub mod Interleave
pub mod Generate
pub mod Counts
pub mod Totals
pub mod Runs
use attacc_simulator_vlm.Prelude.{
  ℕ, zero, suc, ◌+◌, ◌-◌, ◌*◌, ◌/◌, ◌%◌, ◌^◌, List, [], ◌∷◌, ◌++◌, none, some, range, ceil_div, ltb,
  leb, ◌==◌, if◌then◌else◌, get_elem?, concat, Result, ok, raise, index_error, zero_division,
  or_raise, require, not, ◌||◌, ◌>>=◌, ◌⊕◌, for_each,
}
use attacc_simulator_vlm.Trace.Command.{
  Command, Settings, n_channel, n_pch, n_rank, n_bg, n_bank, pim_barrier,
}
use attacc_simulator_vlm.Trace.Head.{Head, no_commands, extend_at, over_channels}

-- What differs between the three files: the commands of a head and the numbers of the loops.
pub record Generator : Type 0 where
  -- of `valid_channel`, `L`, `key_addr` and `val_addr`
  pub attention : ℕ → ℕ → ℕ → ℕ → Head
  -- the `length` of the score loops and of the context loops
  pub score_length : ℕ → ℕ
  pub context_length : ℕ
  -- the dividends of the two strides, of `valid_channel`, and of `L` and `valid_channel`
  pub wrgb_total : ℕ → ℕ
  pub mvgb_total : ℕ → ℕ → ℕ

-- `cmd_list_reset()` assigns to local names, so the lists stay as they are.
unfoldable pub cmd_list_reset : List Head → List Head
cmd_list_reset heads = heads

-- `Attention(L, key_addr, val_addr, itr, valid_channel)` on the global lists.
unfoldable pub append_attention : ℕ → Head → List Head → List Head
append_attention itr new heads = extend_at itr new (heads ++ no_commands new.valid_channel ∷ [])

unfoldable pub partition_size : Settings → ℕ
partition_size s = ceil_div (s.max_L * s.dhead) (n_pch * n_rank * n_bg * n_bank)

abbrev pub v_offset : ℕ
v_offset = 2 ^ 23

-- The channels that the iteration `itr` uses.
unfoldable pub channels_at : ℕ → ℕ → ℕ
channels_at n_head_per_hbm itr =
    let remainder : ℕ =
      if ltb n_head_per_hbm ((itr + 1) * n_channel) then n_head_per_hbm % n_channel else 0 in
    if remainder == 0 then n_channel else remainder

-- `for k in range(stride): if p + k >= len(xs): break; …xs[p + k]`
unfoldable pub slice_from {ℓ} : {A : Type ℓ} → ℕ → ℕ → List A → List A
slice_from zero p xs = []
slice_from (suc k) p xs =
    let rest = slice_from k (suc p) xs in elim (get_elem? xs p) [ none ↦ [] | some x ↦ x ∷ rest ]

abbrev pub barrier : List Command
barrier = over_channels n_channel pim_barrier 0 0

-- `int(total / n)`
abbrev pub stride_of : ℕ → ℕ → Result ℕ
stride_of total n = if n == 0 then raise zero_division else ok (total / n)

-- `math.ceil(dhead / … / n_mac)`, as the first call of `Attention` computes it, which is made where there
-- is a head; `divisor` is what `dhead` is divided by.
abbrev pub first_ceil : (dhead divisor n_head_per_hbm : ℕ) → Result ℕ
first_ceil dhead divisor n_head_per_hbm =
    if n_head_per_hbm == 0
    then ok 0
    else (if divisor == 0 then raise zero_division else ok (ceil_div dhead divisor))

-- `if not j == 0: total_cmd += rows[j-1]`
abbrev pub previous : List (List Command) → ℕ → Result (List Command)
previous rows j = if j == 0 then ok [] else or_raise (get_elem? rows (j - 1)) index_error

-- `if not j == length: …`
abbrev pub unless_last : ℕ → ℕ → Result (List Command) → Result (List Command)
unless_last length j r = if j == length then ok [] else r

-- The sixteen score rows of the round `j`.
abbrev pub score_rows_at : ℕ → ℕ → Head → Result (List Command)
score_rows_at length j h = unless_last length j (ok (concat (slice_from 16 (j * 16) h.score_mac)))

-- The context row of the round `j`.
abbrev pub context_row_at : ℕ → ℕ → Head → Result (List Command)
context_row_at length j h = unless_last length j (or_raise (get_elem? h.context_mac j) index_error)

-- `if j == 0: total_cmd += cmd_sfm[i]`
abbrev pub softmax_at : ℕ → Head → Result (List Command)
softmax_at j h = if j == 0 then ok h.sfm else ok []

abbrev pub barrier_at : ℕ → ℕ → Result (List Command)
barrier_at length j = unless_last length j (ok barrier)

-- The body of every overlapping loop, in the order of the source; absent parts are `ok []`.
abbrev pub overlap : (mac mvsb sfm gemv sync : Result (List Command)) → Result (List Command)
overlap mac mvsb sfm gemv sync = mac ⊕ mvsb ⊕ sfm ⊕ gemv ⊕ sync

-- `for j in range(valid_channels[i]): total_cmd.append(cmd_score_mac[i][0][j])`
unfoldable pub dummy_mac : Head → Result (List Command)
dummy_mac h =
    for_each
      (λ j. do
        row ← or_raise (get_elem? h.score_mac 0) index_error
        cmd ← or_raise (get_elem? row j) index_error
        ok (cmd ∷ []))
      (range h.valid_channel)

module _ (g : Generator) (L : ℕ) where
  -- The part of the next head's GEMV-buffer writes in the round `j` of a score loop.
  abbrev pub wrgb_at : ℕ → ℕ → Head → Result (List Command)
  wrgb_at length j h = unless_last length j do
    stride ← stride_of (g.wrgb_total h.valid_channel) length
    ok (slice_from stride (j * stride) h.score_wrgb)

  -- The part of a head's moves to the GEMV buffer, in the second half of a loop.
  abbrev pub mvgb_at : ℕ → ℕ → Head → Result (List Command)
  mvgb_at length j h = unless_last length j (
      if leb (length / 2) j
      then (do
        stride ← stride_of (g.mvgb_total L h.valid_channel) (ceil_div length 2)
        ok (slice_from stride ((j - length / 2) * stride) h.context_mvgb))
      else ok [])

  -- `Head0: Score`
  unfoldable pub score_with_wrgb : Head → Head → Result (List Command)
  score_with_wrgb h0 h1 =
      let length = g.score_length L in
      for_each
        (λ j.
          overlap (score_rows_at length j h0) (previous h0.score_mvsb j) (ok [])
            (wrgb_at length j h1) (barrier_at length j))
        (range (suc length))

  -- `Head0: SoftMax, Head1: Score`
  unfoldable pub score_with_softmax : Head → Head → Result (List Command)
  score_with_softmax h0 h1 =
      let length = g.score_length L in
      for_each
        (λ j.
          overlap (score_rows_at length j h1) (previous h1.score_mvsb j) (softmax_at j h0)
            (mvgb_at length j h0) (barrier_at length j))
        (range (suc length))

  -- `Head0: Context, Head1: Softmax`
  unfoldable pub context_with_softmax : Head → Head → Result (List Command)
  context_with_softmax h0 h1 =
      let length = g.context_length in
      for_each
        (λ j.
          overlap (context_row_at length j h0) (previous h0.context_mvsb j) (softmax_at j h1)
            (mvgb_at length j h1) (barrier_at length j))
        (range (suc length))

  -- `Head1: Context`, and the `Context` of a single last head.
  unfoldable pub context_alone : Head → Result (List Command)
  context_alone h =
      let length = g.context_length in
      for_each
        (λ j.
          overlap (context_row_at length j h) (previous h.context_mvsb j) (ok []) (ok [])
            (barrier_at length j))
        (range (suc length))

  -- The `Score` of a single last head.
  unfoldable pub score_alone : Head → Result (List Command)
  score_alone h =
      let length = g.score_length L in
      for_each
        (λ j.
          overlap (score_rows_at length j h) (previous h.score_mvsb j) (ok []) (ok [])
            (barrier_at length j))
        (range (suc length))

  -- The body of `for i in range(0, num_itr - 1, 2)`.
  unfoldable pub pair_trace : ℕ → Head → Head → Result (List Command)
  pair_trace i h0 h1 =
      ok h0.score_wrgb
      ⊕ (if i == 0 then dummy_mac h0 else ok [])
      ⊕ ok barrier
      ⊕ score_with_wrgb h0 h1
      ⊕ score_with_softmax h0 h1
      ⊕ context_with_softmax h0 h1
      ⊕ context_alone h1

  -- The body of `if num_itr % 2 != 0`.
  unfoldable pub last_trace : Head → Result (List Command)
  last_trace h =
      ok h.score_wrgb
      ⊕ ok barrier
      ⊕ score_alone h
      ⊕ ok h.sfm
      ⊕ ok h.context_mvgb
      ⊕ ok barrier
      ⊕ context_alone h

  -- `Ovelapping Commands`: the number of the pairs is that of `range(0, num_itr - 1, 2)`.
  unfoldable pub interleave : ℕ → List Head → Result (List Command)
  interleave num_itr heads =
      for_each
        (λ t. do
          h0 ← or_raise (get_elem? heads (t * 2)) index_error
          h1 ← or_raise (get_elem? heads (t * 2 + 1)) index_error
          pair_trace (t * 2) h0 h1)
        (range (ceil_div (num_itr - 1) 2))
      ⊕ (if num_itr % 2 == 0
          then ok []
          else (do h ← or_raise (get_elem? heads (num_itr - 1)) index_error; last_trace h))

-- `for itr in range(num_itr)` of `run_attention`, with `k` rounds left.
unfoldable pub generate : Generator → Settings → ℕ → ℕ → ℕ → ℕ → List Head → List Head
generate g s L n_head_per_hbm zero itr heads = heads
generate g s L n_head_per_hbm (suc k) itr heads =
    let key_addr = itr * partition_size s in
    let val_addr = key_addr + v_offset in
    let new = g.attention (channels_at n_head_per_hbm itr) L key_addr val_addr in
    generate g s L n_head_per_hbm k (suc itr) (append_attention itr new heads)

-- `run_attention(dhead, n_head_per_hbm, L, …)` from the global lists `heads`: the lines written.
unfoldable pub run_attention : Generator → Settings → ℕ → ℕ → List Head → Result (List Command)
run_attention g s n_head_per_hbm L heads =
    let num_itr = ceil_div n_head_per_hbm n_channel in
    interleave g L num_itr (generate g s L n_head_per_hbm num_itr 0 (cmd_list_reset heads))
