-- ===== src/Ramulator/Reading.antt =====
-- The reading of the simulator's output in `run_ramulator`.
use attacc_simulator_vlm.Prelude.{
  ℕ, ◌+◌, ◌==◌, List, [], ◌∷◌, Option, none, some, if◌then◌else◌, Result, ok, raise, ◌>>=◌,
  value_error, runtime_error,
}
use attacc_simulator_vlm.Ramulator.Machine.{Line}

-- The list `out` of `run_ramulator`.
pub record Counts : Type 0 where
  pub cycle : ℕ
  pub mac : ℕ
  pub sfm : ℕ
  pub mvgb : ℕ
  pub mvsb : ℕ
  pub wrgb : ℕ

abbrev pub no_counts : Counts
no_counts = record { cycle = 0; mac = 0; sfm = 0; mvgb = 0; mvsb = 0; wrgb = 0 }

-- `n_cmds[…] += int(line.split()[-1])`
abbrev adding : Option ℕ → (ℕ → Counts) → Result Counts
adding none add = raise value_error
adding (some n) add = ok (add n)

-- One round of the loop that reads the output.
unfoldable pub read_line : Line → Counts → Result Counts
read_line line c =
    if line.has_mac
    then adding line.last_word (λ n. record c { mac = c.mac + n })
    else (if line.has_softmax_requests
        then adding line.last_word (λ n. record c { sfm = c.sfm + n })
        else (if line.has_move_to_gemv_buffer
            then adding line.last_word (λ n. record c { mvgb = c.mvgb + n })
            else (if line.has_move_to_softmax_buffer
                then adding line.last_word (λ n. record c { mvsb = c.mvsb + n })
                else (if line.has_write_to_gemv_buffer
                    then adding line.last_word (λ n. record c { wrgb = c.wrgb + n })
                    else (if line.has_memory_system_cycles
                        then adding line.last_word (λ n. record c { cycle = c.cycle + n })
                        else ok c)))))

unfoldable pub read_lines : List Line → Counts → Result Counts
unfolding read_line
read_lines [] c = ok c
read_lines (line ∷ rest) c = read_line line c >>= λ next. read_lines rest next

-- The part of `run_ramulator` behind the simulator's run.
unfoldable pub parse : List Line → Result Counts
unfolding read_lines
parse lines = do c ← read_lines lines no_counts; if c.cycle == 0 then raise runtime_error else ok c
