-- ===== src/Ramulator/Parse.antt =====
-- The reading of the simulator's output: each counter is the sum of the numbers on its lines.
use attacc_simulator_vlm.Prelude.{
  ℕ, ◌+◌, ◌≡◌, refl, ap, sym, ◌∙◌, subst, Bool, true, false, List, [], ◌∷◌, All, Option, some,
  or_else, if◌then◌else◌, ◌==◌, ok, raise, runtime_error, arith,
}
use attacc_simulator_vlm.Ramulator.Machine.{Line}
use attacc_simulator_vlm.Ramulator.Reading.{Counts, no_counts, read_line, read_lines, parse}

-- The text that a line is read by: the first of these that stands in it.
pub data Reading : Type 0 where
  macs softmaxes gemv_moves softmax_moves writes cycles nothing : Reading

abbrev pub reading : Line → Reading
reading line =
    if line.has_mac
    then macs
    else (if line.has_softmax_requests
        then softmaxes
        else (if line.has_move_to_gemv_buffer
            then gemv_moves
            else (if line.has_move_to_softmax_buffer
                then softmax_moves
                else (if line.has_write_to_gemv_buffer
                    then writes
                    else (if line.has_memory_system_cycles then cycles else nothing)))))

abbrev same_reading : Reading → Reading → Bool
same_reading macs macs = true
same_reading softmaxes softmaxes = true
same_reading gemv_moves gemv_moves = true
same_reading softmax_moves softmax_moves = true
same_reading writes writes = true
same_reading cycles cycles = true
same_reading _ _ = false

abbrev pub HasNumber : Line → Type 0
HasNumber line = (n : ℕ) × (line.last_word ≡ some n)

-- The sum of the numbers on the lines with a reading.
abbrev pub total : Reading → List Line → ℕ
total k [] = 0
total k (line ∷ rest) =
    let later = total k rest in
    if same_reading (reading line) k then or_else line.last_word 0 + later else later

abbrev pub totals : List Line → Counts → Counts
totals lines c = record {
  cycle = c.cycle + total cycles lines;
  mac = c.mac + total macs lines;
  sfm = c.sfm + total softmaxes lines;
  mvgb = c.mvgb + total gemv_moves lines;
  mvsb = c.mvsb + total softmax_moves lines;
  wrgb = c.wrgb + total writes lines;
}

abbrev line_of : (m s g b w y : Bool) → ℕ → Line
line_of m s g b w y n = record {
  has_mac = m;
  has_softmax_requests = s;
  has_move_to_gemv_buffer = g;
  has_move_to_softmax_buffer = b;
  has_write_to_gemv_buffer = w;
  has_memory_system_cycles = y;
  last_word = some n;
}

read_line-line_of :
    (m s g b w y : Bool) (n : ℕ) (rest : List Line) (c : Counts)
    → (next : Counts) × (read_line (line_of m s g b w y n) c ≡ ok next)
      × (totals rest next ≡ totals (line_of m s g b w y n ∷ rest) c)
unfolding read_line
read_line-line_of true s g b w y n rest c = (_, refl, ground arith)
read_line-line_of false true g b w y n rest c = (_, refl, ground arith)
read_line-line_of false false true b w y n rest c = (_, refl, ground arith)
read_line-line_of false false false true w y n rest c = (_, refl, ground arith)
read_line-line_of false false false false true y n rest c = (_, refl, ground arith)
read_line-line_of false false false false false true n rest c = (_, refl, ground arith)
read_line-line_of false false false false false false n rest c = (_, refl, ground arith)

read_lines-totals :
    (lines : List Line) (c : Counts)
    → All HasNumber lines
    → read_lines lines c ≡ ok (totals lines c)
unfolding read_lines
read_lines-totals [] c h = ground arith
read_lines-totals (line ∷ rest) c ((n, has_n), h) =
    let (next, read, same) =
      read_line-line_of line.has_mac line.has_softmax_requests line.has_move_to_gemv_buffer
        line.has_move_to_softmax_buffer line.has_write_to_gemv_buffer line.has_memory_system_cycles
        n rest c in
    let number = ap (λ (w : Option ℕ). record line { last_word = w }) has_n in
    subst (λ x. read_lines (x ∷ rest) c ≡ ok (totals (x ∷ rest) c)) (sym number)
      (rw read (read_lines-totals rest next h ∙ ap ok same))

-- For an output whose lines end in numbers, each counter is the sum of the numbers on the lines with its
-- text; without cycles a RuntimeError is raised.
pub parse-totals :
    (lines : List Line)
    → All HasNumber lines
    → let c = totals lines no_counts in
      parse lines ≡ (if c.cycle == 0 then raise runtime_error else ok c)
unfolding parse
parse-totals lines h = rw (read_lines-totals lines no_counts h) refl
