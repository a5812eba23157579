-- ===== src/Model/Arith.antt =====
-- The divisions of src/model.py on integers, with their errors.
use attacc_simulator_vlm.Prelude.{
  ℕ, ◌/◌, ◌%◌, ◌==◌, if◌then◌else◌, Result, ok, raise, zero_division, assertion_error,
}

-- `a // b` and `int(a / b)`
abbrev pub int_div : ℕ → ℕ → Result ℕ
int_div a b = if b == 0 then raise zero_division else ok (a / b)

-- `Transformer._split`
abbrev pub split : ℕ → ℕ → Result ℕ
split value parts =
    if parts == 0
    then raise zero_division
    else (if value % parts == 0 then ok (value / parts) else raise assertion_error)
