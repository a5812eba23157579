-- ===== src/Devices/Arithmetic.antt =====
-- Python's floats as the times and rates of src/devices.py and src/system.py use them: a parameter, on the type
-- of times of the wrapper.
use attacc_simulator_vlm.Prelude.{
  ℕ, ◌+◌, ◌≡◌, Bool, if◌then◌else◌, Result, ok, raise, zero_division,
}
use attacc_simulator_vlm.Ramulator.Machine.{Clock}

pub record Arithmetic (ck : Clock) : Type 0 where
  -- an integer as a float, and the float of a decimal fraction, `digits / 10 ** places`
  pub of_nat : ℕ → ck.Time
  pub decimal : (digits places : ℕ) → ck.Time
  pub plus : ck.Time → ck.Time → ck.Time
  pub minus : ck.Time → ck.Time → ck.Time
  pub times : ck.Time → ck.Time → ck.Time
  pub divide : ck.Time → ck.Time → ck.Time
  pub less : ck.Time → ck.Time → Bool
  pub is_zero : ck.Time → Bool

module _ {ck : Clock} (ar : Arithmetic ck) where
  -- `a / b`
  abbrev pub over : ck.Time → ck.Time → Result (ck.Time)
  over a b = if ar.is_zero b then raise zero_division else ok (ar.divide a b)

  -- `max(a, b)`
  abbrev pub larger : ck.Time → ck.Time → ck.Time
  larger a b = if ar.less a b then b else a

  abbrev pub smaller : ck.Time → ck.Time → ck.Time
  smaller a b = if ar.less b a then b else a

  abbrev pub zero_time : ck.Time
  zero_time = ar.of_nat 0

-- Times that are whole multiples of one unit, which floats add without rounding while the sums are small.
pub record IsExact {ck : Clock} (ar : Arithmetic ck) : Type 0 where
  pub value : ck.Time → ℕ
  pub value_zero : value (ar.of_nat 0) ≡ 0
  pub value_plus : (a b : ck.Time) → value (ar.plus a b) ≡ value a + value b
