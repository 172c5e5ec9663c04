-- ===== src/Examples/Units.antt =====
-- Counts of bytes at concrete inputs.
use popu_gate.Prelude.{ℕ, ◌/◌, Str, arith}
use popu_gate.Format.Decimal.{decimal}
use popu_gate.Format.Units.{HasUnit, format_bytes-HasUnit}

-- Whole numbers in place of %.1f.
abbrev whole : ℕ → ℕ → Str
whole b div = decimal (b / div)

format_bytes-HasUnit_example : HasUnit whole 5_000_000
format_bytes-HasUnit_example = format_bytes-HasUnit whole 5_000_000 (omega arith) (omega arith)
