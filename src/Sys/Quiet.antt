-- ===== src/Sys/Quiet.antt =====
-- Environments in which the database works.
use popu_gate.Prelude.{ℕ, ◌≡◌, false}
use popu_gate.Model.Tables.{Tables}
use popu_gate.Sys.Defs.{Env, Sys}

-- No call of the database fails.
abbrev pub Quiet : Env → Type 0
Quiet env = (n : ℕ) → env.fails n ≡ false

abbrev pub passed_by : ℕ → Tables → Sys → Sys
passed_by t db s = record s { ticks = t; db = db }
