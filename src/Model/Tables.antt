-- ===== src/Model/Tables.antt =====
-- The tables of the SQLite database that the stores read and write.
use popu_gate.Prelude.{ℕ, ℤ, Bool, Str, List}
use popu_gate.Model.Secret.{Secret}
use popu_gate.Model.Upstream.{Upstream}
use popu_gate.Model.Instance.{Instance}
use popu_gate.Model.Traffic.{TrafficSnapshot, UserRow, HistoryRow}

-- `TaskOverride` of internal/scheduler/scheduler.go, without its name, which is the key.
pub record TaskOverride : Type 0 where
  pub enabled : Bool
  pub custom_schedule : Str
  pub updated_at : ℤ

-- The rows of each table in the order of their ids, and the last id that AUTOINCREMENT gave out.
pub record Tables : Type 0 where
  pub secrets : List Secret
  pub secret_seq : ℕ
  pub upstreams : List Upstream
  pub upstream_seq : ℕ
  pub traffic_user : List UserRow
  pub traffic_global : TrafficSnapshot
  pub traffic_history : List HistoryRow
  pub quota_alerts : List (Str × ℕ)
  pub settings : List (Str × Str)
  pub instances : List Instance
  pub instance_seq : ℕ
  pub task_overrides : List (Str × TaskOverride)
