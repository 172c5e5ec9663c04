-- ===== src/Model/Traffic.antt =====
-- internal/model/traffic.go and the traffic tables of internal/database/migrations.
use popu_gate.Prelude.{ℕ, ℤ, Str}

-- `TrafficSnapshot`, which is also the row of `traffic_global`.
pub record TrafficSnapshot : Type 0 where
  pub bytes_in : ℤ
  pub bytes_out : ℤ
  pub snap_in : ℤ
  pub snap_out : ℤ

-- A row of `traffic_user`, one for each label and instance.
pub record UserRow : Type 0 where
  pub label : Str
  pub instance_id : ℕ
  pub bytes_in : ℤ
  pub bytes_out : ℤ
  pub snap_in : ℤ
  pub snap_out : ℤ

-- A row of `traffic_history`; the label of a global record is empty.
pub record HistoryRow : Type 0 where
  pub timestamp : ℤ
  pub bytes_in : ℤ
  pub bytes_out : ℤ
  pub connections : ℤ
  pub label : Str
