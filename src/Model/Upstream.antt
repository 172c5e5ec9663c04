-- ===== src/Model/Upstream.antt =====
-- internal/model/upstream.go: the record of an upstream.
use popu_gate.Prelude.{ℕ, ℤ, Bool, Str, Option}

-- `UpstreamType`: a string of the source; `other` is any text but the four constants.
pub data UpstreamType : Type 0 where
  direct socks5 socks4 shadowsocks : UpstreamType
  other : Str → UpstreamType

pub record Upstream : Type 0 where
  pub id : ℕ
  pub name : Str
  pub kind : UpstreamType
  pub address : Str
  pub username : Str
  pub password : Str
  pub url : Str
  pub weight : ℤ
  pub iface : Str
  pub enabled : Bool
  pub ipv4 : Option Bool
  pub ipv6 : Option Bool
  pub prefer : ℤ
  pub bind_to_device : Str
  pub last_check_at : ℤ
  pub last_check_ok : Option Bool
  pub latency_ms : ℤ
  pub last_error : Str
  pub fail_count : ℕ
  pub auto_disabled : Bool
  pub auto_disabled_at : ℤ
