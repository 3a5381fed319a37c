-- ===== src/Common/Ip.antt =====
-- `IpAddr` of the standard library: four octets, or the sixteen octets as one number.
use Prim.Native.Nat.{ℕ}
use native.Mathlib.Decide.{ℕ_discrete}
use dmarc_report_viewer.Common.Tests.{Eq, eq_of_discrete}

pub data IpAddr : Type 0 where
  v4 : ℕ → ℕ → ℕ → ℕ → IpAddr
  v6 : ℕ → IpAddr

unfoldable pub IpAddr-discrete : Discrete IpAddr
unfolding ℕ_discrete
IpAddr-discrete = hlevel ℕ_discrete

instance abbrev pub ip_eq : Eq IpAddr
ip_eq = eq_of_discrete IpAddr-discrete
