-- ===== src/Ioc/Types.antt =====
-- The structures of include/ioc/ioc.hpp, and the names of their enumerations.
use packet_guard.Base.{ℕ, Bool, true, false, List, ◌∷◌, ◌++◌, Option, Text, codes}
use packet_guard.Core.Diagnostics.{Diagnostics}
use packet_guard.Core.Ip.{IPv4Address, CidrRange}

pub data IocType : Type 0 where
  ip cidr domain url hash unknown_type : IocType

pub data ListRole : Type 0 where
  indicator_role allow block : ListRole

-- `confidence` is the bit pattern of the `double`, which is only carried along.
pub record Indicator : Type 0 where
  pub type : IocType
  pub role : ListRole
  pub raw : Text
  pub normalized : Text
  pub source : Text
  pub severity : Text
  pub confidence : ℕ
  pub ip_value : Option IPv4Address
  pub cidr_value : Option CidrRange
  pub attributes : List (Text × Text)

pub record IndicatorSet : Type 0 where
  pub indicators : List Indicator
  pub duplicates : List Indicator
  pub diagnostics : Diagnostics

pub record MatchResult : Type 0 where
  pub indicator : Indicator
  pub field : Text
  pub value : Text
  pub reason : Text

pub record IndexedIndicator : Type 0 where
  pub id : ℕ
  pub generation : ℕ
  pub active : Bool
  pub indicator : Indicator

pub record IocIndexStats : Type 0 where
  pub total_records : ℕ
  pub active_records : ℕ
  pub inactive_records : ℕ
  pub cidr_nodes : ℕ
  pub domain_keys : ℕ
  pub hash_keys : ℕ
  pub generation : ℕ

abbrev pub type_name : IocType → Text
type_name ip = codes "ip"
type_name cidr = codes "cidr"
type_name domain = codes "domain"
type_name url = codes "url"
type_name hash = codes "hash"
type_name unknown_type = codes "unknown"

abbrev pub role_name : ListRole → Text
role_name allow = codes "allow"
role_name block = codes "block"
role_name indicator_role = codes "indicator"

-- Tests of an enumeration.
abbrev pub is_allow : ListRole → Bool
is_allow allow = true
is_allow _ = false

unfoldable pub indicator_key : Indicator → Text
indicator_key i = type_name i.type ++ (b':' ∷ (role_name i.role ++ (b':' ∷ i.normalized)))
