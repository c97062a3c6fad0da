-- ===== src/Core/Catalog/Types.antt =====
-- The structures of include/core/security_catalog.hpp. A `const char*` is a string.
use Prim.Native.String.{String}
use packet_guard.Base.{ℕ}

pub record ServiceProfile : Type 0 where
  pub port : ℕ
  pub transport : String
  pub service : String
  pub category : String
  pub exposure : String
  pub risk : String

pub record DnsTypeProfile : Type 0 where
  pub type : ℕ
  pub mnemonic : String
  pub category : String
  pub meaning : String
  pub signal : String

pub record RuleOptionProfile : Type 0 where
  pub name : String
  pub category : String
  pub value_model : String
  pub review_note : String

pub record PolicySettingProfile : Type 0 where
  pub key : String
  pub category : String
  pub expected_shape : String
  pub review_note : String

-- The initializers of the tables, in the order of the fields.
abbrev pub service_profile : ℕ → String → String → String → String → String → ServiceProfile
service_profile port transport service category exposure risk = record {
  port = port;
  transport = transport;
  service = service;
  category = category;
  exposure = exposure;
  risk = risk;
}

-- The entries of the slots for local services differ in four of the fields.
abbrev pub privileged_slot : ℕ → String → String → String → ServiceProfile
privileged_slot port transport service risk =
    service_profile port transport service "privileged-service" "privileged local service slot" risk

abbrev pub dns_type : ℕ → String → String → String → String → DnsTypeProfile
dns_type type mnemonic category meaning signal = record {
  type = type;
  mnemonic = mnemonic;
  category = category;
  meaning = meaning;
  signal = signal;
}

abbrev pub rule_option : String → String → String → String → RuleOptionProfile
rule_option name category value_model review_note = record {
  name = name;
  category = category;
  value_model = value_model;
  review_note = review_note;
}

abbrev pub policy_setting : String → String → String → String → PolicySettingProfile
policy_setting key category expected_shape review_note = record {
  key = key;
  category = category;
  expected_shape = expected_shape;
  review_note = review_note;
}
