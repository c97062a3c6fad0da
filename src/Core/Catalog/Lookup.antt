-- ===== src/Core/Catalog/Lookup.antt =====
-- The searches of src/core/security_catalog.cpp: `for (p : table) if (...) return p;`.
pub mod Laws
use packet_guard.Base.{
  ℕ, List, [], ◌∷◌, ◌++◌, ◌==◌, Option, none, some, Text, codes, text_eq, first_of?,
}
use packet_guard.Core.Catalog.Types.{DnsTypeProfile, RuleOptionProfile, PolicySettingProfile}
use packet_guard.Core.Catalog.Dns.Low.{
  dns_types_0_19, dns_types_20_39, dns_types_40_59, dns_types_60_79, dns_types_80_99,
  dns_types_100_119, dns_types_120_139,
}
use packet_guard.Core.Catalog.Dns.High.{
  dns_types_140_159, dns_types_160_179, dns_types_180_199, dns_types_200_219, dns_types_220_239,
  dns_types_240_255,
}
use packet_guard.Core.Catalog.Options.{rule_options}
use packet_guard.Core.Catalog.Settings.{policy_settings}
use packet_guard.Core.Strings.{to_lower}

-- `kDnsTypeProfiles`, put together from its parts.
abbrev pub dns_types : List DnsTypeProfile
dns_types =
    dns_types_0_19 ++ dns_types_20_39 ++ dns_types_40_59 ++ dns_types_60_79 ++ dns_types_80_99
    ++ dns_types_100_119 ++ dns_types_120_139 ++ dns_types_140_159 ++ dns_types_160_179
    ++ dns_types_180_199 ++ dns_types_200_219 ++ dns_types_220_239 ++ dns_types_240_255

unfoldable pub lookup_dns_type_profile : ℕ → Option DnsTypeProfile
lookup_dns_type_profile type = first_of? (λ p. p.type == type) dns_types

unfoldable pub lookup_rule_option_profile : Text → Option RuleOptionProfile
lookup_rule_option_profile name =
    let n = to_lower name in first_of? (λ p. text_eq n (codes p.name)) rule_options

unfoldable pub lookup_policy_setting_profile : Text → Option PolicySettingProfile
lookup_policy_setting_profile key =
    let k = to_lower key in first_of? (λ p. text_eq k (codes p.key)) policy_settings

unfoldable pub dns_type_signal_label : ℕ → Text
unfolding lookup_dns_type_profile
dns_type_signal_label type = label (lookup_dns_type_profile type)
  where
    label : Option DnsTypeProfile → Text
    label none = codes "unknown DNS type"
    label (some p) =
        codes p.mnemonic ++ codes " [" ++ codes p.signal ++ codes "] " ++ codes p.meaning
