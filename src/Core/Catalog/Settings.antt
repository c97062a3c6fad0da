-- ===== src/Core/Catalog/Settings.antt =====
-- `kPolicySettings` of src/core/security_catalog.cpp.
use packet_guard.Base.{List, [], ◌∷◌}
use packet_guard.Core.Catalog.Types.{PolicySettingProfile, policy_setting}

abbrev pub policy_settings : List PolicySettingProfile
policy_settings =
    policy_setting "default_input_action" "firewall-default" "ACCEPT|DROP|REJECT"
      "review against local risk appetite and asset role"
    ∷ policy_setting "default_output_action" "firewall-default" "ACCEPT|DROP|REJECT"
        "review against local risk appetite and asset role"
    ∷ policy_setting "default_forward_action" "firewall-default" "ACCEPT|DROP|REJECT"
        "review against local risk appetite and asset role"
    ∷ policy_setting "permit_remote_admin" "access-control" "boolean"
        "review against local risk appetite and asset role"
    ∷ policy_setting "minimum_password_length" "identity-policy" "positive integer"
        "review against local risk appetite and asset role"
    ∷ policy_setting "mfa_required" "identity-policy" "boolean"
        "review against local risk appetite and asset role"
    ∷ policy_setting "log_dropped_packets" "audit" "boolean"
        "review against local risk appetite and asset role"
    ∷ policy_setting "allow_dns_egress" "access-control" "boolean"
        "review against local risk appetite and asset role"
    ∷ policy_setting "allow_ntp_egress" "access-control" "boolean"
        "review against local risk appetite and asset role"
    ∷ policy_setting "allow_web_egress" "access-control" "boolean"
        "review against local risk appetite and asset role"
    ∷ policy_setting "block_cleartext_admin" "identity-policy" "boolean"
        "review against local risk appetite and asset role"
    ∷ policy_setting "allow_inbound_smb" "access-control" "boolean"
        "review against local risk appetite and asset role"
    ∷ policy_setting "allow_inbound_rdp" "access-control" "boolean"
        "review against local risk appetite and asset role"
    ∷ policy_setting "allow_snmp_from_management" "access-control" "boolean"
        "review against local risk appetite and asset role"
    ∷ policy_setting "drop_invalid_state" "identity-policy" "boolean"
        "review against local risk appetite and asset role"
    ∷ policy_setting "allow_established_related" "access-control" "boolean"
        "review against local risk appetite and asset role"
    ∷ policy_setting "deny_all_then_allow" "access-control" "boolean"
        "review against local risk appetite and asset role"
    ∷ policy_setting "log_policy_changes" "audit" "boolean"
        "review against local risk appetite and asset role"
    ∷ policy_setting "require_change_ticket" "audit" "boolean"
        "review against local risk appetite and asset role"
    ∷ policy_setting "allow_loopback" "access-control" "boolean"
        "review against local risk appetite and asset role"
    ∷ []
