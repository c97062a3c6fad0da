-- ===== src/Core/Catalog/Options.antt =====
-- `kRuleOptions` of src/core/security_catalog.cpp.
use packet_guard.Base.{List, [], ◌∷◌}
use packet_guard.Core.Catalog.Types.{RuleOptionProfile, rule_option}

abbrev pub rule_options : List RuleOptionProfile
rule_options =
    rule_option "msg" "identity" "string-or-flag" "review for stable signature identity"
    ∷ rule_option "content" "matching" "string-or-flag" "review for packet payload matching scope"
    ∷ rule_option "sid" "identity" "integer" "review for stable signature identity"
    ∷ rule_option "rev" "identity" "integer" "review for stable signature identity"
    ∷ rule_option "classtype" "identity" "string-or-flag" "review for stable signature identity"
    ∷ rule_option "reference" "identity" "string-or-flag" "review for stable signature identity"
    ∷ rule_option "metadata" "identity" "string-or-flag" "review for stable signature identity"
    ∷ rule_option "flow" "matching" "string-or-flag" "review for packet payload matching scope"
    ∷ rule_option "depth" "matching" "integer" "review for packet payload matching scope"
    ∷ rule_option "offset" "matching" "integer" "review for packet payload matching scope"
    ∷ rule_option "distance" "matching" "integer" "review for packet payload matching scope"
    ∷ rule_option "within" "matching" "integer" "review for packet payload matching scope"
    ∷ rule_option "nocase" "matching" "string-or-flag" "review for packet payload matching scope"
    ∷ rule_option "fast_pattern" "matching" "string-or-flag"
        "review for packet payload matching scope"
    ∷ rule_option "http_uri" "matching" "string-or-flag" "review for packet payload matching scope"
    ∷ rule_option "http_header" "matching" "string-or-flag"
        "review for packet payload matching scope"
    ∷ rule_option "http_method" "matching" "string-or-flag"
        "review for packet payload matching scope"
    ∷ rule_option "dns_query" "matching" "string-or-flag" "review for packet payload matching scope"
    ∷ rule_option "byte_test" "matching" "string-or-flag" "review for packet payload matching scope"
    ∷ rule_option "byte_jump" "matching" "string-or-flag" "review for packet payload matching scope"
    ∷ rule_option "pcre" "matching" "string-or-flag" "review for packet payload matching scope"
    ∷ rule_option "threshold" "matching" "string-or-flag" "review for packet payload matching scope"
    ∷ rule_option "detection_filter" "matching" "string-or-flag"
        "review for packet payload matching scope"
    ∷ rule_option "flowbits" "matching" "string-or-flag" "review for packet payload matching scope"
    ∷ rule_option "tag" "matching" "string-or-flag" "review for packet payload matching scope"
    ∷ rule_option "priority" "identity" "integer" "review for stable signature identity"
    ∷ []
