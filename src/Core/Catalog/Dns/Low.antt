-- ===== src/Core/Catalog/Dns/Low.antt =====
-- Entries of `kDnsTypeProfiles` of src/core/security_catalog.cpp, in its order.
use packet_guard.Base.{List, [], ◌∷◌}
use packet_guard.Core.Catalog.Types.{DnsTypeProfile, dns_type}

abbrev pub dns_types_0_19 : List DnsTypeProfile
dns_types_0_19 =
    dns_type 0 "TYPE0" "unassigned" "unassigned or private DNS record type" "low"
    ∷ dns_type 1 "A" "address" "IPv4 host address" "core"
    ∷ dns_type 2 "NS" "authority" "authoritative name server" "core"
    ∷ dns_type 3 "TYPE3" "unassigned" "unassigned or private DNS record type" "low"
    ∷ dns_type 4 "TYPE4" "unassigned" "unassigned or private DNS record type" "low"
    ∷ dns_type 5 "CNAME" "alias" "canonical name alias" "core"
    ∷ dns_type 6 "SOA" "authority" "zone authority record" "core"
    ∷ dns_type 7 "TYPE7" "unassigned" "unassigned or private DNS record type" "low"
    ∷ dns_type 8 "TYPE8" "unassigned" "unassigned or private DNS record type" "low"
    ∷ dns_type 9 "TYPE9" "unassigned" "unassigned or private DNS record type" "low"
    ∷ dns_type 10 "TYPE10" "unassigned" "unassigned or private DNS record type" "low"
    ∷ dns_type 11 "TYPE11" "unassigned" "unassigned or private DNS record type" "low"
    ∷ dns_type 12 "PTR" "reverse" "reverse lookup pointer" "core"
    ∷ dns_type 13 "TYPE13" "unassigned" "unassigned or private DNS record type" "low"
    ∷ dns_type 14 "TYPE14" "unassigned" "unassigned or private DNS record type" "low"
    ∷ dns_type 15 "MX" "mail" "mail exchange record" "core"
    ∷ dns_type 16 "TXT" "text" "free-form text record" "high-signal"
    ∷ dns_type 17 "TYPE17" "unassigned" "unassigned or private DNS record type" "low"
    ∷ dns_type 18 "TYPE18" "unassigned" "unassigned or private DNS record type" "low"
    ∷ dns_type 19 "TYPE19" "unassigned" "unassigned or private DNS record type" "low"
    ∷ []

abbrev pub dns_types_20_39 : List DnsTypeProfile
dns_types_20_39 =
    dns_type 20 "TYPE20" "unassigned" "unassigned or private DNS record type" "low"
    ∷ dns_type 21 "TYPE21" "unassigned" "unassigned or private DNS record type" "low"
    ∷ dns_type 22 "TYPE22" "unassigned" "unassigned or private DNS record type" "low"
    ∷ dns_type 23 "TYPE23" "unassigned" "unassigned or private DNS record type" "low"
    ∷ dns_type 24 "TYPE24" "unassigned" "unassigned or private DNS record type" "low"
    ∷ dns_type 25 "TYPE25" "unassigned" "unassigned or private DNS record type" "low"
    ∷ dns_type 26 "TYPE26" "unassigned" "unassigned or private DNS record type" "low"
    ∷ dns_type 27 "TYPE27" "unassigned" "unassigned or private DNS record type" "low"
    ∷ dns_type 28 "AAAA" "address" "IPv6 host address" "core"
    ∷ dns_type 29 "TYPE29" "unassigned" "unassigned or private DNS record type" "low"
    ∷ dns_type 30 "TYPE30" "unassigned" "unassigned or private DNS record type" "low"
    ∷ dns_type 31 "TYPE31" "unassigned" "unassigned or private DNS record type" "low"
    ∷ dns_type 32 "TYPE32" "unassigned" "unassigned or private DNS record type" "low"
    ∷ dns_type 33 "SRV" "service" "service locator record" "high-signal"
    ∷ dns_type 34 "TYPE34" "unassigned" "unassigned or private DNS record type" "low"
    ∷ dns_type 35 "TYPE35" "unassigned" "unassigned or private DNS record type" "low"
    ∷ dns_type 36 "TYPE36" "unassigned" "unassigned or private DNS record type" "low"
    ∷ dns_type 37 "TYPE37" "unassigned" "unassigned or private DNS record type" "low"
    ∷ dns_type 38 "TYPE38" "unassigned" "unassigned or private DNS record type" "low"
    ∷ dns_type 39 "TYPE39" "unassigned" "unassigned or private DNS record type" "low"
    ∷ []

abbrev pub dns_types_40_59 : List DnsTypeProfile
dns_types_40_59 =
    dns_type 40 "TYPE40" "unassigned" "unassigned or private DNS record type" "low"
    ∷ dns_type 41 "TYPE41" "unassigned" "unassigned or private DNS record type" "low"
    ∷ dns_type 42 "TYPE42" "unassigned" "unassigned or private DNS record type" "low"
    ∷ dns_type 43 "DS" "dnssec" "delegation signer" "dnssec"
    ∷ dns_type 44 "TYPE44" "unassigned" "unassigned or private DNS record type" "low"
    ∷ dns_type 45 "TYPE45" "unassigned" "unassigned or private DNS record type" "low"
    ∷ dns_type 46 "RRSIG" "dnssec" "DNSSEC signature" "dnssec"
    ∷ dns_type 47 "NSEC" "dnssec" "next secure record" "dnssec"
    ∷ dns_type 48 "DNSKEY" "dnssec" "DNSSEC key" "dnssec"
    ∷ dns_type 49 "TYPE49" "unassigned" "unassigned or private DNS record type" "low"
    ∷ dns_type 50 "TYPE50" "unassigned" "unassigned or private DNS record type" "low"
    ∷ dns_type 51 "TYPE51" "unassigned" "unassigned or private DNS record type" "low"
    ∷ dns_type 52 "TLSA" "certificate" "DANE certificate association" "high-signal"
    ∷ dns_type 53 "TYPE53" "unassigned" "unassigned or private DNS record type" "low"
    ∷ dns_type 54 "TYPE54" "unassigned" "unassigned or private DNS record type" "low"
    ∷ dns_type 55 "TYPE55" "unassigned" "unassigned or private DNS record type" "low"
    ∷ dns_type 56 "TYPE56" "unassigned" "unassigned or private DNS record type" "low"
    ∷ dns_type 57 "TYPE57" "unassigned" "unassigned or private DNS record type" "low"
    ∷ dns_type 58 "TYPE58" "unassigned" "unassigned or private DNS record type" "low"
    ∷ dns_type 59 "TYPE59" "unassigned" "unassigned or private DNS record type" "low"
    ∷ []

abbrev pub dns_types_60_79 : List DnsTypeProfile
dns_types_60_79 =
    dns_type 60 "TYPE60" "unassigned" "unassigned or private DNS record type" "low"
    ∷ dns_type 61 "TYPE61" "unassigned" "unassigned or private DNS record type" "low"
    ∷ dns_type 62 "TYPE62" "unassigned" "unassigned or private DNS record type" "low"
    ∷ dns_type 63 "TYPE63" "unassigned" "unassigned or private DNS record type" "low"
    ∷ dns_type 64 "TYPE64" "unassigned" "unassigned or private DNS record type" "low"
    ∷ dns_type 65 "HTTPS" "service" "HTTPS service binding" "high-signal"
    ∷ dns_type 66 "TYPE66" "unassigned" "unassigned or private DNS record type" "low"
    ∷ dns_type 67 "TYPE67" "unassigned" "unassigned or private DNS record type" "low"
    ∷ dns_type 68 "TYPE68" "unassigned" "unassigned or private DNS record type" "low"
    ∷ dns_type 69 "TYPE69" "unassigned" "unassigned or private DNS record type" "low"
    ∷ dns_type 70 "TYPE70" "unassigned" "unassigned or private DNS record type" "low"
    ∷ dns_type 71 "TYPE71" "unassigned" "unassigned or private DNS record type" "low"
    ∷ dns_type 72 "TYPE72" "unassigned" "unassigned or private DNS record type" "low"
    ∷ dns_type 73 "TYPE73" "unassigned" "unassigned or private DNS record type" "low"
    ∷ dns_type 74 "TYPE74" "unassigned" "unassigned or private DNS record type" "low"
    ∷ dns_type 75 "TYPE75" "unassigned" "unassigned or private DNS record type" "low"
    ∷ dns_type 76 "TYPE76" "unassigned" "unassigned or private DNS record type" "low"
    ∷ dns_type 77 "TYPE77" "unassigned" "unassigned or private DNS record type" "low"
    ∷ dns_type 78 "TYPE78" "unassigned" "unassigned or private DNS record type" "low"
    ∷ dns_type 79 "TYPE79" "unassigned" "unassigned or private DNS record type" "low"
    ∷ []

abbrev pub dns_types_80_99 : List DnsTypeProfile
dns_types_80_99 =
    dns_type 80 "TYPE80" "unassigned" "unassigned or private DNS record type" "low"
    ∷ dns_type 81 "TYPE81" "unassigned" "unassigned or private DNS record type" "low"
    ∷ dns_type 82 "TYPE82" "unassigned" "unassigned or private DNS record type" "low"
    ∷ dns_type 83 "TYPE83" "unassigned" "unassigned or private DNS record type" "low"
    ∷ dns_type 84 "TYPE84" "unassigned" "unassigned or private DNS record type" "low"
    ∷ dns_type 85 "TYPE85" "unassigned" "unassigned or private DNS record type" "low"
    ∷ dns_type 86 "TYPE86" "unassigned" "unassigned or private DNS record type" "low"
    ∷ dns_type 87 "TYPE87" "unassigned" "unassigned or private DNS record type" "low"
    ∷ dns_type 88 "TYPE88" "unassigned" "unassigned or private DNS record type" "low"
    ∷ dns_type 89 "TYPE89" "unassigned" "unassigned or private DNS record type" "low"
    ∷ dns_type 90 "TYPE90" "unassigned" "unassigned or private DNS record type" "low"
    ∷ dns_type 91 "TYPE91" "unassigned" "unassigned or private DNS record type" "low"
    ∷ dns_type 92 "TYPE92" "unassigned" "unassigned or private DNS record type" "low"
    ∷ dns_type 93 "TYPE93" "unassigned" "unassigned or private DNS record type" "low"
    ∷ dns_type 94 "TYPE94" "unassigned" "unassigned or private DNS record type" "low"
    ∷ dns_type 95 "TYPE95" "unassigned" "unassigned or private DNS record type" "low"
    ∷ dns_type 96 "TYPE96" "unassigned" "unassigned or private DNS record type" "low"
    ∷ dns_type 97 "TYPE97" "unassigned" "unassigned or private DNS record type" "low"
    ∷ dns_type 98 "TYPE98" "unassigned" "unassigned or private DNS record type" "low"
    ∷ dns_type 99 "TYPE99" "unassigned" "unassigned or private DNS record type" "low"
    ∷ []

abbrev pub dns_types_100_119 : List DnsTypeProfile
dns_types_100_119 =
    dns_type 100 "TYPE100" "unassigned" "unassigned or private DNS record type" "low"
    ∷ dns_type 101 "TYPE101" "unassigned" "unassigned or private DNS record type" "low"
    ∷ dns_type 102 "TYPE102" "unassigned" "unassigned or private DNS record type" "low"
    ∷ dns_type 103 "TYPE103" "unassigned" "unassigned or private DNS record type" "low"
    ∷ dns_type 104 "TYPE104" "unassigned" "unassigned or private DNS record type" "low"
    ∷ dns_type 105 "TYPE105" "unassigned" "unassigned or private DNS record type" "low"
    ∷ dns_type 106 "TYPE106" "unassigned" "unassigned or private DNS record type" "low"
    ∷ dns_type 107 "TYPE107" "unassigned" "unassigned or private DNS record type" "low"
    ∷ dns_type 108 "TYPE108" "unassigned" "unassigned or private DNS record type" "low"
    ∷ dns_type 109 "TYPE109" "unassigned" "unassigned or private DNS record type" "low"
    ∷ dns_type 110 "TYPE110" "unassigned" "unassigned or private DNS record type" "low"
    ∷ dns_type 111 "TYPE111" "unassigned" "unassigned or private DNS record type" "low"
    ∷ dns_type 112 "TYPE112" "unassigned" "unassigned or private DNS record type" "low"
    ∷ dns_type 113 "TYPE113" "unassigned" "unassigned or private DNS record type" "low"
    ∷ dns_type 114 "TYPE114" "unassigned" "unassigned or private DNS record type" "low"
    ∷ dns_type 115 "TYPE115" "unassigned" "unassigned or private DNS record type" "low"
    ∷ dns_type 116 "TYPE116" "unassigned" "unassigned or private DNS record type" "low"
    ∷ dns_type 117 "TYPE117" "unassigned" "unassigned or private DNS record type" "low"
    ∷ dns_type 118 "TYPE118" "unassigned" "unassigned or private DNS record type" "low"
    ∷ dns_type 119 "TYPE119" "unassigned" "unassigned or private DNS record type" "low"
    ∷ []

abbrev pub dns_types_120_139 : List DnsTypeProfile
dns_types_120_139 =
    dns_type 120 "TYPE120" "unassigned" "unassigned or private DNS record type" "low"
    ∷ dns_type 121 "TYPE121" "unassigned" "unassigned or private DNS record type" "low"
    ∷ dns_type 122 "TYPE122" "unassigned" "unassigned or private DNS record type" "low"
    ∷ dns_type 123 "TYPE123" "unassigned" "unassigned or private DNS record type" "low"
    ∷ dns_type 124 "TYPE124" "unassigned" "unassigned or private DNS record type" "low"
    ∷ dns_type 125 "TYPE125" "unassigned" "unassigned or private DNS record type" "low"
    ∷ dns_type 126 "TYPE126" "unassigned" "unassigned or private DNS record type" "low"
    ∷ dns_type 127 "TYPE127" "unassigned" "unassigned or private DNS record type" "low"
    ∷ dns_type 128 "TYPE128" "unassigned" "unassigned or private DNS record type" "low"
    ∷ dns_type 129 "TYPE129" "unassigned" "unassigned or private DNS record type" "low"
    ∷ dns_type 130 "TYPE130" "unassigned" "unassigned or private DNS record type" "low"
    ∷ dns_type 131 "TYPE131" "unassigned" "unassigned or private DNS record type" "low"
    ∷ dns_type 132 "TYPE132" "unassigned" "unassigned or private DNS record type" "low"
    ∷ dns_type 133 "TYPE133" "unassigned" "unassigned or private DNS record type" "low"
    ∷ dns_type 134 "TYPE134" "unassigned" "unassigned or private DNS record type" "low"
    ∷ dns_type 135 "TYPE135" "unassigned" "unassigned or private DNS record type" "low"
    ∷ dns_type 136 "TYPE136" "unassigned" "unassigned or private DNS record type" "low"
    ∷ dns_type 137 "TYPE137" "unassigned" "unassigned or private DNS record type" "low"
    ∷ dns_type 138 "TYPE138" "unassigned" "unassigned or private DNS record type" "low"
    ∷ dns_type 139 "TYPE139" "unassigned" "unassigned or private DNS record type" "low"
    ∷ []
