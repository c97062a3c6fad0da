-- ===== src/Core/Catalog/Services/Part1.antt =====
-- Entries of `kServiceProfiles` of src/core/security_catalog.cpp, in its order.
use packet_guard.Base.{List, [], ◌∷◌}
use packet_guard.Core.Catalog.Types.{ServiceProfile, privileged_slot, service_profile}

abbrev pub services_0_17 : List ServiceProfile
services_0_17 =
    service_profile 0 "tcp" "tcp-reserved-0" "reserved" "reserved port value" "high"
    ∷ service_profile 1 "tcp" "tcp-system-001" "system" "privileged system port" "medium"
    ∷ service_profile 2 "tcp" "tcp-system-002" "system" "privileged system port" "medium"
    ∷ service_profile 3 "tcp" "tcp-system-003" "system" "privileged system port" "medium"
    ∷ service_profile 4 "tcp" "tcp-system-004" "system" "privileged system port" "medium"
    ∷ service_profile 5 "tcp" "tcp-system-005" "system" "privileged system port" "medium"
    ∷ service_profile 6 "tcp" "tcp-system-006" "system" "privileged system port" "medium"
    ∷ service_profile 7 "tcp" "tcp-system-007" "system" "privileged system port" "medium"
    ∷ service_profile 8 "tcp" "tcp-system-008" "system" "privileged system port" "medium"
    ∷ service_profile 9 "tcp" "tcp-system-009" "system" "privileged system port" "medium"
    ∷ service_profile 10 "tcp" "tcp-system-010" "system" "privileged system port" "medium"
    ∷ service_profile 11 "tcp" "tcp-system-011" "system" "privileged system port" "medium"
    ∷ service_profile 12 "tcp" "tcp-system-012" "system" "privileged system port" "medium"
    ∷ service_profile 13 "tcp" "tcp-system-013" "system" "privileged system port" "medium"
    ∷ service_profile 14 "tcp" "tcp-system-014" "system" "privileged system port" "medium"
    ∷ service_profile 15 "tcp" "tcp-system-015" "system" "privileged system port" "medium"
    ∷ service_profile 16 "tcp" "tcp-system-016" "system" "privileged system port" "medium"
    ∷ service_profile 17 "tcp" "tcp-system-017" "system" "privileged system port" "medium"
    ∷ []

abbrev pub services_18_35 : List ServiceProfile
services_18_35 =
    service_profile 18 "tcp" "tcp-system-018" "system" "privileged system port" "medium"
    ∷ service_profile 19 "tcp" "tcp-system-019" "system" "privileged system port" "medium"
    ∷ service_profile 20 "tcp" "ftp-data" "file-transfer" "cleartext data channel" "medium"
    ∷ service_profile 21 "tcp" "ftp" "file-transfer" "cleartext command channel" "medium"
    ∷ service_profile 22 "tcp" "ssh" "remote-admin" "encrypted remote shell" "medium"
    ∷ service_profile 23 "tcp" "telnet" "remote-admin" "cleartext remote shell" "high"
    ∷ privileged_slot 24 "tcp" "tcp-port-0024" "medium"
    ∷ service_profile 25 "tcp" "smtp" "mail" "mail transfer service" "medium"
    ∷ privileged_slot 26 "tcp" "tcp-port-0026" "medium"
    ∷ privileged_slot 27 "tcp" "tcp-port-0027" "medium"
    ∷ privileged_slot 28 "tcp" "tcp-port-0028" "medium"
    ∷ privileged_slot 29 "tcp" "tcp-port-0029" "medium"
    ∷ privileged_slot 30 "tcp" "tcp-port-0030" "medium"
    ∷ privileged_slot 31 "tcp" "tcp-port-0031" "medium"
    ∷ privileged_slot 32 "tcp" "tcp-port-0032" "medium"
    ∷ privileged_slot 33 "tcp" "tcp-port-0033" "medium"
    ∷ privileged_slot 34 "tcp" "tcp-port-0034" "medium"
    ∷ privileged_slot 35 "tcp" "tcp-port-0035" "medium"
    ∷ []

abbrev pub services_36_53 : List ServiceProfile
services_36_53 =
    privileged_slot 36 "tcp" "tcp-port-0036" "medium"
    ∷ privileged_slot 37 "tcp" "tcp-port-0037" "medium"
    ∷ privileged_slot 38 "tcp" "tcp-port-0038" "medium"
    ∷ privileged_slot 39 "tcp" "tcp-port-0039" "medium"
    ∷ privileged_slot 40 "tcp" "tcp-port-0040" "medium"
    ∷ privileged_slot 41 "tcp" "tcp-port-0041" "medium"
    ∷ privileged_slot 42 "tcp" "tcp-port-0042" "medium"
    ∷ privileged_slot 43 "tcp" "tcp-port-0043" "medium"
    ∷ privileged_slot 44 "tcp" "tcp-port-0044" "medium"
    ∷ privileged_slot 45 "tcp" "tcp-port-0045" "medium"
    ∷ privileged_slot 46 "tcp" "tcp-port-0046" "medium"
    ∷ privileged_slot 47 "tcp" "tcp-port-0047" "medium"
    ∷ privileged_slot 48 "tcp" "tcp-port-0048" "medium"
    ∷ privileged_slot 49 "tcp" "tcp-port-0049" "medium"
    ∷ privileged_slot 50 "tcp" "tcp-port-0050" "medium"
    ∷ privileged_slot 51 "tcp" "tcp-port-0051" "medium"
    ∷ privileged_slot 52 "tcp" "tcp-port-0052" "medium"
    ∷ service_profile 53 "tcp" "dns" "name-service" "domain name service" "medium"
    ∷ []

abbrev pub services_54_71 : List ServiceProfile
services_54_71 =
    privileged_slot 54 "tcp" "tcp-port-0054" "medium"
    ∷ privileged_slot 55 "tcp" "tcp-port-0055" "medium"
    ∷ privileged_slot 56 "tcp" "tcp-port-0056" "medium"
    ∷ privileged_slot 57 "tcp" "tcp-port-0057" "medium"
    ∷ privileged_slot 58 "tcp" "tcp-port-0058" "medium"
    ∷ privileged_slot 59 "tcp" "tcp-port-0059" "medium"
    ∷ privileged_slot 60 "tcp" "tcp-port-0060" "medium"
    ∷ privileged_slot 61 "tcp" "tcp-port-0061" "medium"
    ∷ privileged_slot 62 "tcp" "tcp-port-0062" "medium"
    ∷ privileged_slot 63 "tcp" "tcp-port-0063" "medium"
    ∷ privileged_slot 64 "tcp" "tcp-port-0064" "medium"
    ∷ privileged_slot 65 "tcp" "tcp-port-0065" "medium"
    ∷ privileged_slot 66 "tcp" "tcp-port-0066" "medium"
    ∷ privileged_slot 67 "tcp" "tcp-port-0067" "medium"
    ∷ privileged_slot 68 "tcp" "tcp-port-0068" "medium"
    ∷ privileged_slot 69 "tcp" "tcp-port-0069" "medium"
    ∷ privileged_slot 70 "tcp" "tcp-port-0070" "medium"
    ∷ privileged_slot 71 "tcp" "tcp-port-0071" "medium"
    ∷ []

abbrev pub services_72_89 : List ServiceProfile
services_72_89 =
    privileged_slot 72 "tcp" "tcp-port-0072" "medium"
    ∷ privileged_slot 73 "tcp" "tcp-port-0073" "medium"
    ∷ privileged_slot 74 "tcp" "tcp-port-0074" "medium"
    ∷ privileged_slot 75 "tcp" "tcp-port-0075" "medium"
    ∷ privileged_slot 76 "tcp" "tcp-port-0076" "medium"
    ∷ privileged_slot 77 "tcp" "tcp-port-0077" "medium"
    ∷ privileged_slot 78 "tcp" "tcp-port-0078" "medium"
    ∷ privileged_slot 79 "tcp" "tcp-port-0079" "medium"
    ∷ service_profile 80 "tcp" "http" "web" "unencrypted web service" "medium"
    ∷ privileged_slot 81 "tcp" "tcp-port-0081" "medium"
    ∷ privileged_slot 82 "tcp" "tcp-port-0082" "medium"
    ∷ privileged_slot 83 "tcp" "tcp-port-0083" "medium"
    ∷ privileged_slot 84 "tcp" "tcp-port-0084" "medium"
    ∷ privileged_slot 85 "tcp" "tcp-port-0085" "medium"
    ∷ privileged_slot 86 "tcp" "tcp-port-0086" "medium"
    ∷ privileged_slot 87 "tcp" "tcp-port-0087" "medium"
    ∷ privileged_slot 88 "tcp" "tcp-port-0088" "medium"
    ∷ privileged_slot 89 "tcp" "tcp-port-0089" "medium"
    ∷ []

abbrev pub services_90_107 : List ServiceProfile
services_90_107 =
    privileged_slot 90 "tcp" "tcp-port-0090" "medium"
    ∷ privileged_slot 91 "tcp" "tcp-port-0091" "medium"
    ∷ privileged_slot 92 "tcp" "tcp-port-0092" "medium"
    ∷ privileged_slot 93 "tcp" "tcp-port-0093" "medium"
    ∷ privileged_slot 94 "tcp" "tcp-port-0094" "medium"
    ∷ privileged_slot 95 "tcp" "tcp-port-0095" "medium"
    ∷ privileged_slot 96 "tcp" "tcp-port-0096" "medium"
    ∷ privileged_slot 97 "tcp" "tcp-port-0097" "medium"
    ∷ privileged_slot 98 "tcp" "tcp-port-0098" "medium"
    ∷ privileged_slot 99 "tcp" "tcp-port-0099" "medium"
    ∷ privileged_slot 100 "tcp" "tcp-port-0100" "medium"
    ∷ privileged_slot 101 "tcp" "tcp-port-0101" "medium"
    ∷ privileged_slot 102 "tcp" "tcp-port-0102" "medium"
    ∷ privileged_slot 103 "tcp" "tcp-port-0103" "medium"
    ∷ privileged_slot 104 "tcp" "tcp-port-0104" "medium"
    ∷ privileged_slot 105 "tcp" "tcp-port-0105" "medium"
    ∷ privileged_slot 106 "tcp" "tcp-port-0106" "medium"
    ∷ privileged_slot 107 "tcp" "tcp-port-0107" "medium"
    ∷ []

abbrev pub services_108_125 : List ServiceProfile
services_108_125 =
    privileged_slot 108 "tcp" "tcp-port-0108" "medium"
    ∷ privileged_slot 109 "tcp" "tcp-port-0109" "medium"
    ∷ service_profile 110 "tcp" "pop3" "mail" "cleartext mailbox service" "medium"
    ∷ privileged_slot 111 "tcp" "tcp-port-0111" "medium"
    ∷ privileged_slot 112 "tcp" "tcp-port-0112" "medium"
    ∷ privileged_slot 113 "tcp" "tcp-port-0113" "medium"
    ∷ privileged_slot 114 "tcp" "tcp-port-0114" "medium"
    ∷ privileged_slot 115 "tcp" "tcp-port-0115" "medium"
    ∷ privileged_slot 116 "tcp" "tcp-port-0116" "medium"
    ∷ privileged_slot 117 "tcp" "tcp-port-0117" "medium"
    ∷ privileged_slot 118 "tcp" "tcp-port-0118" "medium"
    ∷ privileged_slot 119 "tcp" "tcp-port-0119" "medium"
    ∷ privileged_slot 120 "tcp" "tcp-port-0120" "medium"
    ∷ privileged_slot 121 "tcp" "tcp-port-0121" "medium"
    ∷ privileged_slot 122 "tcp" "tcp-port-0122" "medium"
    ∷ privileged_slot 123 "tcp" "tcp-port-0123" "medium"
    ∷ privileged_slot 124 "tcp" "tcp-port-0124" "medium"
    ∷ privileged_slot 125 "tcp" "tcp-port-0125" "medium"
    ∷ []

abbrev pub services_126_143 : List ServiceProfile
services_126_143 =
    privileged_slot 126 "tcp" "tcp-port-0126" "medium"
    ∷ privileged_slot 127 "tcp" "tcp-port-0127" "medium"
    ∷ privileged_slot 128 "tcp" "tcp-port-0128" "medium"
    ∷ privileged_slot 129 "tcp" "tcp-port-0129" "medium"
    ∷ privileged_slot 130 "tcp" "tcp-port-0130" "medium"
    ∷ privileged_slot 131 "tcp" "tcp-port-0131" "medium"
    ∷ privileged_slot 132 "tcp" "tcp-port-0132" "medium"
    ∷ privileged_slot 133 "tcp" "tcp-port-0133" "medium"
    ∷ privileged_slot 134 "tcp" "tcp-port-0134" "medium"
    ∷ service_profile 135 "tcp" "msrpc" "windows-rpc" "endpoint mapper" "high"
    ∷ privileged_slot 136 "tcp" "tcp-port-0136" "medium"
    ∷ privileged_slot 137 "tcp" "tcp-port-0137" "medium"
    ∷ privileged_slot 138 "tcp" "tcp-port-0138" "medium"
    ∷ service_profile 139 "tcp" "netbios-ssn" "windows-file-sharing" "legacy file sharing" "high"
    ∷ privileged_slot 140 "tcp" "tcp-port-0140" "medium"
    ∷ privileged_slot 141 "tcp" "tcp-port-0141" "medium"
    ∷ privileged_slot 142 "tcp" "tcp-port-0142" "medium"
    ∷ service_profile 143 "tcp" "imap" "mail" "mailbox access service" "medium"
    ∷ []

abbrev pub services_144_161 : List ServiceProfile
services_144_161 =
    privileged_slot 144 "tcp" "tcp-port-0144" "medium"
    ∷ privileged_slot 145 "tcp" "tcp-port-0145" "medium"
    ∷ privileged_slot 146 "tcp" "tcp-port-0146" "medium"
    ∷ privileged_slot 147 "tcp" "tcp-port-0147" "medium"
    ∷ privileged_slot 148 "tcp" "tcp-port-0148" "medium"
    ∷ privileged_slot 149 "tcp" "tcp-port-0149" "medium"
    ∷ privileged_slot 150 "tcp" "tcp-port-0150" "medium"
    ∷ privileged_slot 151 "tcp" "tcp-port-0151" "medium"
    ∷ privileged_slot 152 "tcp" "tcp-port-0152" "medium"
    ∷ privileged_slot 153 "tcp" "tcp-port-0153" "medium"
    ∷ privileged_slot 154 "tcp" "tcp-port-0154" "medium"
    ∷ privileged_slot 155 "tcp" "tcp-port-0155" "medium"
    ∷ privileged_slot 156 "tcp" "tcp-port-0156" "medium"
    ∷ privileged_slot 157 "tcp" "tcp-port-0157" "medium"
    ∷ privileged_slot 158 "tcp" "tcp-port-0158" "medium"
    ∷ privileged_slot 159 "tcp" "tcp-port-0159" "medium"
    ∷ privileged_slot 160 "tcp" "tcp-port-0160" "medium"
    ∷ privileged_slot 161 "tcp" "tcp-port-0161" "medium"
    ∷ []
