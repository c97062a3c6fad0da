-- ===== src/Core/Catalog/Services/Part5.antt =====
-- Entries of `kServiceProfiles` of src/core/security_catalog.cpp, in its order.
use packet_guard.Base.{List, [], ◌∷◌}
use packet_guard.Core.Catalog.Types.{ServiceProfile, privileged_slot, service_profile}

abbrev pub services_648_665 : List ServiceProfile
services_648_665 =
    privileged_slot 34 "udp" "udp-port-0034" "low"
    ∷ privileged_slot 35 "udp" "udp-port-0035" "low"
    ∷ privileged_slot 36 "udp" "udp-port-0036" "low"
    ∷ privileged_slot 37 "udp" "udp-port-0037" "low"
    ∷ privileged_slot 38 "udp" "udp-port-0038" "low"
    ∷ privileged_slot 39 "udp" "udp-port-0039" "low"
    ∷ privileged_slot 40 "udp" "udp-port-0040" "low"
    ∷ privileged_slot 41 "udp" "udp-port-0041" "low"
    ∷ privileged_slot 42 "udp" "udp-port-0042" "low"
    ∷ privileged_slot 43 "udp" "udp-port-0043" "low"
    ∷ privileged_slot 44 "udp" "udp-port-0044" "low"
    ∷ privileged_slot 45 "udp" "udp-port-0045" "low"
    ∷ privileged_slot 46 "udp" "udp-port-0046" "low"
    ∷ privileged_slot 47 "udp" "udp-port-0047" "low"
    ∷ privileged_slot 48 "udp" "udp-port-0048" "low"
    ∷ privileged_slot 49 "udp" "udp-port-0049" "low"
    ∷ privileged_slot 50 "udp" "udp-port-0050" "low"
    ∷ privileged_slot 51 "udp" "udp-port-0051" "low"
    ∷ []

abbrev pub services_666_683 : List ServiceProfile
services_666_683 =
    privileged_slot 52 "udp" "udp-port-0052" "low"
    ∷ service_profile 53 "udp" "dns" "name-service" "domain name service" "medium"
    ∷ privileged_slot 54 "udp" "udp-port-0054" "low"
    ∷ privileged_slot 55 "udp" "udp-port-0055" "low"
    ∷ privileged_slot 56 "udp" "udp-port-0056" "low"
    ∷ privileged_slot 57 "udp" "udp-port-0057" "low"
    ∷ privileged_slot 58 "udp" "udp-port-0058" "low"
    ∷ privileged_slot 59 "udp" "udp-port-0059" "low"
    ∷ privileged_slot 60 "udp" "udp-port-0060" "low"
    ∷ privileged_slot 61 "udp" "udp-port-0061" "low"
    ∷ privileged_slot 62 "udp" "udp-port-0062" "low"
    ∷ privileged_slot 63 "udp" "udp-port-0063" "low"
    ∷ privileged_slot 64 "udp" "udp-port-0064" "low"
    ∷ privileged_slot 65 "udp" "udp-port-0065" "low"
    ∷ privileged_slot 66 "udp" "udp-port-0066" "low"
    ∷ service_profile 67 "udp" "dhcp-server" "addressing" "address assignment server" "medium"
    ∷ service_profile 68 "udp" "dhcp-client" "addressing" "address assignment client" "low"
    ∷ service_profile 69 "udp" "tftp" "file-transfer" "unauthenticated file transfer" "high"
    ∷ []

abbrev pub services_684_701 : List ServiceProfile
services_684_701 =
    privileged_slot 70 "udp" "udp-port-0070" "low"
    ∷ privileged_slot 71 "udp" "udp-port-0071" "low"
    ∷ privileged_slot 72 "udp" "udp-port-0072" "low"
    ∷ privileged_slot 73 "udp" "udp-port-0073" "low"
    ∷ privileged_slot 74 "udp" "udp-port-0074" "low"
    ∷ privileged_slot 75 "udp" "udp-port-0075" "low"
    ∷ privileged_slot 76 "udp" "udp-port-0076" "low"
    ∷ privileged_slot 77 "udp" "udp-port-0077" "low"
    ∷ privileged_slot 78 "udp" "udp-port-0078" "low"
    ∷ privileged_slot 79 "udp" "udp-port-0079" "low"
    ∷ privileged_slot 80 "udp" "udp-port-0080" "low"
    ∷ privileged_slot 81 "udp" "udp-port-0081" "low"
    ∷ privileged_slot 82 "udp" "udp-port-0082" "low"
    ∷ privileged_slot 83 "udp" "udp-port-0083" "low"
    ∷ privileged_slot 84 "udp" "udp-port-0084" "low"
    ∷ privileged_slot 85 "udp" "udp-port-0085" "low"
    ∷ privileged_slot 86 "udp" "udp-port-0086" "low"
    ∷ privileged_slot 87 "udp" "udp-port-0087" "low"
    ∷ []

abbrev pub services_702_719 : List ServiceProfile
services_702_719 =
    privileged_slot 88 "udp" "udp-port-0088" "low"
    ∷ privileged_slot 89 "udp" "udp-port-0089" "low"
    ∷ privileged_slot 90 "udp" "udp-port-0090" "low"
    ∷ privileged_slot 91 "udp" "udp-port-0091" "low"
    ∷ privileged_slot 92 "udp" "udp-port-0092" "low"
    ∷ privileged_slot 93 "udp" "udp-port-0093" "low"
    ∷ privileged_slot 94 "udp" "udp-port-0094" "low"
    ∷ privileged_slot 95 "udp" "udp-port-0095" "low"
    ∷ privileged_slot 96 "udp" "udp-port-0096" "low"
    ∷ privileged_slot 97 "udp" "udp-port-0097" "low"
    ∷ privileged_slot 98 "udp" "udp-port-0098" "low"
    ∷ privileged_slot 99 "udp" "udp-port-0099" "low"
    ∷ privileged_slot 100 "udp" "udp-port-0100" "low"
    ∷ privileged_slot 101 "udp" "udp-port-0101" "low"
    ∷ privileged_slot 102 "udp" "udp-port-0102" "low"
    ∷ privileged_slot 103 "udp" "udp-port-0103" "low"
    ∷ privileged_slot 104 "udp" "udp-port-0104" "low"
    ∷ privileged_slot 105 "udp" "udp-port-0105" "low"
    ∷ []

abbrev pub services_720_737 : List ServiceProfile
services_720_737 =
    privileged_slot 106 "udp" "udp-port-0106" "low"
    ∷ privileged_slot 107 "udp" "udp-port-0107" "low"
    ∷ privileged_slot 108 "udp" "udp-port-0108" "low"
    ∷ privileged_slot 109 "udp" "udp-port-0109" "low"
    ∷ privileged_slot 110 "udp" "udp-port-0110" "low"
    ∷ privileged_slot 111 "udp" "udp-port-0111" "low"
    ∷ privileged_slot 112 "udp" "udp-port-0112" "low"
    ∷ privileged_slot 113 "udp" "udp-port-0113" "low"
    ∷ privileged_slot 114 "udp" "udp-port-0114" "low"
    ∷ privileged_slot 115 "udp" "udp-port-0115" "low"
    ∷ privileged_slot 116 "udp" "udp-port-0116" "low"
    ∷ privileged_slot 117 "udp" "udp-port-0117" "low"
    ∷ privileged_slot 118 "udp" "udp-port-0118" "low"
    ∷ privileged_slot 119 "udp" "udp-port-0119" "low"
    ∷ privileged_slot 120 "udp" "udp-port-0120" "low"
    ∷ privileged_slot 121 "udp" "udp-port-0121" "low"
    ∷ privileged_slot 122 "udp" "udp-port-0122" "low"
    ∷ service_profile 123 "udp" "ntp" "time" "time synchronization" "low"
    ∷ []

abbrev pub services_738_755 : List ServiceProfile
services_738_755 =
    privileged_slot 124 "udp" "udp-port-0124" "low"
    ∷ privileged_slot 125 "udp" "udp-port-0125" "low"
    ∷ privileged_slot 126 "udp" "udp-port-0126" "low"
    ∷ privileged_slot 127 "udp" "udp-port-0127" "low"
    ∷ privileged_slot 128 "udp" "udp-port-0128" "low"
    ∷ privileged_slot 129 "udp" "udp-port-0129" "low"
    ∷ privileged_slot 130 "udp" "udp-port-0130" "low"
    ∷ privileged_slot 131 "udp" "udp-port-0131" "low"
    ∷ privileged_slot 132 "udp" "udp-port-0132" "low"
    ∷ privileged_slot 133 "udp" "udp-port-0133" "low"
    ∷ privileged_slot 134 "udp" "udp-port-0134" "low"
    ∷ privileged_slot 135 "udp" "udp-port-0135" "low"
    ∷ privileged_slot 136 "udp" "udp-port-0136" "low"
    ∷ service_profile 137 "udp" "netbios-ns" "windows-name-service" "legacy name service" "medium"
    ∷ service_profile 138 "udp" "netbios-dgm" "windows-name-service" "legacy datagram service"
        "medium"
    ∷ privileged_slot 139 "udp" "udp-port-0139" "low"
    ∷ privileged_slot 140 "udp" "udp-port-0140" "low"
    ∷ privileged_slot 141 "udp" "udp-port-0141" "low"
    ∷ []

abbrev pub services_756_773 : List ServiceProfile
services_756_773 =
    privileged_slot 142 "udp" "udp-port-0142" "low"
    ∷ privileged_slot 143 "udp" "udp-port-0143" "low"
    ∷ privileged_slot 144 "udp" "udp-port-0144" "low"
    ∷ privileged_slot 145 "udp" "udp-port-0145" "low"
    ∷ privileged_slot 146 "udp" "udp-port-0146" "low"
    ∷ privileged_slot 147 "udp" "udp-port-0147" "low"
    ∷ privileged_slot 148 "udp" "udp-port-0148" "low"
    ∷ privileged_slot 149 "udp" "udp-port-0149" "low"
    ∷ privileged_slot 150 "udp" "udp-port-0150" "low"
    ∷ privileged_slot 151 "udp" "udp-port-0151" "low"
    ∷ privileged_slot 152 "udp" "udp-port-0152" "low"
    ∷ privileged_slot 153 "udp" "udp-port-0153" "low"
    ∷ privileged_slot 154 "udp" "udp-port-0154" "low"
    ∷ privileged_slot 155 "udp" "udp-port-0155" "low"
    ∷ privileged_slot 156 "udp" "udp-port-0156" "low"
    ∷ privileged_slot 157 "udp" "udp-port-0157" "low"
    ∷ privileged_slot 158 "udp" "udp-port-0158" "low"
    ∷ privileged_slot 159 "udp" "udp-port-0159" "low"
    ∷ []

abbrev pub services_774_791 : List ServiceProfile
services_774_791 =
    privileged_slot 160 "udp" "udp-port-0160" "low"
    ∷ service_profile 161 "udp" "snmp" "management" "device management polling" "high"
    ∷ service_profile 162 "udp" "snmptrap" "management" "device management traps" "medium"
    ∷ privileged_slot 163 "udp" "udp-port-0163" "low"
    ∷ privileged_slot 164 "udp" "udp-port-0164" "low"
    ∷ privileged_slot 165 "udp" "udp-port-0165" "low"
    ∷ privileged_slot 166 "udp" "udp-port-0166" "low"
    ∷ privileged_slot 167 "udp" "udp-port-0167" "low"
    ∷ privileged_slot 168 "udp" "udp-port-0168" "low"
    ∷ privileged_slot 169 "udp" "udp-port-0169" "low"
    ∷ privileged_slot 170 "udp" "udp-port-0170" "low"
    ∷ privileged_slot 171 "udp" "udp-port-0171" "low"
    ∷ privileged_slot 172 "udp" "udp-port-0172" "low"
    ∷ privileged_slot 173 "udp" "udp-port-0173" "low"
    ∷ privileged_slot 174 "udp" "udp-port-0174" "low"
    ∷ privileged_slot 175 "udp" "udp-port-0175" "low"
    ∷ privileged_slot 176 "udp" "udp-port-0176" "low"
    ∷ privileged_slot 177 "udp" "udp-port-0177" "low"
    ∷ []

abbrev pub services_792_809 : List ServiceProfile
services_792_809 =
    privileged_slot 178 "udp" "udp-port-0178" "low"
    ∷ privileged_slot 179 "udp" "udp-port-0179" "low"
    ∷ privileged_slot 180 "udp" "udp-port-0180" "low"
    ∷ privileged_slot 181 "udp" "udp-port-0181" "low"
    ∷ privileged_slot 182 "udp" "udp-port-0182" "low"
    ∷ privileged_slot 183 "udp" "udp-port-0183" "low"
    ∷ privileged_slot 184 "udp" "udp-port-0184" "low"
    ∷ privileged_slot 185 "udp" "udp-port-0185" "low"
    ∷ privileged_slot 186 "udp" "udp-port-0186" "low"
    ∷ privileged_slot 187 "udp" "udp-port-0187" "low"
    ∷ privileged_slot 188 "udp" "udp-port-0188" "low"
    ∷ privileged_slot 189 "udp" "udp-port-0189" "low"
    ∷ privileged_slot 190 "udp" "udp-port-0190" "low"
    ∷ privileged_slot 191 "udp" "udp-port-0191" "low"
    ∷ privileged_slot 192 "udp" "udp-port-0192" "low"
    ∷ privileged_slot 193 "udp" "udp-port-0193" "low"
    ∷ privileged_slot 194 "udp" "udp-port-0194" "low"
    ∷ privileged_slot 195 "udp" "udp-port-0195" "low"
    ∷ []
