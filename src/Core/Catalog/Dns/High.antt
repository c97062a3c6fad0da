-- ===== src/Core/Catalog/Dns/High.antt =====
-- Entries of `kDnsTypeProfiles` of src/core/security_catalog.cpp, in its order.
use packet_guard.Base.{List, [], ◌∷◌}
use packet_guard.Core.Catalog.Types.{DnsTypeProfile, dns_type}

abbrev pub dns_types_140_159 : List DnsTypeProfile
dns_types_140_159 =
    dns_type 140 "TYPE140" "unassigned" "unassigned or private DNS record type" "low"
    ∷ dns_type 141 "TYPE141" "unassigned" "unassigned or private DNS record type" "low"
    ∷ dns_type 142 "TYPE142" "unassigned" "unassigned or private DNS record type" "low"
    ∷ dns_type 143 "TYPE143" "unassigned" "unassigned or private DNS record type" "low"
    ∷ dns_type 144 "TYPE144" "unassigned" "unassigned or private DNS record type" "low"
    ∷ dns_type 145 "TYPE145" "unassigned" "unassigned or private DNS record type" "low"
    ∷ dns_type 146 "TYPE146" "unassigned" "unassigned or private DNS record type" "low"
    ∷ dns_type 147 "TYPE147" "unassigned" "unassigned or private DNS record type" "low"
    ∷ dns_type 148 "TYPE148" "unassigned" "unassigned or private DNS record type" "low"
    ∷ dns_type 149 "TYPE149" "unassigned" "unassigned or private DNS record type" "low"
    ∷ dns_type 150 "TYPE150" "unassigned" "unassigned or private DNS record type" "low"
    ∷ dns_type 151 "TYPE151" "unassigned" "unassigned or private DNS record type" "low"
    ∷ dns_type 152 "TYPE152" "unassigned" "unassigned or private DNS record type" "low"
    ∷ dns_type 153 "TYPE153" "unassigned" "unassigned or private DNS record type" "low"
    ∷ dns_type 154 "TYPE154" "unassigned" "unassigned or private DNS record type" "low"
    ∷ dns_type 155 "TYPE155" "unassigned" "unassigned or private DNS record type" "low"
    ∷ dns_type 156 "TYPE156" "unassigned" "unassigned or private DNS record type" "low"
    ∷ dns_type 157 "TYPE157" "unassigned" "unassigned or private DNS record type" "low"
    ∷ dns_type 158 "TYPE158" "unassigned" "unassigned or private DNS record type" "low"
    ∷ dns_type 159 "TYPE159" "unassigned" "unassigned or private DNS record type" "low"
    ∷ []

abbrev pub dns_types_160_179 : List DnsTypeProfile
dns_types_160_179 =
    dns_type 160 "TYPE160" "unassigned" "unassigned or private DNS record type" "low"
    ∷ dns_type 161 "TYPE161" "unassigned" "unassigned or private DNS record type" "low"
    ∷ dns_type 162 "TYPE162" "unassigned" "unassigned or private DNS record type" "low"
    ∷ dns_type 163 "TYPE163" "unassigned" "unassigned or private DNS record type" "low"
    ∷ dns_type 164 "TYPE164" "unassigned" "unassigned or private DNS record type" "low"
    ∷ dns_type 165 "TYPE165" "unassigned" "unassigned or private DNS record type" "low"
    ∷ dns_type 166 "TYPE166" "unassigned" "unassigned or private DNS record type" "low"
    ∷ dns_type 167 "TYPE167" "unassigned" "unassigned or private DNS record type" "low"
    ∷ dns_type 168 "TYPE168" "unassigned" "unassigned or private DNS record type" "low"
    ∷ dns_type 169 "TYPE169" "unassigned" "unassigned or private DNS record type" "low"
    ∷ dns_type 170 "TYPE170" "unassigned" "unassigned or private DNS record type" "low"
    ∷ dns_type 171 "TYPE171" "unassigned" "unassigned or private DNS record type" "low"
    ∷ dns_type 172 "TYPE172" "unassigned" "unassigned or private DNS record type" "low"
    ∷ dns_type 173 "TYPE173" "unassigned" "unassigned or private DNS record type" "low"
    ∷ dns_type 174 "TYPE174" "unassigned" "unassigned or private DNS record type" "low"
    ∷ dns_type 175 "TYPE175" "unassigned" "unassigned or private DNS record type" "low"
    ∷ dns_type 176 "TYPE176" "unassigned" "unassigned or private DNS record type" "low"
    ∷ dns_type 177 "TYPE177" "unassigned" "unassigned or private DNS record type" "low"
    ∷ dns_type 178 "TYPE178" "unassigned" "unassigned or private DNS record type" "low"
    ∷ dns_type 179 "TYPE179" "unassigned" "unassigned or private DNS record type" "low"
    ∷ []

abbrev pub dns_types_180_199 : List DnsTypeProfile
dns_types_180_199 =
    dns_type 180 "TYPE180" "unassigned" "unassigned or private DNS record type" "low"
    ∷ dns_type 181 "TYPE181" "unassigned" "unassigned or private DNS record type" "low"
    ∷ dns_type 182 "TYPE182" "unassigned" "unassigned or private DNS record type" "low"
    ∷ dns_type 183 "TYPE183" "unassigned" "unassigned or private DNS record type" "low"
    ∷ dns_type 184 "TYPE184" "unassigned" "unassigned or private DNS record type" "low"
    ∷ dns_type 185 "TYPE185" "unassigned" "unassigned or private DNS record type" "low"
    ∷ dns_type 186 "TYPE186" "unassigned" "unassigned or private DNS record type" "low"
    ∷ dns_type 187 "TYPE187" "unassigned" "unassigned or private DNS record type" "low"
    ∷ dns_type 188 "TYPE188" "unassigned" "unassigned or private DNS record type" "low"
    ∷ dns_type 189 "TYPE189" "unassigned" "unassigned or private DNS record type" "low"
    ∷ dns_type 190 "TYPE190" "unassigned" "unassigned or private DNS record type" "low"
    ∷ dns_type 191 "TYPE191" "unassigned" "unassigned or private DNS record type" "low"
    ∷ dns_type 192 "TYPE192" "unassigned" "unassigned or private DNS record type" "low"
    ∷ dns_type 193 "TYPE193" "unassigned" "unassigned or private DNS record type" "low"
    ∷ dns_type 194 "TYPE194" "unassigned" "unassigned or private DNS record type" "low"
    ∷ dns_type 195 "TYPE195" "unassigned" "unassigned or private DNS record type" "low"
    ∷ dns_type 196 "TYPE196" "unassigned" "unassigned or private DNS record type" "low"
    ∷ dns_type 197 "TYPE197" "unassigned" "unassigned or private DNS record type" "low"
    ∷ dns_type 198 "TYPE198" "unassigned" "unassigned or private DNS record type" "low"
    ∷ dns_type 199 "TYPE199" "unassigned" "unassigned or private DNS record type" "low"
    ∷ []

abbrev pub dns_types_200_219 : List DnsTypeProfile
dns_types_200_219 =
    dns_type 200 "TYPE200" "unassigned" "unassigned or private DNS record type" "low"
    ∷ dns_type 201 "TYPE201" "unassigned" "unassigned or private DNS record type" "low"
    ∷ dns_type 202 "TYPE202" "unassigned" "unassigned or private DNS record type" "low"
    ∷ dns_type 203 "TYPE203" "unassigned" "unassigned or private DNS record type" "low"
    ∷ dns_type 204 "TYPE204" "unassigned" "unassigned or private DNS record type" "low"
    ∷ dns_type 205 "TYPE205" "unassigned" "unassigned or private DNS record type" "low"
    ∷ dns_type 206 "TYPE206" "unassigned" "unassigned or private DNS record type" "low"
    ∷ dns_type 207 "TYPE207" "unassigned" "unassigned or private DNS record type" "low"
    ∷ dns_type 208 "TYPE208" "unassigned" "unassigned or private DNS record type" "low"
    ∷ dns_type 209 "TYPE209" "unassigned" "unassigned or private DNS record type" "low"
    ∷ dns_type 210 "TYPE210" "unassigned" "unassigned or private DNS record type" "low"
    ∷ dns_type 211 "TYPE211" "unassigned" "unassigned or private DNS record type" "low"
    ∷ dns_type 212 "TYPE212" "unassigned" "unassigned or private DNS record type" "low"
    ∷ dns_type 213 "TYPE213" "unassigned" "unassigned or private DNS record type" "low"
    ∷ dns_type 214 "TYPE214" "unassigned" "unassigned or private DNS record type" "low"
    ∷ dns_type 215 "TYPE215" "unassigned" "unassigned or private DNS record type" "low"
    ∷ dns_type 216 "TYPE216" "unassigned" "unassigned or private DNS record type" "low"
    ∷ dns_type 217 "TYPE217" "unassigned" "unassigned or private DNS record type" "low"
    ∷ dns_type 218 "TYPE218" "unassigned" "unassigned or private DNS record type" "low"
    ∷ dns_type 219 "TYPE219" "unassigned" "unassigned or private DNS record type" "low"
    ∷ []

abbrev pub dns_types_220_239 : List DnsTypeProfile
dns_types_220_239 =
    dns_type 220 "TYPE220" "unassigned" "unassigned or private DNS record type" "low"
    ∷ dns_type 221 "TYPE221" "unassigned" "unassigned or private DNS record type" "low"
    ∷ dns_type 222 "TYPE222" "unassigned" "unassigned or private DNS record type" "low"
    ∷ dns_type 223 "TYPE223" "unassigned" "unassigned or private DNS record type" "low"
    ∷ dns_type 224 "TYPE224" "unassigned" "unassigned or private DNS record type" "low"
    ∷ dns_type 225 "TYPE225" "unassigned" "unassigned or private DNS record type" "low"
    ∷ dns_type 226 "TYPE226" "unassigned" "unassigned or private DNS record type" "low"
    ∷ dns_type 227 "TYPE227" "unassigned" "unassigned or private DNS record type" "low"
    ∷ dns_type 228 "TYPE228" "unassigned" "unassigned or private DNS record type" "low"
    ∷ dns_type 229 "TYPE229" "unassigned" "unassigned or private DNS record type" "low"
    ∷ dns_type 230 "TYPE230" "unassigned" "unassigned or private DNS record type" "low"
    ∷ dns_type 231 "TYPE231" "unassigned" "unassigned or private DNS record type" "low"
    ∷ dns_type 232 "TYPE232" "unassigned" "unassigned or private DNS record type" "low"
    ∷ dns_type 233 "TYPE233" "unassigned" "unassigned or private DNS record type" "low"
    ∷ dns_type 234 "TYPE234" "unassigned" "unassigned or private DNS record type" "low"
    ∷ dns_type 235 "TYPE235" "unassigned" "unassigned or private DNS record type" "low"
    ∷ dns_type 236 "TYPE236" "unassigned" "unassigned or private DNS record type" "low"
    ∷ dns_type 237 "TYPE237" "unassigned" "unassigned or private DNS record type" "low"
    ∷ dns_type 238 "TYPE238" "unassigned" "unassigned or private DNS record type" "low"
    ∷ dns_type 239 "TYPE239" "unassigned" "unassigned or private DNS record type" "low"
    ∷ []

abbrev pub dns_types_240_255 : List DnsTypeProfile
dns_types_240_255 =
    dns_type 240 "TYPE240" "unassigned" "unassigned or private DNS record type" "low"
    ∷ dns_type 241 "TYPE241" "unassigned" "unassigned or private DNS record type" "low"
    ∷ dns_type 242 "TYPE242" "unassigned" "unassigned or private DNS record type" "low"
    ∷ dns_type 243 "TYPE243" "unassigned" "unassigned or private DNS record type" "low"
    ∷ dns_type 244 "TYPE244" "unassigned" "unassigned or private DNS record type" "low"
    ∷ dns_type 245 "TYPE245" "unassigned" "unassigned or private DNS record type" "low"
    ∷ dns_type 246 "TYPE246" "unassigned" "unassigned or private DNS record type" "low"
    ∷ dns_type 247 "TYPE247" "unassigned" "unassigned or private DNS record type" "low"
    ∷ dns_type 248 "TYPE248" "unassigned" "unassigned or private DNS record type" "low"
    ∷ dns_type 249 "TYPE249" "unassigned" "unassigned or private DNS record type" "low"
    ∷ dns_type 250 "TYPE250" "unassigned" "unassigned or private DNS record type" "low"
    ∷ dns_type 251 "TYPE251" "unassigned" "unassigned or private DNS record type" "low"
    ∷ dns_type 252 "TYPE252" "unassigned" "unassigned or private DNS record type" "low"
    ∷ dns_type 253 "TYPE253" "unassigned" "unassigned or private DNS record type" "low"
    ∷ dns_type 254 "TYPE254" "unassigned" "unassigned or private DNS record type" "low"
    ∷ dns_type 255 "ANY" "query" "meta query for any type" "high"
    ∷ []
