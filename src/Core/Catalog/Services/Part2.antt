-- ===== src/Core/Catalog/Services/Part2.antt =====
-- Entries of `kServiceProfiles` of src/core/security_catalog.cpp, in its order.
use packet_guard.Base.{List, [], ◌∷◌}
use packet_guard.Core.Catalog.Types.{ServiceProfile, privileged_slot}

abbrev pub services_162_179 : List ServiceProfile
services_162_179 =
    privileged_slot 162 "tcp" "tcp-port-0162" "medium"
    ∷ privileged_slot 163 "tcp" "tcp-port-0163" "medium"
    ∷ privileged_slot 164 "tcp" "tcp-port-0164" "medium"
    ∷ privileged_slot 165 "tcp" "tcp-port-0165" "medium"
    ∷ privileged_slot 166 "tcp" "tcp-port-0166" "medium"
    ∷ privileged_slot 167 "tcp" "tcp-port-0167" "medium"
    ∷ privileged_slot 168 "tcp" "tcp-port-0168" "medium"
    ∷ privileged_slot 169 "tcp" "tcp-port-0169" "medium"
    ∷ privileged_slot 170 "tcp" "tcp-port-0170" "medium"
    ∷ privileged_slot 171 "tcp" "tcp-port-0171" "medium"
    ∷ privileged_slot 172 "tcp" "tcp-port-0172" "medium"
    ∷ privileged_slot 173 "tcp" "tcp-port-0173" "medium"
    ∷ privileged_slot 174 "tcp" "tcp-port-0174" "medium"
    ∷ privileged_slot 175 "tcp" "tcp-port-0175" "medium"
    ∷ privileged_slot 176 "tcp" "tcp-port-0176" "medium"
    ∷ privileged_slot 177 "tcp" "tcp-port-0177" "medium"
    ∷ privileged_slot 178 "tcp" "tcp-port-0178" "medium"
    ∷ privileged_slot 179 "tcp" "tcp-port-0179" "medium"
    ∷ []

abbrev pub services_180_197 : List ServiceProfile
services_180_197 =
    privileged_slot 180 "tcp" "tcp-port-0180" "medium"
    ∷ privileged_slot 181 "tcp" "tcp-port-0181" "medium"
    ∷ privileged_slot 182 "tcp" "tcp-port-0182" "medium"
    ∷ privileged_slot 183 "tcp" "tcp-port-0183" "medium"
    ∷ privileged_slot 184 "tcp" "tcp-port-0184" "medium"
    ∷ privileged_slot 185 "tcp" "tcp-port-0185" "medium"
    ∷ privileged_slot 186 "tcp" "tcp-port-0186" "medium"
    ∷ privileged_slot 187 "tcp" "tcp-port-0187" "medium"
    ∷ privileged_slot 188 "tcp" "tcp-port-0188" "medium"
    ∷ privileged_slot 189 "tcp" "tcp-port-0189" "medium"
    ∷ privileged_slot 190 "tcp" "tcp-port-0190" "medium"
    ∷ privileged_slot 191 "tcp" "tcp-port-0191" "medium"
    ∷ privileged_slot 192 "tcp" "tcp-port-0192" "medium"
    ∷ privileged_slot 193 "tcp" "tcp-port-0193" "medium"
    ∷ privileged_slot 194 "tcp" "tcp-port-0194" "medium"
    ∷ privileged_slot 195 "tcp" "tcp-port-0195" "medium"
    ∷ privileged_slot 196 "tcp" "tcp-port-0196" "medium"
    ∷ privileged_slot 197 "tcp" "tcp-port-0197" "medium"
    ∷ []

abbrev pub services_198_215 : List ServiceProfile
services_198_215 =
    privileged_slot 198 "tcp" "tcp-port-0198" "medium"
    ∷ privileged_slot 199 "tcp" "tcp-port-0199" "medium"
    ∷ privileged_slot 200 "tcp" "tcp-port-0200" "medium"
    ∷ privileged_slot 201 "tcp" "tcp-port-0201" "medium"
    ∷ privileged_slot 202 "tcp" "tcp-port-0202" "medium"
    ∷ privileged_slot 203 "tcp" "tcp-port-0203" "medium"
    ∷ privileged_slot 204 "tcp" "tcp-port-0204" "medium"
    ∷ privileged_slot 205 "tcp" "tcp-port-0205" "medium"
    ∷ privileged_slot 206 "tcp" "tcp-port-0206" "medium"
    ∷ privileged_slot 207 "tcp" "tcp-port-0207" "medium"
    ∷ privileged_slot 208 "tcp" "tcp-port-0208" "medium"
    ∷ privileged_slot 209 "tcp" "tcp-port-0209" "medium"
    ∷ privileged_slot 210 "tcp" "tcp-port-0210" "medium"
    ∷ privileged_slot 211 "tcp" "tcp-port-0211" "medium"
    ∷ privileged_slot 212 "tcp" "tcp-port-0212" "medium"
    ∷ privileged_slot 213 "tcp" "tcp-port-0213" "medium"
    ∷ privileged_slot 214 "tcp" "tcp-port-0214" "medium"
    ∷ privileged_slot 215 "tcp" "tcp-port-0215" "medium"
    ∷ []

abbrev pub services_216_233 : List ServiceProfile
services_216_233 =
    privileged_slot 216 "tcp" "tcp-port-0216" "medium"
    ∷ privileged_slot 217 "tcp" "tcp-port-0217" "medium"
    ∷ privileged_slot 218 "tcp" "tcp-port-0218" "medium"
    ∷ privileged_slot 219 "tcp" "tcp-port-0219" "medium"
    ∷ privileged_slot 220 "tcp" "tcp-port-0220" "medium"
    ∷ privileged_slot 221 "tcp" "tcp-port-0221" "medium"
    ∷ privileged_slot 222 "tcp" "tcp-port-0222" "medium"
    ∷ privileged_slot 223 "tcp" "tcp-port-0223" "medium"
    ∷ privileged_slot 224 "tcp" "tcp-port-0224" "medium"
    ∷ privileged_slot 225 "tcp" "tcp-port-0225" "medium"
    ∷ privileged_slot 226 "tcp" "tcp-port-0226" "medium"
    ∷ privileged_slot 227 "tcp" "tcp-port-0227" "medium"
    ∷ privileged_slot 228 "tcp" "tcp-port-0228" "medium"
    ∷ privileged_slot 229 "tcp" "tcp-port-0229" "medium"
    ∷ privileged_slot 230 "tcp" "tcp-port-0230" "medium"
    ∷ privileged_slot 231 "tcp" "tcp-port-0231" "medium"
    ∷ privileged_slot 232 "tcp" "tcp-port-0232" "medium"
    ∷ privileged_slot 233 "tcp" "tcp-port-0233" "medium"
    ∷ []

abbrev pub services_234_251 : List ServiceProfile
services_234_251 =
    privileged_slot 234 "tcp" "tcp-port-0234" "medium"
    ∷ privileged_slot 235 "tcp" "tcp-port-0235" "medium"
    ∷ privileged_slot 236 "tcp" "tcp-port-0236" "medium"
    ∷ privileged_slot 237 "tcp" "tcp-port-0237" "medium"
    ∷ privileged_slot 238 "tcp" "tcp-port-0238" "medium"
    ∷ privileged_slot 239 "tcp" "tcp-port-0239" "medium"
    ∷ privileged_slot 240 "tcp" "tcp-port-0240" "medium"
    ∷ privileged_slot 241 "tcp" "tcp-port-0241" "medium"
    ∷ privileged_slot 242 "tcp" "tcp-port-0242" "medium"
    ∷ privileged_slot 243 "tcp" "tcp-port-0243" "medium"
    ∷ privileged_slot 244 "tcp" "tcp-port-0244" "medium"
    ∷ privileged_slot 245 "tcp" "tcp-port-0245" "medium"
    ∷ privileged_slot 246 "tcp" "tcp-port-0246" "medium"
    ∷ privileged_slot 247 "tcp" "tcp-port-0247" "medium"
    ∷ privileged_slot 248 "tcp" "tcp-port-0248" "medium"
    ∷ privileged_slot 249 "tcp" "tcp-port-0249" "medium"
    ∷ privileged_slot 250 "tcp" "tcp-port-0250" "medium"
    ∷ privileged_slot 251 "tcp" "tcp-port-0251" "medium"
    ∷ []

abbrev pub services_252_269 : List ServiceProfile
services_252_269 =
    privileged_slot 252 "tcp" "tcp-port-0252" "medium"
    ∷ privileged_slot 253 "tcp" "tcp-port-0253" "medium"
    ∷ privileged_slot 254 "tcp" "tcp-port-0254" "medium"
    ∷ privileged_slot 255 "tcp" "tcp-port-0255" "medium"
    ∷ privileged_slot 256 "tcp" "tcp-port-0256" "medium"
    ∷ privileged_slot 257 "tcp" "tcp-port-0257" "medium"
    ∷ privileged_slot 258 "tcp" "tcp-port-0258" "medium"
    ∷ privileged_slot 259 "tcp" "tcp-port-0259" "medium"
    ∷ privileged_slot 260 "tcp" "tcp-port-0260" "medium"
    ∷ privileged_slot 261 "tcp" "tcp-port-0261" "medium"
    ∷ privileged_slot 262 "tcp" "tcp-port-0262" "medium"
    ∷ privileged_slot 263 "tcp" "tcp-port-0263" "medium"
    ∷ privileged_slot 264 "tcp" "tcp-port-0264" "medium"
    ∷ privileged_slot 265 "tcp" "tcp-port-0265" "medium"
    ∷ privileged_slot 266 "tcp" "tcp-port-0266" "medium"
    ∷ privileged_slot 267 "tcp" "tcp-port-0267" "medium"
    ∷ privileged_slot 268 "tcp" "tcp-port-0268" "medium"
    ∷ privileged_slot 269 "tcp" "tcp-port-0269" "medium"
    ∷ []

abbrev pub services_270_287 : List ServiceProfile
services_270_287 =
    privileged_slot 270 "tcp" "tcp-port-0270" "medium"
    ∷ privileged_slot 271 "tcp" "tcp-port-0271" "medium"
    ∷ privileged_slot 272 "tcp" "tcp-port-0272" "medium"
    ∷ privileged_slot 273 "tcp" "tcp-port-0273" "medium"
    ∷ privileged_slot 274 "tcp" "tcp-port-0274" "medium"
    ∷ privileged_slot 275 "tcp" "tcp-port-0275" "medium"
    ∷ privileged_slot 276 "tcp" "tcp-port-0276" "medium"
    ∷ privileged_slot 277 "tcp" "tcp-port-0277" "medium"
    ∷ privileged_slot 278 "tcp" "tcp-port-0278" "medium"
    ∷ privileged_slot 279 "tcp" "tcp-port-0279" "medium"
    ∷ privileged_slot 280 "tcp" "tcp-port-0280" "medium"
    ∷ privileged_slot 281 "tcp" "tcp-port-0281" "medium"
    ∷ privileged_slot 282 "tcp" "tcp-port-0282" "medium"
    ∷ privileged_slot 283 "tcp" "tcp-port-0283" "medium"
    ∷ privileged_slot 284 "tcp" "tcp-port-0284" "medium"
    ∷ privileged_slot 285 "tcp" "tcp-port-0285" "medium"
    ∷ privileged_slot 286 "tcp" "tcp-port-0286" "medium"
    ∷ privileged_slot 287 "tcp" "tcp-port-0287" "medium"
    ∷ []

abbrev pub services_288_305 : List ServiceProfile
services_288_305 =
    privileged_slot 288 "tcp" "tcp-port-0288" "medium"
    ∷ privileged_slot 289 "tcp" "tcp-port-0289" "medium"
    ∷ privileged_slot 290 "tcp" "tcp-port-0290" "medium"
    ∷ privileged_slot 291 "tcp" "tcp-port-0291" "medium"
    ∷ privileged_slot 292 "tcp" "tcp-port-0292" "medium"
    ∷ privileged_slot 293 "tcp" "tcp-port-0293" "medium"
    ∷ privileged_slot 294 "tcp" "tcp-port-0294" "medium"
    ∷ privileged_slot 295 "tcp" "tcp-port-0295" "medium"
    ∷ privileged_slot 296 "tcp" "tcp-port-0296" "medium"
    ∷ privileged_slot 297 "tcp" "tcp-port-0297" "medium"
    ∷ privileged_slot 298 "tcp" "tcp-port-0298" "medium"
    ∷ privileged_slot 299 "tcp" "tcp-port-0299" "medium"
    ∷ privileged_slot 300 "tcp" "tcp-port-0300" "medium"
    ∷ privileged_slot 301 "tcp" "tcp-port-0301" "medium"
    ∷ privileged_slot 302 "tcp" "tcp-port-0302" "medium"
    ∷ privileged_slot 303 "tcp" "tcp-port-0303" "medium"
    ∷ privileged_slot 304 "tcp" "tcp-port-0304" "medium"
    ∷ privileged_slot 305 "tcp" "tcp-port-0305" "medium"
    ∷ []

abbrev pub services_306_323 : List ServiceProfile
services_306_323 =
    privileged_slot 306 "tcp" "tcp-port-0306" "medium"
    ∷ privileged_slot 307 "tcp" "tcp-port-0307" "medium"
    ∷ privileged_slot 308 "tcp" "tcp-port-0308" "medium"
    ∷ privileged_slot 309 "tcp" "tcp-port-0309" "medium"
    ∷ privileged_slot 310 "tcp" "tcp-port-0310" "medium"
    ∷ privileged_slot 311 "tcp" "tcp-port-0311" "medium"
    ∷ privileged_slot 312 "tcp" "tcp-port-0312" "medium"
    ∷ privileged_slot 313 "tcp" "tcp-port-0313" "medium"
    ∷ privileged_slot 314 "tcp" "tcp-port-0314" "medium"
    ∷ privileged_slot 315 "tcp" "tcp-port-0315" "medium"
    ∷ privileged_slot 316 "tcp" "tcp-port-0316" "medium"
    ∷ privileged_slot 317 "tcp" "tcp-port-0317" "medium"
    ∷ privileged_slot 318 "tcp" "tcp-port-0318" "medium"
    ∷ privileged_slot 319 "tcp" "tcp-port-0319" "medium"
    ∷ privileged_slot 320 "tcp" "tcp-port-0320" "medium"
    ∷ privileged_slot 321 "tcp" "tcp-port-0321" "medium"
    ∷ privileged_slot 322 "tcp" "tcp-port-0322" "medium"
    ∷ privileged_slot 323 "tcp" "tcp-port-0323" "medium"
    ∷ []
