-- ===== src/Core/Catalog/Services/Part6.antt =====
-- Entries of `kServiceProfiles` of src/core/security_catalog.cpp, in its order.
use packet_guard.Base.{List, [], ◌∷◌}
use packet_guard.Core.Catalog.Types.{ServiceProfile, privileged_slot}

abbrev pub services_810_827 : List ServiceProfile
services_810_827 =
    privileged_slot 196 "udp" "udp-port-0196" "low"
    ∷ privileged_slot 197 "udp" "udp-port-0197" "low"
    ∷ privileged_slot 198 "udp" "udp-port-0198" "low"
    ∷ privileged_slot 199 "udp" "udp-port-0199" "low"
    ∷ privileged_slot 200 "udp" "udp-port-0200" "low"
    ∷ privileged_slot 201 "udp" "udp-port-0201" "low"
    ∷ privileged_slot 202 "udp" "udp-port-0202" "low"
    ∷ privileged_slot 203 "udp" "udp-port-0203" "low"
    ∷ privileged_slot 204 "udp" "udp-port-0204" "low"
    ∷ privileged_slot 205 "udp" "udp-port-0205" "low"
    ∷ privileged_slot 206 "udp" "udp-port-0206" "low"
    ∷ privileged_slot 207 "udp" "udp-port-0207" "low"
    ∷ privileged_slot 208 "udp" "udp-port-0208" "low"
    ∷ privileged_slot 209 "udp" "udp-port-0209" "low"
    ∷ privileged_slot 210 "udp" "udp-port-0210" "low"
    ∷ privileged_slot 211 "udp" "udp-port-0211" "low"
    ∷ privileged_slot 212 "udp" "udp-port-0212" "low"
    ∷ privileged_slot 213 "udp" "udp-port-0213" "low"
    ∷ []

abbrev pub services_828_845 : List ServiceProfile
services_828_845 =
    privileged_slot 214 "udp" "udp-port-0214" "low"
    ∷ privileged_slot 215 "udp" "udp-port-0215" "low"
    ∷ privileged_slot 216 "udp" "udp-port-0216" "low"
    ∷ privileged_slot 217 "udp" "udp-port-0217" "low"
    ∷ privileged_slot 218 "udp" "udp-port-0218" "low"
    ∷ privileged_slot 219 "udp" "udp-port-0219" "low"
    ∷ privileged_slot 220 "udp" "udp-port-0220" "low"
    ∷ privileged_slot 221 "udp" "udp-port-0221" "low"
    ∷ privileged_slot 222 "udp" "udp-port-0222" "low"
    ∷ privileged_slot 223 "udp" "udp-port-0223" "low"
    ∷ privileged_slot 224 "udp" "udp-port-0224" "low"
    ∷ privileged_slot 225 "udp" "udp-port-0225" "low"
    ∷ privileged_slot 226 "udp" "udp-port-0226" "low"
    ∷ privileged_slot 227 "udp" "udp-port-0227" "low"
    ∷ privileged_slot 228 "udp" "udp-port-0228" "low"
    ∷ privileged_slot 229 "udp" "udp-port-0229" "low"
    ∷ privileged_slot 230 "udp" "udp-port-0230" "low"
    ∷ privileged_slot 231 "udp" "udp-port-0231" "low"
    ∷ []

abbrev pub services_846_863 : List ServiceProfile
services_846_863 =
    privileged_slot 232 "udp" "udp-port-0232" "low"
    ∷ privileged_slot 233 "udp" "udp-port-0233" "low"
    ∷ privileged_slot 234 "udp" "udp-port-0234" "low"
    ∷ privileged_slot 235 "udp" "udp-port-0235" "low"
    ∷ privileged_slot 236 "udp" "udp-port-0236" "low"
    ∷ privileged_slot 237 "udp" "udp-port-0237" "low"
    ∷ privileged_slot 238 "udp" "udp-port-0238" "low"
    ∷ privileged_slot 239 "udp" "udp-port-0239" "low"
    ∷ privileged_slot 240 "udp" "udp-port-0240" "low"
    ∷ privileged_slot 241 "udp" "udp-port-0241" "low"
    ∷ privileged_slot 242 "udp" "udp-port-0242" "low"
    ∷ privileged_slot 243 "udp" "udp-port-0243" "low"
    ∷ privileged_slot 244 "udp" "udp-port-0244" "low"
    ∷ privileged_slot 245 "udp" "udp-port-0245" "low"
    ∷ privileged_slot 246 "udp" "udp-port-0246" "low"
    ∷ privileged_slot 247 "udp" "udp-port-0247" "low"
    ∷ privileged_slot 248 "udp" "udp-port-0248" "low"
    ∷ privileged_slot 249 "udp" "udp-port-0249" "low"
    ∷ []

abbrev pub services_864_881 : List ServiceProfile
services_864_881 =
    privileged_slot 250 "udp" "udp-port-0250" "low"
    ∷ privileged_slot 251 "udp" "udp-port-0251" "low"
    ∷ privileged_slot 252 "udp" "udp-port-0252" "low"
    ∷ privileged_slot 253 "udp" "udp-port-0253" "low"
    ∷ privileged_slot 254 "udp" "udp-port-0254" "low"
    ∷ privileged_slot 255 "udp" "udp-port-0255" "low"
    ∷ privileged_slot 256 "udp" "udp-port-0256" "low"
    ∷ privileged_slot 257 "udp" "udp-port-0257" "low"
    ∷ privileged_slot 258 "udp" "udp-port-0258" "low"
    ∷ privileged_slot 259 "udp" "udp-port-0259" "low"
    ∷ privileged_slot 260 "udp" "udp-port-0260" "low"
    ∷ privileged_slot 261 "udp" "udp-port-0261" "low"
    ∷ privileged_slot 262 "udp" "udp-port-0262" "low"
    ∷ privileged_slot 263 "udp" "udp-port-0263" "low"
    ∷ privileged_slot 264 "udp" "udp-port-0264" "low"
    ∷ privileged_slot 265 "udp" "udp-port-0265" "low"
    ∷ privileged_slot 266 "udp" "udp-port-0266" "low"
    ∷ privileged_slot 267 "udp" "udp-port-0267" "low"
    ∷ []

abbrev pub services_882_899 : List ServiceProfile
services_882_899 =
    privileged_slot 268 "udp" "udp-port-0268" "low"
    ∷ privileged_slot 269 "udp" "udp-port-0269" "low"
    ∷ privileged_slot 270 "udp" "udp-port-0270" "low"
    ∷ privileged_slot 271 "udp" "udp-port-0271" "low"
    ∷ privileged_slot 272 "udp" "udp-port-0272" "low"
    ∷ privileged_slot 273 "udp" "udp-port-0273" "low"
    ∷ privileged_slot 274 "udp" "udp-port-0274" "low"
    ∷ privileged_slot 275 "udp" "udp-port-0275" "low"
    ∷ privileged_slot 276 "udp" "udp-port-0276" "low"
    ∷ privileged_slot 277 "udp" "udp-port-0277" "low"
    ∷ privileged_slot 278 "udp" "udp-port-0278" "low"
    ∷ privileged_slot 279 "udp" "udp-port-0279" "low"
    ∷ privileged_slot 280 "udp" "udp-port-0280" "low"
    ∷ privileged_slot 281 "udp" "udp-port-0281" "low"
    ∷ privileged_slot 282 "udp" "udp-port-0282" "low"
    ∷ privileged_slot 283 "udp" "udp-port-0283" "low"
    ∷ privileged_slot 284 "udp" "udp-port-0284" "low"
    ∷ privileged_slot 285 "udp" "udp-port-0285" "low"
    ∷ []

abbrev pub services_900_917 : List ServiceProfile
services_900_917 =
    privileged_slot 286 "udp" "udp-port-0286" "low"
    ∷ privileged_slot 287 "udp" "udp-port-0287" "low"
    ∷ privileged_slot 288 "udp" "udp-port-0288" "low"
    ∷ privileged_slot 289 "udp" "udp-port-0289" "low"
    ∷ privileged_slot 290 "udp" "udp-port-0290" "low"
    ∷ privileged_slot 291 "udp" "udp-port-0291" "low"
    ∷ privileged_slot 292 "udp" "udp-port-0292" "low"
    ∷ privileged_slot 293 "udp" "udp-port-0293" "low"
    ∷ privileged_slot 294 "udp" "udp-port-0294" "low"
    ∷ privileged_slot 295 "udp" "udp-port-0295" "low"
    ∷ privileged_slot 296 "udp" "udp-port-0296" "low"
    ∷ privileged_slot 297 "udp" "udp-port-0297" "low"
    ∷ privileged_slot 298 "udp" "udp-port-0298" "low"
    ∷ privileged_slot 299 "udp" "udp-port-0299" "low"
    ∷ privileged_slot 300 "udp" "udp-port-0300" "low"
    ∷ privileged_slot 301 "udp" "udp-port-0301" "low"
    ∷ privileged_slot 302 "udp" "udp-port-0302" "low"
    ∷ privileged_slot 303 "udp" "udp-port-0303" "low"
    ∷ []

abbrev pub services_918_935 : List ServiceProfile
services_918_935 =
    privileged_slot 304 "udp" "udp-port-0304" "low"
    ∷ privileged_slot 305 "udp" "udp-port-0305" "low"
    ∷ privileged_slot 306 "udp" "udp-port-0306" "low"
    ∷ privileged_slot 307 "udp" "udp-port-0307" "low"
    ∷ privileged_slot 308 "udp" "udp-port-0308" "low"
    ∷ privileged_slot 309 "udp" "udp-port-0309" "low"
    ∷ privileged_slot 310 "udp" "udp-port-0310" "low"
    ∷ privileged_slot 311 "udp" "udp-port-0311" "low"
    ∷ privileged_slot 312 "udp" "udp-port-0312" "low"
    ∷ privileged_slot 313 "udp" "udp-port-0313" "low"
    ∷ privileged_slot 314 "udp" "udp-port-0314" "low"
    ∷ privileged_slot 315 "udp" "udp-port-0315" "low"
    ∷ privileged_slot 316 "udp" "udp-port-0316" "low"
    ∷ privileged_slot 317 "udp" "udp-port-0317" "low"
    ∷ privileged_slot 318 "udp" "udp-port-0318" "low"
    ∷ privileged_slot 319 "udp" "udp-port-0319" "low"
    ∷ privileged_slot 320 "udp" "udp-port-0320" "low"
    ∷ privileged_slot 321 "udp" "udp-port-0321" "low"
    ∷ []

abbrev pub services_936_953 : List ServiceProfile
services_936_953 =
    privileged_slot 322 "udp" "udp-port-0322" "low"
    ∷ privileged_slot 323 "udp" "udp-port-0323" "low"
    ∷ privileged_slot 324 "udp" "udp-port-0324" "low"
    ∷ privileged_slot 325 "udp" "udp-port-0325" "low"
    ∷ privileged_slot 326 "udp" "udp-port-0326" "low"
    ∷ privileged_slot 327 "udp" "udp-port-0327" "low"
    ∷ privileged_slot 328 "udp" "udp-port-0328" "low"
    ∷ privileged_slot 329 "udp" "udp-port-0329" "low"
    ∷ privileged_slot 330 "udp" "udp-port-0330" "low"
    ∷ privileged_slot 331 "udp" "udp-port-0331" "low"
    ∷ privileged_slot 332 "udp" "udp-port-0332" "low"
    ∷ privileged_slot 333 "udp" "udp-port-0333" "low"
    ∷ privileged_slot 334 "udp" "udp-port-0334" "low"
    ∷ privileged_slot 335 "udp" "udp-port-0335" "low"
    ∷ privileged_slot 336 "udp" "udp-port-0336" "low"
    ∷ privileged_slot 337 "udp" "udp-port-0337" "low"
    ∷ privileged_slot 338 "udp" "udp-port-0338" "low"
    ∷ privileged_slot 339 "udp" "udp-port-0339" "low"
    ∷ []

abbrev pub services_954_971 : List ServiceProfile
services_954_971 =
    privileged_slot 340 "udp" "udp-port-0340" "low"
    ∷ privileged_slot 341 "udp" "udp-port-0341" "low"
    ∷ privileged_slot 342 "udp" "udp-port-0342" "low"
    ∷ privileged_slot 343 "udp" "udp-port-0343" "low"
    ∷ privileged_slot 344 "udp" "udp-port-0344" "low"
    ∷ privileged_slot 345 "udp" "udp-port-0345" "low"
    ∷ privileged_slot 346 "udp" "udp-port-0346" "low"
    ∷ privileged_slot 347 "udp" "udp-port-0347" "low"
    ∷ privileged_slot 348 "udp" "udp-port-0348" "low"
    ∷ privileged_slot 349 "udp" "udp-port-0349" "low"
    ∷ privileged_slot 350 "udp" "udp-port-0350" "low"
    ∷ privileged_slot 351 "udp" "udp-port-0351" "low"
    ∷ privileged_slot 352 "udp" "udp-port-0352" "low"
    ∷ privileged_slot 353 "udp" "udp-port-0353" "low"
    ∷ privileged_slot 354 "udp" "udp-port-0354" "low"
    ∷ privileged_slot 355 "udp" "udp-port-0355" "low"
    ∷ privileged_slot 356 "udp" "udp-port-0356" "low"
    ∷ privileged_slot 357 "udp" "udp-port-0357" "low"
    ∷ []
