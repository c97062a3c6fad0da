-- ===== src/Core/Catalog/Services/Part3.antt =====
-- Entries of `kServiceProfiles` of src/core/security_catalog.cpp, in its order.
use packet_guard.Base.{List, [], ◌∷◌}
use packet_guard.Core.Catalog.Types.{ServiceProfile, privileged_slot, service_profile}

abbrev pub services_324_341 : List ServiceProfile
services_324_341 =
    privileged_slot 324 "tcp" "tcp-port-0324" "medium"
    ∷ privileged_slot 325 "tcp" "tcp-port-0325" "medium"
    ∷ privileged_slot 326 "tcp" "tcp-port-0326" "medium"
    ∷ privileged_slot 327 "tcp" "tcp-port-0327" "medium"
    ∷ privileged_slot 328 "tcp" "tcp-port-0328" "medium"
    ∷ privileged_slot 329 "tcp" "tcp-port-0329" "medium"
    ∷ privileged_slot 330 "tcp" "tcp-port-0330" "medium"
    ∷ privileged_slot 331 "tcp" "tcp-port-0331" "medium"
    ∷ privileged_slot 332 "tcp" "tcp-port-0332" "medium"
    ∷ privileged_slot 333 "tcp" "tcp-port-0333" "medium"
    ∷ privileged_slot 334 "tcp" "tcp-port-0334" "medium"
    ∷ privileged_slot 335 "tcp" "tcp-port-0335" "medium"
    ∷ privileged_slot 336 "tcp" "tcp-port-0336" "medium"
    ∷ privileged_slot 337 "tcp" "tcp-port-0337" "medium"
    ∷ privileged_slot 338 "tcp" "tcp-port-0338" "medium"
    ∷ privileged_slot 339 "tcp" "tcp-port-0339" "medium"
    ∷ privileged_slot 340 "tcp" "tcp-port-0340" "medium"
    ∷ privileged_slot 341 "tcp" "tcp-port-0341" "medium"
    ∷ []

abbrev pub services_342_359 : List ServiceProfile
services_342_359 =
    privileged_slot 342 "tcp" "tcp-port-0342" "medium"
    ∷ privileged_slot 343 "tcp" "tcp-port-0343" "medium"
    ∷ privileged_slot 344 "tcp" "tcp-port-0344" "medium"
    ∷ privileged_slot 345 "tcp" "tcp-port-0345" "medium"
    ∷ privileged_slot 346 "tcp" "tcp-port-0346" "medium"
    ∷ privileged_slot 347 "tcp" "tcp-port-0347" "medium"
    ∷ privileged_slot 348 "tcp" "tcp-port-0348" "medium"
    ∷ privileged_slot 349 "tcp" "tcp-port-0349" "medium"
    ∷ privileged_slot 350 "tcp" "tcp-port-0350" "medium"
    ∷ privileged_slot 351 "tcp" "tcp-port-0351" "medium"
    ∷ privileged_slot 352 "tcp" "tcp-port-0352" "medium"
    ∷ privileged_slot 353 "tcp" "tcp-port-0353" "medium"
    ∷ privileged_slot 354 "tcp" "tcp-port-0354" "medium"
    ∷ privileged_slot 355 "tcp" "tcp-port-0355" "medium"
    ∷ privileged_slot 356 "tcp" "tcp-port-0356" "medium"
    ∷ privileged_slot 357 "tcp" "tcp-port-0357" "medium"
    ∷ privileged_slot 358 "tcp" "tcp-port-0358" "medium"
    ∷ privileged_slot 359 "tcp" "tcp-port-0359" "medium"
    ∷ []

abbrev pub services_360_377 : List ServiceProfile
services_360_377 =
    privileged_slot 360 "tcp" "tcp-port-0360" "medium"
    ∷ privileged_slot 361 "tcp" "tcp-port-0361" "medium"
    ∷ privileged_slot 362 "tcp" "tcp-port-0362" "medium"
    ∷ privileged_slot 363 "tcp" "tcp-port-0363" "medium"
    ∷ privileged_slot 364 "tcp" "tcp-port-0364" "medium"
    ∷ privileged_slot 365 "tcp" "tcp-port-0365" "medium"
    ∷ privileged_slot 366 "tcp" "tcp-port-0366" "medium"
    ∷ privileged_slot 367 "tcp" "tcp-port-0367" "medium"
    ∷ privileged_slot 368 "tcp" "tcp-port-0368" "medium"
    ∷ privileged_slot 369 "tcp" "tcp-port-0369" "medium"
    ∷ privileged_slot 370 "tcp" "tcp-port-0370" "medium"
    ∷ privileged_slot 371 "tcp" "tcp-port-0371" "medium"
    ∷ privileged_slot 372 "tcp" "tcp-port-0372" "medium"
    ∷ privileged_slot 373 "tcp" "tcp-port-0373" "medium"
    ∷ privileged_slot 374 "tcp" "tcp-port-0374" "medium"
    ∷ privileged_slot 375 "tcp" "tcp-port-0375" "medium"
    ∷ privileged_slot 376 "tcp" "tcp-port-0376" "medium"
    ∷ privileged_slot 377 "tcp" "tcp-port-0377" "medium"
    ∷ []

abbrev pub services_378_395 : List ServiceProfile
services_378_395 =
    privileged_slot 378 "tcp" "tcp-port-0378" "medium"
    ∷ privileged_slot 379 "tcp" "tcp-port-0379" "medium"
    ∷ privileged_slot 380 "tcp" "tcp-port-0380" "medium"
    ∷ privileged_slot 381 "tcp" "tcp-port-0381" "medium"
    ∷ privileged_slot 382 "tcp" "tcp-port-0382" "medium"
    ∷ privileged_slot 383 "tcp" "tcp-port-0383" "medium"
    ∷ privileged_slot 384 "tcp" "tcp-port-0384" "medium"
    ∷ privileged_slot 385 "tcp" "tcp-port-0385" "medium"
    ∷ privileged_slot 386 "tcp" "tcp-port-0386" "medium"
    ∷ privileged_slot 387 "tcp" "tcp-port-0387" "medium"
    ∷ privileged_slot 388 "tcp" "tcp-port-0388" "medium"
    ∷ service_profile 389 "tcp" "ldap" "directory" "directory service" "medium"
    ∷ privileged_slot 390 "tcp" "tcp-port-0390" "medium"
    ∷ privileged_slot 391 "tcp" "tcp-port-0391" "medium"
    ∷ privileged_slot 392 "tcp" "tcp-port-0392" "medium"
    ∷ privileged_slot 393 "tcp" "tcp-port-0393" "medium"
    ∷ privileged_slot 394 "tcp" "tcp-port-0394" "medium"
    ∷ privileged_slot 395 "tcp" "tcp-port-0395" "medium"
    ∷ []

abbrev pub services_396_413 : List ServiceProfile
services_396_413 =
    privileged_slot 396 "tcp" "tcp-port-0396" "medium"
    ∷ privileged_slot 397 "tcp" "tcp-port-0397" "medium"
    ∷ privileged_slot 398 "tcp" "tcp-port-0398" "medium"
    ∷ privileged_slot 399 "tcp" "tcp-port-0399" "medium"
    ∷ privileged_slot 400 "tcp" "tcp-port-0400" "medium"
    ∷ privileged_slot 401 "tcp" "tcp-port-0401" "medium"
    ∷ privileged_slot 402 "tcp" "tcp-port-0402" "medium"
    ∷ privileged_slot 403 "tcp" "tcp-port-0403" "medium"
    ∷ privileged_slot 404 "tcp" "tcp-port-0404" "medium"
    ∷ privileged_slot 405 "tcp" "tcp-port-0405" "medium"
    ∷ privileged_slot 406 "tcp" "tcp-port-0406" "medium"
    ∷ privileged_slot 407 "tcp" "tcp-port-0407" "medium"
    ∷ privileged_slot 408 "tcp" "tcp-port-0408" "medium"
    ∷ privileged_slot 409 "tcp" "tcp-port-0409" "medium"
    ∷ privileged_slot 410 "tcp" "tcp-port-0410" "medium"
    ∷ privileged_slot 411 "tcp" "tcp-port-0411" "medium"
    ∷ privileged_slot 412 "tcp" "tcp-port-0412" "medium"
    ∷ privileged_slot 413 "tcp" "tcp-port-0413" "medium"
    ∷ []

abbrev pub services_414_431 : List ServiceProfile
services_414_431 =
    privileged_slot 414 "tcp" "tcp-port-0414" "medium"
    ∷ privileged_slot 415 "tcp" "tcp-port-0415" "medium"
    ∷ privileged_slot 416 "tcp" "tcp-port-0416" "medium"
    ∷ privileged_slot 417 "tcp" "tcp-port-0417" "medium"
    ∷ privileged_slot 418 "tcp" "tcp-port-0418" "medium"
    ∷ privileged_slot 419 "tcp" "tcp-port-0419" "medium"
    ∷ privileged_slot 420 "tcp" "tcp-port-0420" "medium"
    ∷ privileged_slot 421 "tcp" "tcp-port-0421" "medium"
    ∷ privileged_slot 422 "tcp" "tcp-port-0422" "medium"
    ∷ privileged_slot 423 "tcp" "tcp-port-0423" "medium"
    ∷ privileged_slot 424 "tcp" "tcp-port-0424" "medium"
    ∷ privileged_slot 425 "tcp" "tcp-port-0425" "medium"
    ∷ privileged_slot 426 "tcp" "tcp-port-0426" "medium"
    ∷ privileged_slot 427 "tcp" "tcp-port-0427" "medium"
    ∷ privileged_slot 428 "tcp" "tcp-port-0428" "medium"
    ∷ privileged_slot 429 "tcp" "tcp-port-0429" "medium"
    ∷ privileged_slot 430 "tcp" "tcp-port-0430" "medium"
    ∷ privileged_slot 431 "tcp" "tcp-port-0431" "medium"
    ∷ []

abbrev pub services_432_449 : List ServiceProfile
services_432_449 =
    privileged_slot 432 "tcp" "tcp-port-0432" "medium"
    ∷ privileged_slot 433 "tcp" "tcp-port-0433" "medium"
    ∷ privileged_slot 434 "tcp" "tcp-port-0434" "medium"
    ∷ privileged_slot 435 "tcp" "tcp-port-0435" "medium"
    ∷ privileged_slot 436 "tcp" "tcp-port-0436" "medium"
    ∷ privileged_slot 437 "tcp" "tcp-port-0437" "medium"
    ∷ privileged_slot 438 "tcp" "tcp-port-0438" "medium"
    ∷ privileged_slot 439 "tcp" "tcp-port-0439" "medium"
    ∷ privileged_slot 440 "tcp" "tcp-port-0440" "medium"
    ∷ privileged_slot 441 "tcp" "tcp-port-0441" "medium"
    ∷ privileged_slot 442 "tcp" "tcp-port-0442" "medium"
    ∷ service_profile 443 "tcp" "https" "web" "encrypted web service" "medium"
    ∷ privileged_slot 444 "tcp" "tcp-port-0444" "medium"
    ∷ service_profile 445 "tcp" "smb" "windows-file-sharing" "file sharing service" "high"
    ∷ privileged_slot 446 "tcp" "tcp-port-0446" "medium"
    ∷ privileged_slot 447 "tcp" "tcp-port-0447" "medium"
    ∷ privileged_slot 448 "tcp" "tcp-port-0448" "medium"
    ∷ privileged_slot 449 "tcp" "tcp-port-0449" "medium"
    ∷ []

abbrev pub services_450_467 : List ServiceProfile
services_450_467 =
    privileged_slot 450 "tcp" "tcp-port-0450" "medium"
    ∷ privileged_slot 451 "tcp" "tcp-port-0451" "medium"
    ∷ privileged_slot 452 "tcp" "tcp-port-0452" "medium"
    ∷ privileged_slot 453 "tcp" "tcp-port-0453" "medium"
    ∷ privileged_slot 454 "tcp" "tcp-port-0454" "medium"
    ∷ privileged_slot 455 "tcp" "tcp-port-0455" "medium"
    ∷ privileged_slot 456 "tcp" "tcp-port-0456" "medium"
    ∷ privileged_slot 457 "tcp" "tcp-port-0457" "medium"
    ∷ privileged_slot 458 "tcp" "tcp-port-0458" "medium"
    ∷ privileged_slot 459 "tcp" "tcp-port-0459" "medium"
    ∷ privileged_slot 460 "tcp" "tcp-port-0460" "medium"
    ∷ privileged_slot 461 "tcp" "tcp-port-0461" "medium"
    ∷ privileged_slot 462 "tcp" "tcp-port-0462" "medium"
    ∷ privileged_slot 463 "tcp" "tcp-port-0463" "medium"
    ∷ privileged_slot 464 "tcp" "tcp-port-0464" "medium"
    ∷ service_profile 465 "tcp" "smtps" "mail" "encrypted mail relay" "medium"
    ∷ privileged_slot 466 "tcp" "tcp-port-0466" "medium"
    ∷ privileged_slot 467 "tcp" "tcp-port-0467" "medium"
    ∷ []

abbrev pub services_468_485 : List ServiceProfile
services_468_485 =
    privileged_slot 468 "tcp" "tcp-port-0468" "medium"
    ∷ privileged_slot 469 "tcp" "tcp-port-0469" "medium"
    ∷ privileged_slot 470 "tcp" "tcp-port-0470" "medium"
    ∷ privileged_slot 471 "tcp" "tcp-port-0471" "medium"
    ∷ privileged_slot 472 "tcp" "tcp-port-0472" "medium"
    ∷ privileged_slot 473 "tcp" "tcp-port-0473" "medium"
    ∷ privileged_slot 474 "tcp" "tcp-port-0474" "medium"
    ∷ privileged_slot 475 "tcp" "tcp-port-0475" "medium"
    ∷ privileged_slot 476 "tcp" "tcp-port-0476" "medium"
    ∷ privileged_slot 477 "tcp" "tcp-port-0477" "medium"
    ∷ privileged_slot 478 "tcp" "tcp-port-0478" "medium"
    ∷ privileged_slot 479 "tcp" "tcp-port-0479" "medium"
    ∷ privileged_slot 480 "tcp" "tcp-port-0480" "medium"
    ∷ privileged_slot 481 "tcp" "tcp-port-0481" "medium"
    ∷ privileged_slot 482 "tcp" "tcp-port-0482" "medium"
    ∷ privileged_slot 483 "tcp" "tcp-port-0483" "medium"
    ∷ privileged_slot 484 "tcp" "tcp-port-0484" "medium"
    ∷ privileged_slot 485 "tcp" "tcp-port-0485" "medium"
    ∷ []
