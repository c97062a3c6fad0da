-- ===== src/Core/Catalog/Services/Part7.antt =====
-- Entries of `kServiceProfiles` of src/core/security_catalog.cpp, in its order.
use packet_guard.Base.{List, [], ◌∷◌}
use packet_guard.Core.Catalog.Types.{ServiceProfile, privileged_slot, service_profile}

abbrev pub services_972_989 : List ServiceProfile
services_972_989 =
    privileged_slot 358 "udp" "udp-port-0358" "low"
    ∷ privileged_slot 359 "udp" "udp-port-0359" "low"
    ∷ privileged_slot 360 "udp" "udp-port-0360" "low"
    ∷ privileged_slot 361 "udp" "udp-port-0361" "low"
    ∷ privileged_slot 362 "udp" "udp-port-0362" "low"
    ∷ privileged_slot 363 "udp" "udp-port-0363" "low"
    ∷ privileged_slot 364 "udp" "udp-port-0364" "low"
    ∷ privileged_slot 365 "udp" "udp-port-0365" "low"
    ∷ privileged_slot 366 "udp" "udp-port-0366" "low"
    ∷ privileged_slot 367 "udp" "udp-port-0367" "low"
    ∷ privileged_slot 368 "udp" "udp-port-0368" "low"
    ∷ privileged_slot 369 "udp" "udp-port-0369" "low"
    ∷ privileged_slot 370 "udp" "udp-port-0370" "low"
    ∷ privileged_slot 371 "udp" "udp-port-0371" "low"
    ∷ privileged_slot 372 "udp" "udp-port-0372" "low"
    ∷ privileged_slot 373 "udp" "udp-port-0373" "low"
    ∷ privileged_slot 374 "udp" "udp-port-0374" "low"
    ∷ privileged_slot 375 "udp" "udp-port-0375" "low"
    ∷ []

abbrev pub services_990_1007 : List ServiceProfile
services_990_1007 =
    privileged_slot 376 "udp" "udp-port-0376" "low"
    ∷ privileged_slot 377 "udp" "udp-port-0377" "low"
    ∷ privileged_slot 378 "udp" "udp-port-0378" "low"
    ∷ privileged_slot 379 "udp" "udp-port-0379" "low"
    ∷ privileged_slot 380 "udp" "udp-port-0380" "low"
    ∷ privileged_slot 381 "udp" "udp-port-0381" "low"
    ∷ privileged_slot 382 "udp" "udp-port-0382" "low"
    ∷ privileged_slot 383 "udp" "udp-port-0383" "low"
    ∷ privileged_slot 384 "udp" "udp-port-0384" "low"
    ∷ privileged_slot 385 "udp" "udp-port-0385" "low"
    ∷ privileged_slot 386 "udp" "udp-port-0386" "low"
    ∷ privileged_slot 387 "udp" "udp-port-0387" "low"
    ∷ privileged_slot 388 "udp" "udp-port-0388" "low"
    ∷ privileged_slot 389 "udp" "udp-port-0389" "low"
    ∷ privileged_slot 390 "udp" "udp-port-0390" "low"
    ∷ privileged_slot 391 "udp" "udp-port-0391" "low"
    ∷ privileged_slot 392 "udp" "udp-port-0392" "low"
    ∷ privileged_slot 393 "udp" "udp-port-0393" "low"
    ∷ []

abbrev pub services_1008_1025 : List ServiceProfile
services_1008_1025 =
    privileged_slot 394 "udp" "udp-port-0394" "low"
    ∷ privileged_slot 395 "udp" "udp-port-0395" "low"
    ∷ privileged_slot 396 "udp" "udp-port-0396" "low"
    ∷ privileged_slot 397 "udp" "udp-port-0397" "low"
    ∷ privileged_slot 398 "udp" "udp-port-0398" "low"
    ∷ privileged_slot 399 "udp" "udp-port-0399" "low"
    ∷ privileged_slot 400 "udp" "udp-port-0400" "low"
    ∷ privileged_slot 401 "udp" "udp-port-0401" "low"
    ∷ privileged_slot 402 "udp" "udp-port-0402" "low"
    ∷ privileged_slot 403 "udp" "udp-port-0403" "low"
    ∷ privileged_slot 404 "udp" "udp-port-0404" "low"
    ∷ privileged_slot 405 "udp" "udp-port-0405" "low"
    ∷ privileged_slot 406 "udp" "udp-port-0406" "low"
    ∷ privileged_slot 407 "udp" "udp-port-0407" "low"
    ∷ privileged_slot 408 "udp" "udp-port-0408" "low"
    ∷ privileged_slot 409 "udp" "udp-port-0409" "low"
    ∷ privileged_slot 410 "udp" "udp-port-0410" "low"
    ∷ privileged_slot 411 "udp" "udp-port-0411" "low"
    ∷ []

abbrev pub services_1026_1043 : List ServiceProfile
services_1026_1043 =
    privileged_slot 412 "udp" "udp-port-0412" "low"
    ∷ privileged_slot 413 "udp" "udp-port-0413" "low"
    ∷ privileged_slot 414 "udp" "udp-port-0414" "low"
    ∷ privileged_slot 415 "udp" "udp-port-0415" "low"
    ∷ privileged_slot 416 "udp" "udp-port-0416" "low"
    ∷ privileged_slot 417 "udp" "udp-port-0417" "low"
    ∷ privileged_slot 418 "udp" "udp-port-0418" "low"
    ∷ privileged_slot 419 "udp" "udp-port-0419" "low"
    ∷ privileged_slot 420 "udp" "udp-port-0420" "low"
    ∷ privileged_slot 421 "udp" "udp-port-0421" "low"
    ∷ privileged_slot 422 "udp" "udp-port-0422" "low"
    ∷ privileged_slot 423 "udp" "udp-port-0423" "low"
    ∷ privileged_slot 424 "udp" "udp-port-0424" "low"
    ∷ privileged_slot 425 "udp" "udp-port-0425" "low"
    ∷ privileged_slot 426 "udp" "udp-port-0426" "low"
    ∷ privileged_slot 427 "udp" "udp-port-0427" "low"
    ∷ privileged_slot 428 "udp" "udp-port-0428" "low"
    ∷ privileged_slot 429 "udp" "udp-port-0429" "low"
    ∷ []

abbrev pub services_1044_1061 : List ServiceProfile
services_1044_1061 =
    privileged_slot 430 "udp" "udp-port-0430" "low"
    ∷ privileged_slot 431 "udp" "udp-port-0431" "low"
    ∷ privileged_slot 432 "udp" "udp-port-0432" "low"
    ∷ privileged_slot 433 "udp" "udp-port-0433" "low"
    ∷ privileged_slot 434 "udp" "udp-port-0434" "low"
    ∷ privileged_slot 435 "udp" "udp-port-0435" "low"
    ∷ privileged_slot 436 "udp" "udp-port-0436" "low"
    ∷ privileged_slot 437 "udp" "udp-port-0437" "low"
    ∷ privileged_slot 438 "udp" "udp-port-0438" "low"
    ∷ privileged_slot 439 "udp" "udp-port-0439" "low"
    ∷ privileged_slot 440 "udp" "udp-port-0440" "low"
    ∷ privileged_slot 441 "udp" "udp-port-0441" "low"
    ∷ privileged_slot 442 "udp" "udp-port-0442" "low"
    ∷ privileged_slot 443 "udp" "udp-port-0443" "low"
    ∷ privileged_slot 444 "udp" "udp-port-0444" "low"
    ∷ privileged_slot 445 "udp" "udp-port-0445" "low"
    ∷ privileged_slot 446 "udp" "udp-port-0446" "low"
    ∷ privileged_slot 447 "udp" "udp-port-0447" "low"
    ∷ []

abbrev pub services_1062_1079 : List ServiceProfile
services_1062_1079 =
    privileged_slot 448 "udp" "udp-port-0448" "low"
    ∷ privileged_slot 449 "udp" "udp-port-0449" "low"
    ∷ privileged_slot 450 "udp" "udp-port-0450" "low"
    ∷ privileged_slot 451 "udp" "udp-port-0451" "low"
    ∷ privileged_slot 452 "udp" "udp-port-0452" "low"
    ∷ privileged_slot 453 "udp" "udp-port-0453" "low"
    ∷ privileged_slot 454 "udp" "udp-port-0454" "low"
    ∷ privileged_slot 455 "udp" "udp-port-0455" "low"
    ∷ privileged_slot 456 "udp" "udp-port-0456" "low"
    ∷ privileged_slot 457 "udp" "udp-port-0457" "low"
    ∷ privileged_slot 458 "udp" "udp-port-0458" "low"
    ∷ privileged_slot 459 "udp" "udp-port-0459" "low"
    ∷ privileged_slot 460 "udp" "udp-port-0460" "low"
    ∷ privileged_slot 461 "udp" "udp-port-0461" "low"
    ∷ privileged_slot 462 "udp" "udp-port-0462" "low"
    ∷ privileged_slot 463 "udp" "udp-port-0463" "low"
    ∷ privileged_slot 464 "udp" "udp-port-0464" "low"
    ∷ privileged_slot 465 "udp" "udp-port-0465" "low"
    ∷ []

abbrev pub services_1080_1097 : List ServiceProfile
services_1080_1097 =
    privileged_slot 466 "udp" "udp-port-0466" "low"
    ∷ privileged_slot 467 "udp" "udp-port-0467" "low"
    ∷ privileged_slot 468 "udp" "udp-port-0468" "low"
    ∷ privileged_slot 469 "udp" "udp-port-0469" "low"
    ∷ privileged_slot 470 "udp" "udp-port-0470" "low"
    ∷ privileged_slot 471 "udp" "udp-port-0471" "low"
    ∷ privileged_slot 472 "udp" "udp-port-0472" "low"
    ∷ privileged_slot 473 "udp" "udp-port-0473" "low"
    ∷ privileged_slot 474 "udp" "udp-port-0474" "low"
    ∷ privileged_slot 475 "udp" "udp-port-0475" "low"
    ∷ privileged_slot 476 "udp" "udp-port-0476" "low"
    ∷ privileged_slot 477 "udp" "udp-port-0477" "low"
    ∷ privileged_slot 478 "udp" "udp-port-0478" "low"
    ∷ privileged_slot 479 "udp" "udp-port-0479" "low"
    ∷ privileged_slot 480 "udp" "udp-port-0480" "low"
    ∷ privileged_slot 481 "udp" "udp-port-0481" "low"
    ∷ privileged_slot 482 "udp" "udp-port-0482" "low"
    ∷ privileged_slot 483 "udp" "udp-port-0483" "low"
    ∷ []

abbrev pub services_1098_1115 : List ServiceProfile
services_1098_1115 =
    privileged_slot 484 "udp" "udp-port-0484" "low"
    ∷ privileged_slot 485 "udp" "udp-port-0485" "low"
    ∷ privileged_slot 486 "udp" "udp-port-0486" "low"
    ∷ privileged_slot 487 "udp" "udp-port-0487" "low"
    ∷ privileged_slot 488 "udp" "udp-port-0488" "low"
    ∷ privileged_slot 489 "udp" "udp-port-0489" "low"
    ∷ privileged_slot 490 "udp" "udp-port-0490" "low"
    ∷ privileged_slot 491 "udp" "udp-port-0491" "low"
    ∷ privileged_slot 492 "udp" "udp-port-0492" "low"
    ∷ privileged_slot 493 "udp" "udp-port-0493" "low"
    ∷ privileged_slot 494 "udp" "udp-port-0494" "low"
    ∷ privileged_slot 495 "udp" "udp-port-0495" "low"
    ∷ privileged_slot 496 "udp" "udp-port-0496" "low"
    ∷ privileged_slot 497 "udp" "udp-port-0497" "low"
    ∷ privileged_slot 498 "udp" "udp-port-0498" "low"
    ∷ privileged_slot 499 "udp" "udp-port-0499" "low"
    ∷ service_profile 500 "udp" "isakmp" "vpn" "key exchange service" "medium"
    ∷ privileged_slot 501 "udp" "udp-port-0501" "low"
    ∷ []

abbrev pub services_1116_1133 : List ServiceProfile
services_1116_1133 =
    privileged_slot 502 "udp" "udp-port-0502" "low"
    ∷ privileged_slot 503 "udp" "udp-port-0503" "low"
    ∷ privileged_slot 504 "udp" "udp-port-0504" "low"
    ∷ privileged_slot 505 "udp" "udp-port-0505" "low"
    ∷ privileged_slot 506 "udp" "udp-port-0506" "low"
    ∷ privileged_slot 507 "udp" "udp-port-0507" "low"
    ∷ privileged_slot 508 "udp" "udp-port-0508" "low"
    ∷ privileged_slot 509 "udp" "udp-port-0509" "low"
    ∷ privileged_slot 510 "udp" "udp-port-0510" "low"
    ∷ privileged_slot 511 "udp" "udp-port-0511" "low"
    ∷ privileged_slot 512 "udp" "udp-port-0512" "low"
    ∷ privileged_slot 513 "udp" "udp-port-0513" "low"
    ∷ service_profile 514 "udp" "syslog" "logging" "log transport" "medium"
    ∷ privileged_slot 515 "udp" "udp-port-0515" "low"
    ∷ privileged_slot 516 "udp" "udp-port-0516" "low"
    ∷ privileged_slot 517 "udp" "udp-port-0517" "low"
    ∷ privileged_slot 518 "udp" "udp-port-0518" "low"
    ∷ privileged_slot 519 "udp" "udp-port-0519" "low"
    ∷ []
