-- ===== src/Core/Catalog/Services/Part4.antt =====
-- Entries of `kServiceProfiles` of src/core/security_catalog.cpp, in its order.
use packet_guard.Base.{List, [], ◌∷◌}
use packet_guard.Core.Catalog.Types.{ServiceProfile, privileged_slot, service_profile}

abbrev pub services_486_503 : List ServiceProfile
services_486_503 =
    privileged_slot 486 "tcp" "tcp-port-0486" "medium"
    ∷ privileged_slot 487 "tcp" "tcp-port-0487" "medium"
    ∷ privileged_slot 488 "tcp" "tcp-port-0488" "medium"
    ∷ privileged_slot 489 "tcp" "tcp-port-0489" "medium"
    ∷ privileged_slot 490 "tcp" "tcp-port-0490" "medium"
    ∷ privileged_slot 491 "tcp" "tcp-port-0491" "medium"
    ∷ privileged_slot 492 "tcp" "tcp-port-0492" "medium"
    ∷ privileged_slot 493 "tcp" "tcp-port-0493" "medium"
    ∷ privileged_slot 494 "tcp" "tcp-port-0494" "medium"
    ∷ privileged_slot 495 "tcp" "tcp-port-0495" "medium"
    ∷ privileged_slot 496 "tcp" "tcp-port-0496" "medium"
    ∷ privileged_slot 497 "tcp" "tcp-port-0497" "medium"
    ∷ privileged_slot 498 "tcp" "tcp-port-0498" "medium"
    ∷ privileged_slot 499 "tcp" "tcp-port-0499" "medium"
    ∷ privileged_slot 500 "tcp" "tcp-port-0500" "medium"
    ∷ privileged_slot 501 "tcp" "tcp-port-0501" "medium"
    ∷ privileged_slot 502 "tcp" "tcp-port-0502" "medium"
    ∷ privileged_slot 503 "tcp" "tcp-port-0503" "medium"
    ∷ []

abbrev pub services_504_521 : List ServiceProfile
services_504_521 =
    privileged_slot 504 "tcp" "tcp-port-0504" "medium"
    ∷ privileged_slot 505 "tcp" "tcp-port-0505" "medium"
    ∷ privileged_slot 506 "tcp" "tcp-port-0506" "medium"
    ∷ privileged_slot 507 "tcp" "tcp-port-0507" "medium"
    ∷ privileged_slot 508 "tcp" "tcp-port-0508" "medium"
    ∷ privileged_slot 509 "tcp" "tcp-port-0509" "medium"
    ∷ privileged_slot 510 "tcp" "tcp-port-0510" "medium"
    ∷ privileged_slot 511 "tcp" "tcp-port-0511" "medium"
    ∷ privileged_slot 512 "tcp" "tcp-port-0512" "medium"
    ∷ privileged_slot 513 "tcp" "tcp-port-0513" "medium"
    ∷ privileged_slot 514 "tcp" "tcp-port-0514" "medium"
    ∷ privileged_slot 515 "tcp" "tcp-port-0515" "medium"
    ∷ privileged_slot 516 "tcp" "tcp-port-0516" "medium"
    ∷ privileged_slot 517 "tcp" "tcp-port-0517" "medium"
    ∷ privileged_slot 518 "tcp" "tcp-port-0518" "medium"
    ∷ privileged_slot 519 "tcp" "tcp-port-0519" "medium"
    ∷ privileged_slot 520 "tcp" "tcp-port-0520" "medium"
    ∷ privileged_slot 521 "tcp" "tcp-port-0521" "medium"
    ∷ []

abbrev pub services_522_539 : List ServiceProfile
services_522_539 =
    privileged_slot 522 "tcp" "tcp-port-0522" "medium"
    ∷ privileged_slot 523 "tcp" "tcp-port-0523" "medium"
    ∷ privileged_slot 524 "tcp" "tcp-port-0524" "medium"
    ∷ privileged_slot 525 "tcp" "tcp-port-0525" "medium"
    ∷ privileged_slot 526 "tcp" "tcp-port-0526" "medium"
    ∷ privileged_slot 527 "tcp" "tcp-port-0527" "medium"
    ∷ privileged_slot 528 "tcp" "tcp-port-0528" "medium"
    ∷ privileged_slot 529 "tcp" "tcp-port-0529" "medium"
    ∷ privileged_slot 530 "tcp" "tcp-port-0530" "medium"
    ∷ privileged_slot 531 "tcp" "tcp-port-0531" "medium"
    ∷ privileged_slot 532 "tcp" "tcp-port-0532" "medium"
    ∷ privileged_slot 533 "tcp" "tcp-port-0533" "medium"
    ∷ privileged_slot 534 "tcp" "tcp-port-0534" "medium"
    ∷ privileged_slot 535 "tcp" "tcp-port-0535" "medium"
    ∷ privileged_slot 536 "tcp" "tcp-port-0536" "medium"
    ∷ privileged_slot 537 "tcp" "tcp-port-0537" "medium"
    ∷ privileged_slot 538 "tcp" "tcp-port-0538" "medium"
    ∷ privileged_slot 539 "tcp" "tcp-port-0539" "medium"
    ∷ []

abbrev pub services_540_557 : List ServiceProfile
services_540_557 =
    privileged_slot 540 "tcp" "tcp-port-0540" "medium"
    ∷ privileged_slot 541 "tcp" "tcp-port-0541" "medium"
    ∷ privileged_slot 542 "tcp" "tcp-port-0542" "medium"
    ∷ privileged_slot 543 "tcp" "tcp-port-0543" "medium"
    ∷ privileged_slot 544 "tcp" "tcp-port-0544" "medium"
    ∷ privileged_slot 545 "tcp" "tcp-port-0545" "medium"
    ∷ privileged_slot 546 "tcp" "tcp-port-0546" "medium"
    ∷ privileged_slot 547 "tcp" "tcp-port-0547" "medium"
    ∷ privileged_slot 548 "tcp" "tcp-port-0548" "medium"
    ∷ privileged_slot 549 "tcp" "tcp-port-0549" "medium"
    ∷ privileged_slot 550 "tcp" "tcp-port-0550" "medium"
    ∷ privileged_slot 551 "tcp" "tcp-port-0551" "medium"
    ∷ privileged_slot 552 "tcp" "tcp-port-0552" "medium"
    ∷ privileged_slot 553 "tcp" "tcp-port-0553" "medium"
    ∷ privileged_slot 554 "tcp" "tcp-port-0554" "medium"
    ∷ privileged_slot 555 "tcp" "tcp-port-0555" "medium"
    ∷ privileged_slot 556 "tcp" "tcp-port-0556" "medium"
    ∷ privileged_slot 557 "tcp" "tcp-port-0557" "medium"
    ∷ []

abbrev pub services_558_575 : List ServiceProfile
services_558_575 =
    privileged_slot 558 "tcp" "tcp-port-0558" "medium"
    ∷ privileged_slot 559 "tcp" "tcp-port-0559" "medium"
    ∷ privileged_slot 560 "tcp" "tcp-port-0560" "medium"
    ∷ privileged_slot 561 "tcp" "tcp-port-0561" "medium"
    ∷ privileged_slot 562 "tcp" "tcp-port-0562" "medium"
    ∷ privileged_slot 563 "tcp" "tcp-port-0563" "medium"
    ∷ privileged_slot 564 "tcp" "tcp-port-0564" "medium"
    ∷ privileged_slot 565 "tcp" "tcp-port-0565" "medium"
    ∷ privileged_slot 566 "tcp" "tcp-port-0566" "medium"
    ∷ privileged_slot 567 "tcp" "tcp-port-0567" "medium"
    ∷ privileged_slot 568 "tcp" "tcp-port-0568" "medium"
    ∷ privileged_slot 569 "tcp" "tcp-port-0569" "medium"
    ∷ privileged_slot 570 "tcp" "tcp-port-0570" "medium"
    ∷ privileged_slot 571 "tcp" "tcp-port-0571" "medium"
    ∷ privileged_slot 572 "tcp" "tcp-port-0572" "medium"
    ∷ privileged_slot 573 "tcp" "tcp-port-0573" "medium"
    ∷ privileged_slot 574 "tcp" "tcp-port-0574" "medium"
    ∷ privileged_slot 575 "tcp" "tcp-port-0575" "medium"
    ∷ []

abbrev pub services_576_593 : List ServiceProfile
services_576_593 =
    privileged_slot 576 "tcp" "tcp-port-0576" "medium"
    ∷ privileged_slot 577 "tcp" "tcp-port-0577" "medium"
    ∷ privileged_slot 578 "tcp" "tcp-port-0578" "medium"
    ∷ privileged_slot 579 "tcp" "tcp-port-0579" "medium"
    ∷ privileged_slot 580 "tcp" "tcp-port-0580" "medium"
    ∷ privileged_slot 581 "tcp" "tcp-port-0581" "medium"
    ∷ privileged_slot 582 "tcp" "tcp-port-0582" "medium"
    ∷ privileged_slot 583 "tcp" "tcp-port-0583" "medium"
    ∷ privileged_slot 584 "tcp" "tcp-port-0584" "medium"
    ∷ privileged_slot 585 "tcp" "tcp-port-0585" "medium"
    ∷ privileged_slot 586 "tcp" "tcp-port-0586" "medium"
    ∷ service_profile 587 "tcp" "smtp-client" "mail" "authenticated mail relay" "medium"
    ∷ privileged_slot 588 "tcp" "tcp-port-0588" "medium"
    ∷ privileged_slot 589 "tcp" "tcp-port-0589" "medium"
    ∷ privileged_slot 590 "tcp" "tcp-port-0590" "medium"
    ∷ privileged_slot 591 "tcp" "tcp-port-0591" "medium"
    ∷ privileged_slot 592 "tcp" "tcp-port-0592" "medium"
    ∷ privileged_slot 593 "tcp" "tcp-port-0593" "medium"
    ∷ []

abbrev pub services_594_611 : List ServiceProfile
services_594_611 =
    privileged_slot 594 "tcp" "tcp-port-0594" "medium"
    ∷ privileged_slot 595 "tcp" "tcp-port-0595" "medium"
    ∷ privileged_slot 596 "tcp" "tcp-port-0596" "medium"
    ∷ privileged_slot 597 "tcp" "tcp-port-0597" "medium"
    ∷ privileged_slot 598 "tcp" "tcp-port-0598" "medium"
    ∷ privileged_slot 599 "tcp" "tcp-port-0599" "medium"
    ∷ service_profile 636 "tcp" "ldaps" "directory" "encrypted directory service" "medium"
    ∷ service_profile 993 "tcp" "imaps" "mail" "encrypted mailbox access" "medium"
    ∷ service_profile 995 "tcp" "pop3s" "mail" "encrypted mailbox access" "medium"
    ∷ service_profile 1433 "tcp" "mssql" "database" "database server" "high"
    ∷ service_profile 1521 "tcp" "oracle" "database" "database listener" "high"
    ∷ service_profile 1900 "tcp" "tcp-port-1900" "registered-service"
        "registered application service slot" "low"
    ∷ service_profile 3306 "tcp" "mysql" "database" "database server" "high"
    ∷ service_profile 3389 "tcp" "rdp" "remote-admin" "graphical remote administration" "high"
    ∷ service_profile 4500 "tcp" "tcp-port-4500" "registered-service"
        "registered application service slot" "low"
    ∷ service_profile 5353 "tcp" "tcp-port-5353" "registered-service"
        "registered application service slot" "low"
    ∷ service_profile 5432 "tcp" "postgres" "database" "database server" "high"
    ∷ service_profile 5900 "tcp" "vnc" "remote-admin" "graphical remote administration" "high"
    ∷ []

abbrev pub services_612_629 : List ServiceProfile
services_612_629 =
    service_profile 6379 "tcp" "redis" "database" "in-memory database" "high"
    ∷ service_profile 8080 "tcp" "http-alt" "web" "alternate web service" "medium"
    ∷ service_profile 0 "udp" "udp-reserved-0" "reserved" "reserved port value" "high"
    ∷ service_profile 1 "udp" "udp-system-001" "system" "privileged system port" "medium"
    ∷ service_profile 2 "udp" "udp-system-002" "system" "privileged system port" "medium"
    ∷ service_profile 3 "udp" "udp-system-003" "system" "privileged system port" "medium"
    ∷ service_profile 4 "udp" "udp-system-004" "system" "privileged system port" "medium"
    ∷ service_profile 5 "udp" "udp-system-005" "system" "privileged system port" "medium"
    ∷ service_profile 6 "udp" "udp-system-006" "system" "privileged system port" "medium"
    ∷ service_profile 7 "udp" "udp-system-007" "system" "privileged system port" "medium"
    ∷ service_profile 8 "udp" "udp-system-008" "system" "privileged system port" "medium"
    ∷ service_profile 9 "udp" "udp-system-009" "system" "privileged system port" "medium"
    ∷ service_profile 10 "udp" "udp-system-010" "system" "privileged system port" "medium"
    ∷ service_profile 11 "udp" "udp-system-011" "system" "privileged system port" "medium"
    ∷ service_profile 12 "udp" "udp-system-012" "system" "privileged system port" "medium"
    ∷ service_profile 13 "udp" "udp-system-013" "system" "privileged system port" "medium"
    ∷ service_profile 14 "udp" "udp-system-014" "system" "privileged system port" "medium"
    ∷ service_profile 15 "udp" "udp-system-015" "system" "privileged system port" "medium"
    ∷ []

abbrev pub services_630_647 : List ServiceProfile
services_630_647 =
    service_profile 16 "udp" "udp-system-016" "system" "privileged system port" "medium"
    ∷ service_profile 17 "udp" "udp-system-017" "system" "privileged system port" "medium"
    ∷ service_profile 18 "udp" "udp-system-018" "system" "privileged system port" "medium"
    ∷ service_profile 19 "udp" "udp-system-019" "system" "privileged system port" "medium"
    ∷ privileged_slot 20 "udp" "udp-port-0020" "low"
    ∷ privileged_slot 21 "udp" "udp-port-0021" "low"
    ∷ privileged_slot 22 "udp" "udp-port-0022" "low"
    ∷ privileged_slot 23 "udp" "udp-port-0023" "low"
    ∷ privileged_slot 24 "udp" "udp-port-0024" "low"
    ∷ privileged_slot 25 "udp" "udp-port-0025" "low"
    ∷ privileged_slot 26 "udp" "udp-port-0026" "low"
    ∷ privileged_slot 27 "udp" "udp-port-0027" "low"
    ∷ privileged_slot 28 "udp" "udp-port-0028" "low"
    ∷ privileged_slot 29 "udp" "udp-port-0029" "low"
    ∷ privileged_slot 30 "udp" "udp-port-0030" "low"
    ∷ privileged_slot 31 "udp" "udp-port-0031" "low"
    ∷ privileged_slot 32 "udp" "udp-port-0032" "low"
    ∷ privileged_slot 33 "udp" "udp-port-0033" "low"
    ∷ []
