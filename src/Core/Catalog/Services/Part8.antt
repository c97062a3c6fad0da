-- ===== src/Core/Catalog/Services/Part8.antt =====
-- Entries of `kServiceProfiles` of src/core/security_catalog.cpp, in its order.
use packet_guard.Base.{List, [], ◌∷◌}
use packet_guard.Core.Catalog.Types.{ServiceProfile, privileged_slot, service_profile}

abbrev pub services_1134_1151 : List ServiceProfile
services_1134_1151 =
    service_profile 520 "udp" "rip" "routing" "routing protocol" "high"
    ∷ privileged_slot 521 "udp" "udp-port-0521" "low"
    ∷ privileged_slot 522 "udp" "udp-port-0522" "low"
    ∷ privileged_slot 523 "udp" "udp-port-0523" "low"
    ∷ privileged_slot 524 "udp" "udp-port-0524" "low"
    ∷ privileged_slot 525 "udp" "udp-port-0525" "low"
    ∷ privileged_slot 526 "udp" "udp-port-0526" "low"
    ∷ privileged_slot 527 "udp" "udp-port-0527" "low"
    ∷ privileged_slot 528 "udp" "udp-port-0528" "low"
    ∷ privileged_slot 529 "udp" "udp-port-0529" "low"
    ∷ privileged_slot 530 "udp" "udp-port-0530" "low"
    ∷ privileged_slot 531 "udp" "udp-port-0531" "low"
    ∷ privileged_slot 532 "udp" "udp-port-0532" "low"
    ∷ privileged_slot 533 "udp" "udp-port-0533" "low"
    ∷ privileged_slot 534 "udp" "udp-port-0534" "low"
    ∷ privileged_slot 535 "udp" "udp-port-0535" "low"
    ∷ privileged_slot 536 "udp" "udp-port-0536" "low"
    ∷ privileged_slot 537 "udp" "udp-port-0537" "low"
    ∷ []

abbrev pub services_1152_1169 : List ServiceProfile
services_1152_1169 =
    privileged_slot 538 "udp" "udp-port-0538" "low"
    ∷ privileged_slot 539 "udp" "udp-port-0539" "low"
    ∷ privileged_slot 540 "udp" "udp-port-0540" "low"
    ∷ privileged_slot 541 "udp" "udp-port-0541" "low"
    ∷ privileged_slot 542 "udp" "udp-port-0542" "low"
    ∷ privileged_slot 543 "udp" "udp-port-0543" "low"
    ∷ privileged_slot 544 "udp" "udp-port-0544" "low"
    ∷ privileged_slot 545 "udp" "udp-port-0545" "low"
    ∷ privileged_slot 546 "udp" "udp-port-0546" "low"
    ∷ privileged_slot 547 "udp" "udp-port-0547" "low"
    ∷ privileged_slot 548 "udp" "udp-port-0548" "low"
    ∷ privileged_slot 549 "udp" "udp-port-0549" "low"
    ∷ privileged_slot 550 "udp" "udp-port-0550" "low"
    ∷ privileged_slot 551 "udp" "udp-port-0551" "low"
    ∷ privileged_slot 552 "udp" "udp-port-0552" "low"
    ∷ privileged_slot 553 "udp" "udp-port-0553" "low"
    ∷ privileged_slot 554 "udp" "udp-port-0554" "low"
    ∷ privileged_slot 555 "udp" "udp-port-0555" "low"
    ∷ []

abbrev pub services_1170_1187 : List ServiceProfile
services_1170_1187 =
    privileged_slot 556 "udp" "udp-port-0556" "low"
    ∷ privileged_slot 557 "udp" "udp-port-0557" "low"
    ∷ privileged_slot 558 "udp" "udp-port-0558" "low"
    ∷ privileged_slot 559 "udp" "udp-port-0559" "low"
    ∷ privileged_slot 560 "udp" "udp-port-0560" "low"
    ∷ privileged_slot 561 "udp" "udp-port-0561" "low"
    ∷ privileged_slot 562 "udp" "udp-port-0562" "low"
    ∷ privileged_slot 563 "udp" "udp-port-0563" "low"
    ∷ privileged_slot 564 "udp" "udp-port-0564" "low"
    ∷ privileged_slot 565 "udp" "udp-port-0565" "low"
    ∷ privileged_slot 566 "udp" "udp-port-0566" "low"
    ∷ privileged_slot 567 "udp" "udp-port-0567" "low"
    ∷ privileged_slot 568 "udp" "udp-port-0568" "low"
    ∷ privileged_slot 569 "udp" "udp-port-0569" "low"
    ∷ privileged_slot 570 "udp" "udp-port-0570" "low"
    ∷ privileged_slot 571 "udp" "udp-port-0571" "low"
    ∷ privileged_slot 572 "udp" "udp-port-0572" "low"
    ∷ privileged_slot 573 "udp" "udp-port-0573" "low"
    ∷ []

abbrev pub services_1188_1205 : List ServiceProfile
services_1188_1205 =
    privileged_slot 574 "udp" "udp-port-0574" "low"
    ∷ privileged_slot 575 "udp" "udp-port-0575" "low"
    ∷ privileged_slot 576 "udp" "udp-port-0576" "low"
    ∷ privileged_slot 577 "udp" "udp-port-0577" "low"
    ∷ privileged_slot 578 "udp" "udp-port-0578" "low"
    ∷ privileged_slot 579 "udp" "udp-port-0579" "low"
    ∷ privileged_slot 580 "udp" "udp-port-0580" "low"
    ∷ privileged_slot 581 "udp" "udp-port-0581" "low"
    ∷ privileged_slot 582 "udp" "udp-port-0582" "low"
    ∷ privileged_slot 583 "udp" "udp-port-0583" "low"
    ∷ privileged_slot 584 "udp" "udp-port-0584" "low"
    ∷ privileged_slot 585 "udp" "udp-port-0585" "low"
    ∷ privileged_slot 586 "udp" "udp-port-0586" "low"
    ∷ privileged_slot 587 "udp" "udp-port-0587" "low"
    ∷ privileged_slot 588 "udp" "udp-port-0588" "low"
    ∷ privileged_slot 589 "udp" "udp-port-0589" "low"
    ∷ privileged_slot 590 "udp" "udp-port-0590" "low"
    ∷ privileged_slot 591 "udp" "udp-port-0591" "low"
    ∷ []

abbrev pub services_1206_1223 : List ServiceProfile
services_1206_1223 =
    privileged_slot 592 "udp" "udp-port-0592" "low"
    ∷ privileged_slot 593 "udp" "udp-port-0593" "low"
    ∷ privileged_slot 594 "udp" "udp-port-0594" "low"
    ∷ privileged_slot 595 "udp" "udp-port-0595" "low"
    ∷ privileged_slot 596 "udp" "udp-port-0596" "low"
    ∷ privileged_slot 597 "udp" "udp-port-0597" "low"
    ∷ privileged_slot 598 "udp" "udp-port-0598" "low"
    ∷ privileged_slot 599 "udp" "udp-port-0599" "low"
    ∷ privileged_slot 636 "udp" "udp-port-0636" "low"
    ∷ privileged_slot 993 "udp" "udp-port-0993" "low"
    ∷ privileged_slot 995 "udp" "udp-port-0995" "low"
    ∷ service_profile 1433 "udp" "udp-port-1433" "registered-service"
        "registered application service slot" "low"
    ∷ service_profile 1521 "udp" "udp-port-1521" "registered-service"
        "registered application service slot" "low"
    ∷ service_profile 1900 "udp" "ssdp" "discovery" "local discovery service" "medium"
    ∷ service_profile 3306 "udp" "udp-port-3306" "registered-service"
        "registered application service slot" "low"
    ∷ service_profile 3389 "udp" "udp-port-3389" "registered-service"
        "registered application service slot" "low"
    ∷ service_profile 4500 "udp" "ipsec-nat" "vpn" "vpn traversal service" "medium"
    ∷ service_profile 5353 "udp" "mdns" "discovery" "multicast name service" "medium"
    ∷ []

abbrev pub services_1224_1227 : List ServiceProfile
services_1224_1227 =
    service_profile 5432 "udp" "udp-port-5432" "registered-service"
      "registered application service slot" "low"
    ∷ service_profile 5900 "udp" "udp-port-5900" "registered-service"
        "registered application service slot" "low"
    ∷ service_profile 6379 "udp" "udp-port-6379" "registered-service"
        "registered application service slot" "low"
    ∷ service_profile 8080 "udp" "udp-port-8080" "registered-service"
        "registered application service slot" "low"
    ∷ []
