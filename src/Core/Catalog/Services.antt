-- ===== src/Core/Catalog/Services.antt =====
-- `kServiceProfiles` of src/core/security_catalog.cpp, put together from its parts.
pub mod Part1
pub mod Part2
pub mod Part3
pub mod Part4
pub mod Part5
pub mod Part6
pub mod Part7
pub mod Part8
use packet_guard.Base.{List, ◌++◌}
use packet_guard.Core.Catalog.Types.{ServiceProfile}
use packet_guard.Core.Catalog.Services.Part1.{
  services_0_17, services_18_35, services_36_53, services_54_71, services_72_89, services_90_107,
  services_108_125, services_126_143, services_144_161,
}
use packet_guard.Core.Catalog.Services.Part2.{
  services_162_179, services_180_197, services_198_215, services_216_233, services_234_251,
  services_252_269, services_270_287, services_288_305, services_306_323,
}
use packet_guard.Core.Catalog.Services.Part3.{
  services_324_341, services_342_359, services_360_377, services_378_395, services_396_413,
  services_414_431, services_432_449, services_450_467, services_468_485,
}
use packet_guard.Core.Catalog.Services.Part4.{
  services_486_503, services_504_521, services_522_539, services_540_557, services_558_575,
  services_576_593, services_594_611, services_612_629, services_630_647,
}
use packet_guard.Core.Catalog.Services.Part5.{
  services_648_665, services_666_683, services_684_701, services_702_719, services_720_737,
  services_738_755, services_756_773, services_774_791, services_792_809,
}
use packet_guard.Core.Catalog.Services.Part6.{
  services_810_827, services_828_845, services_846_863, services_864_881, services_882_899,
  services_900_917, services_918_935, services_936_953, services_954_971,
}
use packet_guard.Core.Catalog.Services.Part7.{
  services_972_989, services_990_1007, services_1008_1025, services_1026_1043, services_1044_1061,
  services_1062_1079, services_1080_1097, services_1098_1115, services_1116_1133,
}
use packet_guard.Core.Catalog.Services.Part8.{
  services_1134_1151, services_1152_1169, services_1170_1187, services_1188_1205,
  services_1206_1223, services_1224_1227,
}

abbrev pub services : List ServiceProfile
services =
    services_0_17 ++ services_18_35 ++ services_36_53 ++ services_54_71 ++ services_72_89
    ++ services_90_107 ++ services_108_125 ++ services_126_143 ++ services_144_161
    ++ services_162_179 ++ services_180_197 ++ services_198_215 ++ services_216_233
    ++ services_234_251 ++ services_252_269 ++ services_270_287 ++ services_288_305
    ++ services_306_323 ++ services_324_341 ++ services_342_359 ++ services_360_377
    ++ services_378_395 ++ services_396_413 ++ services_414_431 ++ services_432_449
    ++ services_450_467 ++ services_468_485 ++ services_486_503 ++ services_504_521
    ++ services_522_539 ++ services_540_557 ++ services_558_575 ++ services_576_593
    ++ services_594_611 ++ services_612_629 ++ services_630_647 ++ services_648_665
    ++ services_666_683 ++ services_684_701 ++ services_702_719 ++ services_720_737
    ++ services_738_755 ++ services_756_773 ++ services_774_791 ++ services_792_809
    ++ services_810_827 ++ services_828_845 ++ services_846_863 ++ services_864_881
    ++ services_882_899 ++ services_900_917 ++ services_918_935 ++ services_936_953
    ++ services_954_971 ++ services_972_989 ++ services_990_1007 ++ services_1008_1025
    ++ services_1026_1043 ++ services_1044_1061 ++ services_1062_1079 ++ services_1080_1097
    ++ services_1098_1115 ++ services_1116_1133 ++ services_1134_1151 ++ services_1152_1169
    ++ services_1170_1187 ++ services_1188_1205 ++ services_1206_1223 ++ services_1224_1227
