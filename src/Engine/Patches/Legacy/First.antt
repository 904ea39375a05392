-- ===== src/Engine/Patches/Legacy/First.antt =====
-- native/patches.cpp: the first quarter of the legacy block.
use opensamp.Prelude.{List, [], ◌∷◌}
use opensamp.Engine.Patches.{Gate, put, set, fill, copy}

abbrev pub first_quarter : List Gate
first_quarter =
    (0x748ef8, put 0x748ef8 4 0x748ae7 ∷ [])
    ∷ (0x748efc, put 0x748efc 4 0x748b08 ∷ [])
    ∷ (0x748b0e, put 0x748b0e 1 5 ∷ [])
    ∷ (0x748c2b, set 0x748c2b 0x90 5 ∷ [])
    ∷ (0x748c9a, set 0x748c9a 0x90 5 ∷ [])
    ∷ (0x748cf6, set 0x748cf6 0x90 5 ∷ [])
    ∷ (0x590d7c, set 0x590d7c 0x90 5 ∷ [])
    ∷ (0x590db3, set 0x590db3 0x90 5 ∷ [])
    ∷ (0x590d9f, copy 0x590d9f (0xc3 ∷ 0x90 ∷ 0x90 ∷ 0x90 ∷ 0x90 ∷ []) ∷ [])
    ∷ (0x7459e1, put 0x7459e1 2 0x9090 ∷ [])
    ∷ (0x748054, fill 0x748054 0x90 10 ∷ [])
    ∷ (0x550f82, put 0x550f82 4 0x1f40 ∷ [])
    ∷ (0x8a5a84, put 0x8a5a84 4 0x7f ∷ [])
    ∷ (0x442ad0, set 0x442ad0 0xc3 1 ∷ [])
    ∷ (0x731ab5, fill 0x731ab5 0x90 4 ∷ [])
    ∷ (0x4e9820, put 0x4e9820 1 0xc2 ∷ [])
    ∷ (0x4e9821, put 0x4e9821 1 8 ∷ [])
    ∷ (0x4e9822, put 0x4e9822 1 0 ∷ [])
    ∷ (0x4dbec0, put 0x4dbec0 1 0xc2 ∷ [])
    ∷ (0x4dbec1, put 0x4dbec1 1 0 ∷ [])
    ∷ (0x4dbec2, put 0x4dbec2 1 0 ∷ [])
    ∷ (0x4eb3c0, put 0x4eb3c0 1 0xc2 ∷ [])
    ∷ (0x4eb3c1, put 0x4eb3c1 1 0x10 ∷ [])
    ∷ (0x4eb3c2, put 0x4eb3c2 1 0 ∷ [])
    ∷ (0x52a535, put 0x52a535 1 0 ∷ [])
    ∷ (0x72df0d, put 0x72df0d 1 0xeb ∷ [])
    ∷ (0x742685, put 0x742685 1 0x90 ∷ [])
    ∷ (0x742686, put 0x742686 1 0xe9 ∷ [])
    ∷ (0x7399b0, put 0x7399b0 1 0xc3 ∷ [])
    ∷ (0x4629e0, put 0x4629e0 1 0xc3 ∷ [])
    ∷ (0x4e8410, put 0x4e8410 1 0xc3 ∷ [])
    ∷ (0x614720, put 0x614720 1 0x32 ∷ [])
    ∷ (0x614721, put 0x614721 1 0xc0 ∷ [])
    ∷ (0x614722, put 0x614722 1 0xc3 ∷ [])
    ∷ (0x620607, put 0x620607 1 0x33 ∷ [])
    ∷ (0x620608, put 0x620608 1 0xc0 ∷ [])
    ∷ (0x620618, put 0x620618 1 0x33 ∷ [])
    ∷ (0x620619, put 0x620619 1 0xc0 ∷ [])
    ∷ (0x62061a, put 0x62061a 1 0x90 ∷ [])
    ∷ (0x62061b, put 0x62061b 1 0x90 ∷ [])
    ∷ (0x62061c, put 0x62061c 1 0x90 ∷ [])
    ∷ (0x61effe, put 0x61effe 1 0xeb ∷ [])
    ∷ (0x441770, put 0x441770 1 0xc3 ∷ [])
    ∷ (0x532010, put 0x532010 1 0xc3 ∷ [])
    ∷ (0x4c01f0, put 0x4c01f0 1 0xb0 ∷ [])
    ∷ (0x4c01f1, put 0x4c01f1 1 0 ∷ [])
    ∷ (0x4c01f2, put 0x4c01f2 1 0x90 ∷ [])
    ∷ (0x4c01f3, put 0x4c01f3 1 0x90 ∷ [])
    ∷ (0x4c01f4, put 0x4c01f4 1 0x90 ∷ [])
    ∷ (0x5b8342, put 0x5b8342 1 0x33 ∷ [])
    ∷ (0x5b8342, put 0x5b8343 1 0xc0 ∷ [])
    ∷ (0x5b8342, put 0x5b8344 1 0xb0 ∷ [])
    ∷ (0x5b8342, put 0x5b8345 1 0xff ∷ [])
    ∷ (0x5b8342, put 0x5b8346 1 0x8b ∷ [])
    ∷ (0x5b8342, put 0x5b8347 1 0xf8 ∷ [])
    ∷ (0x56e870, put 0x56e870 1 0xc2 ∷ [])
    ∷ (0x56e871, put 0x56e871 1 8 ∷ [])
    ∷ (0x56e872, put 0x56e872 1 0 ∷ [])
    ∷ (0x6a436c, put 0x6a436c 1 0x90 ∷ [])
    ∷ (0x6a436d, put 0x6a436d 1 0x90 ∷ [])
    ∷ (0x621983, put 0x621983 1 0xeb ∷ [])
    ∷ (0x627e01, set 0x627e01 0x90 6 ∷ [])
    ∷ (0x62840d, set 0x62840d 0x90 6 ∷ [])
    ∷ (0x738f3a, set 0x738f3a 0x90 83 ∷ [])
    ∷ (0x6b5b17, set 0x6b5b17 0x90 6 ∷ [])
    ∷ []
