-- ===== src/Engine/Patches/Legacy/Fourth.antt =====
-- native/patches.cpp: the fourth quarter of the legacy block.
use opensamp.Prelude.{List, [], ◌∷◌}
use opensamp.Engine.Patches.{Gate, put, set, fill, copy}

abbrev pub fourth_quarter : List Gate
fourth_quarter =
    (0x41adf3, set 0x41adf3 0x90 2 ∷ [])
    ∷ (0x5ffaee, set 0x5ffaee 0x90 2 ∷ [])
    ∷ (0x5ffb4b, set 0x5ffb4b 0x90 2 ∷ [])
    ∷ (0x5ffba2, set 0x5ffba2 0x90 5 ∷ [])
    ∷ (0x5ffc00, set 0x5ffc00 0x90 5 ∷ [])
    ∷ (0x7361bf, set 0x7361bf 0x90 6 ∷ [])
    ∷ (0x7361d4, set 0x7361d4 0x90 6 ∷ [])
    ∷ (0x7361e9, set 0x7361e9 0x90 6 ∷ [])
    ∷ (0x7361fe, set 0x7361fe 0x90 6 ∷ [])
    ∷ (0x6e2fbc, set 0x6e2fbc 0x90 2 ∷ [])
    ∷ (0x6e301c, set 0x6e301c 0x90 2 ∷ [])
    ∷ (0x6e3075, set 0x6e3075 0x90 2 ∷ [])
    ∷ (0x6e30d6, set 0x6e30d6 0x90 2 ∷ [])
    ∷ (0x44c6fa, set 0x44c6fa 0x90 4 ∷ [])
    ∷ (0x40e7df, put 0x40e7df 1 0xeb ∷ [])
    ∷ (0x611fc0, put 0x611fc0 1 0xc3 ∷ [])
    ∷ (0x616698, put 0x616698 1 0x5e ∷ [])
    ∷ (0x616699, put 0x616699 1 0xc3 ∷ [])
    ∷ (0x460500, put 0x460500 1 0xc3 ∷ [])
    ∷ (0x605a30, put 0x605a30 1 0xc3 ∷ [])
    ∷ (0x446610, put 0x446610 1 0xc3 ∷ [])
    ∷ (0x43c590, put 0x43c590 1 0xc3 ∷ [])
    ∷ (0x43b0f0, put 0x43b0f0 1 0xc3 ∷ [])
    ∷ (0x4322b0, put 0x4322b0 1 0xc3 ∷ [])
    ∷ (0x40b650, put 0x40b650 1 0xc3 ∷ [])
    ∷ (0x468eb5, put 0x468eb5 1 0xeb ∷ [])
    ∷ (0x468eb6, put 0x468eb6 1 0x32 ∷ [])
    ∷ (0x406946, copy 0x406946 (0 ∷ 0 ∷ 0 ∷ 0 ∷ []) ∷ [])
    ∷ (
      0x74872d,
      copy 0x74872d (0x90 ∷ 0x90 ∷ 0x90 ∷ 0x90 ∷ 0x90 ∷ 0x90 ∷ 0x90 ∷ 0x90 ∷ 0x90 ∷ []) ∷ [],
    )
    ∷ (0x56a404, set 0x56a404 0x90 66 ∷ [])
    ∷ (0x53a651, set 0x53a651 0x90 10 ∷ [])
    ∷ (0x6d1741, set 0x6d1741 0x90 30 ∷ [])
    ∷ (0x6e1a22, put 0x6e1a22 1 0xf0 ∷ [])
    ∷ (0x6d6517, set 0x6d6517 0x90 2 ∷ [])
    ∷ (0x6d0e43, set 0x6d0e43 0x90 2 ∷ [])
    ∷ (0x63f576, put 0x63f576 1 0xeb ∷ [])
    ∷ (0x5023b2, fill 0x5023b2 0x90 6 ∷ [])
    ∷ (0x5023e1, fill 0x5023e1 0x90 5 ∷ [])
    ∷ (0x502341, fill 0x502341 0x90 5 ∷ [])
    ∷ (0x60d861, fill 0x60d861 0x90 14 ∷ [])
    ∷ (0x72925d, set 0x72925d 1 1 ∷ [])
    ∷ (0x729263, set 0x729263 1 1 ∷ [])
    ∷ (0x6fb9a0, put 0x6fb9a0 1 0x1c ∷ [])
    ∷ (0x58fbc4, set 0x58fbc4 0x90 9 ∷ [])
    ∷ (0x61ecd2, set 0x61ecd2 0x90 20 ∷ [])
    ∷ (0x7069f5, put 0x7069f5 1 0xeb ∷ [])
    ∷ (0x7069fe, put 0x7069fe 1 8 ∷ [])
    ∷ (0x70a83b, set 0x70a83b 0x90 6 ∷ [])
    ∷ (0x70a4cb, set 0x70a4cb 0x90 6 ∷ [])
    ∷ (0x524084, put 0x524084 1 0xff ∷ [])
    ∷ (0x524089, put 0x524089 1 0xff ∷ [])
    ∷ (0x7225f5, set 0x7225f5 0x90 4 ∷ [])
    ∷ (0x725dde, copy 0x725dde (0xff ∷ 0x76 ∷ 0xb ∷ 0x90 ∷ 0x90 ∷ []) ∷ [])
    ∷ (0x60d86f, fill 0x60d86f 0x90 19 ∷ [])
    ∷ (0x6e1425, put 0x6e1425 1 1 ∷ [])
    ∷ (0x6c444b, set 0x6c444b 0x90 6 ∷ [])
    ∷ (0x6c4453, set 0x6c4453 0x90 104 ∷ [])
    ∷ (0x725844, copy 0x725844 (0xdd ∷ 0xd8 ∷ 0x90 ∷ []) ∷ [])
    ∷ (0x725619, copy 0x725619 (0xdd ∷ 0xd8 ∷ 0x90 ∷ []) ∷ [])
    ∷ (0x72565a, copy 0x72565a (0xdd ∷ 0xd8 ∷ 0x90 ∷ []) ∷ [])
    ∷ (0x7259b0, copy 0x7259b0 (0xdd ∷ 0xd8 ∷ 0x90 ∷ []) ∷ [])
    ∷ (0x7258b8, set 0x7258b8 0x90 6 ∷ [])
    ∷ (0x53a23f, copy 0x53a23f (0x33 ∷ 0xc0 ∷ 0x90 ∷ 0x90 ∷ 0x90 ∷ []) ∷ [])
    ∷ (0x53a00a, copy 0x53a00a (0x33 ∷ 0xc0 ∷ 0x90 ∷ 0x90 ∷ 0x90 ∷ []) ∷ [])
    ∷ (0xbab318, put 0xbab318 1 0 ∷ [])
    ∷ []
