-- ===== src/Engine/Patches/Legacy/Second.antt =====
-- native/patches.cpp: the second quarter of the legacy block.
use opensamp.Prelude.{List, [], ◌∷◌}
use opensamp.Engine.Patches.{Gate, put, set}

abbrev pub second_quarter : List Gate
second_quarter =
    (0x460390, set 0x460390 0xc3 1 ∷ [])
    ∷ (0x4600f0, set 0x4600f0 0xc3 1 ∷ [])
    ∷ (0x45f050, set 0x45f050 0xc3 1 ∷ [])
    ∷ (0x439af0, set 0x439af0 0xc3 1 ∷ [])
    ∷ (0x438370, set 0x438370 0xc3 1 ∷ [])
    ∷ (0x44aa89, put 0x44aa89 1 0xe9 ∷ [])
    ∷ (0x44aa89, put 0x44aa8a 1 0x28 ∷ [])
    ∷ (0x44aa89, put 0x44aa8b 1 1 ∷ [])
    ∷ (0x44aa89, put 0x44aa8c 1 0 ∷ [])
    ∷ (0x44aa89, put 0x44aa8d 1 0 ∷ [])
    ∷ (0x44aa89, put 0x44aa8e 1 0x90 ∷ [])
    ∷ (
      0x44c7e0,
      put 0x44c7e0 4 0x44c7c4
          ∷ put 0x44c7e4 4 0x44c7c4
          ∷ put 0x44c7f8 4 0x44c7c4
          ∷ put 0x44c7fc 4 0x44c7c4
          ∷ put 0x44c804 4 0x44c7c4
          ∷ put 0x44c808 4 0x44c7c4
          ∷ put 0x44c83c 4 0x44c7c4
          ∷ put 0x44c840 4 0x44c7c4
          ∷ put 0x44c850 4 0x44c7c4
          ∷ put 0x44c854 4 0x44c7c4
          ∷ put 0x44c864 4 0x44c7c4
          ∷ put 0x44c868 4 0x44c7c4
          ∷ put 0x44c874 4 0x44c7c4
          ∷ put 0x44c878 4 0x44c7c4
          ∷ put 0x44c88c 4 0x44c7c4
          ∷ put 0x44c890 4 0x44c7c4
          ∷ put 0x44c89c 4 0x44c7c4
          ∷ put 0x44c8a0 4 0x44c7c4
          ∷ put 0x44c8ac 4 0x44c7c4
          ∷ put 0x44c8b0 4 0x44c7c4
          ∷ [],
    )
    ∷ (0x44c39a, put 0x44c39a 1 0xf ∷ [])
    ∷ (0x44c39a, put 0x44c39b 1 0x84 ∷ [])
    ∷ (0x44c39a, put 0x44c39c 1 0x24 ∷ [])
    ∷ (0x44c39a, put 0x44c39d 1 4 ∷ [])
    ∷ (0x44c39a, put 0x44c39e 1 0 ∷ [])
    ∷ (0x44c39a, put 0x44c39f 1 0 ∷ [])
    ∷ (0x4486f7, set 0x4486f7 0x90 4 ∷ [])
    ∷ (0x55c180, put 0x55c180 1 0xc3 ∷ [])
    ∷ (0x559fd5, set 0x559fd5 0x90 7 ∷ [])
    ∷ (0x559feb, set 0x559feb 0x90 7 ∷ [])
    ∷ (0x55b980, set 0x55b980 0xc3 1 ∷ [])
    ∷ (0x559760, set 0x559760 0xc3 1 ∷ [])
    ∷ (0x5fba26, put 0x5fba26 1 0xeb ∷ [])
    ∷ (0x522423, put 0x522423 1 0x90 ∷ [])
    ∷ (0x522424, put 0x522424 1 0x90 ∷ [])
    ∷ (0x748a8d, set 0x748a8d 0x90 6 ∷ [])
    ∷ (0x58b0ae, put 0x58b0ae 1 0 ∷ [])
    ∷ (0x58ad56, put 0x58ad56 1 0 ∷ [])
    ∷ (0x85953c, put 0x85953c 4 0x43a00000 ∷ [])
    ∷ (0x58b149, put 0x58b149 1 0x3c ∷ [])
    ∷ (0x58ae52, put 0x58ae52 1 0x3c ∷ [])
    ∷ (0x5a07d0, put 0x5a07d0 1 0xc3 ∷ [])
    ∷ (0x6f7900, put 0x6f7900 1 0xc3 ∷ [])
    ∷ (0x6f7865, put 0x6f7865 1 0xeb ∷ [])
    ∷ (0x6cd2f0, put 0x6cd2f0 1 0xc3 ∷ [])
    ∷ (0x42b7d0, put 0x42b7d0 1 0xc3 ∷ [])
    ∷ (0x6f3f40, put 0x6f3f40 1 0xc3 ∷ [])
    ∷ (0x440d10, put 0x440d10 1 0xc3 ∷ [])
    ∷ (0x53bc78, put 0x53bc78 1 0 ∷ [])
    ∷ (0x56e740, set 0x56e740 0x90 5 ∷ [])
    ∷ (0x6b0bc2, set 0x6b0bc2 0xeb 1 ∷ [])
    ∷ (0x53c017, put 0x53c017 1 0x90 ∷ [])
    ∷ (0x53c018, put 0x53c018 1 0x90 ∷ [])
    ∷ (0x6f2089, put 0x6f2089 1 0x58 ∷ [])
    ∷ (0x6f208a, set 0x6f208a 0x90 4 ∷ [])
    ∷ (0x5b47b0, put 0x5b47b0 1 0xc3 ∷ [])
    ∷ (0x42cd10, put 0x42cd10 1 0xc3 ∷ [])
    ∷ (0x5e68a0, put 0x5e68a0 1 0xeb ∷ [])
    ∷ (0x542483, put 0x542483 1 0xeb ∷ [])
    ∷ (0x550fba, put 0x550fba 1 0 ∷ [])
    ∷ (0x550fbb, put 0x550fbb 1 0x10 ∷ [])
    ∷ (0x561fa4, put 0x561fa4 1 0x90 ∷ [])
    ∷ (0x561fa5, put 0x561fa5 1 0x90 ∷ [])
    ∷ (0x53bff6, set 0x53bff6 0x90 5 ∷ [])
    ∷ (0x60ebcc, set 0x60ebcc 0x90 5 ∷ [])
    ∷ (0x6d189b, put 0x6d189b 1 6 ∷ [])
    ∷ (0x591f90, put 0x591f90 1 0xc3 ∷ [])
    ∷ (0x4418e0, put 0x4418e0 1 0xc3 ∷ [])
    ∷ (0x632140, put 0x632140 1 0xb0 ∷ [])
    ∷ (0x632141, put 0x632141 1 1 ∷ [])
    ∷ (0x632142, put 0x632142 1 0xc3 ∷ [])
    ∷ (0x644c18, put 0x644c18 1 0x90 ∷ [])
    ∷ (0x644c19, put 0x644c19 1 0xe9 ∷ [])
    ∷ []
