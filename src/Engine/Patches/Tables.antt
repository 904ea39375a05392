-- ===== src/Engine/Patches/Tables.antt =====
-- native/patches.cpp: the writes of its functions but the legacy block, in their order.
use opensamp.Prelude.{List, [], ◌∷◌}
use opensamp.Engine.Patches.{Write, put, set, copy}

-- ApplyPoolLimits.
abbrev pub pool_limits : List Write
pool_limits =
    copy 0x551024 (0x6a ∷ 0 ∷ 0x68 ∷ 0xc6 ∷ 2 ∷ 0 ∷ 0 ∷ [])
    ∷ put 0x550ff2 1 0xd2
    ∷ put 0x551283 1 0xd2
    ∷ put 0x551140 1 5
    ∷ put 0x551178 1 1
    ∷ put 0x551060 1 0x42
    ∷ copy 0x551106 (0x68 ∷ 0xff ∷ 0x7e ∷ 0 ∷ 0 ∷ [])
    ∷ put 0x5b8e6a 4 0x8000000
    ∷ put 0x5b8fde 1 0x6a
    ∷ put 0x5b8fdf 1 0
    ∷ put 0x5b8fe0 1 0x68
    ∷ put 0x5b8fe1 1 0x7f
    ∷ put 0x5b8fe2 1 0
    ∷ put 0x5b8fe3 1 0
    ∷ put 0x5b8fe4 1 0
    ∷ []

-- ApplyCrashFixes.
abbrev pub crash_fixes : List Write
crash_fixes =
    put 0x5a82c0 1 0xc3
    ∷ set 0x542485 0x90 11
    ∷ set 0x434272 0x90 5
    ∷ put 0x6d5410 1 0xff
    ∷ put 0x4bc6c1 1 0xb0
    ∷ put 0x4bc6c2 1 0
    ∷ put 0x4bc6c3 1 0x90
    ∷ set 0x540040 0x90 6
    ∷ put 0x540046 1 0x85
    ∷ put 0x540047 1 0xc9
    ∷ put 0x540048 1 0x74
    ∷ put 0x4a9d50 1 0xc3
    ∷ copy 0x7271cb (0x85 ∷ 0xc0 ∷ 0x74 ∷ 0x34 ∷ 0x83 ∷ 0xc4 ∷ 4 ∷ [])
    ∷ []

-- ApplyIntroSkipPatches.
abbrev pub intro_skip : List Write
intro_skip =
    set 0x747483 0x90 6
    ∷ set 0x866cd8 0 10
    ∷ set 0x866ccc 0 10
    ∷ copy 0x866cd8 (0x74 ∷ 0x69 ∷ 0x74 ∷ 0x6c ∷ 0x65 ∷ [])
    ∷ copy 0x866ccc (0x74 ∷ 0x69 ∷ 0x74 ∷ 0x6c ∷ 0x65 ∷ [])
    ∷ []

-- ApplyMultiplayerPatches.
abbrev pub multiplayer : List Write
multiplayer =
    put 0x612710 1 0x33
    ∷ put 0x612711 1 0xc0
    ∷ put 0x612712 1 0xc3
    ∷ set 0x613ba7 0x90 5
    ∷ set 0x53c1c1 0x90 5
    ∷ set 0x56e0fa 0x90 18
    ∷ set 0x561af0 0x90 7
    ∷ put 0x47c477 1 0xeb
    ∷ put 0x60d64e 1 0x84
    ∷ put 0x54f3a2 1 0x10
    ∷ put 0x53a984 1 0xeb
    ∷ put 0x53a985 1 0x77
    ∷ []

-- ApplyBehaviorPatches.
abbrev pub behavior : List Write
behavior =
    set 0x440833 0x90 8
    ∷ set 0x53c06a 0x90 5
    ∷ set 0x53c090 0x90 5
    ∷ put 0x86d1ec 1 0
    ∷ put 0x588be0 1 0xc3
    ∷ set 0x56e5ad 0x90 5
    ∷ set 0x609a4e 0x90 6
    ∷ set 0x5e3ad1 0x90 3
    ∷ set 0x5df1ee 0x90 3
    ∷ set 0x634f6c 0x90 16
    ∷ set 0x60f289 0x90 8
    ∷ set 0x60f29d 0x90 19
    ∷ set 0x6bc9eb 0x90 2
    ∷ set 0x575b0e 0x90 5
    ∷ []

-- ApplyFilesystemPatches.
abbrev pub filesystem : List Write
filesystem =
    set 0x849ab4 0 27
    ∷ copy 0x849ab4 (
        0x4f ∷ 0x70 ∷ 0x65 ∷ 0x6e ∷ 0x53 ∷ 0x61 ∷ 0x6d ∷ 0x70 ∷ 0x20 ∷ 0x46 ∷ 0x69 ∷ 0x6c ∷ 0x65
        ∷ 0x73 ∷ [])
    ∷ []
