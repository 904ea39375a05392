-- ===== src/Engine/Patches/Legacy/Third.antt =====
-- native/patches.cpp: the third quarter of the legacy block.
use opensamp.Prelude.{List, [], ◌∷◌}
use opensamp.Engine.Patches.{Gate, put, set}

abbrev pub third_quarter : List Gate
third_quarter =
    (0x5e8e84, set 0x5e8e84 0x90 5 ∷ [])
    ∷ (0x6d29cb, set 0x6d29cb 0x90 5 ∷ [])
    ∷ (0x741fd0, set 0x741fd0 0x90 3 ∷ [])
    ∷ (0x741fd0, put 0x741fd0 1 0xc3 ∷ [])
    ∷ (0x6872c0, put 0x6872c0 1 0xc2 ∷ [])
    ∷ (0x6872c1, put 0x6872c1 1 4 ∷ [])
    ∷ (0x6872c2, put 0x6872c2 1 0 ∷ [])
    ∷ (0x55e870, put 0x55e870 4 0xc2c03366 ∷ [])
    ∷ (0x55e874, put 0x55e874 2 4 ∷ [])
    ∷ (0x59faa3, put 0x59faa3 1 0 ∷ [])
    ∷ (0x6d19cd, put 0x6d19cd 1 0xeb ∷ [])
    ∷ (0x6d1a1a, put 0x6d1a1a 1 0xeb ∷ [])
    ∷ (0x6d1762, put 0x6d1762 1 0 ∷ [])
    ∷ (0x6f701d, set 0x6f701d 0x90 6 ∷ [])
    ∷ (0x6f7069, put 0x6f7069 1 0xeb ∷ [])
    ∷ (0x73fdf9, put 0x73fdf9 1 0xeb ∷ [])
    ∷ (0x6e1dbc, set 0x6e1dbc 0x90 8 ∷ [])
    ∷ (0x6e1d4f, put 0x6e1d4f 1 2 ∷ [])
    ∷ (0x5e1e72, put 0x5e1e72 1 0xe9 ∷ [])
    ∷ (0x5e1e73, put 0x5e1e73 1 0xb9 ∷ [])
    ∷ (0x5e1e74, put 0x5e1e74 1 0 ∷ [])
    ∷ (0x5e1e77, put 0x5e1e77 1 0x90 ∷ [])
    ∷ (0x6d65c5, set 0x6d65c5 0x90 11 ∷ [])
    ∷ (0x522c80, put 0x522c80 1 0xc3 ∷ [])
    ∷ (0x53e9c6, set 0x53e9c6 0x90 6 ∷ [])
    ∷ (0x745bc9, put 0x745bc9 2 0x9090 ∷ [])
    ∷ (0x58fc3e, set 0x58fc3e 0x90 14 ∷ [])
    ∷ (0x633695, set 0x633695 0x90 6 ∷ [])
    ∷ (0x633720, put 0x633720 1 0 ∷ [])
    ∷ (0x53a459, put 0x53a459 1 0x33 ∷ [])
    ∷ (0x53a568, put 0x53a568 1 0x8b ∷ [])
    ∷ (0x53a4a9, put 0x53a4a9 1 0x33 ∷ [])
    ∷ (0x53a55f, put 0x53a55f 2 0x9090 ∷ [])
    ∷ (0x73ec06, put 0x73ec06 1 0x85 ∷ [])
    ∷ (0x52a2bb, put 0x52a2bb 1 0 ∷ [])
    ∷ (0x52a4f8, put 0x52a4f8 1 0 ∷ [])
    ∷ (0x685dfb, set 0x685dfb 0x90 5 ∷ [])
    ∷ (0x685dfb, put 0x685dfb 1 0x33 ∷ [])
    ∷ (0x685dfc, put 0x685dfc 1 0xc0 ∷ [])
    ∷ (0x685c3e, set 0x685c3e 0x90 5 ∷ [])
    ∷ (0x685c3e, put 0x685c3e 1 0x33 ∷ [])
    ∷ (0x685c3f, put 0x685c3f 1 0xc0 ∷ [])
    ∷ (0x685dc4, set 0x685dc4 0x90 5 ∷ [])
    ∷ (0x685dc4, put 0x685dc4 1 0x33 ∷ [])
    ∷ (0x685dc5, put 0x685dc5 1 0xc0 ∷ [])
    ∷ (0x685de6, set 0x685de6 0x90 5 ∷ [])
    ∷ (0x685de6, put 0x685de6 1 0x33 ∷ [])
    ∷ (0x685de7, put 0x685de7 1 0xc0 ∷ [])
    ∷ (0x62e63f, set 0x62e63f 0x90 6 ∷ [])
    ∷ (0x62e63f, put 0x62e63f 1 0xdd ∷ [])
    ∷ (0x62e640, put 0x62e640 1 0xd8 ∷ [])
    ∷ (0x62e659, set 0x62e659 0x90 6 ∷ [])
    ∷ (0x62e659, put 0x62e659 1 0xdd ∷ [])
    ∷ (0x62e65a, put 0x62e65a 1 0xd8 ∷ [])
    ∷ (0x62e692, set 0x62e692 0x90 6 ∷ [])
    ∷ (0x62e692, put 0x62e692 1 0xdd ∷ [])
    ∷ (0x62e693, put 0x62e693 1 0xd8 ∷ [])
    ∷ (0x4f9cce, put 0x4f9cce 1 0xce ∷ [])
    ∷ (0x576ccc, put 0x576ccc 1 0xeb ∷ [])
    ∷ (0x576eba, put 0x576eba 1 0xeb ∷ [])
    ∷ (0x576f8a, put 0x576f8a 1 0xeb ∷ [])
    ∷ (0x53e94c, put 0x53e94c 1 0 ∷ [])
    ∷ (0x53c127, set 0x53c127 0x90 10 ∷ [])
    ∷ (0x41ad12, set 0x41ad12 0x90 2 ∷ [])
    ∷ (0x41ada7, set 0x41ada7 0x90 2 ∷ [])
    ∷ []
