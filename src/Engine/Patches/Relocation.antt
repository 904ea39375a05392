-- ===== src/Engine/Patches/Relocation.antt =====
-- native/patches.cpp: the lists whose place in memory changes, with the addresses of the library's own
-- arrays as parameters. The array of ped models itself is no memory of the game.
use opensamp.Prelude.{ℕ, ◌+◌, ◌*◌, List, [], ◌∷◌}
use opensamp.Engine.Patches.{Write, put, fill}

-- kScanListSize.
abbrev scan_list_size : ℕ
scan_list_size = 8 * 20000

-- RelocatePedsListHack, for the array of ped models.
abbrev pub peds_list : ℕ → List Write
peds_list models = put 0x4c67ad 4 models ∷ []

-- RelocateScanListHack, for the scan list at `base`.
abbrev pub scan_list : ℕ → List Write
scan_list base =
    put 0x5dc7aa 4 base
    ∷ put 0x41a85d 4 base
    ∷ put 0x41a864 4 base
    ∷ put 0x408259 4 base
    ∷ put 0x711b32 4 base
    ∷ put 0x699cf8 4 base
    ∷ put 0x4092ec 4 base
    ∷ put 0x40914e 4 base
    ∷ put 0x408702 4 base
    ∷ put 0x564220 4 base
    ∷ put 0x564172 4 base
    ∷ put 0x563845 4 base
    ∷ put 0x84e9c2 4 base
    ∷ put 0x85652d 4 base
    ∷ put 0x40d68f 4 base
    ∷ put 0x5664da 4 base
    ∷ put 0x566589 4 base
    ∷ put 0x408709 4 base
    ∷ put 0x56b3b4 4 base
    ∷ put 0x56ad94 4 base
    ∷ put 0x56a862 4 base
    ∷ put 0x5675fd 4 base
    ∷ put 0x56cd87 4 base
    ∷ put 0x56cc7c 4 base
    ∷ put 0x56cb54 4 base
    ∷ put 0x56ca4d 4 base
    ∷ put 0x56c667 4 base
    ∷ put 0x56c56c 4 base
    ∷ put 0x56c448 4 base
    ∷ put 0x56c344 4 base
    ∷ put 0x56bd49 4 base
    ∷ put 0x56bc56 4 base
    ∷ put 0x56be59 4 base
    ∷ put 0x56a943 4 base
    ∷ put 0x567738 4 base
    ∷ put 0x54673b 4 base
    ∷ put 0x54bb26 4 base
    ∷ put 0x6e31ad 4 base
    ∷ put 0x40dc2c 4 base
    ∷ put 0x534a0c 4 base
    ∷ put 0x534d6e 4 base
    ∷ put 0x564b5c 4 base
    ∷ put 0x564dac 4 base
    ∷ put 0x67ff60 4 base
    ∷ put 0x568cbc 4 base
    ∷ put 0x568efe 4 base
    ∷ put 0x569f5a 4 base
    ∷ put 0x56953a 4 base
    ∷ put 0x56912a 4 base
    ∷ put 0x56b4b8 4 base
    ∷ put 0x56b597 4 base
    ∷ put 0x56b2c6 4 base
    ∷ put 0x56af77 4 base
    ∷ put 0x56ae98 4 base
    ∷ put 0x56bf52 4 base
    ∷ put 0x56aca6 4 base
    ∷ put 0x56a769 4 base
    ∷ put 0x56a688 4 base
    ∷ put 0x70b9bd 4 base
    ∷ put 0x5647a0 4 base
    ∷ put 0x70acb5 4 base
    ∷ put 0x6063ca 4 base
    ∷ put 0x699d01 4 base
    ∷ put 0x41a864 4 base
    ∷ put 0x40e064 4 base
    ∷ put 0x40df61 4 base
    ∷ put 0x40ddd1 4 base
    ∷ put 0x40db11 4 base
    ∷ put 0x40d98f 4 base
    ∷ put 0x1566858 4 base
    ∷ put 0x4091c8 4 (base + 4)
    ∷ put 0x40936a 4 (base + 4)
    ∷ put 0x40d9c8 4 (base + 4)
    ∷ put 0x40db4a 4 (base + 4)
    ∷ put 0x40dc64 4 (base + 4)
    ∷ put 0x40de0a 4 (base + 4)
    ∷ put 0x40df9a 4 (base + 4)
    ∷ put 0x40e09d 4 (base + 4)
    ∷ put 0x534a9b 4 (base + 4)
    ∷ put 0x534dfd 4 (base + 4)
    ∷ put 0x71cdb3 4 (base + 4)
    ∷ put 0x5634a6 4 (base + scan_list_size)
    ∷ put 0x5638df 4 (base + scan_list_size)
    ∷ put 0x56420f 4 (base + scan_list_size)
    ∷ put 0x564283 4 (base + scan_list_size)
    ∷ put 0x40936a 4 (base + 4)
    ∷ fill 0xb7d0b8 0 115200
    ∷ []
