-- ===== src/Examples/Patching.antt =====
-- The patches with a limit of three gates, on a memory of zeros.
use opensamp.Prelude.{◌≡◌, refl, true, some}
use opensamp.Engine.Patches.{run}
use opensamp.Engine.Patches.Tables.{behavior}
use opensamp.Engine.Patches.Apart.{Member, all_of, every}
use opensamp.Engine.Patches.Order.{
  groups, is_covered, apply_base_memory_patches, apply_base_memory_patches-Member, groups-covered,
}

-- MessagePrint returns at once.
apply_base_memory_patches-Member_example :
    apply_base_memory_patches (λ a n. true) (some 3) 0x2000000 0x3000000 (λ a. 0) 0x588BE0
    ≡ run (λ a n. true) behavior (λ a. 0) 0x588BE0
apply_base_memory_patches-Member_example =
    apply_base_memory_patches-Member (λ a n. true) (some 3) 0x2000000 0x3000000 (λ a. 0) behavior
      0x588BE0
      (Member.there (Member.there (Member.there (Member.there (Member.there Member.here))))) refl

groups-covered_example : every is_covered (all_of (groups (some 3) 0x2000000 0x3000000)) ≡ true
groups-covered_example = groups-covered (some 3) 0x2000000 0x3000000
