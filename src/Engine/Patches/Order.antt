-- ===== src/Engine/Patches/Order.antt =====
-- The functions of native/patches.cpp together: what their order means.
use opensamp.Prelude.{
  ℕ, ◌+◌, ◌*◌, ◌≡◌, refl, sym, ap, ◌∙◌, Bool, true, ◌&&◌, ◌||◌, List, [], ◌∷◌, Option, none, leb,
  length, ◌==◌,
}
use opensamp.Engine.Patches.{Write, put, set, fill, copy, run_gates, run}
use opensamp.Engine.Patches.Tables.{
  pool_limits, crash_fixes, intro_skip, multiplayer, behavior, filesystem,
}
use opensamp.Engine.Patches.Relocation.{peds_list, scan_list}
use opensamp.Engine.Patches.Legacy.{legacy, legacy_gates}
use opensamp.Engine.Patches.Apart.{
  apart_all, all_apart, touched, Member, all_of, run-Member, apart_all-prefix, every, every-prefix,
  every-append,
}
use opensamp.Engine.Patches.Limit.{run_gates-prefix}

-- What ApplyBaseMemoryPatches calls behind the legacy block.
abbrev pub later_groups : ℕ → ℕ → List (List Write)
later_groups models base =
    pool_limits
    ∷ crash_fixes
    ∷ intro_skip
    ∷ multiplayer
    ∷ behavior
    ∷ filesystem
    ∷ peds_list models
    ∷ scan_list base
    ∷ []

-- The writes of each function that ApplyBaseMemoryPatches calls.
abbrev pub groups : Option ℕ → ℕ → ℕ → List (List Write)
groups limit models base = (legacy limit).0 ∷ later_groups models base

-- ApplyBaseMemoryPatches, with the limit of the legacy block and the addresses of the two arrays.
unfoldable pub apply_base_memory_patches : (ℕ → ℕ → Bool) → Option ℕ → ℕ → ℕ → (ℕ → ℕ) → ℕ → ℕ
apply_base_memory_patches works limit models base m =
    run works (all_of (groups limit models base)) m

later-apart : (models base : ℕ) → all_apart (later_groups models base) ≡ true
later-apart models base = refl

legacy-apart :
    (models base : ℕ)
    → apart_all (run_gates none 0 0 legacy_gates).0 (later_groups models base) ≡ true
unfolding run_gates
legacy-apart models base = refl

groups-apart : (limit : Option ℕ) (models base : ℕ) → all_apart (groups limit models base) ≡ true
groups-apart limit models base =
    let q = run_gates-prefix limit 0 0 0 0 legacy_gates in
    let p =
      apart_all-prefix (legacy limit).0 q.0 (later_groups models base)
        (ap (λ ws. apart_all ws (later_groups models base)) (sym q.1) ∙ legacy-apart models base) in
    ap (λ b. b && all_apart (later_groups models base)) p ∙ later-apart models base

-- No function of patches.cpp undoes what another has written: at each address that a function writes,
-- the memory ends up as if that function alone had been called, whatever the limit of the legacy
-- block, wherever the two arrays lie, and whichever guarded writes fail.
pub apply_base_memory_patches-Member :
    (works : ℕ → ℕ → Bool) (limit : Option ℕ) (models base : ℕ) (m : ℕ → ℕ) (g : List Write) (x : ℕ)
    → Member g (groups limit models base)
    → touched g x ≡ true
    → apply_base_memory_patches works limit models base m x ≡ run works g m x
unfolding apply_base_memory_patches
apply_base_memory_patches-Member works limit models base m g x i h =
    run-Member works (groups limit models base) g m x (groups-apart limit models base) i h

-- A write that needs no help of the VirtualProtect at the start of the legacy block, which opens
-- 0x4A3000 bytes from 0x401000, or that lies inside it; or the reset of the game's scan list.
abbrev pub is_covered : Write → Bool
is_covered (put a n v) = true
is_covered (set a v n) = true
is_covered (fill a v n) =
    (leb 0x401000 a && leb (a + n) 0x8a4000) || (a == 0xb7d0b8 && n == 8 * 14400)
is_covered (copy a bs) = leb 0x401000 a && leb (a + length bs) 0x8a4000

legacy-covered : every is_covered (run_gates none 0 0 legacy_gates).0 ≡ true
unfolding run_gates
legacy-covered = refl

later-covered : (models base : ℕ) → every is_covered (all_of (later_groups models base)) ≡ true
later-covered models base = refl

-- Every write without a guard, in whichever function, lies in the memory that the VirtualProtect at the
-- start of the legacy block has made writable, but for the reset of the game's scan list.
pub groups-covered :
    (limit : Option ℕ) (models base : ℕ)
    → every is_covered (all_of (groups limit models base)) ≡ true
groups-covered limit models base =
    let q = run_gates-prefix limit 0 0 0 0 legacy_gates in
    every-append is_covered (legacy limit).0 (all_of (later_groups models base))
      (every-prefix is_covered (legacy limit).0 q.0
        (ap (every is_covered) (sym q.1) ∙ legacy-covered))
      (later-covered models base)
