-- ===== src/Engine/Patches/Legacy.antt =====
-- native/patches.cpp: ApplyLegacyBasePatches, behind the VirtualProtect with which it starts.
mod First
mod Second
mod Third
mod Fourth
use opensamp.Prelude.{ℕ, List, ◌++◌, Option}
use opensamp.Engine.Patches.{Write, Gate, run_gates}
use opensamp.Engine.Patches.Legacy.First.{first_quarter}
use opensamp.Engine.Patches.Legacy.Second.{second_quarter}
use opensamp.Engine.Patches.Legacy.Third.{third_quarter}
use opensamp.Engine.Patches.Legacy.Fourth.{fourth_quarter}

abbrev pub legacy_gates : List Gate
legacy_gates = first_quarter ++ second_quarter ++ third_quarter ++ fourth_quarter

-- ApplyLegacyBasePatches.
abbrev pub legacy : Option ℕ → List Write × ℕ × ℕ
legacy limit = run_gates limit 0 0 legacy_gates
