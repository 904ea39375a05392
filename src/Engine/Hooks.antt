-- ===== src/Engine/Hooks.antt =====
-- native/hooks.cpp and native/input_guard.cpp: how the hooks are installed, and what the guards around
-- the table of the visibility plugins let through. Lines for the log are left out.
pub mod Installed
use opensamp.Prelude.{
  ℕ, ◌+◌, ◌*◌, ◌%◌, ◌^◌, Bool, true, false, not, ◌&&◌, ◌||◌, List, [], ◌∷◌, Option, none, some, ltb,
  ◌==◌, if◌then◌else◌,
}
use opensamp.Engine.Game.{Game, read_at}

-- The functions that stand in for one of the game or of Windows.
pub data Detour : Type 0 where
  on_script on_process on_key_state on_cursor_pos on_vis_get on_vis_set : Detour

-- The o-pointers that MinHook has filled, the detours that are enabled, and whether
-- CNetGame::Initialize was called; the last one first.
pub record Hooks : Type 0 where
  pub originals : List (Detour × ℕ)
  pub enabled : List Detour
  pub net_game : Bool

-- MinHook: what MH_CreateHook writes as the original where it succeeds, whether MH_EnableHook succeeds,
-- and the functions of user32.dll, where GetProcAddress finds them.
pub record MinHook : Type 0 where
  pub creates : Hooks → ℕ → Option ℕ
  pub enables : Hooks → ℕ → Bool
  pub key_state_proc : Option ℕ
  pub cursor_pos_proc : Option ℕ

-- A step that may fail, and one that is taken only after a success.
abbrev pub Attempt : Type 0
Attempt = Hooks → Bool × Hooks

infixl 10 ◌andthen◌
unfoldable pub ◌andthen◌ : Attempt → Attempt → Attempt
◌andthen◌ first second h = let r = first h in let s = second r.1 in if r.0 then s else (false, r.1)

module _ (lib : MinHook) where
  abbrev pub with_original : Detour → Option ℕ → Attempt
  with_original d none h = (false, h)
  with_original d (some original) h = (true, record h { originals = (d, original) ∷ h.originals })

  unfoldable pub create_hook : ℕ → Detour → Attempt
  create_hook target d h = with_original d (lib.creates h target) h

  unfoldable pub enable_hook : ℕ → Detour → Attempt
  enable_hook target d h =
      if lib.enables h target then (true, record h { enabled = d ∷ h.enabled }) else (false, h)

  -- InstallClumpTableGuards.
  unfoldable pub install_clump_table_guards : Attempt
  install_clump_table_guards =
      create_hook 0x732b20 on_vis_get
      andthen create_hook 0x732b00 on_vis_set
      andthen enable_hook 0x732b20 on_vis_get
      andthen enable_hook 0x732b00 on_vis_set

  -- Install_CGameProcess_Hook: the target of the relative call in the game's code.
  unfoldable pub call_target : (ℕ → ℕ) → Option ℕ
  call_target code =
      if code 0x53c095 == 0xe8
      then some ((0x53c095 + 5 + read_at 0x53c096 4 code) % 2 ^ 32)
      else none

  unfoldable pub hook_process : Option ℕ → Attempt
  hook_process none = λ h. (false, h)
  hook_process (some target) = create_hook target on_process andthen enable_hook target on_process

  unfoldable pub install_cgame_process_hook : (ℕ → ℕ) → Attempt
  install_cgame_process_hook code = hook_process (call_target code)

  -- InstallInputGuards.
  unfoldable pub install_guards : Option ℕ → Option ℕ → Attempt
  install_guards (some key) (some cursor) =
      create_hook key on_key_state
      andthen create_hook cursor on_cursor_pos
      andthen enable_hook key on_key_state
      andthen enable_hook cursor on_cursor_pos
  install_guards _ _ = λ h. (false, h)

  unfoldable pub install_input_guards : Attempt
  install_input_guards = install_guards lib.key_state_proc lib.cursor_pos_proc

  -- GameReady_Install behind the hook of the scripts: a failure of the others is only logged.
  unfoldable pub install_rest : (ℕ → ℕ) → Attempt
  install_rest code h =
      let processed = (install_cgame_process_hook code h).1 in
      let guarded = (install_input_guards processed).1 in
      let tabled = (install_clump_table_guards guarded).1 in
      (true, record tabled { net_game = true })

  -- GameReady_Install.
  unfoldable pub game_ready_install : (ℕ → ℕ) → Attempt
  game_ready_install code =
      create_hook 0x469f00 on_script
      andthen enable_hook 0x469f00 on_script
      andthen install_rest code

-- ClumpTableValid.
unfoldable pub clump_table_valid : (ℕ → ℕ) → Bool
clump_table_valid f = let v = read_at 0x8d6094 4 f in ltb 0x10000 v && not (v == 0xffffffff)

-- hk_VisGet and hk_VisSet, around the functions of the game.
unfoldable pub guard_get : (ℕ → (ℕ → ℕ) → ℕ) → ℕ → (ℕ → ℕ) → ℕ
guard_get original key f = if clump_table_valid f then original key f else 0

unfoldable pub guard_set : (ℕ → ℕ → (ℕ → ℕ) → ℕ → ℕ) → ℕ → ℕ → (ℕ → ℕ) → ℕ → ℕ
guard_set original key value f =
    let written = original key value f in if clump_table_valid f then written else f

-- EnsurePedPoolsInitialised, with what the initialisation of the game leaves.
unfoldable pub ensure_ped_pools : ((ℕ → ℕ) → ℕ → ℕ) → (ℕ → ℕ) → ℕ → ℕ
ensure_ped_pools initialise f = if clump_table_valid f then f else initialise f
