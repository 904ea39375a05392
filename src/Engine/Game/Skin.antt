-- ===== src/Engine/Game/Skin.antt =====
-- native/game/game.h: SafeSetPlayerPedModel, and the rebuild of the player that it asks for.
use opensamp.Prelude.{ℕ, ◌+◌, ◌*◌, true, false, not, ◌||◌, [], ◌∷◌, ◌==◌, if◌then◌else◌}
use opensamp.Prelude.Bytes.{word_bytes}
use opensamp.Engine.Game.{at, Game, Machine, call, read_at, write_at, half_bytes, local_player_ped}
use opensamp.Engine.Game.Streaming.{ensure_model_loaded}

-- FUNC_CTask_DestroyVdtor, FUNC_CAEPedSound_SetPed and FUNC_CClothes_RebuildPlayer.
abbrev pub func_destroy_task : ℕ
func_destroy_task = 0x639330

abbrev pub func_set_ped : ℕ
func_set_ped = 0x4e68d0

abbrev pub func_rebuild_player : ℕ
func_rebuild_player = 0x5a82c0

-- The tasks of a ped, and the slot of its IK task.
abbrev pub tasks_of : ℕ → (ℕ → ℕ) → ℕ
tasks_of ped f = read_at (ped + 0x47c) 4 f

abbrev pub ik_slot : ℕ → ℕ
ik_slot tasks = tasks + 0x2c

-- m_modelIndex.
abbrev pub model_index : ℕ → (ℕ → ℕ) → ℕ
model_index ped f = read_at (ped + 0x22) 2 f

-- The entry of a table of virtual functions.
abbrev pub virtual : ℕ → ℕ → (ℕ → ℕ) → ℕ
virtual table i f = read_at (table + 4 * i) 4 f

unfoldable pub request_player_rebuild : Game → Game
request_player_rebuild g = record g { rebuild_pending = true }

module _ (m : Machine) where
  -- Step 1 of SafeSetPlayerPedModel.
  unfoldable pub release_ik : ℕ → Game → Game
  release_ik ped g =
      let tasks = tasks_of ped g.memory in
      let task = read_at (ik_slot tasks) 4 g.memory in
      if tasks == 0
      then g
      else if task == 0
      then g
      else write_at (ik_slot tasks) (word_bytes 0) (call m (at func_destroy_task) (task ∷ 1 ∷ []) g)

  -- Steps 2 and 3, with the table that was read before the first of them.
  unfoldable pub swap_clump : ℕ → ℕ → Game → Game
  swap_clump ped model_id g =
      let table = read_at ped 4 g.memory in
      let bare = call m (at (virtual table 8 g.memory)) (ped ∷ []) g in
      let named = write_at (ped + 0x22) (half_bytes model_id) bare in
      call m (at (virtual table 5 named.memory)) (ped ∷ model_id ∷ []) named

  unfoldable pub safe_set_player_ped_model : ℕ → ℕ → Game → Game
  safe_set_player_ped_model ped model_id g =
      let (loaded, ready) = ensure_model_loaded m model_id 200 g in
      let swapped = swap_clump ped model_id (release_ik ped ready) in
      if ped == 0
      then g
      else request_player_rebuild (call m (at func_set_ped) ((ped + 0x294) ∷ ped ∷ []) swapped)

  -- ProcessPendingPlayerRebuild.
  unfoldable pub process_pending_player_rebuild : ℕ → Game → Game
  process_pending_player_rebuild frame g =
      let ped = local_player_ped g in
      let settled = record g { rebuild_pending = false; rebuild_last_frame = frame } in
      if not g.rebuild_pending || g.rebuild_last_frame == frame
      then g
      else if ped == 0
      then g
      else if not (model_index ped g.memory == 0)
      then settled
      else call m (at func_rebuild_player) (ped ∷ 0 ∷ []) settled
