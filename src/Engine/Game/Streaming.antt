-- ===== src/Engine/Game/Streaming.antt =====
-- native/game/game.h: models and places that the game loads, its camera, and the interior of the player.
use opensamp.Prelude.{
  ℕ, zero, suc, ◌+◌, ◌%◌, ◌^◌, Bool, true, false, not, ◌||◌, [], ◌∷◌, leb, ◌==◌, if◌then◌else◌,
}
use opensamp.Prelude.Bytes.{word_bytes}
use opensamp.Engine.Script as Script
use opensamp.Engine.Game.{at, sleep, Game, Machine, call, answer, write_at}

-- FUNC_RequestModel, FUNC_LoadAllRequestedModels and FUNC_HasModelLoaded.
abbrev pub func_request_model : ℕ
func_request_model = 0x4087e0

abbrev pub func_load_all_requested_models : ℕ
func_load_all_requested_models = 0x40ea10

abbrev pub func_has_model_loaded : ℕ
func_has_model_loaded = 0x4044c0

abbrev pub var_the_camera : ℕ
var_the_camera = 0xb6f028

abbrev pub var_current_area : ℕ
var_current_area = 0xb72914

-- A bool is returned in the low byte.
abbrev pub is_yes : ℕ → Bool
is_yes result = not (result % 256 == 0)

module _ (m : Machine) where
  unfoldable pub request_model : ℕ → ℕ → Game → Game
  request_model model_id flags g = call m (at func_request_model) (model_id ∷ flags ∷ []) g

  unfoldable pub load_all_requested_models : ℕ → Game → Game
  load_all_requested_models only_priority g =
      call m (at func_load_all_requested_models) (only_priority ∷ []) g

  -- HasModelLoaded.
  abbrev pub ask_loaded : ℕ → Game → Bool × Game
  ask_loaded model_id g = (
    is_yes (answer m (at func_has_model_loaded) (model_id ∷ []) g),
    call m (at func_has_model_loaded) (model_id ∷ []) g,
  )

  -- The loop of EnsureModelLoaded, with the iterations that are left.
  unfoldable pub await_model : ℕ → ℕ → Game → Bool × Game
  await_model zero model_id g = (false, g)
  await_model (suc left) model_id g =
      let (loaded, h) = ask_loaded model_id g in
      let rest = await_model left model_id (call m sleep (1 ∷ []) h) in
      if loaded then (true, h) else rest

  -- EnsureModelLoaded. A model id is not positive if it is 0 or has its sign bit.
  unfoldable pub ensure_model_loaded : ℕ → ℕ → Game → Bool × Game
  ensure_model_loaded model_id max_iterations g =
      let (loaded, h) = ask_loaded model_id g in
      if model_id == 0 || leb (2 ^ 31) model_id
      then (false, g)
      else if loaded
      then (true, h)
      else await_model max_iterations model_id
          (load_all_requested_models 0 (request_model model_id 2 h))

  -- FindGroundZ: what it returns.
  unfoldable pub find_ground_z : ℕ → ℕ → Game → ℕ × Game
  find_ground_z x y g = (answer m (at 0x569660) (x ∷ y ∷ []) g, call m (at 0x569660) (x ∷ y ∷ []) g)

  -- StreamingLoadScene.
  unfoldable pub streaming_load_scene : ℕ → ℕ → ℕ → ℕ → Game → Game
  streaming_load_scene x y z radius g =
      let stopped = call m (at 0x561aa0) [] g in
      let requested = call m (at 0x555cb0) (x ∷ y ∷ z ∷ radius ∷ 32 ∷ []) stopped in
      let loaded = call m (at 0x40eb70) (x ∷ y ∷ z ∷ []) requested in call m (at 0x561b10) [] loaded

  -- CameraSetPosition and CameraRestore.
  unfoldable pub camera_set_position : ℕ → ℕ → ℕ → Game → Game
  camera_set_position x y z g = call m (at 0x50c8b0) (var_the_camera ∷ x ∷ y ∷ z ∷ 2 ∷ 1 ∷ []) g

  unfoldable pub camera_restore : Game → Game
  camera_restore g =
      call m (at 0x50bab0) (var_the_camera ∷ []) (call m (at 0x50bd40) (var_the_camera ∷ []) g)

  abbrev with_script : Script.Script × (ℕ → ℕ) → Game → Game
  with_script r g = record g { script = r.0; memory = r.1 }

  -- SetCurrentInterior, with the ped or 0. The area has 8 bits.
  unfoldable pub set_current_interior : ℕ → ℕ → Game → Game
  set_current_interior ped area g =
      let named = write_at var_current_area (word_bytes area) g in
      let cleared = call m (at 0x4094b0) (area ∷ []) named in
      let tagged = if ped == 0 then cleared else write_at (ped + 0x37) (area ∷ []) cleared in
      with_script (Script.select_interior m.interpreter area tagged.script tagged.memory) tagged

  -- RefreshStreamingAt.
  unfoldable pub refresh_streaming : ℕ → ℕ → Game → Game
  refresh_streaming x y g =
      with_script (Script.refresh_streaming_at m.interpreter x y g.script g.memory) g
