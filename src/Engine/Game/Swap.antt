-- ===== src/Engine/Game/Swap.antt =====
-- native/game/game.h: what the game finds when SafeSetPlayerPedModel calls it.
use opensamp.Prelude.{
  ℕ, ◌+◌, ◌%◌, ◌^◌, ◌<◌, ◌≡◌, refl, ap, ◌∙◌, ◌⊎◌, inl, inr, true, List, [], ◌∷◌, ◌==◌, ==_iff,
  if_cases, arith,
}
use opensamp.Prelude.Bytes.{word_bytes}
use opensamp.Engine.Memory.Content.{bytes_at-store}
use opensamp.Engine.Game.{at, Called, Game, Machine, call, value_of, read_at, half_bytes}
use opensamp.Engine.Game.Streaming.{ensure_model_loaded}
use opensamp.Engine.Game.Skin.{
  func_set_ped, tasks_of, ik_slot, model_index, virtual, release_ik, swap_clump,
  request_player_rebuild, safe_set_player_ped_model,
}

-- The tasks hold no IK task, or there are none.
abbrev pub HasNoIk : ℕ → (ℕ → ℕ) → Type 0
HasNoIk tasks f = (tasks ≡ 0) ⊎ (read_at (ik_slot tasks) 4 f ≡ 0)

-- The last three calls: the clump is destroyed, the model is set, and the sound is bound to the ped.
abbrev pub IsSwap : ℕ → ℕ → ℕ → List Called → Type 0
IsSwap tasks ped model_id (sound ∷ setting ∷ destroyed ∷ rest) =
    (destroyed.args ≡ ped ∷ [])
    × (destroyed.routine ≡ at (virtual (read_at ped 4 destroyed.found) 8 destroyed.found))
    × HasNoIk tasks destroyed.found
    × (setting.args ≡ ped ∷ model_id ∷ [])
    × (setting.routine ≡ at (virtual (read_at ped 4 destroyed.found) 5 setting.found))
    × (model_index ped setting.found ≡ model_id % 2 ^ 16)
    × (sound.routine ≡ at func_set_ped)
    × (sound.args ≡ (ped + 0x294) ∷ ped ∷ [])
IsSwap tasks ped model_id _ = ⊥

value-half : (v : ℕ) → value_of (half_bytes v) ≡ v % 2 ^ 16
unfolding value_of
value-half v = omega arith

value-zero : value_of (word_bytes 0) ≡ 0
unfolding value_of
value-zero = refl

module _ (m : Machine) (ped : ℕ) where
  release_ik-HasNoIk : (g : Game) → HasNoIk (tasks_of ped g.memory) (release_ik m ped g).memory
  unfolding release_ik
  release_ik-HasNoIk g =
      let tasks = tasks_of ped g.memory in
      let P = λ (h : Game). HasNoIk tasks h.memory in
      if_cases P (tasks == 0) (λ e. inl ((==_iff tasks 0).0 e))
        (λ e.
          if_cases P (read_at (ik_slot tasks) 4 g.memory == 0)
            (λ f. inr ((==_iff (read_at (ik_slot tasks) 4 g.memory) 0).0 f))
            (λ f. inr (ap value_of (bytes_at-store _ (ik_slot tasks) (word_bytes 0)) ∙ value-zero)))

  -- For a ped that is there, and whatever the calls leave in the memory: when the game destroys its
  -- clump there is no IK task in its tasks; when it sets the model the ped already has that index, cut to
  -- 16 bits; both routines come from the table of the ped; the sound is bound after them, and a rebuild is
  -- asked for.
  pub safe_set_player_ped_model-IsSwap :
      (model_id : ℕ) (g : Game)
      → 0 < ped
      → let tasks = tasks_of ped (ensure_model_loaded m model_id 200 g).1.memory in
        let h = safe_set_player_ped_model m ped model_id g in
        IsSwap tasks ped model_id h.calls × (h.rebuild_pending ≡ true)
  unfolding safe_set_player_ped_model request_player_rebuild swap_clump call
  safe_set_player_ped_model-IsSwap model_id g here =
      let ready = (ensure_model_loaded m model_id 200 g).1 in
      let P = λ (h : Game).
        IsSwap (tasks_of ped ready.memory) ped model_id h.calls × (h.rebuild_pending ≡ true) in
      if_cases P (ped == 0) (λ e. elim (is_there ped here e) [ ])
        (λ e. (
          (
            refl,
            refl,
            release_ik-HasNoIk ready,
            refl,
            refl,
            ap value_of (bytes_at-store _ (ped + 0x22) (half_bytes model_id)) ∙ value-half model_id,
            refl,
            refl,
          ),
          refl,
        ))
    where
      is_there : (n : ℕ) → 0 < n → (n == 0) ≡ true → ⊥
      is_there n low e = ground arith
