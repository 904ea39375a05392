-- ===== src/Engine/Start.antt =====
-- native/gta/sa_state.h: the state of the game, and the writes that take it out of its frontend.
pub mod Kick
use opensamp.Prelude.{ℕ, ◌%◌, List, [], ◌∷◌, Option, none, some, Bool}
use opensamp.Prelude.Bytes.{word_bytes}
use opensamp.Engine.Memory.{Memory, Paging, read_memory, write_memory}
use opensamp.Engine.Game.{value_of}

-- kGameState, kGameStartedFlag, kMenuFlag and kStartGameFlag.
abbrev pub game_state : ℕ
game_state = 0xc8d4c0

abbrev pub game_started_flag : ℕ
game_started_flag = 0xba6831

abbrev pub menu_flag : ℕ
menu_flag = 0xba67a4

abbrev pub start_game_flag : ℕ
start_game_flag = 0xba677b

-- The double word that is read, or 0, cast to a byte.
abbrev pub state_of : Option (List ℕ) → ℕ
state_of none = 0
state_of (some bs) = value_of bs % 256

module _ (os : Paging) where
  -- get_system_state and set_system_state.
  unfoldable pub get_system_state : Memory → ℕ
  get_system_state m = state_of (read_memory os m game_state 4)

  unfoldable pub set_system_state : ℕ → Memory → Memory
  set_system_state s m = (write_memory os m game_state (word_bytes s)).1

  -- kick_game_start.
  unfoldable pub kick_game_start : Memory → Memory
  kick_game_start m =
      let playing = set_system_state 8 m in
      let started = (write_memory os playing game_started_flag (1 ∷ [])).1 in
      let off_menu = (write_memory os started menu_flag (0 ∷ [])).1 in
      (write_memory os off_menu start_game_flag (0 ∷ [])).1
