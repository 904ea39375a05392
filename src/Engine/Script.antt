-- ===== src/Engine/Script.antt =====
-- native/game/scm.h: single commands for the script interpreter of the game. One thread and one
-- buffer serve them all.
pub mod Command
pub mod Handed
use opensamp.Prelude.{ℕ, ◌+◌, ◌/◌, ◌%◌, Bool, List, [], ◌∷◌, replicate, length, if◌then◌else◌}
use opensamp.Prelude.Bytes.{overwrite, word_bytes}

-- The fields of ThreadFrame that have a name.
pub record ThreadFrame : Type 0 where
  pub script_ip : ℕ
  pub local_vars : List ℕ
  pub if_flag : ℕ
  pub index_something : ℕ
  pub has_local_copy : ℕ

-- g_thread, g_buf and g_buf_pos, with the bytes that a push would write behind the buffer.
pub record Script : Type 0 where
  pub thread : ThreadFrame
  pub buffer : List ℕ
  pub buffer_pos : ℕ

-- TAG_INT32 and TAG_FLOAT.
abbrev pub tag_int32 : ℕ
tag_int32 = 0x01

abbrev pub tag_float : ℕ
tag_float = 0x06

-- memset over local_vars: all of them.
unfoldable pub reset : ℕ → Script → Script
reset opcode s = record {
  thread = record s.thread { local_vars = replicate (length s.thread.local_vars) 0; if_flag = 0 };
  buffer = overwrite 0 (opcode % 256 ∷ opcode / 256 % 256 ∷ []) s.buffer;
  buffer_pos = 2;
}

-- A number is the pattern of its bits, below 2 ^ 32.
unfoldable pub push_int : ℕ → Script → Script
push_int v s = record s {
  buffer = overwrite s.buffer_pos (tag_int32 ∷ word_bytes v) s.buffer;
  buffer_pos = s.buffer_pos + 5;
}

unfoldable pub push_float : ℕ → Script → Script
push_float v s = record s {
  buffer = overwrite s.buffer_pos (tag_float ∷ word_bytes v) s.buffer;
  buffer_pos = s.buffer_pos + 5;
}

-- What the call of ProcessOneCommand leaves: whether it ended in an exception of Windows, the thread
-- and buffer, and the game.
pub record Processed (G : Type 0) : Type 0 where
  pub faulted : Bool
  pub script : Script
  pub game : G

-- CRunningScript::ProcessOneCommand and the address of g_buf.
pub record Interpreter (G : Type 0) : Type 0 where
  pub process_one_command : Script → G → Processed G
  pub address : ℕ

module _ {G : Type 0} (game_code : Interpreter G) where
  -- exec, up to its call.
  abbrev pub aimed : Script → Script
  aimed s = record s { thread = record s.thread { script_ip = game_code.address } }

  -- exec: what it returns, and what it leaves.
  unfoldable pub exec : Script → G → ℕ × Script × G
  exec s g =
      let p = game_code.process_one_command (aimed s) g in
      (if p.faulted then 0 else p.script.thread.if_flag, p.script, p.game)

  unfoldable pub select_interior : ℕ → Script → G → Script × G
  select_interior id s g = let r = exec (push_int id (reset 0x04bb s)) g in (r.1, r.2)

  unfoldable pub link_actor_to_interior : ℕ → ℕ → Script → G → Script × G
  link_actor_to_interior actor_id id s g =
      let r = exec (push_int id (push_int actor_id (reset 0x0860 s))) g in (r.1, r.2)

  unfoldable pub refresh_streaming_at : ℕ → ℕ → Script → G → Script × G
  refresh_streaming_at x y s g =
      let r = exec (push_float y (push_float x (reset 0x04e4 s))) g in (r.1, r.2)
