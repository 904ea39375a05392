-- ===== src/Engine/Script/Handed.antt =====
-- What the wrappers of native/game/scm.h hand to the interpreter of the game.
use opensamp.Prelude.{
  ℕ, ◌≤◌, ◌<◌, ◌≡◌, ◌^◌, refl, ap, ◌∙◌, List, [], ◌∷◌, some, take, length, replicate, arith,
}
use opensamp.Engine.Script.{
  Script, reset, push_int, push_float, Interpreter, aimed, exec, select_interior,
  link_actor_to_interior, refresh_streaming_at,
}
use opensamp.Engine.Script.Command.{
  Param, int, float, AllWords, read_command, push_all, read_command-push_all,
}

-- The thread and buffer that the interpreter is given: the command and its parameters, at the
-- beginning of the buffer, with fresh variables.
pub record IsHanded (address opcode : ℕ) (ps : List Param) (s : Script) : Type 0 where
  pub at : s.thread.script_ip ≡ address
  pub flag : s.thread.if_flag ≡ 0
  pub fresh : s.thread.local_vars ≡ replicate 18 0
  pub inside : s.buffer_pos ≤ length s.buffer
  pub command : read_command (take s.buffer_pos s.buffer) ≡ some (opcode, ps)

-- The call has the interpreter process that command, and nothing else.
abbrev pub IsProcessed : {G : Type 0} → Interpreter G → ℕ → List Param → G → Script × G → Type 0
IsProcessed game_code opcode ps g r =
    (s : Script) × IsHanded game_code.address opcode ps s
    × (let p = game_code.process_one_command s g in r ≡ (p.script, p.game))

-- The thread and buffer between two commands.
pub record IsWell (s : Script) : Type 0 where
  pub buffer_size : length s.buffer ≡ 256
  pub vars_size : length s.thread.local_vars ≡ 18

thread-push_all : (ps : List Param) (s : Script) → (push_all ps s).thread ≡ s.thread
unfolding push_int push_float
thread-push_all [] s = refl
thread-push_all (int v ∷ ps) s = thread-push_all ps (push_int v s)
thread-push_all (float v ∷ ps) s = thread-push_all ps (push_float v s)

module _ {G : Type 0} (game_code : Interpreter G) where
  aimed-IsHanded :
      (opcode : ℕ) (ps : List Param) (s : Script)
      → opcode < 2 ^ 16
      → AllWords ps
      → length ps ≤ 50
      → IsWell s
      → IsHanded game_code.address opcode ps (aimed game_code (push_all ps (reset opcode s)))
  unfolding reset
  aimed-IsHanded opcode ps s small words few well =
      let (command, fits, size) =
        read_command-push_all opcode ps s small words few well.buffer_size in
      let same = thread-push_all ps (reset opcode s) in
      record {
        at = refl;
        flag = ap (λ t. t.if_flag) same;
        fresh = ap (λ t. t.local_vars) same ∙ ap (λ n. replicate n 0) well.vars_size;
        inside = omega (arith, fits, size);
        command = command;
      }

  -- Each of the three wrappers hands its own opcode over, with its arguments as the parameters in their
  -- order and with the tag of their type, and leaves what the interpreter leaves.
  pub commands-IsProcessed :
      (a b : ℕ) (s : Script) (g : G)
      → a < 2 ^ 32
      → b < 2 ^ 32
      → IsWell s
      → IsProcessed game_code 0x04bb (int a ∷ []) g (select_interior game_code a s g)
        × IsProcessed game_code 0x0860
            (int a ∷ int b ∷ [])
            g
            (link_actor_to_interior game_code a b s g)
        × IsProcessed game_code 0x04e4
            (float a ∷ float b ∷ [])
            g
            (refresh_streaming_at game_code a b s g)
  unfolding select_interior link_actor_to_interior refresh_streaming_at exec
  commands-IsProcessed a b s g ha hb well = (
    (_, aimed-IsHanded 0x04bb (int a ∷ []) s (omega arith) (ha, tt) (omega arith) well, refl),
    (
      _,
      aimed-IsHanded 0x0860 (int a ∷ int b ∷ []) s (omega arith) (ha, (hb, tt)) (omega arith) well,
      refl,
    ),
    (
      _,
      aimed-IsHanded 0x04e4 (float a ∷ float b ∷ []) s (omega arith) (ha, (hb, tt)) (omega arith)
          well,
      refl,
    ),
  )
