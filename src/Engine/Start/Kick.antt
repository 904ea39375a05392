-- ===== src/Engine/Start/Kick.antt =====
-- native/gta/sa_state.h: what kick_game_start leaves in the memory of the game.
use mathlib.Core.Path.{subst, fun_ext}
use opensamp.Prelude.{
  ℕ, ◌+◌, ◌^◌, ◌<◌, ◌≡◌, refl, sym, ap, ◌∙◌, true, List, [], ◌∷◌, some, length, arith, Bool, false,
  ◌&&◌, not, if◌then◌else◌,
}
use opensamp.Prelude.Bytes.{word_bytes}
use opensamp.Engine.Memory.{
  Memory, Paging, store, bytes_at, is_readable, write_memory, execute_readwrite, set_protect,
}
use opensamp.Engine.Memory.Protection.{IsFaithful, Paged, opened_pages, write_memory-protect}
use opensamp.Engine.Memory.Content.{
  NoFault, written, read-readable, read-readable, is_readable-protect,
}
use opensamp.Engine.Game.{value_of}
use opensamp.Engine.Start.{
  game_state, game_started_flag, menu_flag, start_game_flag, state_of, get_system_state,
  set_system_state, kick_game_start,
}

-- What the system is taken to do: VirtualQuery answers whole pages of one protection, and memcpy does not
-- fault where is_readable says yes.
pub record IsCalm (os : Paging) : Type 0 where
  pub faithful : IsFaithful os
  pub no_fault : NoFault os

-- The system lets the library open the place, as the memory is protected, and close it again.
pub record IsOpen (os : Paging) (m : Memory) (a n : ℕ) : Type 0 where
  pub readable : is_readable os m a n ≡ true
  pub allowed : os.allows m.protect a n execute_readwrite ≡ true
  pub restored : os.allows (opened_pages m a n) a n (m.protect a) ≡ true

closes : (b c d : Bool) → d ≡ true → (b && c && not d) ≡ false
closes b c d h = ground arith

-- A write that goes through.
record Wrote (m : Memory) (a : ℕ) (bs : List ℕ) (k : Memory) : Type 0 where
  stored : k.byte ≡ store m.byte a bs
  same : k.protect ≡ m.protect

-- The bytes after the four writes, which lie apart.
abbrev kicked : (ℕ → ℕ) → ℕ → ℕ
kicked f =
    store
      (store (store (store f game_state (word_bytes 8)) game_started_flag (1 ∷ [])) menu_flag
        (0 ∷ []))
      start_game_flag (0 ∷ [])

kicked_state : (f : ℕ → ℕ) → state_of (some (bytes_at (kicked f) game_state 4)) ≡ 8
unfolding store value_of
kicked_state f = refl

kicked_flags :
    (f : ℕ → ℕ)
    → (kicked f game_started_flag ≡ 1) × (kicked f menu_flag ≡ 0) × (kicked f start_game_flag ≡ 0)
unfolding store
kicked_flags f = (refl, refl, refl)

module _ (os : Paging) (calm : IsCalm os) where
  write-Wrote :
      (m : Memory) (a : ℕ) (bs : List ℕ)
      → Paged m.protect
      → a + length bs < 2 ^ 32
      → IsOpen os m a (length bs)
      → Wrote m a bs (write_memory os m a bs).1
  write-Wrote m a bs paged short free = record {
    stored = written os calm.no_fault m a bs free.readable free.allowed;
    same = fun_ext (λ x.
        write_memory-protect os m a bs x calm.faithful paged short
        ∙ ap (λ b. if b then opened_pages m a (length bs) x else m.protect x)
            (closes (is_readable os m a (length bs))
              (os.allows m.protect a (length bs) execute_readwrite) _ free.restored));
  }

  IsOpen-after :
      (m k : Memory) (a n : ℕ) → k.protect ≡ m.protect → IsOpen os m a n → IsOpen os k a n
  IsOpen-after m k a n e free = record {
    readable = is_readable-protect os calm.no_fault m k.byte k.protect a n e free.readable;
    allowed = ap (λ f. os.allows f a n execute_readwrite) e ∙ free.allowed;
    restored =
        ap (λ f. os.allows (set_protect a n execute_readwrite f) a n (f a)) e ∙ free.restored;
  }

  Paged-after : (m k : Memory) → k.protect ≡ m.protect → Paged m.protect → Paged k.protect
  Paged-after m k e paged = subst Paged (sym e) paged

  kicked-Wrote :
      (m : Memory)
      → Paged m.protect
      → IsOpen os m game_state 4
      → IsOpen os m game_started_flag 1
      → IsOpen os m menu_flag 1
      → IsOpen os m start_game_flag 1
      → ((kick_game_start os m).byte ≡ kicked m.byte) × ((kick_game_start os m).protect ≡ m.protect)
  unfolding kick_game_start set_system_state
  kicked-Wrote m paged o1 o2 o3 o4 =
      let w1 = write-Wrote m game_state (word_bytes 8) paged (omega arith) o1 in
      let m1 = (write_memory os m game_state (word_bytes 8)).1 in
      let w2 =
        write-Wrote m1 game_started_flag (1 ∷ []) (Paged-after m m1 w1.same paged) (omega arith)
          (IsOpen-after m m1 game_started_flag 1 w1.same o2) in
      let m2 = (write_memory os m1 game_started_flag (1 ∷ [])).1 in
      let p2 = w2.same ∙ w1.same in
      let w3 =
        write-Wrote m2 menu_flag (0 ∷ []) (Paged-after m m2 p2 paged) (omega arith)
          (IsOpen-after m m2 menu_flag 1 p2 o3) in
      let m3 = (write_memory os m2 menu_flag (0 ∷ [])).1 in
      let p3 = w3.same ∙ p2 in
      let w4 =
        write-Wrote m3 start_game_flag (0 ∷ []) (Paged-after m m3 p3 paged) (omega arith)
          (IsOpen-after m m3 start_game_flag 1 p3 o4) in
      (rw (w4.stored, w3.stored, w2.stored, w1.stored) refl, w4.same ∙ p3)

  -- Where the system lets the library open the four places and close them again, the game is in the state
  -- gs_init_playing_game afterwards, as get_system_state reads it, it counts as started, and both flags of
  -- the menu are off, and the pages are protected as they were.
  pub kick_game_start-playing :
      (m : Memory)
      → Paged m.protect
      → IsOpen os m game_state 4
      → IsOpen os m game_started_flag 1
      → IsOpen os m menu_flag 1
      → IsOpen os m start_game_flag 1
      → let k = kick_game_start os m in
        (get_system_state os k ≡ 8)
        × (k.byte game_started_flag ≡ 1)
        × (k.byte menu_flag ≡ 0)
        × (k.byte start_game_flag ≡ 0)
        × (k.protect ≡ m.protect)
  unfolding get_system_state
  kick_game_start-playing m paged o1 o2 o3 o4 =
      let k = kick_game_start os m in
      let (bytes, same) = kicked-Wrote m paged o1 o2 o3 o4 in
      let read =
        read-readable os calm.no_fault k game_state 4
          (IsOpen-after m k game_state 4 same o1).readable in
      (
        ap state_of read
            ∙ ap (λ f. state_of (some (bytes_at f game_state 4))) bytes
            ∙ kicked_state m.byte,
        ap (λ f. f game_started_flag) bytes ∙ (kicked_flags m.byte).0,
        ap (λ f. f menu_flag) bytes ∙ (kicked_flags m.byte).1,
        ap (λ f. f start_game_flag) bytes ∙ (kicked_flags m.byte).2,
        same,
      )
