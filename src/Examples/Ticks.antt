-- ===== src/Examples/Ticks.antt =====
-- The theorems on native/sampraknet_bridge.cpp at concrete inputs.
use opensamp.Prelude.{
  ℕ, ap, ◌∙◌, sym, inl, inr, Bool-cases, ==_iff, ◌==◌, if◌then◌else◌, ◌^◌, ◌<◌, ◌≤◌, ◌≡◌, refl,
  Bool, true, [], ◌∷◌, none, some, arith,
}
use opensamp.World.{World, idle, done}
use opensamp.World.Wire.{rpc, u32, connect}
use opensamp.Bridge.Control.{connects, control, Later, same}
use opensamp.Bridge.Control.Network.{update_network-Later}
use opensamp.Bridge.Dispatch.{update_network, call}
use opensamp.Bridge.Session.{request_connect, initialize, connect_to, end_session, tick, Frame}
use opensamp.Bridge.Session.Dial.{ticks, connect-dialed, end_session-silent}
use opensamp.Bridge.Session.Spawn.{spawn_calls, spawning}
use opensamp.Bridge.Session.Spawn.Course.{ticks-spawn, ticks-retry}
use opensamp.Bridge.Call.{Parameters}
use opensamp.World.Wire.{Platform}
use mathlib.Core.Path.{subst}
use mathlib.Core.Option.{some-injective}
use opensamp.Bridge.Session.Stages.{Moves, tick-Moves, ticks-connected, ticks-done}
use opensamp.Examples.{quiet, session_at, world_of, started, joined, frame, accepted, history}

abbrev requested_world : Bool × World
requested_world = request_connect true (some (b'h' ∷ [])) 7777 (some (b'n' ∷ [])) none started

requested_world-accepted : requested_world.0 ≡ true
unfolding request_connect initialize connect_to
requested_world-accepted = refl

connect-dialed_example :
    let w' = ticks quiet (frame 1000 (accepted ∷ []) ∷ frame 1016 [] ∷ []) requested_world.1 in
    (connects w'.sent ≡ connect (b'h' ∷ []) 7777 [] ∷ []) × (w'.connection_requested ≡ true)
connect-dialed_example =
    connect-dialed quiet true (b'h' ∷ []) (b'n' ∷ []) 7777 none (frame 1000 (accepted ∷ []))
      (frame 1016 [] ∷ []) started requested_world-accepted

end_session-silent_example : connects (ticks quiet history (end_session joined)).sent ≡ []
end_session-silent_example = end_session-silent quiet history joined

update_network-Later_example :
    Later (control started) (update_network quiet 1000 1000 (accepted ∷ []) started)
update_network-Later_example =
    update_network-Later quiet (control started) 1000 1000 (accepted ∷ []) started (same refl)

tick-Moves_example : Moves idle (tick quiet (frame 1000 []) joined).spawn_stage
tick-Moves_example = tick-Moves quiet (frame 1000 []) joined

ticks-connected_example : (ticks quiet history joined).connected ≡ true
ticks-connected_example = ticks-connected quiet history joined refl

abbrev finished : World
finished = world_of (session_at true true done)

ticks-done_example : (ticks quiet history finished).spawn_stage ≡ done
ticks-done_example = ticks-done quiet history finished refl

-- A platform on which each byte that is read is a 1.
byte_one : (n : ℕ) {v : ℕ} → (if n == 8 then some 1 else none) ≡ some v → v < 2 ^ n
byte_one n {v} e = elim (Bool-cases (n == 8)) [
  | inl h ↦
      subst (λ k. k < 2 ^ n) (some-injective 1 v (ap (λ b. if b then some 1 else none) (sym h) ∙ e))
        (subst (λ m. 1 < 2 ^ m) (sym ((==_iff n 8).0 h)) (omega arith))
  | inr h ↦ let k = ap (λ b. if b then some 1 else none) (sym h) ∙ e in cc
]

abbrev talking : Platform
talking = record quiet {
  read_bits = λ n s. (if n == 8 then some 1 else none, s);
  read_bits-lt = λ n s e. byte_one n e;
}

abbrev answer : Parameters
answer = record { input = 1 ∷ []; bits = 8 }

abbrev answering : Frame
answering = frame 116 (call 128 answer ∷ [])

ticks-spawn_example :
    let w' =
      tick talking (frame 132 []) (tick talking answering (tick talking (frame 100 []) joined)) in
    (spawn_calls w'.sent ≡ rpc 128 (u32 0 ∷ []) ∷ rpc 129 [] ∷ rpc 52 [] ∷ [])
    × (w'.spawned ≡ true)
    × (w'.spawn_stage ≡ done)
ticks-spawn_example =
    ticks-spawn talking joined refl refl refl (frame 100 []) answering (frame 132 []) answer refl
      refl refl refl

-- Across the wrap of the clock.
ticks-retry_example :
    let first = tick quiet (frame 4294967290 []) joined in
    let second = tick quiet (frame 3004 []) first in
    (spawn_calls first.sent ≡ rpc 128 (u32 0 ∷ []) ∷ [])
    × (3010 ≤ 3000 → spawning second ≡ spawning first)
    × (3000 < 3010
        → (spawn_calls second.sent ≡ rpc 128 (u32 0 ∷ []) ∷ [])
          × (spawn_calls (tick quiet (frame 3100 []) second).sent
              ≡ rpc 128 (u32 0 ∷ []) ∷ rpc 128 (u32 0 ∷ []) ∷ []))
ticks-retry_example =
    ticks-retry quiet joined refl refl refl (frame 4294967290 []) (frame 3004 []) (frame 3100 [])
      4294967290 3010 refl refl refl refl refl (omega arith) (omega arith)
