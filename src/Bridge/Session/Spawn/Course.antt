-- ===== src/Bridge/Session/Spawn/Course.antt =====
-- The course of the automatic spawn over ticks of native/sampraknet_bridge.cpp, with the answer of the
-- server and without.
use opensamp.Prelude.{
  ℕ, ◌+◌, ◌%◌, ◌^◌, ◌<◌, ◌≤◌, ◌≡◌, refl, ap, ◌∙◌, sym, Bool, true, false, ◌&&◌, not, [], ◌∷◌, ◌++◌,
  arith, ltb, if◌then◌else◌,
}
use mathlib.Core.List.{append_assoc}
use opensamp.World.{World, SpawnStage, idle, waiting_class, ready, done}
use opensamp.World.Wire.{Platform, rpc, u32}
use opensamp.Bridge.Call.{Parameters}
use opensamp.Bridge.Dispatch.{call}
use opensamp.Bridge.Session.{tick, Frame}
use opensamp.Bridge.Session.Spawn.{
  may_spawn, sub32-elapsed, spawn_calls, Spawning, spawning, with_calls, advance, step,
}
use opensamp.Bridge.Session.Spawn.Ticks.{
  IsQuiet, Accepts, tick-initialized, tick-quiet, tick-answered,
}

abbrev can : Spawning → Bool
can v = v.connected && v.game_inited && not v.spawned && not v.dialog

step-at :
    (now : ℕ) (s : SpawnStage) (v : Spawning)
    → can v ≡ true
    → v.stage ≡ s
    → step now v ≡ advance now s v
step-at now s v h e = rw (h, e) refl

-- With the answer before the second step, the third one spawns.
spawned_after :
    (t0 t1 t2 : ℕ) (v : Spawning)
    → can v ≡ true
    → v.stage ≡ idle
    → step t2 (step t1 (record (step t0 v) { answered = true }))
      ≡ record (with_calls
          (with_calls v (rpc 128 (u32 0 ∷ []) ∷ []))
          (rpc 129 [] ∷ rpc 52 [] ∷ [])) {
            spawned = true;
            stage = done;
            stage_ms = t0;
            answered = true;
          }
unfolding advance
spawned_after t0 t1 t2 v h e =
    let told : Spawning = record (advance t0 idle v) { answered = true } in
    ap (λ u. step t2 (step t1 (record u { answered = true }))) (step-at t0 idle v h e)
    ∙ ap (step t2) (step-at t1 waiting_class told h refl)
    ∙ step-at t2 ready (record told { stage = ready }) h refl

asked_again :
    (t d : ℕ) (v : Spawning)
    → can v ≡ true
    → v.stage ≡ idle
    → t < 2 ^ 32
    → d < 2 ^ 32
    → step ((t + d) % 2 ^ 32) (step t v)
      ≡ (if ltb 3000 d then record (step t v) { stage = idle } else step t v)
unfolding advance
asked_again t d v h e a b =
    let first = step-at t idle v h e in
    ap (step ((t + d) % 2 ^ 32)) first
    ∙ step-at ((t + d) % 2 ^ 32) waiting_class (advance t idle v) h refl
    ∙ ap (λ n. if ltb 3000 n then record (advance t idle v) { stage = idle } else advance t idle v)
        (sub32-elapsed t d a b)
    ∙ ap (λ u. if ltb 3000 d then record u { stage = idle } else u) (sym first)

not_late : (d : ℕ) → d ≤ 3000 → ltb 3000 d ≡ false
not_late d l = ground arith

late : (d : ℕ) → 3000 < d → ltb 3000 d ≡ true
late d l = ground arith

module _ (p : Platform) (w : World) (up : w.initialized ≡ true) (may : may_spawn w ≡ true)
    (start : w.spawn_stage ≡ idle) where
  -- From the idle stage, with the bridge initialized, the session joined, no dialog open and the player
  -- not spawned: over three ticks of which the first and the last bring nothing and the second brings an
  -- answer to RequestClass that does not refuse it, at any times and with any vehicle and sync, the calls
  -- for a class and for the spawn are one request for class 0 and then one spawn, and the player is
  -- spawned.
  pub ticks-spawn :
      (f0 f1 f2 : Frame) (c : Parameters)
      → IsQuiet p f0
      → f1.events ≡ call 128 c ∷ []
      → Accepts p c
      → IsQuiet p f2
      → let w' = tick p f2 (tick p f1 (tick p f0 w)) in
        (spawn_calls w'.sent
          ≡ spawn_calls w.sent ++ rpc 128 (u32 0 ∷ []) ∷ rpc 129 [] ∷ rpc 52 [] ∷ [])
        × (w'.spawned ≡ true)
        × (w'.spawn_stage ≡ done)
  ticks-spawn f0 f1 f2 c q0 q1 a q2 =
      let w1 = tick p f0 w in
      let w2 = tick p f1 w1 in
      let i1 = tick-initialized p f0 w up in
      let i2 = tick-initialized p f1 w1 i1 in
      let all =
        tick-quiet p f2 w2 i2 q2
        ∙ ap (step f2.spawn_now) (tick-answered p f1 c w1 i1 q1 a)
        ∙ ap (λ v. step f2.spawn_now (step f1.spawn_now (record v { answered = true })))
            (tick-quiet p f0 w up q0)
        ∙ spawned_after f0.spawn_now f1.spawn_now f2.spawn_now (spawning w) may start in
      (
        ap (λ (v : Spawning). v.calls) all ∙ append_assoc (spawn_calls w.sent) _ _,
        ap (λ (v : Spawning). v.spawned) all,
        ap (λ (v : Spawning). v.stage) all,
      )

  -- From the idle stage, with the bridge initialized, the session joined, no dialog open and the player
  -- not spawned, over ticks that bring nothing: a tick at time t asks for a class. One that comes
  -- d milliseconds later, across the wrap of the clock or not, makes no call of the spawn; if d is at most
  -- 3000, the stage and its time are as they were, and if it is more, the tick after that one asks again.
  -- The clock and d are below 2^32.
  pub ticks-retry :
      (f0 f1 f2 : Frame) (t d : ℕ)
      → IsQuiet p f0
      → IsQuiet p f1
      → IsQuiet p f2
      → f0.spawn_now ≡ t
      → f1.spawn_now ≡ (t + d) % 2 ^ 32
      → t < 2 ^ 32
      → d < 2 ^ 32
      → let first = tick p f0 w in
        let second = tick p f1 first in
        let asked = spawn_calls w.sent ++ rpc 128 (u32 0 ∷ []) ∷ [] in
        (spawn_calls first.sent ≡ asked)
        × (d ≤ 3000 → spawning second ≡ spawning first)
        × (3000 < d
            → (spawn_calls second.sent ≡ asked)
              × (spawn_calls (tick p f2 second).sent ≡ asked ++ rpc 128 (u32 0 ∷ []) ∷ []))
  unfolding advance
  ticks-retry f0 f1 f2 t d q0 q1 q2 e0 e1 a b =
      let w1 = tick p f0 w in
      let w2 = tick p f1 w1 in
      let i1 = tick-initialized p f0 w up in
      let i2 = tick-initialized p f1 w1 i1 in
      let v = spawning w in
      let first : spawning w1 ≡ step t v = tick-quiet p f0 w up q0 ∙ ap (λ n. step n v) e0 in
      let sent_first : spawning w1 ≡ advance t idle v = first ∙ step-at t idle v may start in
      let second : spawning w2
          ≡ (if ltb 3000 d then record (step t v) { stage = idle } else step t v) =
        tick-quiet p f1 w1 i1 q1
        ∙ ap (λ n. step n (spawning w1)) e1
        ∙ ap (step ((t + d) % 2 ^ 32)) first
        ∙ asked_again t d v may start a b in
      let choose = λ (c : Bool). if c then record (step t v) { stage = idle } else step t v in
      let expired : 3000 < d → spawning w2 ≡ record (advance t idle v) { stage = idle } = λ l.
        second
        ∙ ap choose (late d l)
        ∙ ap (λ (u : Spawning). record u { stage = idle }) (step-at t idle v may start) in
      (
        ap (λ (u : Spawning). u.calls) sent_first,
        λ l. second ∙ ap choose (not_late d l) ∙ sym first,
        λ l. (
          ap (λ (u : Spawning). u.calls) (expired l),
          ap (λ (u : Spawning). u.calls)
              (tick-quiet p f2 w2 i2 q2
                ∙ ap (step f2.spawn_now) (expired l)
                ∙ step-at f2.spawn_now idle (record (advance t idle v) { stage = idle }) may refl),
        ),
      )
