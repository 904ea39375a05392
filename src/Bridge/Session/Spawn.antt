-- ===== src/Bridge/Session/Spawn.antt =====
-- The automatic spawn of native/sampraknet_bridge.cpp over whole ticks of bridge::Tick: when it asks for a
-- class, and when it spawns the player.
pub mod Ticks
pub mod Course
use opensamp.Prelude.{
  ℕ, ◌+◌, ◌/◌, ◌%◌, ◌^◌, ◌<◌, ◌≤◌, ◌≡◌, refl, ap, ◌∙◌, sym, Bool, true, false, ◌&&◌, ◌||◌, not,
  List, [], ◌∷◌, ◌++◌, arith, if_cases, ltb, if◌then◌else◌, take, get_or, ◌==◌,
}
use mathlib.Core.List.{append-nil, append_assoc}
use opensamp.Dialog.{Dialog}
use opensamp.World.{World, Session, SpawnStage, idle, waiting_class, ready, done, emit, set_ped}
use opensamp.World.Wire.{Platform, ClientCall, Field, rpc, send, connect, disconnect, u32}
use opensamp.Bridge.Local.{samp_spawn}
use opensamp.Bridge.Senders.{request_class_call, sub32}
use opensamp.Bridge.Dispatch.{ask_scores}
use opensamp.Bridge.Session.{auto_spawn, spawn_step, issue_connect}

-- The guard of the automatic spawn.
abbrev pub may_spawn : World → Bool
may_spawn w = w.connected && w.game_inited && not w.spawned && not w.dialog.active

pub sub32-elapsed : (t d : ℕ) → t < 2 ^ 32 → d < 2 ^ 32 → sub32 ((t + d) % 2 ^ 32) t ≡ d
sub32-elapsed t d h k = omega arith

-- The calls for a class and for the spawn: the RPCs 128, 129 and 52.
abbrev pub is_spawn_call : ClientCall → Bool
is_spawn_call (rpc id b) = id == 128 || id == 129 || id == 52
is_spawn_call _ = false

abbrev pub spawn_calls : List ClientCall → List ClientCall
spawn_calls [] = []
spawn_calls (c ∷ cs) = let rest = spawn_calls cs in if is_spawn_call c then c ∷ rest else rest

pub spawn_calls-append :
    (cs ds : List ClientCall) → spawn_calls (cs ++ ds) ≡ spawn_calls cs ++ spawn_calls ds
spawn_calls-append [] ds = refl
spawn_calls-append (c ∷ cs) ds =
    if_cases
      (λ r.
        (if is_spawn_call c then c ∷ spawn_calls (cs ++ ds) else spawn_calls (cs ++ ds))
        ≡ r ++ spawn_calls ds)
      (is_spawn_call c) (λ e. rw (e, spawn_calls-append cs ds) refl)
      (λ e. rw (e, spawn_calls-append cs ds) refl)

-- What the automatic spawn looks at, and the calls that it has made.
pub record Spawning : Type 0 where
  pub connected : Bool
  pub game_inited : Bool
  pub spawned : Bool
  pub dialog : Bool
  pub stage : SpawnStage
  pub stage_ms : ℕ
  pub answered : Bool
  pub calls : List ClientCall

abbrev pub spawning_of : Session → Dialog → List ClientCall → Spawning
spawning_of s d l = record {
  connected = s.connected;
  game_inited = s.game_inited;
  spawned = s.spawned;
  dialog = d.active;
  stage = s.spawn_stage;
  stage_ms = s.spawn_stage_ms;
  answered = s.spawn_info_received;
  calls = spawn_calls l;
}

abbrev pub spawning : World → Spawning
spawning w = spawning_of w.session w.dialog w.sent

abbrev pub with_calls : Spawning → List ClientCall → Spawning
with_calls v l = record v { calls = v.calls ++ l }

-- A call that is none of the three leaves all of it alone.
pub other_call :
    (s : Session) (d : Dialog) (l : List ClientCall) (c : ClientCall)
    → is_spawn_call c ≡ false
    → spawning_of s d (l ++ c ∷ []) ≡ spawning_of s d l
other_call s d l c h =
    ap (λ (n : List ClientCall). record (spawning_of s d l) { calls = n })
      (spawn_calls-append l (c ∷ [])
        ∙ ap (λ b. spawn_calls l ++ (if b then c ∷ [] else [])) h
        ∙ append-nil (spawn_calls l))

new_calls :
    (s : Session) (d : Dialog) (l m : List ClientCall)
    → spawning_of s d (l ++ m) ≡ with_calls (spawning_of s d l) (spawn_calls m)
new_calls s d l m =
    ap (λ (n : List ClientCall). record (spawning_of s d l) { calls = n }) (spawn_calls-append l m)

-- The stages as steps of what is looked at.
pub advance : ℕ → SpawnStage → Spawning → Spawning
advance now idle v = record (with_calls v (rpc 128 (u32 0 ∷ []) ∷ [])) {
  stage = waiting_class;
  stage_ms = now;
  answered = false;
}
advance now waiting_class v =
    if v.answered
    then record v { stage = ready }
    else if ltb 3000 (sub32 now v.stage_ms)
    then record v { stage = idle }
    else v
advance now ready v = record (with_calls v (rpc 129 [] ∷ rpc 52 [] ∷ [])) {
  spawned = true;
  stage = done;
}
advance now done v = v

abbrev pub step : ℕ → Spawning → Spawning
step now v =
    if v.connected && v.game_inited && not v.spawned && not v.dialog
    then advance now v.stage v
    else v

-- What the spawn sends.
samp_spawn-spawning :
    (w : World) → spawning (samp_spawn w) ≡ with_calls (spawning w) (rpc 129 [] ∷ rpc 52 [] ∷ [])
unfolding samp_spawn emit set_ped
samp_spawn-spawning w =
    if_cases
      (λ (v : World).
        spawning_of v.session v.dialog ((v.sent ++ rpc 129 [] ∷ []) ++ rpc 52 [] ∷ [])
        ≡ with_calls (spawning w) (rpc 129 [] ∷ rpc 52 [] ∷ []))
      w.spawned (λ e. both) (λ e. both)
  where
    both :
        spawning_of w.session w.dialog ((w.sent ++ rpc 129 [] ∷ []) ++ rpc 52 [] ∷ [])
        ≡ with_calls (spawning w) (rpc 129 [] ∷ rpc 52 [] ∷ [])
    both =
        ap (spawning_of w.session w.dialog) (append_assoc w.sent _ _)
        ∙ new_calls w.session w.dialog w.sent (rpc 129 [] ∷ rpc 52 [] ∷ [])

spawn_step-spawning :
    (now : ℕ) (s : SpawnStage) (w : World)
    → spawning (spawn_step now s w) ≡ advance now s (spawning w)
unfolding spawn_step request_class_call emit advance
spawn_step-spawning now idle w =
    ap (λ (v : Spawning). record v { stage = waiting_class; stage_ms = now; answered = false })
      (new_calls w.session w.dialog w.sent (rpc 128 (u32 0 ∷ []) ∷ []))
spawn_step-spawning now waiting_class w =
    if_cases (λ (v : World). spawning v ≡ advance now waiting_class (spawning w))
      w.spawn_info_received (λ e. rw e refl)
      λ e.
        if_cases (λ (v : World). spawning v ≡ advance now waiting_class (spawning w))
          (ltb 3000 (sub32 now w.spawn_stage_ms)) (λ l. rw (e, l) refl) (λ l. rw (e, l) refl)
spawn_step-spawning now ready w =
    ap (λ (v : Spawning). record v { spawned = true; stage = done }) (samp_spawn-spawning w)
spawn_step-spawning now done w = refl

pub auto_spawn-spawning :
    (now : ℕ) (w : World) → spawning (auto_spawn now w) ≡ step now (spawning w)
unfolding auto_spawn
auto_spawn-spawning now w =
    if_cases (λ (v : World). spawning v ≡ step now (spawning w)) (may_spawn w)
      (λ e. spawn_step-spawning now w.spawn_stage w ∙ sym (rw e refl)) (λ e. sym (rw e refl))

pub issue_connect-spawning : (w : World) → spawning (issue_connect w) ≡ spawning w
unfolding issue_connect emit
issue_connect-spawning w =
    if_cases (λ (v : World). spawning v ≡ spawning w)
      (w.connect_queued && not w.connection_requested)
      (λ e. other_call w.session w.dialog w.sent _ refl) (λ e. refl)

pub ask_scores-spawning :
    (test stamp : ℕ) (w : World) → spawning (ask_scores test stamp w) ≡ spawning w
unfolding ask_scores emit
ask_scores-spawning test stamp w =
    if_cases (λ (v : World). spawning v ≡ spawning w) (ltb 3000 (sub32 test w.last_scores_tick))
      (λ e. other_call w.session w.dialog w.sent _ refl) (λ e. refl)
