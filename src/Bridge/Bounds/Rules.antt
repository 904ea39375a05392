-- ===== src/Bridge/Bounds/Rules.antt =====
-- What the handlers of native/sampraknet_bridge.cpp are made of, and the player table.
use opensamp.Prelude.{ℕ, ◌<◌, ◌≡◌, true, not, ◌&&◌, [], Option, none, some, ltb, ◌==◌, arith}
use opensamp.Prelude.Bytes.{length-zero_first, length-strncpy}
use opensamp.World.{World, Ped, EngineCall, Line, call_engine, say, hang, set_ped, max_players}
use opensamp.World.Wire.{Vec, rpc}
use opensamp.Bridge.Reads.{reads_keep}
use opensamp.Bridge.Local.{with_ped, place_ped, samp_spawn}
use opensamp.Bridge.Bounds.{InBounds, set_player-Bounded, emit-Bounded, if-Bounded, in_table}

pub say-Bounded : (l : Line) (w : World) → InBounds w → InBounds (say l w)
unfolding say
say-Bounded l w h = h

pub call_engine-Bounded : (e : EngineCall) (w : World) → InBounds w → InBounds (call_engine e w)
unfolding call_engine
call_engine-Bounded e w h = h

pub hang-Bounded : (w : World) → InBounds w → InBounds (hang w)
unfolding hang
hang-Bounded w h = h

pub set_ped-Bounded : (f : Ped → Ped) (w : World) → InBounds w → InBounds (set_ped f w)
unfolding set_ped
set_ped-Bounded f w h = h

pub place_ped-Bounded : (at : Vec) (w : World) → InBounds w → InBounds (place_ped at w)
unfolding place_ped
place_ped-Bounded at w h = set_ped-Bounded _ w h

pub with_ped-Bounded :
    (f : World → World) (w : World)
    → ((v : World) → InBounds v → InBounds (f v))
    → InBounds w
    → InBounds (with_ped f w)
unfolding with_ped
with_ped-Bounded f w k h = present w.ped
  where
    present : (o : Option Ped) → InBounds (elim o [ none ↦ w | some q ↦ f w ])
    present none = h
    present (some q) = k w h

pub samp_spawn-Bounded : (w : World) → InBounds w → InBounds (samp_spawn w)
unfolding samp_spawn
samp_spawn-Bounded w h =
    set_ped-Bounded _ _
      (emit-Bounded (rpc 52 []) _ (emit-Bounded (rpc 129 []) _ (if-Bounded w.spawned w _ h h)))

-- The test of ScrSetPlayerName.
pub in_table_named :
    (id success : ℕ) → (not (success == 0) && ltb id max_players) ≡ true → id < max_players
in_table_named id success e = ground arith

pub ruleset bounds_rules = (
  reads_keep, set_player-Bounded, in_table, in_table_named, length-zero_first, length-strncpy,
  emit-Bounded, say-Bounded, call_engine-Bounded, hang-Bounded, set_ped-Bounded, if-Bounded,
  place_ped-Bounded, with_ped-Bounded, samp_spawn-Bounded,
)
