-- ===== src/Bridge/Call.antt =====
-- RPCParameters of RakNet, and a handler applied to one in native/sampraknet_bridge.cpp.
use opensamp.Prelude.{ℕ, ◌+◌, ◌/◌, List, take, if◌then◌else◌}
use opensamp.Prelude.Action.{pure, gets, ◌>>=◌}
use opensamp.World.{World}
use opensamp.World.Wire.{Platform}
use opensamp.Bridge.Read.{Handler}

-- `input`, with the memory behind the parameters that the handler may still read, and
-- `numberOfBitsOfData`.
pub record Parameters : Type 0 where
  pub input : List ℕ
  pub bits : ℕ

module _ (p : Platform) where
  -- The stream over (bits / 8) + 1 bytes, which all handlers but one open.
  unfoldable pub on_call : Handler p Unit → Parameters → World → World
  on_call h c w = (h (w, p.open_stream (take (c.bits / 8 + 1) c.input))).1.0

  -- The stream of InitGame is rounded up, with no byte more.
  unfoldable pub on_exact_call : Handler p Unit → Parameters → World → World
  on_exact_call h c w = (h (w, p.open_stream (take ((c.bits + 7) / 8) c.input))).1.0

  -- `if (!iGameInited) return;`
  unfoldable pub when_inited : Handler p Unit → Handler p Unit
  when_inited h = do inited ← gets (λ w. w.game_inited); if inited then h else pure tt
