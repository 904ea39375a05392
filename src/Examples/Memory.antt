-- ===== src/Examples/Memory.antt =====
-- The theorems on the player table of native/sampraknet_bridge.cpp at concrete inputs.
use opensamp.Prelude.{List, refl, [], ◌∷◌, arith}
use opensamp.Bridge.Bounds.{InBounds}
use opensamp.Bridge.Bounds.Network.{update_network-Bounded}
use opensamp.Bridge.Dispatch.{Event, packet, call, packet_id, update_network}
use opensamp.Examples.{quiet, joined}

joined-InBounds : InBounds joined
joined-InBounds = record { inside = refl; names = λ i. refl }

abbrev events : List Event
events =
    packet (207 ∷ 5 ∷ 0 ∷ [])
    ∷ call 137 (record { input = 5 ∷ 0 ∷ []; bits = 16 })
    ∷ call 155 (record { input = 5 ∷ 0 ∷ []; bits = 144 })
    ∷ call 11 (record { input = []; bits = 0 })
    ∷ packet (40 ∷ [])
    ∷ []

update_network-Bounded_example : InBounds (update_network quiet 5000 5000 events joined)
unfolding packet_id
update_network-Bounded_example =
    update_network-Bounded quiet 5000 5000 events joined
      (cc, (omega arith, (omega arith, (omega arith, (cc, tt))))) joined-InBounds
