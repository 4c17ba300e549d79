-- ===== src/Examples/Commands.antt =====
-- The theorems on the broker's channel of commands.
use claude_bridge.Base.{refl, false, [], ◌∷◌}
use claude_bridge.Broker.Sessions.{touch}
use claude_bridge.Broker.RunLoop.{Command, touches, exec}
use claude_bridge.Broker.Commands.{Broker, step, can_step}
use claude_bridge.Broker.Commands.Order.{begins, accepted, taken, IsOrdered, Reached-IsOrdered}
use claude_bridge.Examples.{world, scene, api, web}

abbrev asked : Command
asked = touches api

-- Two commands are accepted, and the loop has executed the first.
abbrev busy : Broker
busy = record {
  cmds = touches web ∷ [];
  done = false;
  returned = false;
  st = touch world api scene;
}

Reached-IsOrdered_example : IsOrdered world scene busy (asked ∷ touches web ∷ []) (asked ∷ [])
unfolding step can_step exec
Reached-IsOrdered_example = Reached-IsOrdered (
    taken asked (touches web ∷ []) (accepted (touches web) (accepted asked begins refl) refl) refl
      refl)
