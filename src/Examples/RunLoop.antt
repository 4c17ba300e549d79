-- ===== src/Examples/RunLoop.antt =====
-- The theorems on all commands, at a day of two sessions.
use claude_bridge.Base.{List, [], ◌∷◌}
use claude_bridge.Text.{Str, text}
use claude_bridge.Broker.Config.{with_defaults}
use claude_bridge.Broker.Pusher.{take_mail, send}
use claude_bridge.Broker.State.{new}
use claude_bridge.Broker.RunLoop.{
  Command, registers, touches, subscribes, sends, broadcasts, polls, ticks, turns, receives,
  unregisters, run,
}
use claude_bridge.Broker.RunLoop.Subscribers.{IsManagedState, run-IsManaged}
use claude_bridge.Broker.RunLoop.Inboxes.{run-IsSound}
use claude_bridge.Broker.Soundness.{IsSoundState}
use claude_bridge.Examples.{world, config, plain}

-- The identifiers that the two registrations return.
abbrev first : Str
first = text "id0"

abbrev second_id : Str
second_id = text "id1"

abbrev day : List Command
day =
    registers (text "/srv/api")
    ∷ registers (text "/srv/web")
    ∷ subscribes first
    ∷ sends (plain second_id first (text "ready?"))
    ∷ broadcasts first (text "deploying")
    ∷ turns 0 take_mail
    ∷ turns 0 send
    ∷ receives 0
    ∷ polls second_id
    ∷ subscribes first
    ∷ touches first
    ∷ ticks
    ∷ unregisters first
    ∷ []

run-IsManaged_example : IsManagedState (run world day (new config))
run-IsManaged_example = run-IsManaged world config day

run-IsSound_example : IsSoundState (with_defaults config) (run world day (new config))
run-IsSound_example = run-IsSound world config day
