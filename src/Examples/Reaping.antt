-- ===== src/Examples/Reaping.antt =====
-- The theorems on the cleanup and on closing.
use claude_bridge.Base.{◌≡◌, ◌*◌, refl, some, ◌++◌, [], ◌∷◌}
use claude_bridge.Text.{text, ◌==◌}
use claude_bridge.Dict.{lookup, keys_at}
use claude_bridge.Broker.Clock.{second}
use claude_bridge.Broker.Config.{with_defaults}
use claude_bridge.Broker.State.{SessEntry, State, new}
use claude_bridge.Broker.Message.{Message}
use claude_bridge.Base.Int.{pos}
use claude_bridge.Broker.Reaping.{reap}
use claude_bridge.Broker.Reaping.Survivors.{reap-survivors}
use claude_bridge.Broker.RunLoop.{registers, subscribes, run, shut_down}
use claude_bridge.Broker.RunLoop.Closing.{IsAtWork, run-shut_down}
use claude_bridge.Examples.{world, config, scene, plain, api, web, api_entry, web_entry}

-- `api` has also a message that was made at the 300th second and is good for 200.
abbrev fresh : Message
fresh = record (plain web api (text "later")) {
  created_at = 300 * second;
  ttl = pos (200 * second);
}

abbrev both_entry : SessEntry
both_entry = record api_entry { inbox = api_entry.inbox ++ fresh ∷ [] }

abbrev full : State
full = record scene { sessions = (api, both_entry) ∷ (web, web_entry) ∷ [] }

-- At the 400th second the older message goes.
reap-survivors_example :
    lookup api (reap (400 * second) full).sessions ≡ some (record api_entry { inbox = fresh ∷ [] })
unfolding lookup ◌==◌ keys_at with_defaults
reap-survivors_example = reap-survivors (400 * second) api full (refl, (refl, tt))

run-shut_down_example :
    ¬ IsAtWork 0
      (shut_down
        (run world (registers (text "/srv/api") ∷ subscribes (text "id0") ∷ []) (new config))).heap
run-shut_down_example =
    run-shut_down world config (registers (text "/srv/api") ∷ subscribes (text "id0") ∷ []) 0
