-- ===== src/Broker/Subscriptions.antt =====
-- `Subscribe` and the cancel function that it returns, in internal/broker/broker.go.
use claude_bridge.Base.{ℕ, Option, none, some, List, [], ◌∷◌, ◌++◌, length, nat_eq, if◌then◌else◌}
use claude_bridge.Text.{Str}
use claude_bridge.Dict.{lookup, insert}
use claude_bridge.Broker.Pusher.{Pusher, new_pusher, stop_push}
use claude_bridge.Broker.State.{State, update, drop_pusher}

-- The old pusher of the session, if any, is told to stop.
unfoldable pub stop_old : Option ℕ → List Pusher → List Pusher
stop_old none heap = heap
stop_old (some a) heap = update a stop_push heap

-- The result is the address of the new pusher, which stands for its channel.
unfoldable pub subscribe : Str → State → State × ℕ
unfolding stop_old
subscribe id st =
    let a = length st.heap in
    let heap = stop_old (lookup id st.pushers) st.heap ++ new_pusher st.cfg ∷ [] in
    (record st { heap = heap; pushers = insert id a st.pushers }, a)

-- The cancel function of the subscription with the pusher at `a`.
unfoldable pub cancel : Str → ℕ → State → State
unfolding drop_pusher
cancel id a st = elim (lookup id st.pushers) [
  | none ↦ st
  | some cur ↦ if nat_eq cur a then drop_pusher st id else st
]
