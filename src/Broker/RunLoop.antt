-- ===== src/Broker/RunLoop.antt =====
-- The run loop of internal/broker/broker.go: the commands that it executes one at a time, and the
-- turns that the pushers' goroutines and the subscribers take between them.
pub mod Subscribers
pub mod Inboxes
pub mod Closing
pub mod Ending
pub mod Ids
use claude_bridge.Base.{
  ℕ, zero, suc, Bool, Option, none, some, List, [], ◌∷◌, ◌++◌, ◌≡◌, refl, get_elem?,
}
use claude_bridge.Text.{Str}
use claude_bridge.Dict.{Dict}
use claude_bridge.Broker.Clock.{World}
use claude_bridge.Broker.Message.{Message, Event}
use claude_bridge.Broker.Pusher.{Pusher, Turn, run_turn, receive, stop_push}
use claude_bridge.Broker.State.{State, update}
use claude_bridge.Broker.Sessions.{register_session, touch, unregister_session, list_peers}
use claude_bridge.Broker.Messages.{send, broadcast, poll}
use claude_bridge.Broker.Subscriptions.{subscribe, cancel}
use claude_bridge.Broker.Reaping.{cleanup_tick}

pub data Command : Type 0 where
  registers : Str → Command
  touches : Str → Command
  unregisters : Str → Command
  lists_peers : Str → Command
  sends : Message → Command
  broadcasts : Str → Str → Command
  polls : Str → Command
  subscribes : Str → Command
  cancels : Str → ℕ → Command
  ticks : Command
  turns : ℕ → Turn → Command
  receives : ℕ → Command

-- The goroutine of a pusher takes a turn, if that turn is ready.
take_turn : Turn → Pusher → Pusher
take_turn t p = elim (run_turn t p) [ none ↦ p | some q ↦ q ]

-- A subscriber takes the oldest event off its channel, if there is one.
take_first : List Event → Pusher → Pusher
unfolding receive
take_first [] p = p
take_first (ev ∷ rest) p = receive p rest

take_event : Pusher → Pusher
unfolding take_first
take_event p = take_first p.out p

unfoldable pub exec : World → Command → State → State
unfolding take_turn take_event
exec w (registers project_path) st = (register_session w project_path st).0
exec w (touches id) st = touch w id st
exec w (unregisters id) st = unregister_session id st
exec w (lists_peers caller) st = (list_peers w caller st).0
exec w (sends msg) st = (send w msg st).0
exec w (broadcasts from content) st = (broadcast w from content st).0
exec w (polls id) st = (poll id st).0
exec w (subscribes id) st = (subscribe id st).0
exec w (cancels id a) st = cancel id a st
exec w ticks st = cleanup_tick w st
exec w (turns a t) st = record st { heap = update a (take_turn t) st.heap }
exec w (receives a) st = record st { heap = update a take_event st.heap }

unfoldable pub run : World → List Command → State → State
run w [] st = st
run w (c ∷ cs) st = run w cs (exec w c st)

pub run-append :
    (w : World) (xs ys : List Command) (st : State) → run w (xs ++ ys) st ≡ run w ys (run w xs st)
unfolding run
run-append w [] ys st = refl
run-append w (x ∷ xs) ys st = run-append w xs ys (exec w x st)

stop_all : Dict ℕ → List Pusher → List Pusher
stop_all [] heap = heap
stop_all ((id, a) ∷ ps) heap = stop_all ps (update a stop_push heap)

-- What the loop does last, when the broker is closed.
unfoldable pub shut_down : State → State
unfolding stop_all
shut_down st = record st { heap = stop_all st.pushers st.heap }

-- The laws of a loop: what every command keeps holds after any commands.
module _ (w : World) {P : State → Type 0}
    (step : (c : Command) (st : State) → P st → P (exec w c st)) where
  pub run_induction : (cs : List Command) (st : State) → P st → P (run w cs st)
  unfolding run
  run_induction [] st h = h
  run_induction (c ∷ cs) st h = run_induction cs (exec w c st) (step c st h)
