-- ===== src/Broker/Commands.antt =====
-- The channel of commands of internal/broker/broker.go: `do`, the loop that takes them, and `Close`.
pub mod Order
use claude_bridge.Base.{ℕ, ◌++◌, Bool, true, false, not, ◌&&◌, ◌||◌, List, [], ◌∷◌, ltb, length}
use claude_bridge.Broker.Clock.{World}
use claude_bridge.Broker.State.{State}
use claude_bridge.Broker.RunLoop.{Command, ticks, turns, receives, exec, shut_down}

abbrev pub cmd_buffer : ℕ
cmd_buffer = 64

-- The broker with the state of its loop. `returned` says whether the loop has returned.
pub record Broker : Type 0 where
  pub cmds : List Command
  pub done : Bool
  pub returned : Bool
  pub st : State

-- What the callers post: every command but the loop's own tick and the turns of other goroutines.
abbrev pub is_posted : Command → Bool
is_posted ticks = false
is_posted (turns a t) = false
is_posted (receives a) = false
is_posted _ = true

abbrev pub is_tick : Command → Bool
is_tick ticks = true
is_tick _ = false

-- What can happen: `do` puts a command in the channel or returns false, the loop takes a command, a
-- tick or a turn of a goroutine comes, `Close` is called, the loop sees that.
pub data Step : Type 0 where
  accepts : Command → Step
  refuses : Step
  takes : Step
  others : Command → Step
  closes : Step
  stops : Step

take_command : World → List Command → Broker → Broker
take_command w [] b = b
take_command w (c ∷ rest) b = record b { cmds = rest; st = exec w c b.st }

abbrev is_empty : List Command → Bool
is_empty [] = true
is_empty (c ∷ cs) = false

unfoldable pub step : World → Step → Broker → Broker
unfolding take_command
step w (accepts c) b = record b { cmds = b.cmds ++ c ∷ [] }
step w refuses b = b
step w takes b = take_command w b.cmds b
step w (others c) b = record b { st = exec w c b.st }
step w closes b = record b { done = true }
step w stops b = record b { returned = true; st = shut_down b.st }

-- When it can. The select of `do` may take either case where both are ready, and so may the loop's.
unfoldable pub can_step : Step → Broker → Bool
can_step (accepts c) b = is_posted c && ltb (length b.cmds) cmd_buffer
can_step refuses b = b.done
can_step takes b = not b.returned && not (is_empty b.cmds)
can_step (others c) b = not (is_posted c) && (not (is_tick c) || not b.returned)
can_step closes b = true
can_step stops b = b.done && not b.returned

-- A broker whose loop has just begun.
abbrev pub begun : State → Broker
begun st = record { cmds = []; done = false; returned = false; st = st }
