-- ===== src/Broker/RunLoop/Closing.antt =====
-- What the run loop leaves behind when the broker is closed.
use claude_bridge.Base.{
  ℕ, ◌≡◌, ◌≢◌, sym, ap, ◌∙◌, inl, inr, true, some, List, [], ◌∷◌, arith, Bool-cases, get_elem?,
}
use claude_bridge.Text.{Str, ◌==◌}
use claude_bridge.Dict.{Dict, lookup}
use claude_bridge.Broker.Clock.{World}
use claude_bridge.Broker.Config.{Config}
use claude_bridge.Broker.Pusher.{Pusher, stop_push}
use claude_bridge.Broker.State.{new, update}
use claude_bridge.Broker.Liveness.{lives, lives-stop, get_elem?-set}
use claude_bridge.Broker.RunLoop.{Command, run, stop_all, shut_down}
use claude_bridge.Broker.RunLoop.Subscribers.{run-IsManaged}

-- The pusher at this address is running and not told to stop.
abbrev pub IsAtWork : ℕ → List Pusher → Type 0
IsAtWork a heap = get_elem? (lives heap) a ≡ some true

stop-IsAtWork :
    (a b : ℕ) (heap : List Pusher)
    → IsAtWork a (update b stop_push heap)
    → (b ≢ a) × IsAtWork a heap
stop-IsAtWork a b heap h =
    get_elem?-set (lives heap) b a (ap (λ ls. get_elem? ls a) (sym (lives-stop b heap)) ∙ h)

-- What is at work after the loop was at work before.
stop_all-IsAtWork :
    (a : ℕ) (ps : Dict ℕ) (heap : List Pusher) → IsAtWork a (stop_all ps heap) → IsAtWork a heap
unfolding stop_all
stop_all-IsAtWork a [] heap h = h
stop_all-IsAtWork a ((id, b) ∷ ps) heap h =
    (stop-IsAtWork a b heap (stop_all-IsAtWork a ps (update b stop_push heap) h)).1

stop_all-lookup :
    (a : ℕ) (j : Str) (ps : Dict ℕ) (heap : List Pusher)
    → lookup j ps ≡ some a
    → ¬ IsAtWork a (stop_all ps heap)
unfolding stop_all lookup
stop_all-lookup a j [] heap e h = cc
stop_all-lookup a j ((id, b) ∷ ps) heap e h = elim (Bool-cases (id == j)) [
  | inl t ↦
      (stop-IsAtWork a b heap (stop_all-IsAtWork a ps (update b stop_push heap) h)).0 (ground arith)
  | inr f ↦ stop_all-lookup a j ps (update b stop_push heap) (ground arith) h
]

-- After any commands, when the broker is closed, no pusher is left that runs and is not told to stop.
pub run-shut_down :
    (w : World) (cfg : Config) (cs : List Command) (a : ℕ)
    → ¬ IsAtWork a (shut_down (run w cs (new cfg))).heap
unfolding shut_down
run-shut_down w cfg cs a h =
    let st = run w cs (new cfg) in
    let (id, found) = (run-IsManaged w cfg cs).known a (stop_all-IsAtWork a st.pushers st.heap h) in
    stop_all-lookup a id st.pushers st.heap found h
