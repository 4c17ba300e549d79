-- ===== src/Broker/Commands/Order.antt =====
-- In which order commands are executed, and which never are.
use mathlib.Core.List.{append-nil, append_assoc}
use claude_bridge.Base.{
  ◌≡◌, ◌≤◌, ◌⊎◌, refl, sym, ap, ◌∙◌, inl, inr, Bool, true, false, List, [], ◌∷◌, ◌++◌, arith,
  length, length-append, All, All-append, if◌then◌else◌, Bool-cases,
}
use claude_bridge.Broker.Clock.{World}
use claude_bridge.Broker.State.{State}
use claude_bridge.Broker.RunLoop.{Command, exec, run, run-append}
use claude_bridge.Broker.Commands.{
  cmd_buffer, Broker, is_posted, accepts, refuses, takes, others, closes, stops, take_command, step,
  can_step, begun,
}

-- The posted commands among those that were executed.
pub posted : List Command → List Command
posted [] = []
posted (c ∷ cs) = let rest = posted cs in if is_posted c then c ∷ rest else rest

posted-append : (xs ys : List Command) → posted (xs ++ ys) ≡ posted xs ++ posted ys
unfolding posted
posted-append [] ys = refl
posted-append (c ∷ cs) ys = ground (arith, posted-append cs ys)

-- The brokers that can be reached from a state, with the commands that `do` has accepted, and those
-- executed before the loop returned: the posted ones, ticks and turns.
pub data Reached (w : World) (st : State) : Broker → List Command → List Command → Type 0 where
  begins : Reached w st (begun st) [] []
  accepted :
      {b : Broker} {all log : List Command} (c : Command)
      → Reached w st b all log
      → can_step (accepts c) b ≡ true
      → Reached w st (step w (accepts c) b) (all ++ c ∷ []) log
  refused :
      {b : Broker} {all log : List Command}
      → Reached w st b all log
      → can_step refuses b ≡ true
      → Reached w st (step w refuses b) all log
  taken :
      {b : Broker} {all log : List Command} (c : Command) (rest : List Command)
      → Reached w st b all log
      → b.cmds ≡ c ∷ rest
      → can_step takes b ≡ true
      → Reached w st (step w takes b) all (log ++ c ∷ [])
  other :
      {b : Broker} {all log : List Command} (c : Command)
      → Reached w st b all log
      → can_step (others c) b ≡ true
      → Reached w st (step w (others c) b) all (if b.returned then log else log ++ c ∷ [])
  closed :
      {b : Broker} {all log : List Command}
      → Reached w st b all log
      → Reached w st (step w closes b) all log
  stopped :
      {b : Broker} {all log : List Command}
      → Reached w st b all log
      → can_step stops b ≡ true
      → Reached w st (step w stops b) all log

pub record IsOrdered (w : World) (st : State) (b : Broker) (all log : List Command) : Type 0 where
  pub queued : all ≡ posted log ++ b.cmds
  pub bounded : length b.cmds ≤ cmd_buffer
  pub sequential : (b.returned ≡ true) ⊎ (b.st ≡ run w log st)
  pub told : (b.returned ≡ false) ⊎ (b.done ≡ true)
  pub plain : All (λ c. is_posted c ≡ true) b.cmds

posted-taken :
    (log rest : List Command) (c : Command)
    → is_posted c ≡ true
    → posted log ++ c ∷ rest ≡ posted (log ++ c ∷ []) ++ rest
unfolding posted
posted-taken log rest c h =
    let one : posted (c ∷ []) ≡ c ∷ [] = rw h refl in
    sym (append_assoc (posted log) (c ∷ []) rest)
    ∙ ap (λ xs. (posted log ++ xs) ++ rest) (sym one)
    ∙ ap (λ xs. xs ++ rest) (sym (posted-append log (c ∷ [])))

posted-other :
    (log : List Command) (c : Command) → is_posted c ≡ false → posted log ≡ posted (log ++ c ∷ [])
unfolding posted
posted-other log c h =
    let none_more : posted (c ∷ []) ≡ [] = rw h refl in
    sym (append-nil (posted log))
    ∙ ap (λ xs. posted log ++ xs) (sym none_more)
    ∙ sym (posted-append log (c ∷ []))

run-exec :
    (w : World) (st now : State) (log : List Command) (c : Command) (gone : Bool)
    → (gone ≡ true) ⊎ (now ≡ run w log st)
    → (gone ≡ true) ⊎ (exec w c now ≡ run w (log ++ c ∷ []) st)
unfolding run
run-exec w st now log c gone (inl g) = inl g
run-exec w st now log c gone (inr e) = inr (ap (exec w c) e ∙ sym (run-append w log (c ∷ []) st))

-- As long as the loop runs, the broker's state is that of its commands executed one after another.
-- Those that were posted are executed in the order in which they were accepted, and those not yet
-- executed wait in the channel, which never holds more than its buffer. The loop returns only after
-- Close, and what it has not executed by then stays in the channel.
pub Reached-IsOrdered :
    {w : World} {st : State} {b : Broker} {all log : List Command}
    → Reached w st b all log
    → IsOrdered w st b all log
unfolding step can_step take_command
Reached-IsOrdered begins = record {
  queued = unfold posted in refl;
  bounded = omega arith;
  sequential = inr (unfold run in refl);
  told = inl refl;
  plain = tt;
}
Reached-IsOrdered (accepted {b} {all} {log} c r ok) =
    let i = Reached-IsOrdered r in
    record {
      queued = ap (λ xs. xs ++ c ∷ []) i.queued ∙ append_assoc (posted log) b.cmds (c ∷ []);
      bounded = ground (arith, i.bounded, length-append b.cmds (c ∷ []));
      sequential = i.sequential;
      told = i.told;
      plain = All-append (λ d. is_posted d ≡ true) b.cmds (c ∷ []) i.plain (ground arith, tt);
    }
Reached-IsOrdered (refused r ok) =
    let i = Reached-IsOrdered r in
    record {
      queued = i.queued;
      bounded = i.bounded;
      sequential = i.sequential;
      told = i.told;
      plain = i.plain;
    }
Reached-IsOrdered {w} {st} (taken {b} {all} {log} c rest r here ok) =
    let i = Reached-IsOrdered r in
    let plain = rw here at (i.plain) in
    rw here (record {
      queued = i.queued ∙ ap (λ xs. posted log ++ xs) here ∙ posted-taken log rest c plain.0;
      bounded = ground (arith, i.bounded, here);
      sequential = run-exec w st b.st log c b.returned i.sequential;
      told = i.told;
      plain = plain.1;
    })
Reached-IsOrdered {w} {st} (other {b} {all} {log} c r ok) =
    let i = Reached-IsOrdered r in
    elim (Bool-cases b.returned) [
      | inl gone ↦ rw gone (record {
        queued = i.queued;
        bounded = i.bounded;
        sequential = inl refl;
        told = ground (arith, i.told, gone);
        plain = i.plain;
      })
      | inr alive ↦ rw alive (record {
        queued = i.queued ∙ ap (λ xs. xs ++ b.cmds) (posted-other log c (ground (arith, ok)));
        bounded = i.bounded;
        sequential = rw alive at (run-exec w st b.st log c b.returned i.sequential);
        told = inl refl;
        plain = i.plain;
      })
    ]
Reached-IsOrdered (closed r) =
    let i = Reached-IsOrdered r in
    record {
      queued = i.queued;
      bounded = i.bounded;
      sequential = i.sequential;
      told = inr refl;
      plain = i.plain;
    }
Reached-IsOrdered (stopped r ok) =
    let i = Reached-IsOrdered r in
    record {
      queued = i.queued;
      bounded = i.bounded;
      sequential = inl refl;
      told = ground (arith, ok);
      plain = i.plain;
    }
