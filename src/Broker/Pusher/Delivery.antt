-- ===== src/Broker/Pusher/Delivery.antt =====
-- What a subscriber receives.
use mathlib.Core.List.{append-nil, append_assoc, Sublist, sublist-append_left}
use mathlib.Core.List.Sublist
use claude_bridge.Base.{
  ℕ, ◌≡◌, refl, sym, ap, subst, ◌∙◌, inl, inr, Bool, true, false, not, ◌&&◌, if◌then◌else◌, Option,
  none, some, List, [], ◌∷◌, ◌++◌, ltb, length, Bool-cases,
}
use claude_bridge.Broker.Config.{Resolved}
use claude_bridge.Broker.Message.{Event, blocking_event}
use claude_bridge.Broker.Pusher.{
  Phase, selecting, forwarding, closed, Pusher, Turn, take_stop, take_mail, send, give_up,
  new_pusher, enqueue, stop_push, run_turn, receive, sub_chan_buffer,
}

abbrev pub in_flight : Phase → List Event
in_flight selecting = []
in_flight (forwarding ev) = ev ∷ []
in_flight closed = []

-- The events on their way, next one first.
abbrev pending : Pusher → List Event
pending p = p.out ++ in_flight p.phase ++ p.mailbox

-- The histories of a pusher: what the run loop offered it, and what the subscriber received.
pub data History (cfg : Resolved) : Pusher → List Event → List Event → Type 0 where
  created : History cfg (new_pusher cfg) [] []
  offered :
      {p : Pusher} {offers gets : List Event} (ev : Event)
      → History cfg p offers gets
      → History cfg (enqueue p ev) (offers ++ ev ∷ []) gets
  stopped :
      {p : Pusher} {offers gets : List Event}
      → History cfg p offers gets
      → History cfg (stop_push p) offers gets
  turned :
      {p q : Pusher} {offers gets : List Event} (t : Turn)
      → History cfg p offers gets
      → run_turn t p ≡ some q
      → History cfg q offers gets
  received :
      {p : Pusher} {offers gets : List Event} (ev : Event) (rest : List Event)
      → History cfg p offers gets
      → p.out ≡ ev ∷ rest
      → History cfg (receive p rest) offers (gets ++ ev ∷ [])

abbrev Reaches : Option Pusher → List Event → Type 0
Reaches o events = (q : Pusher) → o ≡ some q → Sublist (pending q) events

Reaches-some :
    (r : Pusher) (events : List Event) → Sublist (pending r) events → Reaches (some r) events
Reaches-some r events h q e = let e' : r ≡ q = cc in subst (λ x. Sublist (pending x) events) e' h

Reaches-none : (events : List Event) → Reaches none events
Reaches-none events q e = cc

Reaches-if :
    (b : Bool) (o : Option Pusher) (events : List Event)
    → Reaches o events
    → Reaches (if b then o else none) events × Reaches (if b then none else o) events
Reaches-if true o events h = (h, Reaches-none events)
Reaches-if false o events h = (Reaches-none events, h)

same : (xs ys : List Event) → xs ≡ ys → Sublist xs ys
same xs ys e = subst (Sublist xs) e (Sublist.refl xs)

turn-Reaches :
    (t : Turn) (ph : Phase) (box out : List Event) (cap : ℕ) (st : Bool)
    → Reaches
        (run_turn t (record { mailbox = box; mailbox_cap = cap; out = out; stop = st; phase = ph }))
        (out ++ in_flight ph ++ box)
unfolding run_turn
turn-Reaches take_stop selecting box out cap st =
    (Reaches-if st _ _ (Reaches-some _ _ (Sublist.refl _))).0
turn-Reaches take_mail selecting (ev ∷ rest) out cap st = Reaches-some _ _ (
    same _ _ (
      append_assoc out (ev ∷ []) rest
      ∙ ap (λ (xs : List Event). xs ++ ev ∷ rest) (sym (append-nil out))))
turn-Reaches send (forwarding ev) box out cap st =
    (Reaches-if (ltb (length out) sub_chan_buffer) _ _ (
      Reaches-some _ _
        (same _ _ (ap (λ (xs : List Event). xs ++ box) (append-nil (out ++ ev ∷ [])))))).0
turn-Reaches give_up (forwarding ev) box out cap st =
    (Reaches-if (not (blocking_event ev) && ltb (length out) sub_chan_buffer) _ _ (
      Reaches-some _ _ (
        Sublist.append (Sublist.append (Sublist.refl out) (sublist-append_left [] (ev ∷ [])))
          (Sublist.refl box)))).1
turn-Reaches _ _ _ _ _ _ = Reaches-none _

enqueue-pending :
    (p : Pusher) (ev : Event) → Sublist (pending (enqueue p ev)) (pending p ++ ev ∷ [])
unfolding enqueue
enqueue-pending p ev = elim (Bool-cases (ltb (length p.mailbox) p.mailbox_cap)) [
  | inl e ↦ rw e (same _ _ (sym (append_assoc (p.out ++ in_flight p.phase) p.mailbox (ev ∷ []))))
  | inr e ↦ rw e (sublist-append_left (pending p) (ev ∷ []))
]

stop_push-pending : (p : Pusher) → pending (stop_push p) ≡ pending p
unfolding stop_push
stop_push-pending p = refl

receive-pending :
    (p : Pusher) (ev : Event) (rest gets : List Event)
    → p.out ≡ ev ∷ rest
    → (gets ++ ev ∷ []) ++ pending (receive p rest) ≡ gets ++ pending p
unfolding receive
receive-pending p ev rest gets e =
    append_assoc gets (ev ∷ []) _
    ∙ ap (λ (xs : List Event). gets ++ (xs ++ in_flight p.phase ++ p.mailbox)) (sym e)

-- What a subscriber has received, followed by what is on its way, is a part of what the run loop
-- offered, in the same order and with nothing twice: events may be dropped, and nothing else.
pub received-sublist :
    {cfg : Resolved} {p : Pusher} {offers gets : List Event}
    → History cfg p offers gets
    → Sublist (gets ++ (p.out ++ in_flight p.phase ++ p.mailbox)) offers
received-sublist created = unfold new_pusher in Sublist.refl []
received-sublist (offered {p} {offers} {gets} ev h) =
    Sublist.trans (Sublist.append (Sublist.refl gets) (enqueue-pending p ev)) (
      subst (λ xs. Sublist xs (offers ++ ev ∷ [])) (append_assoc gets (pending p) (ev ∷ []))
        (Sublist.append (received-sublist h) (Sublist.refl (ev ∷ []))))
received-sublist (stopped {p} {offers} {gets} h) =
    subst (λ xs. Sublist (gets ++ xs) offers) (sym (stop_push-pending p)) (received-sublist h)
received-sublist (turned {p} {q} {offers} {gets} t h e) =
    Sublist.trans
      (Sublist.append (Sublist.refl gets)
        (turn-Reaches t p.phase p.mailbox p.out p.mailbox_cap p.stop q e))
      (received-sublist h)
received-sublist (received {p} {offers} {gets} ev rest h e) =
    subst (λ xs. Sublist xs offers) (sym (receive-pending p ev rest gets e)) (received-sublist h)
