-- ===== src/Broker/Liveness.antt =====
-- Which pushers of the heap are at work, and how the helpers of the run loop change that.
use claude_bridge.Base.{
  ℕ, zero, suc, ◌<◌, ◌≡◌, ◌≢◌, refl, ap, ◌∙◌, ◌⊎◌, inl, inr, Bool, true, false, not, ◌&&◌, some,
  List, [], ◌∷◌, ◌++◌, map, arith, length, get_elem?, Bool-cases,
}
use claude_bridge.Text.{Str, ◌==◌}
use claude_bridge.Dict.{Dict}
use claude_bridge.Broker.Config.{Resolved}
use claude_bridge.Broker.Message.{Event}
use claude_bridge.Broker.Pusher.{
  Phase, selecting, forwarding, closed, Pusher, Turn, take_stop, new_pusher, enqueue, stop_push,
  run_turn, receive,
}
use claude_bridge.Broker.State.{update, notify_heap}

is_open : Phase → Bool
is_open selecting = true
is_open (forwarding ev) = true
is_open closed = false

-- The goroutine runs and has not been told to stop.
unfoldable pub is_live : Pusher → Bool
unfolding is_open
is_live p = not p.stop && is_open p.phase

unfoldable pub lives : List Pusher → List Bool
lives heap = map is_live heap

pub new_pusher-is_live : (cfg : Resolved) → is_live (new_pusher cfg) ≡ true
unfolding is_live new_pusher
new_pusher-is_live cfg = refl

-- A subscriber's receipt leaves the goroutine alone.
pub receive-is_live : (p : Pusher) (rest : List Event) → is_live (receive p rest) ≡ is_live p
unfolding is_live receive
receive-is_live p rest = refl

-- `xs[i] = x`, where `i` is in range.
abbrev pub set {ℓ} : {A : Type ℓ} → List A → ℕ → A → List A
set [] i x = []
set (y ∷ ys) zero x = x ∷ ys
set (y ∷ ys) (suc i) x = y ∷ set ys i x

pub lives-update :
    (a : ℕ) (f : Pusher → Pusher) (heap : List Pusher)
    → ((p : Pusher) → is_live (f p) ≡ is_live p)
    → lives (update a f heap) ≡ lives heap
unfolding update lives
lives-update a f [] h = refl
lives-update zero f (p ∷ ps) h = cc (h p)
lives-update (suc a) f (p ∷ ps) h = cc (lives-update a f ps h)

pub lives-stop :
    (a : ℕ) (heap : List Pusher) → lives (update a stop_push heap) ≡ set (lives heap) a false
unfolding update lives stop_push is_live
lives-stop a [] = refl
lives-stop zero (p ∷ ps) = refl
lives-stop (suc a) (p ∷ ps) = cc (lives-stop a ps)

pub enqueue-is_live : (ev : Event) (p : Pusher) → is_live (enqueue p ev) ≡ is_live p
unfolding enqueue is_live
enqueue-is_live ev p = ground arith

pub turn-is_live : (t : Turn) (p q : Pusher) → run_turn t p ≡ some q → is_live q ≡ is_live p
unfolding run_turn is_live
turn-is_live take_stop p q e = ground arith
turn-is_live _ p q e = ground arith

pub lives-notify :
    (id : Str) (ev : Event) (ps : Dict ℕ) (heap : List Pusher)
    → lives (notify_heap id ev ps heap) ≡ lives heap
unfolding notify_heap
lives-notify id ev [] heap = refl
lives-notify id ev ((j, a) ∷ ps) heap = elim (Bool-cases (j == id)) [
  | inl e ↦ rw e (lives-notify id ev ps heap)
  | inr e ↦
      rw e (lives-notify id ev ps _ ∙ lives-update a (λ p. enqueue p ev) heap (enqueue-is_live ev))
]

pub lives-append :
    (heap : List Pusher) (p : Pusher) → lives (heap ++ p ∷ []) ≡ lives heap ++ is_live p ∷ []
unfolding lives
lives-append [] p = refl
lives-append (q ∷ heap) p = cc (lives-append heap p)

pub length-lives : (heap : List Pusher) → length (lives heap) ≡ length heap
unfolding lives
length-lives [] = refl
length-lives (q ∷ heap) = cc (length-lives heap)

pub get_elem?-set :
    (ls : List Bool) (a b : ℕ)
    → get_elem? (set ls a false) b ≡ some true
    → (a ≢ b) × (get_elem? ls b ≡ some true)
get_elem?-set [] a b h = cc
get_elem?-set (l ∷ ls) zero zero h = cc
get_elem?-set (l ∷ ls) zero (suc b) h = (λ e. absurd (omega arith), h)
get_elem?-set (l ∷ ls) (suc a) zero h = (λ e. absurd (omega arith), h)
get_elem?-set (l ∷ ls) (suc a) (suc b) h =
    let r = get_elem?-set ls a b h in ((λ e. r.0 (omega arith)), r.1)

pub get_elem?-set_ne :
    (ls : List Bool) (a b : ℕ) (x : Bool) → a ≢ b → get_elem? (set ls a x) b ≡ get_elem? ls b
get_elem?-set_ne [] a b x h = refl
get_elem?-set_ne (l ∷ ls) zero zero x h = absurd (h refl)
get_elem?-set_ne (l ∷ ls) zero (suc b) x h = refl
get_elem?-set_ne (l ∷ ls) (suc a) zero x h = refl
get_elem?-set_ne (l ∷ ls) (suc a) (suc b) x h = get_elem?-set_ne ls a b x (λ e. h (ap suc e))

pub get_elem?-append_some :
    (ls : List Bool) (b : Bool) (a : ℕ) {x : Bool}
    → get_elem? ls a ≡ some x
    → get_elem? (ls ++ b ∷ []) a ≡ some x
get_elem?-append_some [] b a h = cc
get_elem?-append_some (l ∷ ls) b zero h = h
get_elem?-append_some (l ∷ ls) b (suc a) h = get_elem?-append_some ls b a h

pub get_elem?-append_last :
    (ls : List Bool) (b : Bool) → get_elem? (ls ++ b ∷ []) (length ls) ≡ some b
get_elem?-append_last [] b = refl
get_elem?-append_last (l ∷ ls) b = get_elem?-append_last ls b

pub get_elem?-append_inv :
    (ls : List Bool) (b : Bool) (a : ℕ) {x : Bool}
    → get_elem? (ls ++ b ∷ []) a ≡ some x
    → (get_elem? ls a ≡ some x) ⊎ (a ≡ length ls)
get_elem?-append_inv [] b zero h = inr refl
get_elem?-append_inv [] b (suc a) h = cc
get_elem?-append_inv (l ∷ ls) b zero h = inl h
get_elem?-append_inv (l ∷ ls) b (suc a) h = elim (get_elem?-append_inv ls b a h) [
  | inl e ↦ inl e
  | inr e ↦ inr (ap suc e)
]

pub get_elem?-lt : (ls : List Bool) (a : ℕ) {x : Bool} → get_elem? ls a ≡ some x → a < length ls
get_elem?-lt [] a h = cc
get_elem?-lt (l ∷ ls) zero h = omega arith
get_elem?-lt (l ∷ ls) (suc a) h = omega (arith, get_elem?-lt ls a h)

pub length-update :
    (a : ℕ) (f : Pusher → Pusher) (heap : List Pusher) → length (update a f heap) ≡ length heap
unfolding update
length-update a f [] = refl
length-update zero f (p ∷ ps) = refl
length-update (suc a) f (p ∷ ps) = ap suc (length-update a f ps)
