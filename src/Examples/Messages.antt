-- ===== src/Examples/Messages.antt =====
-- The theorems on messages at the scene.
use claude_bridge.Base.{ℕ, ◌≡◌, refl, [], ◌∷◌, ◌++◌, arith, some, List, length, ◌+◌, keep_last}
use claude_bridge.Text.{text, ◌==◌, ≢-eq_false}
use claude_bridge.Dict.{lookup, keys_at}
use claude_bridge.Broker.Clock.{since}
use claude_bridge.Broker.Config.{with_defaults}
use claude_bridge.Broker.Message.{Message}
use claude_bridge.Broker.Bucket.{take, refilled}
use claude_bridge.Broker.State.{SessEntry}
use claude_bridge.Broker.Messages.{ok, send, broadcast, poll}
use claude_bridge.Broker.Messages.Sending.{send-Inboxed, stamped}
use claude_bridge.Broker.Messages.Polling.{send_all, polled, given, message_ids, poll-send_all}
use claude_bridge.Broker.Messages.Broadcasting.{Delivered, broadcast_granted}
use claude_bridge.Examples.{world, scene, plain, api, web, api_entry, web_entry}

abbrev question : Message
question = plain web api (text "ready?")

send-Inboxed_example :
    ((send world question scene).1 ≡ ok (stamped world scene question).id)
    × (lookup api (send world question scene).0.sessions
        ≡ some (record api_entry {
          inbox = keep_last 2 (api_entry.inbox ++ stamped world scene question ∷ []);
        }))
unfolding lookup with_defaults ◌==◌
send-Inboxed_example =
    send-Inboxed world question scene api_entry api refl refl (omega arith) (omega arith)

abbrev questions : List Message
questions = question ∷ question ∷ question ∷ []

-- Three messages to an inbox of two places that holds one.
poll-send_all_example :
    let (st, ids) = send_all world questions scene in
    (length ids ≡ 3)
    × (message_ids (polled (poll api st).1) ≡ keep_last 2 ([] ∷ ids))
    × (given (polled (poll api st).1) ≡ keep_last 2 (given (api_entry.inbox ++ questions)))
    × ((poll api (poll api st).0).1 ≡ ok [])
unfolding lookup ◌==◌ with_defaults
poll-send_all_example =
    poll-send_all world api questions scene api_entry
      ((refl, refl), ((refl, refl), ((refl, refl), tt))) refl (omega arith) (omega arith)

broadcast_granted_example :
    ((n : ℕ) × ((broadcast world api (text "deploying") scene).1 ≡ ok n) × (n + 1 ≡ 2))
    × ((e : SessEntry) × (lookup web (broadcast world api (text "deploying") scene).0.sessions
          ≡ some e)
        × Delivered api (text "deploying") web 2 web_entry e)
unfolding lookup ◌==◌ with_defaults take refilled since keys_at
broadcast_granted_example =
    broadcast_granted world api (text "deploying") scene api_entry web web_entry
      ((refl, (refl, tt))) refl refl (≢-eq_false web api refl) refl
