-- ===== src/Mcp/Channel/Forwarding.antt =====
-- What the shim's output shows of the events that it forwards.
use mathlib.Core.List.{append-nil, append_assoc}
use claude_bridge.Base.{
  ℕ, ◌-◌, ◌≡◌, ◌↔◌, refl, sym, ap, ◌∙◌, inl, inr, true, false, none, some, List, [], ◌∷◌, ◌++◌,
  arith, leb, length, take, take-append, take-length_le, take-append_le, ◌≤◌, ◌<◌, All, map,
  Option-cases,
}
use claude_bridge.Text.{Str}
use claude_bridge.Text.Lines.{newline, written_lines, scan, IsLine, scan-written_lines}
use claude_bridge.Broker.Message.{Message}
use claude_bridge.Rpc.Frame.{Writer, write}
use claude_bridge.Mcp.Json.{Json}
use claude_bridge.Mcp.Codec.{Codec}
use claude_bridge.Mcp.Server.{write_raw}
use claude_bridge.Mcp.Channel.{
  Pick, done, closed, event, message_payload, message_frame, event_notification, forward_events,
}

-- The messages among the events that were taken before the channel closed or the shim stopped.
unfoldable pub messages : Codec → List Pick → List Message
messages k [] = []
messages k (done ∷ picks) = []
messages k (closed ∷ picks) = []
messages k (event ev ∷ picks) =
    let later = messages k picks in
    elim (message_payload k ev) [ none ↦ later | some m ↦ m ∷ later ]

-- The line of a message's frame, where it has JSON.
unfoldable pub lines : (Json → Str) → List Message → Str
lines encode [] = []
lines encode (m ∷ ms) = (encode (message_frame m) ++ newline ∷ []) ++ lines encode ms

write_raw-take :
    (k : Codec) (encode : Json → Str) (v : Json) (out : Writer)
    → k.marshal v ≡ inr (encode v)
    → let line = encode v ++ newline ∷ [] in
      ((write_raw k v out).0.written ≡ out.written ++ take out.room line)
      × ((write_raw k v out).0.room ≡ out.room - length line)
      × (((write_raw k v out).1 ≡ none) ↔ (leb (length line) out.room ≡ true))
unfolding write_raw write
write_raw-take k encode v out e = rw (e, write_raw) (refl, refl, ground arith)

written_more :
    (out : Writer) (line rest : Str)
    → length line ≤ out.room
    → (out.written ++ take out.room line) ++ take (out.room - length line) rest
      ≡ out.written ++ take out.room (line ++ rest)
written_more out line rest fits =
    append_assoc out.written (take out.room line) (take (out.room - length line) rest)
    ∙ ap (λ xs. out.written ++ xs) (sym (take-append out.room line rest))

nothing_written : (out : Writer) → out.written ≡ out.written ++ take out.room []
nothing_written out =
    rw (take-length_le {A = ℕ} out.room [] (omega arith)) (sym (append-nil out.written))

pub forward_events-messages :
    (k : Codec) (encode : Json → Str) (picks : List Pick) (out : Writer)
    → ((v : Json) → k.marshal v ≡ inr (encode v))
    → (forward_events k picks out).0.written
      ≡ out.written ++ take out.room (lines encode (messages k picks))
unfolding forward_events messages lines event_notification
forward_events-messages k encode [] out total = nothing_written out
forward_events-messages k encode (done ∷ picks) out total = nothing_written out
forward_events-messages k encode (closed ∷ picks) out total = nothing_written out
forward_events-messages k encode (event ev ∷ picks) out total =
    elim (Option-cases (message_payload k ev)) [
      | inl skipped ↦
          rw (skipped, forward_events, event_notification, messages)
            (forward_events-messages k encode picks out total)
      | inr (m, here) ↦
          (let v = message_frame m in
            let line = encode v ++ newline ∷ [] in
            let (written, room, ok) = write_raw-take k encode v out (total v) in
            elim (Option-cases (write_raw k v out).1) [
              | inl fine ↦
                  rw (here, fine, forward_events, event_notification, messages)
                    (forward_events-messages k encode picks (write_raw k v out).0 total
                      ∙ ap
                          (λ r.
                            (write_raw k v out).0.written
                            ++ take r (lines encode (messages k picks)))
                          room
                      ∙ ap
                          (λ xs.
                            xs ++ take (out.room - length line) (lines encode (messages k picks)))
                          written
                      ∙ written_more out line (lines encode (messages k picks))
                          (ground (arith, ok, fine)))
              | inr (e, failed) ↦
                  rw (here, failed, forward_events, event_notification, messages)
                    (written
                      ∙ ap (λ xs. out.written ++ xs)
                          (sym (
                            take-append_le out.room line (lines encode (messages k picks))
                              (ground (arith, ok, failed)))))
            ])
    ]

unfoldable pub frames : (Json → Str) → List Message → List Str
frames encode ms = map (λ m. encode (message_frame m)) ms

lines-written_lines :
    (encode : Json → Str) (ms : List Message) → lines encode ms ≡ written_lines (frames encode ms)
unfolding lines written_lines frames
lines-written_lines encode [] = refl
lines-written_lines encode (m ∷ ms) =
    append_assoc (encode (message_frame m)) (newline ∷ []) (lines encode ms)
    ∙ ap (λ xs. encode (message_frame m) ++ newline ∷ xs) (lines-written_lines encode ms)

-- A host that scans the shim's output for lines gets back exactly the frames of the messages, in their
-- order. The conditions are that the output takes them all and that the JSON of each is a line that
-- fits into the scanner's buffer.
pub scan-forward_events :
    (k : Codec) (encode : Json → Str) (picks : List Pick) (room max : ℕ)
    → ((v : Json) → k.marshal v ≡ inr (encode v))
    → length (lines encode (messages k picks)) ≤ room
    → 0 < max
    → All (IsLine max) (frames encode (messages k picks))
    → scan max (forward_events k picks (record { written = []; room = room })).0.written
      ≡ record { lines = frames encode (messages k picks); too_long = false }
scan-forward_events k encode picks room max total fits pos each =
    let ms = messages k picks in
    let bytes =
      forward_events-messages k encode picks (record { written = []; room = room }) total
      ∙ take-length_le room (lines encode ms) fits
      ∙ lines-written_lines encode ms in
    ap (scan max) bytes ∙ scan-written_lines max (frames encode ms) pos each
