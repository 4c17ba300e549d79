-- ===== src/Broker/Livelock/Body.antt =====
-- Which message bodies the breaker takes for the same.
use claude_bridge.Base.{Bool, true, ◌&&◌, ltb, [], ◌∷◌, ◌≡◌, ◌↔◌, sym, ap, ◌∙◌, map}
use claude_bridge.Text.{Str}
use claude_bridge.Text.Words.{fields, join, to_lower, fields-lower_join, to_lower-join}
use claude_bridge.Broker.Livelock.{normalize_body}

-- Every byte of the text is ASCII.
abbrev pub is_ascii : Str → Bool
is_ascii [] = true
is_ascii (c ∷ s) = ltb c 128 && is_ascii s

-- Two ASCII bodies are normalized to one text exactly if they have the same words in the same order, but
-- for white space around them and the case of letters.
pub normalize_body_sound :
    (s t : Str)
    → is_ascii s ≡ true
    → is_ascii t ≡ true
    → (normalize_body s ≡ normalize_body t) ↔ (map to_lower (fields s) ≡ map to_lower (fields t))
unfolding normalize_body
normalize_body_sound s t ascii_s ascii_t = (
  λ e. sym (fields-lower_join s) ∙ ap fields e ∙ fields-lower_join t,
  λ e. to_lower-join (fields s) ∙ ap join e ∙ sym (to_lower-join (fields t)),
)
