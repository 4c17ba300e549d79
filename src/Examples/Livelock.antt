-- ===== src/Examples/Livelock.antt =====
-- The theorems on the livelock breaker, the token buckets and the configuration.
use claude_bridge.Base.{
  map, ◌≡◌, ◌↔◌, ◌≤◌, ◌+◌, ◌-◌, ◌*◌, ◌/◌, refl, inl, inr, [], ◌∷◌, arith, true,
}
use claude_bridge.Text.{text, ◌==◌}
use claude_bridge.Text.Order.{gtb}
use claude_bridge.Broker.Livelock.Body.{normalize_body_sound}
use claude_bridge.Text.Words.{fields, to_lower, is_space, fields_from, join, lower}
use claude_bridge.Dict.{keys_at, lookup, insert}
use claude_bridge.Broker.Clock.{since, second}
use claude_bridge.Broker.Message.{Message}
use claude_bridge.Broker.Bucket.Rate.{grants, grants_bounded}
use claude_bridge.Broker.Livelock.{LivelockTracker, pair_key, normalize_body, contains, trip, prune}
use claude_bridge.Broker.Livelock.PairKey.{IsNulFree}
use claude_bridge.Broker.Livelock.Prune.{trip-prune}
use claude_bridge.Broker.Livelock.Breaker.{echoes, start, reply, trip-echoes}
use claude_bridge.Examples.{plain, api, web, bucket}

abbrev tracker : LivelockTracker
tracker = record { enabled = true; max_chain = 1; reset_idle = 60 * second; pairs = [] }

abbrev thanks : Message
thanks = plain api web (text "Thanks")

abbrev echo : Message
echo = plain web api (text " thanks ")

abbrev once : LivelockTracker
once = (trip tracker thanks (1 * second)).0

abbrev twice : LivelockTracker
twice = (trip once echo (2 * second)).0

-- The third time is one repetition too many.
trip-echoes_example : (trip twice thanks (3 * second)).1 ≡ true
unfolding lookup pair_key gtb since normalize_body is_space fields_from join lower contains echoes
    ◌==◌
trip-echoes_example =
    trip-echoes {t = tracker} {u = twice} {key = pair_key api web} thanks (3 * second) refl
      (omega arith)
      (reply echo (2 * second) (reply thanks (1 * second) (start refl) refl (inl refl)) refl
        (inr (omega arith)))
      refl (inr (omega arith))

trip-prune_example :
    ((trip (prune once (30 * second)) echo (90 * second)).1 ≡ (trip once echo (90 * second)).1)
    × (lookup (pair_key web api) (trip (prune once (30 * second)) echo (90 * second)).0.pairs
        ≡ lookup (pair_key web api) (trip once echo (90 * second)).0.pairs)
unfolding trip insert keys_at
trip-prune_example =
    trip-prune once echo (30 * second) (90 * second) (refl, tt) (omega arith) refl (omega arith)

api-IsNulFree : IsNulFree api
api-IsNulFree = (λ e. omega arith, (λ e. omega arith, (λ e. omega arith, tt)))

web-IsNulFree : IsNulFree web
web-IsNulFree = (λ e. omega arith, (λ e. omega arith, (λ e. omega arith, tt)))

-- Four calls within eleven seconds.
grants_bounded_example :
    (grants (bucket 3) (96 * second ∷ 97 * second ∷ 98 * second ∷ 99 * second ∷ [])).1
    ≤ 3 + (106 * second - 95 * second) / (10 * second)
grants_bounded_example =
    grants_bounded (bucket 3) (96 * second ∷ 97 * second ∷ 98 * second ∷ 99 * second ∷ [])
      (106 * second) (record { paced = omega arith; within = omega arith; past = omega arith })
      (omega arith, (omega arith, (omega arith, (omega arith, tt))))

normalize_body_sound_example :
    (normalize_body (text "Thanks") ≡ normalize_body (text " thanks "))
    ↔ (map to_lower (fields (text "Thanks")) ≡ map to_lower (fields (text " thanks ")))
normalize_body_sound_example = normalize_body_sound (text "Thanks") (text " thanks ") refl refl
